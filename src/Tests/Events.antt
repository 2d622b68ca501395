-- ===== src/Tests/Events.antt =====
-- What the thread that watches the directory reads.
use dropbox_simulator.Common.{
  ◌≡◌, refl, pos, Bytes, text, List, [], ◌∷◌, ◌++◌, length, replicate, concat, map, All, same, none,
  some, if◌then◌else◌, true, arith,
}
use dropbox_simulator.Thread.{diverges}
use dropbox_simulator.Wire.{from_le}
use dropbox_simulator.Box.Events.{event_loop, inotify, ready, timed_out}
use dropbox_simulator.Box.Events.Loop.{
  Event, EventFits, encode_event, handle_all, event_loop-handle_all, event_loop-diverges,
}
use dropbox_simulator.Box.Events.Propagation.{inotify-silent}
use dropbox_simulator.Client.{Local}
use dropbox_simulator.Tests.Commands.{notes, draft}
use dropbox_simulator.Tests.Clients.{phone_local}

-- A file is closed, and another one deleted; names are padded to 16 bytes.
abbrev seen : List Event
seen =
    record { wd = 1; mask = 8; cookie = 0; name = text "notes"; padding = replicate 10 0 }
    ∷ record { wd = 1; mask = 512; cookie = 0; name = text "plan"; padding = replicate 11 0 }
    ∷ []

seen-EventFits : All EventFits seen
seen-EventFits = (
  record { mask_fits = omega arith; length_fits = omega arith; name_ok = ground arith },
  (record { mask_fits = omega arith; length_fits = omega arith; name_ok = ground arith }, tt),
)

event_loop-handle_all_example :
    let buffer = concat (map encode_event seen) in
    event_loop 3 (pos 6) buffer (length buffer) 0 phone_local ≡ handle_all (pos 6) seen phone_local
event_loop-handle_all_example = event_loop-handle_all (pos 6) seen phone_local seen-EventFits

abbrev told : Local
told = record phone_local { instruction_source_is_server = true }

inotify-silent_example :
    inotify 3 (pos 6) (ready (concat (map encode_event seen)) ∷ timed_out ∷ []) told
    ≡ inotify 3 (pos 6) (timed_out ∷ []) phone_local
inotify-silent_example = inotify-silent (pos 6) seen (timed_out ∷ []) told seen-EventFits refl refl

abbrev pub writer : Local
writer = record phone_local {
  files = λ p. if same p (text "sync_dir/notes") then some draft else none;
}

pub draft_is_there : writer.files (text "sync_dir/" ++ notes) ≡ some draft
unfolding same
draft_is_there = refl

-- `IN_Q_OVERFLOW`: no name.
abbrev overflow : Bytes
overflow = replicate 4 0xff ++ (0 ∷ 0x40 ∷ replicate 10 0)

event_loop-diverges_example :
    event_loop 1000 (pos 6) overflow (length overflow) 0 phone_local ≡ (diverges, phone_local)
unfolding from_le
event_loop-diverges_example =
    event_loop-diverges 1000 (pos 6) overflow 0 phone_local (omega arith) refl
