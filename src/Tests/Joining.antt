-- ===== src/Tests/Joining.antt =====
-- A backup server greets the primary, Ana's phone uploads a file, and Bia's tablet comes.
use dropbox_simulator.Common.{
  ◌+◌, ◌≡◌, refl, sym, subst, ap, ◌∙◌, ℤ, pos, Bytes, text, same, List, [], ◌∷◌, ◌++◌, replicate,
  arith,
}
use dropbox_simulator.Registry.{count_devices}
use dropbox_simulator.Registry.Lookup.{devices_of, device_with}
use dropbox_simulator.Thread.{Answer, failed}
use dropbox_simulator.Wire.{encode_connection, from_le, bits_int}
use dropbox_simulator.Wire.Laws.{ConnectionFits}
use dropbox_simulator.Registry.{unused}
use dropbox_simulator.Server.{World}
use dropbox_simulator.Server.Backups.{server_sockets, free_servers}
use dropbox_simulator.Server.Session.{serve_connection}
use dropbox_simulator.Server.Session.Broadcast.{Steady, having_sent, sent_to}
use dropbox_simulator.Server.Session.Outcome.{IsRefused}
use dropbox_simulator.Server.Commands.{upload, file_path}
use dropbox_simulator.Server.Commands.Peers.{facing, peer_sockets}
use dropbox_simulator.Server.Commands.Upload.{
  uploading, upload_outbox, upload_file_command_lem, storing,
}
use dropbox_simulator.Server.Commands.Serving.{delivered}
use dropbox_simulator.Server.History.Locked.{dispatch-upload}
use dropbox_simulator.Server.Replica.{second_server_processing, serve_primary_loop, greeting}
use dropbox_simulator.Server.Replica.Runs.{
  written_to, Mirrors, Serves, connects, uploads, Runs, start, goes_on,
}
use dropbox_simulator.Server.Replica.Joining.{
  joined, joined_lem, registered, second_server_processing-Mirrors,
}
use dropbox_simulator.Tests.Tables.{ana, bia, busy-IsValid}
use dropbox_simulator.Tests.Sessions.{
  busy_world, busy_world-Steady, connection_of, bia_tablet-Admissible,
}
use dropbox_simulator.Tests.Commands.{session, both, notes, draft, packet, anas_devices}

-- A primary with one more slot for a server.
abbrev primary : World
primary = record busy_world {
  servers = record { id = pos 14; socket = pos 30 } ∷ record { id = unused; socket = unused } ∷ [];
}

primary-Steady : Steady primary
primary-Steady = record {
  whole_writes = busy_world-Steady.whole_writes;
  memory = busy_world-Steady.memory;
}

abbrev greeted : List Answer
greeted =
    delivered (sent_to (pos 5) (encode_connection (greeting (pos 2) busy_world.indeterminate)))
    ++ []

greeting_fits : ConnectionFits (greeting (pos 2) busy_world.indeterminate)
unfolding from_le bits_int
greeting_fits = record {
  type_fits = omega arith;
  socket_type_fits = omega arith;
  device_fits = omega arith;
  name_fits = refl;
  socket_fits = omega arith;
  padding_fits = refl;
}

abbrev with_backup : World
with_backup =
    having_sent ((pos 31, text "ack") ∷ []) (registered (pos 2) (pos 31) (facing [] primary))

with_backup-Steady : Steady with_backup
with_backup-Steady = record {
  whole_writes = busy_world-Steady.whole_writes;
  memory = busy_world-Steady.memory;
}

abbrev kind : Bytes
kind = replicate 8 2

abbrev with_notes : World
with_notes =
    having_sent (upload_outbox session notes draft kind [] both with_backup)
      (storing (file_path ana notes) draft (facing [] with_backup))

phone_uploads : Serves (pos 31) with_backup with_notes
unfolding peer_sockets
phone_uploads =
    let uploaded =
      dispatch-upload session (packet upload)
        (facing (uploading session notes draft kind []) with_backup) refl
      ∙ upload_file_command_lem session notes draft kind [] both with_backup with_backup-Steady
          (record { users_free = refl; servers_free = refl }) anas_devices (omega arith)
          (ground arith) (omega arith) (omega arith) (omega arith) refl in
    subst (Serves (pos 31) with_backup) (ap (λ r. r.1) uploaded) (
      uploads session (packet upload) notes draft kind [] both anas_devices (omega arith)
        (ground arith) (ground arith) (omega arith) (omega arith) (omega arith) refl refl refl
        (refl, tt))

abbrev with_tablet : World
with_tablet = (serve_connection (connection_of bia (pos 9)) (pos 22) with_notes).1

tablet_fits : ConnectionFits (connection_of bia (pos 9))
tablet_fits = record {
  type_fits = omega arith;
  socket_type_fits = omega arith;
  device_fits = omega arith;
  name_fits = refl;
  socket_fits = omega arith;
  padding_fits = refl;
}

tablet_comes : Serves (pos 31) with_notes with_tablet
unfolding same devices_of device_with count_devices
tablet_comes =
    connects bia (connection_of bia (pos 9)) (pos 22) bia_tablet-Admissible refl tablet_fits
      (omega arith) bia_has_room refl
  where
    bia_has_room : ¬ IsRefused bia (connection_of bia (pos 9)) with_notes
    bia_has_room h = ground arith

both_served : Runs (pos 31) 2 (joined (pos 31) greeted primary) with_tablet
both_served =
    subst (λ w. Runs (pos 31) 2 w with_tablet)
      (sym (
        joined_lem (pos 31) (pos 5) (greeting (pos 2) busy_world.indeterminate) [] primary
          primary-Steady greeting_fits refl refl))
      (goes_on phone_uploads (goes_on tablet_comes start))

second_server_processing-Mirrors_example :
    (ms : List (ℤ × Bytes)) × (c : World) × (with_tablet.net.outbox ≡ primary.net.outbox ++ ms)
    × (second_server_processing
          (2 + 5)
          (pos 2)
          (pos 5)
          (facing (delivered (written_to (pos 31) ms) ++ (failed ∷ [])) busy_world)
        ≡ serve_primary_loop 5 (facing (failed ∷ []) c))
    × Mirrors with_tablet c
unfolding server_sockets free_servers
second_server_processing-Mirrors_example =
    second_server_processing-Mirrors (pos 31) (pos 5) (pos 2) primary busy_world [] (failed ∷ []) 5
      primary-Steady (record { users_free = refl; servers_free = refl }) busy-IsValid (ground arith)
      (refl, tt) refl busy_world-Steady greeting_fits
      (record {
        same_tables = refl;
        same_files = refl;
        same_dirs = refl;
        same_writable = refl;
        backup_IsValid = busy-IsValid;
      })
      both_served
