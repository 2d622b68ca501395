-- ===== src/Box/Events.antt =====
-- The thread that watches the directory (client-side/source/Box.cpp:144-240).
pub mod Loop
pub mod Propagation
use dropbox_simulator.Common.{
  ℕ, zero, suc, ◌+◌, ◌%◌, ◌/◌, ◌^◌, Bool, true, false, not, ◌&&◌, ◌||◌, ℤ, Bytes, text, c_string,
  List, [], ◌∷◌, ◌++◌, length, take, drop, ltb, ◌==◌, if◌then◌else◌, Option, none, some,
}
use dropbox_simulator.Thread.{
  done, diverges, pure, pthread_exit, diverge, gets, modifies, ◌>>=◌, ◌>>◌,
}
use dropbox_simulator.Wire.{from_le}
use dropbox_simulator.Client.{Local, Client, or_fault}
use dropbox_simulator.Operations.{upload_file, delete_file, set_filename, set_path}

-- `MONITOR_SINGLE_EVENT_SIZE`: the four numbers of an `inotify_event`, of four bytes each.
abbrev pub monitor_single_event_size : ℕ
monitor_single_event_size = 16

-- `event->mask & (1 << k)`, which is not zero exactly if that bit is set.
abbrev pub has_bit : ℕ → ℕ → Bool
has_bit mask k = (mask / 2 ^ k) % 2 == 1

-- `IN_CLOSE_WRITE`, `IN_MOVED_FROM`, `IN_MOVED_TO` and `IN_DELETE` of Linux, as bits.
abbrev pub in_close_write : ℕ
in_close_write = 3

abbrev pub in_moved_from : ℕ
in_moved_from = 6

abbrev pub in_moved_to : ℕ
in_moved_to = 7

abbrev pub in_delete : ℕ
in_delete = 9

unfoldable pub starts_with : Bytes → Bytes → Bool
starts_with [] s = true
starts_with (p ∷ ps) [] = false
starts_with (p ∷ ps) (b ∷ bs) = p == b && starts_with ps bs

-- `event_name.find(part) != string::npos`
unfoldable pub contains : Bytes → Bytes → Bool
contains part [] = starts_with part []
contains part (b ∷ bs) = starts_with part (b ∷ bs) || contains part bs

-- `if (!instruction_source_is_server) { set_filename; set_path; ... }`, which stands in the code
-- once for each kind of event.
unfoldable pub propagate : Bytes → Client (Unit {0}) → Client (Unit {0})
propagate name action = do
  from_server ← gets (λ c. c.instruction_source_is_server)
  if from_server then pure tt else (do set_filename name; set_path (text "sync_dir/"); action)

-- The tests of one event's mask.
unfoldable pub handle_event : ℤ → ℕ → Bytes → Client (Unit {0})
handle_event sockfd mask name =
    if has_bit mask in_delete
    then propagate name (delete_file sockfd)
    else if has_bit mask in_close_write
    then propagate name (upload_file sockfd)
    else if has_bit mask in_moved_from
    then (if contains (text ".goutputstream-") name
        then pure tt
        else propagate name (delete_file sockfd))
    else if has_bit mask in_moved_to
    then propagate name (upload_file sockfd)
    else pure tt

-- The members of the event at the start of these bytes.
abbrev pub event_mask : Bytes → ℕ
event_mask bs = from_le (take 4 (drop 4 bs))

abbrev pub event_len : Bytes → ℕ
event_len bs = from_le (take 4 (drop 12 bs))

abbrev pub event_name : Bytes → Option Bytes
event_name bs = c_string (drop 16 bs)

-- `while (i < total_read)`: the index moves only past an event with a name.
unfoldable pub event_loop : ℕ → ℤ → Bytes → ℕ → ℕ → Client (Unit {0})
event_loop zero sockfd buffer total_read i = diverge
event_loop (suc fuel) sockfd buffer total_read i =
    let event = drop i buffer in
    let same = event_loop fuel sockfd buffer total_read i in
    let next =
      event_loop fuel sockfd buffer total_read
        (i + (monitor_single_event_size + event_len event)) in
    if ltb i total_read
    then (if event_len event == 0
        then same
        else (or_fault (event_name event) >>= λ name.
            handle_event sockfd (event_mask event) name >> next))
    else pure tt

-- What `poll` and the read after it find.
pub data Poll : Type 0 where
  timed_out : Poll
  ready : Bytes → Poll
  poll_failed read_failed : Poll

-- `th_func_inotify`, from the loop on, for as many polls as are given: with another one to come it
-- is not at its end. `exit(-1)` ends the process, and this thread with it.
unfoldable pub inotify : ℕ → ℤ → List Poll → Client (Unit {0})
inotify fuel sockfd [] c = if c.exit_command_typed then (done tt, c) else (diverges, c)
inotify fuel sockfd (poll ∷ later) c =
    let rest = inotify fuel sockfd later in
    if c.exit_command_typed then (done tt, c) else elim poll [
      | timed_out ↦ rest c
      | poll_failed ↦ pthread_exit c
      | read_failed ↦ pthread_exit c
      | ready buffer ↦
          (event_loop fuel sockfd buffer (length buffer) 0
              >> (modifies (λ d. record d { instruction_source_is_server = false }) >> rest))
            c
    ]
