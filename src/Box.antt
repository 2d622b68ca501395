-- ===== src/Box.antt =====
-- The client's program: its connections and its three threads (client-side/source/Box.cpp).
pub mod Events
pub mod Opening
pub mod Exits
pub mod Incoming
pub mod Saves
pub mod Interleaved
pub mod Synchronised
use dropbox_simulator.Common.{
  ℕ, zero, suc, ◌+◌, ◌%◌, ◌/◌, ◌^◌, ◌-◌, Bool, true, false, not, ◌&&◌, ℤ, pos, negsuc, int_eq,
  Bytes, text, c_string, same, List, [], ◌∷◌, ◌++◌, length, take, drop, replicate, ltb, ◌==◌,
  if◌then◌else◌, Option, none, some,
}
use dropbox_simulator.Thread.{
  Result, done, exits, blocks, faults, diverges, pure, pthread_exit, fault, diverge, gets, modifies,
  ◌>>=◌, ◌>>◌, Net,
}
use dropbox_simulator.Transfer.{client_read_large_payload}
use dropbox_simulator.Wire.{
  CommandPacket, Connection, command_size, encode_command, decode_command, strcpy, from_le,
}
use dropbox_simulator.Registry.{t1, t2, t3}
use dropbox_simulator.Server.{conn}
use dropbox_simulator.Server.Commands.{upload, delete, overlay, payload_size}
use dropbox_simulator.Instruction.{
  Instruction, prepare, reset, upload_id, download_id, delete_id, list_server_id, exit_id, space,
}
use dropbox_simulator.Client.{
  Local, Client, on_net, or_fault, accepted, refused, establish_connection_type, send_exit_command,
  list_server_files, read_data, write_file,
}
use dropbox_simulator.Operations.{upload_file, download_file, delete_file, set_filename, set_path}

-- `rand() % 10 + 1`
abbrev pub device_of_rand : ℕ → ℤ
device_of_rand r = pos (r % 10 + 1)

-- A `connection_t` of `open`; `strcpy` copies the user's name out of an array of the same size.
unfoldable pub new_connection : Bytes → ℕ → ℕ → ℤ → Client Connection
new_connection username socket_type rand sockfd = do
  memory ← gets (λ c. c.indeterminate)
  name ← or_fault (strcpy (memory 100) username)
  pure (record {
    packet_type = conn;
    socket_type = socket_type;
    device = device_of_rand rand;
    username = name;
    socket = sockfd;
    padding = memory 4;
  })

-- A thread on a connection of its own, and what becomes of it.
abbrev pub with_net : {A : Type 0} → Net → Result A × Local → Result (A × Net) × Local
with_net n (done a, c) = (done (a, c.net), record c { net = n })
with_net n (exits, c) = (exits, record c { net = n })
with_net n (blocks, c) = (blocks, record c { net = n })
with_net n (faults, c) = (faults, record c { net = n })
with_net n (diverges, c) = (diverges, record c { net = n })

abbrev pub on_connection : {A : Type 0} → Net → Client A → Client (A × Net)
on_connection n m c = with_net c.net (m (record c { net = n }))

-- One of the three connections of `open`.
unfoldable pub connect : Bytes → ℕ → ℕ → ℤ × Net → Client (ℤ × Net)
connect username rand socket_type (sockfd, net) = do
  connection ← new_connection username socket_type rand sockfd
  on_connection net (establish_connection_type sockfd connection)

-- `open`, up to the start of the threads: their connections, or `none` where none is started.
-- Only a refusal of the first connection makes it give up.
unfoldable pub open_box :
    Bytes → ℕ → ℤ × Net → ℤ × Net → ℤ × Net → Client (Option (Net × Net × Net))
open_box username rand first second third = do
  (code, net1) ← connect username rand t1 first
  if int_eq code refused then pure none else (do
    (code2, net2) ← connect username rand t2 second
    (code3, net3) ← connect username rand t3 third
    pure (some (net1, net2, net3)))

-- `line[0] = 'a'; scanf("%[^\n]", line); getchar();`: an empty line stores nothing.
unfoldable pub scan : Bytes → Bytes → Option Bytes
scan line [] = some (text "a" ++ drop 1 line)
scan line (b ∷ typed) = strcpy line (b ∷ typed)

-- What `strtok(line, " ")` leaves in the array: a NUL where the first token ends.
unfoldable pub cut_token : Bytes → Bytes
cut_token [] = []
cut_token (b ∷ bs) =
    let later = cut_token bs in if b == space then 0 ∷ bs else if b == 0 then b ∷ bs else b ∷ later

unfoldable pub cut_line : Bytes → Bytes
cut_line [] = []
cut_line (b ∷ bs) = if b == space then b ∷ cut_line bs else cut_token (b ∷ bs)

-- The `switch` of `th_func_monitor_console`. Its other cases print.
unfoldable pub perform : ℤ → ℤ → Client (Unit {0})
perform sockfd command_id =
    if int_eq command_id upload_id
    then upload_file sockfd
    else if int_eq command_id download_id
    then download_file sockfd
    else if int_eq command_id delete_id
    then delete_file sockfd
    else if int_eq command_id list_server_id
    then list_server_files sockfd
    else if int_eq command_id exit_id
    then send_exit_command sockfd
    else pure tt

-- `instruction.reset(); instruction.prepare(line);`
unfoldable pub parse_line : Bytes → Client (Unit {0})
parse_line line = do
  typed ← or_fault (c_string line)
  instruction ← or_fault (prepare typed reset)
  modifies (λ c. record c { instruction = instruction })

-- The body of the loop, from `reset` on.
unfoldable pub console_round : ℤ → Bytes → Client (Unit {0})
console_round sockfd line = do
  parse_line line
  instruction ← gets (λ c. c.instruction)
  perform sockfd instruction.command_id

-- `th_func_monitor_console`, for the lines that are typed; without another one it waits.
unfoldable pub monitor_console : ℤ → List Bytes → Bytes → Client (Unit {0})
monitor_console sockfd [] line c =
    if int_eq c.instruction.command_id exit_id
    then (done tt, record c { exit_command_typed = true })
    else (blocks, c)
monitor_console sockfd (typed ∷ later) line c =
    let rest = monitor_console sockfd later in
    if int_eq c.instruction.command_id exit_id
    then (done tt, record c { exit_command_typed = true })
    else ((or_fault (scan line typed) >>= λ scanned.
          console_round sockfd scanned >> rest (cut_line scanned))
        c)

abbrev pub sync_path : Bytes → Bytes
sync_path name = text "./sync_dir/" ++ name

-- `remove(path)`
unfoldable pub remove_file : Bytes → Client (Unit {0})
remove_file path = modifies λ c. record c { files = λ p. if same p path then none else c.files p }

-- The case of `UPLOAD` in `th_func_server_comm`.
unfoldable pub store_upload : CommandPacket → Client (Unit {0})
store_upload received = do
  name ← or_fault (c_string received.additional_info)
  memory ← gets (λ c. c.indeterminate)
  file_size_buffer ← read_data 8 (memory 8)
  size ← or_fault (payload_size file_size_buffer)
  bytes ← on_net (client_read_large_payload size)
  write_file (sync_path name) (overlay bytes (memory size))

-- The case of `DELETE`.
unfoldable pub remove_deleted : CommandPacket → Client (Unit {0})
remove_deleted received = do
  name ← or_fault (c_string received.additional_info)
  remove_file (sync_path name)

-- One round of the loop of `th_func_server_comm`; `old` is what the packet held before. The packet
-- is `commandReceived` afterwards.
unfoldable pub server_comm_round : CommandPacket → Client CommandPacket
server_comm_round old = do
  bytes ← on_net (client_read_large_payload command_size)
  let received = decode_command (overlay bytes (encode_command old))
  modifies (λ c. record c { instruction_source_is_server = true })
  if received.command == delete
      then remove_deleted received
      else if received.command == upload
      then store_upload received
      else pure tt
  pure (record received { command = 2 ^ 64 - 1; additional_info = replicate 100 0 })

-- `th_func_server_comm`
unfoldable pub server_comm : ℕ → CommandPacket → Client (Unit {0})
server_comm zero old = diverge
server_comm (suc rounds) old =
    let rest = server_comm rounds in
    (λ c. if c.exit_command_typed then (done tt, c) else (server_comm_round old >>= rest) c)
