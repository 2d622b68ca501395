-- ===== src/Server/Commands.antt =====
-- The commands of a client (server-side/source/Server.cpp:899-1206, but for `listServerCommand`).
pub mod Peers
pub mod Propagation
pub mod Upload
pub mod Download
pub mod Removal
pub mod Serving
pub mod Listing
use mathlib.Core.Option
use dropbox_simulator.Common.{
  ℕ, zero, suc, Bool, true, false, not, ◌&&◌, ℤ, pos, negsuc, int_eq, Bytes, text, c_string, same,
  List, [], ◌∷◌, ◌++◌, length, get_elem?, take, drop, replicate, leb, ltb, ◌==◌, if◌then◌else◌,
  Option, none, some,
}
use dropbox_simulator.Registry.{
  Device, Users, unused, success, get_user, devices_at, get_device, remove_device, remove_user,
  is_device_connected, is_truthy, defined, Checked,
}
use dropbox_simulator.Registry
use dropbox_simulator.Registry.Lookup.{devices_of}
use dropbox_simulator.Thread.{
  pure, pthread_exit, fault, diverge, gets, modifies, ◌>>=◌, ◌>>◌, read, write,
}
use dropbox_simulator.Transfer.{read_large_payload}
use dropbox_simulator.Wire.{
  CommandPacket, encode_command, decode_command, command_size, to_le, from_le, bits_int, int_bits,
}
use dropbox_simulator.Server.{
  World, Server, UserCurrentSocket, on_net, on_users, or_fault, wait_users, post_users,
  wait_servers, post_servers, write_ack, send, new_command, database_dir, slash, cmd,
}
use dropbox_simulator.Server.Backups.{for_each_server}

abbrev pub upload : ℕ
upload = 2

abbrev pub download : ℕ
download = 3

abbrev pub delete : ℕ
delete = 4

abbrev pub list_server : ℕ
list_server = 5

abbrev pub exit : ℕ
exit = 8

-- `readDataFromSocket`: one read into a buffer, which an error leaves as it was.
unfoldable pub read_data : ℕ → Server Bytes
read_data n = on_net (read n) >>= λ r. pure (elim r [ none ↦ [] | some bs ↦ bs ])

-- `waitForSocketAck`
unfoldable pub wait_for_socket_ack : Server (Unit {0})
wait_for_socket_ack = on_net (read 8) >>= λ _. pure tt

-- `sendDataToSocket`; no caller looks at its result.
unfoldable pub send_data : ℤ → Bytes → Server (Unit {0})
send_data socket bs = on_net (write socket bs) >> pure tt

-- Bytes read into an array that begins with `old`.
abbrev pub overlay : Bytes → Bytes → Bytes
overlay bs old = bs ++ drop (length bs) old

-- `uint64_t payloadSize = *(int *) fileSizeBuffer`, where the buffer was not initialised; a
-- negative size is no size for the array that is declared next.
unfoldable pub payload_size : Bytes → Option ℕ
payload_size bs =
    if leb 4 (length bs)
    then elim (bits_int (from_le (take 4 bs))) [ pos n ↦ some n | negsuc n ↦ none ]
    else none

-- The path of a user's file.
abbrev pub file_path : Bytes → Bytes → Bytes
file_path user name = database_dir ++ (slash ++ (user ++ (slash ++ name)))

-- `ofstream file(path); file.write(...); file.close();`
unfoldable pub write_file : Bytes → Bytes → Server (Unit {0})
write_file path content = modifies λ w.
    if w.writable path
    then record w { files = λ p. if same p path then some content else w.files p }
    else w

-- `remove(path)`; no caller does more than print its result.
unfoldable pub remove_file : Bytes → Server (Unit {0})
remove_file path = modifies λ w. record w { files = λ p. if same p path then none else w.files p }

-- The test of the loops over a user's devices.
abbrev pub is_peer : UserCurrentSocket → Device → Bool
is_peer current d =
    not (int_eq d.id unused)
    && (not (int_eq current.current_socket d.socket2) && not (int_eq current.current_device d.id))

-- A loop over the user's other devices, which sends on their third sockets.
unfoldable pub for_each_peer :
    UserCurrentSocket → (ℤ → Server (Unit {0})) → List Device → Server (Unit {0})
for_each_peer current body [] = pure tt
for_each_peer current body (d ∷ ds) =
    let rest = for_each_peer current body ds in
    if is_peer current d then (body d.socket3 >> rest) else rest

-- `user_pointer->devices` for the user of the session; null for one who is not in the table.
unfoldable pub devices_of_user : Bytes → Server (List Device)
devices_of_user user w = or_fault (Option.map (devices_at w.users) (get_user user w.users)) w

-- What one socket is sent about an upload.
unfoldable pub forward_upload : Bytes → Bytes → ℤ → Server (Unit {0})
forward_upload info payload socket = do
  command ← new_command upload info
  send socket (encode_command command)
  send_data socket (to_le 8 (length payload))
  send socket payload

-- The two critical sections of `uploadFileCommand`.
unfoldable pub propagate_upload : UserCurrentSocket → Bytes → Bytes → Server (Unit {0})
propagate_upload current name payload = do
  wait_users
  devices ← devices_of_user current.user_name
  for_each_peer current (forward_upload name payload) devices
  post_users
  wait_servers
  servers ← gets (λ w. w.servers)
  for_each_server (forward_upload (file_path current.user_name name) payload) servers
  post_servers

-- `uploadFileCommand`
unfoldable pub upload_file_command : UserCurrentSocket → Server (Unit {0})
upload_file_command current = do
  packet_type ← read_data 8
  write_ack current.current_socket "ack"
  size_bytes ← read_data 8
  write_ack current.current_socket "ack"
  name_bytes ← read_data 100
  write_ack current.current_socket "ack"
  size ← or_fault (payload_size size_bytes)
  payload ← on_net (read_large_payload size)
  write_ack current.current_socket "ack"
  name ← or_fault (c_string (overlay name_bytes (replicate 99 0)))
  write_file (file_path current.user_name name) payload
  propagate_upload current name payload

-- `downloadFileCommand`. For a file that is not there it sends six bytes that were never set.
unfoldable pub download_file_command : UserCurrentSocket → CommandPacket → Server (Unit {0})
download_file_command current command = do
  name ← or_fault (c_string command.additional_info)
  content ← gets (λ w. w.files (file_path current.user_name name))
  elim content [
    | some bytes ↦ do
      send_data current.current_socket (to_le 8 (length bytes))
      wait_for_socket_ack
      send current.current_socket bytes
      wait_for_socket_ack
    | none ↦ do memory ← gets (λ w. w.indeterminate); send_data current.current_socket (memory 6)
  ]

-- What one backup server is sent about a deletion.
unfoldable pub forward_delete : Bytes → ℤ → Server (Unit {0})
forward_delete path socket = do
  command ← new_command delete path
  send socket (encode_command command)

-- The two critical sections of `deleteFileCommand`.
unfoldable pub propagate_delete : UserCurrentSocket → CommandPacket → Bytes → Server (Unit {0})
propagate_delete current command path = do
  wait_users
  devices ← devices_of_user current.user_name
  for_each_peer current (λ socket. send socket (encode_command command)) devices
  post_users
  wait_servers
  servers ← gets (λ w. w.servers)
  for_each_server (forward_delete path) servers
  post_servers

-- `deleteFileCommand`
unfoldable pub delete_file_command : UserCurrentSocket → CommandPacket → Server (Unit {0})
delete_file_command current command = do
  name ← or_fault (c_string command.additional_info)
  let path = file_path current.user_name name
  remove_file path
  propagate_delete current command path

-- `close` on the three sockets of a device.
abbrev pub close_sockets : Device → World → World
close_sockets d w = record w { closed = d.socket1 ∷ d.socket2 ∷ d.socket3 ∷ w.closed }

-- The memory of a `UserCurrentSocket`: a `std::string`, of which the bytes are a pointer and what
-- the library keeps with it, and the two numbers.
abbrev pub session_bytes : UserCurrentSocket → World → Bytes
session_bytes current w =
    w.indeterminate 32
    ++ (to_le 4 (int_bits current.current_device) ++ to_le 4 (int_bits current.current_socket))

-- What one backup server is sent about an exit: a packet whose text was never set, and the memory
-- of the `UserCurrentSocket`, 40 bytes of which the `std::string` has the first 32.
unfoldable pub forward_exit : UserCurrentSocket → ℤ → Server (Unit {0})
forward_exit current socket = do
  memory ← gets (λ w. w.indeterminate)
  send socket (
      encode_command (record {
        packet_type = cmd;
        command = exit;
        additional_info = memory 100;
        padding = memory 4;
      }))
  world ← gets (λ w. w)
  send socket (session_bytes current world)

-- The device that `get_device` points to.
abbrev pub device_at : Users → ℕ × ℕ → Option Device
device_at us (i, j) = get_elem? (devices_at us i) j

-- `if (!is_device_connected(userName)) remove_user(userName);`
abbrev pub drop_user : Bytes → World → World
drop_user user w =
    if is_truthy (is_device_connected user w.users)
    then w
    else record w { users = remove_user user w.users }

-- `get_device`, dereferenced for its three sockets.
unfoldable pub close_device : UserCurrentSocket → Server (Unit {0})
close_device current w =
    (on_users (λ us.
          Registry.◌>>=◌ (get_device current.current_device current.user_name us)
            (λ p. defined (p, us)))
        >>= λ found. elim found [
          | none ↦ fault
          | some p ↦ elim (device_at w.users p) [
            | none ↦ fault
            | some d ↦ modifies (close_sockets d)
          ]
        ])
      w

-- `exitCommand`
unfoldable pub exit_command : UserCurrentSocket → Server (Unit {0})
exit_command current = do
  close_device current
  result ← on_users (remove_device current.user_name current.current_device)
  if int_eq result success
      then (do
        modifies (drop_user current.user_name)
        servers ← gets (λ w. w.servers)
        for_each_server (forward_exit current) servers)
      else pure tt

-- The tests of the command in the loop of `terminalThreadFunction` and `iNotifyThreadFunction`.
-- Nothing of what `listServerCommand` does shows outside the terminal of the server.
unfoldable pub dispatch : UserCurrentSocket → CommandPacket → Server (Unit {0})
dispatch current command =
    if command.command == upload
    then upload_file_command current
    else if command.command == download
    then download_file_command current command
    else if command.command == delete
    then delete_file_command current command
    else if command.command == exit
    then (do wait_users; exit_command current; post_users; pthread_exit)
    else pure tt

-- One round of that loop.
unfoldable pub serve_command : UserCurrentSocket → Server (Unit {0})
serve_command current = do
  bytes ← on_net (read_large_payload command_size)
  write_ack current.current_socket "ack"
  dispatch current (decode_command bytes)

-- `terminalThreadFunction`: the loop ends only with the thread.
unfoldable pub terminal_thread_function : ℕ → UserCurrentSocket → Server (Unit {0})
terminal_thread_function zero current = diverge
terminal_thread_function (suc rounds) current =
    let rest = terminal_thread_function rounds current in serve_command current >> rest
