-- ===== src/Server/Session.antt =====
-- What happens on a new connection (server-side/source/Server.cpp:16-71 and 808-897).
pub mod Broadcast
pub mod Handshake
pub mod Outcome
pub mod Lock
use Prim.Native.String.{String}
use dropbox_simulator.Common.{
  ℕ, Bool, true, false, ◌%◌, ◌^◌, ℤ, pos, int_eq, Bytes, text, c_string, List, [], ◌∷◌, ◌==◌,
  if◌then◌else◌,
}
use dropbox_simulator.Registry.{
  error, success, max_users_reached, user_already_connected, max_devices_reached,
  device_already_connected, insert_user, insert_device, insert_socket, is_device_connected,
  remove_user, defined, Checked, t1, t2, Users,
}
use dropbox_simulator.Registry
use dropbox_simulator.Thread.{pure, pthread_exit, fault, gets, modifies, ◌>>=◌, ◌>>◌}
use dropbox_simulator.Transfer.{read_large_payload}
use dropbox_simulator.Wire.{
  Connection, CommandPacket, connection_size, decode_connection, encode_connection, encode_command,
}
use dropbox_simulator.Server.{
  World, Server, on_net, on_users, or_fault, wait_users, post_users, wait_servers, post_servers,
  write_ack, send, new_command, create_user_directory, conn, server_conn, Spawn, UserCurrentSocket,
}
use dropbox_simulator.Server.Backups.{for_each_server, insert_server}

abbrev pub insert_user_command : ℕ
insert_user_command = 5

-- A `uint64_t` passed as an `int`, as far as the `switch` of `insert_socket` can tell.
abbrev pub socket_type_arg : ℕ → ℕ
socket_type_arg n = n % 2 ^ 32

-- What one backup server is sent about a connection.
unfoldable pub forward_connection : Connection → ℤ → Server (Unit {0})
forward_connection connection socket = do
  command ← new_command insert_user_command (text "stringteste")
  send socket (encode_command command)
  send socket (encode_connection connection)

-- The loop over the backup servers, which stands in the code once for each way to be accepted.
unfoldable pub announce : Connection → Server (Unit {0})
announce connection w = for_each_server (forward_connection connection) w.servers w

abbrev pub table_insert_user : Bytes → Server ℤ
table_insert_user user = on_users λ us. defined (insert_user user us)

abbrev pub table_insert_device : Bytes → ℤ → Server ℤ
table_insert_device user device = on_users (insert_device user device)

abbrev pub table_insert_socket : Bytes → Connection → ℤ → Server (Unit {0})
table_insert_socket user connection socket = on_users λ us.
    Registry.◌>>=◌
      (insert_socket user connection.device socket (socket_type_arg connection.socket_type) us)
      (λ vs. defined (tt, vs))

-- The three lines and the loop that end each accepting branch.
unfoldable pub accept : Bytes → Connection → ℤ → Server (Unit {0})
accept user connection socket = do
  table_insert_socket user connection socket
  write_ack socket "ack"
  announce connection

unfoldable pub reject : ℤ → String → Server (Unit {0})
reject socket message = do write_ack socket message; pthread_exit

-- The branch of `handle_user_controller_structure` for a user who is in the table.
unfoldable pub handle_known_user : Bytes → Connection → ℤ → Server (Unit {0})
handle_known_user user connection socket = do
  result ← table_insert_device user connection.device
  if int_eq result max_devices_reached
      then reject socket "nack3"
      else if int_eq result device_already_connected
      then accept user connection socket
      else if int_eq result success
      then accept user connection socket
      else pure tt

-- `if (is_device_connected(user) == false) remove_user(user);`
abbrev pub withdraw : Bytes → World → World
withdraw user w =
    if int_eq (is_device_connected user w.users) (pos 0)
    then record w { users = remove_user user w.users }
    else w

-- The branch for a user who has just been inserted. The code tests the result of `insert_user`
-- once more where it may have meant that of `insert_device`.
unfoldable pub handle_new_user : Bytes → Connection → ℤ → Server (Unit {0})
handle_new_user user connection socket = do
  result ← table_insert_device user connection.device
  if int_eq result error
      then (do write_ack socket "nack5"; modifies (withdraw user); pthread_exit)
      else accept user connection socket

-- `handle_user_controller_structure`
unfoldable pub handle_user_controller_structure : Connection → ℤ → Server (Unit {0})
handle_user_controller_structure connection socket = do
  user ← or_fault (c_string connection.username)
  result ← table_insert_user user
  if int_eq result error
      then reject socket "nack1"
      else if int_eq result max_users_reached
      then reject socket "nack2"
      else if int_eq result user_already_connected
      then handle_known_user user connection socket
      else if int_eq result success
      then handle_new_user user connection socket
      else pure tt

abbrev start : Spawn → Server (Unit {0})
start thread = modifies λ w. record w { spawned = thread ∷ w.spawned }

-- The part of `mediatorThread` that follows the critical section.
unfoldable pub start_session : Connection → ℤ → Server (Unit {0})
start_session connection socket = do
  user ← or_fault (c_string connection.username)
  create_user_directory user
  let current : UserCurrentSocket = record {
    user_name = user;
    current_device = connection.device;
    current_socket = socket;
  }
  if connection.packet_type == conn
      then (if connection.socket_type == t1
          then start (Spawn.terminal current)
          else if connection.socket_type == t2
          then start (Spawn.inotify current)
          else pure tt)
      else pthread_exit

-- `mediatorThread`, on a socket that `accept` has returned.
unfoldable pub serve_connection : Connection → ℤ → Server (Unit {0})
serve_connection connection socket =
    if connection.packet_type == server_conn
    then (do
      wait_servers
      modifies (λ w. record w { servers = (insert_server connection.device socket w.servers).1 })
      post_servers
      start (Spawn.secondary connection.device socket))
    else (do
      wait_users
      handle_user_controller_structure connection socket
      post_users
      start_session connection socket)

unfoldable pub mediator_thread : ℤ → Server (Unit {0})
mediator_thread socket = do
  bytes ← on_net (read_large_payload connection_size)
  serve_connection (decode_connection bytes) socket
