-- ===== src/Server/Replica.antt =====
-- A backup server: what it does with the commands of the primary one
-- (server-side/source/Server.cpp:124-281), but for the election. The state is that of a server.
pub mod Mirror
pub mod Connections
pub mod Tables
pub mod Runs
pub mod Joining
use dropbox_simulator.Common.{
  ℕ, zero, suc, ℤ, int_eq, Bytes, c_string, ◌==◌, if◌then◌else◌, List, [], ◌∷◌, ◌++◌, text, Option,
  none, take, drop,
}
use dropbox_simulator.Thread.{pure, fault, diverge, gets, modifies, ◌>>=◌, ◌>>◌}
use dropbox_simulator.Transfer.{read_large_payload}
use dropbox_simulator.Wire.{
  CommandPacket, Connection, command_size, connection_size, decode_command, decode_connection,
  encode_connection, from_le, bits_int,
}
use dropbox_simulator.Server.{
  World, Server, on_net, on_users, or_fault, create_user_directory, send, server_conn, write_ack,
}
use dropbox_simulator.Server.Session.{
  insert_user_command, table_insert_user, table_insert_device, table_insert_socket,
}
use dropbox_simulator.Registry.{remove_device, success}
use dropbox_simulator.Server.Commands.{
  drop_user, upload, delete, exit, read_data, payload_size, write_file, remove_file,
  wait_for_socket_ack,
}

-- `handle_one_secondary_server`, on the primary server.
unfoldable pub handle_one_secondary_server : ℤ → Server (Unit {0})
handle_one_secondary_server socket = write_ack socket "ack"

-- `receiveFileUploadedFromPrimary`
unfoldable pub receive_file_uploaded_from_primary : CommandPacket → Server (Unit {0})
receive_file_uploaded_from_primary command = do
  size_bytes ← read_data 8
  size ← or_fault (payload_size size_bytes)
  payload ← on_net (read_large_payload size)
  complete_path ← or_fault (c_string command.additional_info)
  write_file complete_path payload

-- `deleteFileDeletedInPrimary`
unfoldable pub delete_file_deleted_in_primary : CommandPacket → Server (Unit {0})
delete_file_deleted_in_primary command = do
  complete_path ← or_fault (c_string command.additional_info)
  remove_file complete_path

-- `insertUserConnectedInPrimary`
unfoldable pub insert_user_connected_in_primary : Server (Unit {0})
insert_user_connected_in_primary = do
  bytes ← on_net (read_large_payload connection_size)
  let connection = decode_connection bytes
  user ← or_fault (c_string connection.username)
  create_user_directory user
  table_insert_user user
  table_insert_device user connection.device
  table_insert_socket user connection connection.socket

-- The text of a `std::string` whose memory came from another process: its pointer is one of that
-- process, and what is behind it here is undefined.
abbrev foreign_string : Bytes → Option Bytes
foreign_string memory = none

-- `receiveExitFromPrimary`: the 40 bytes that come are put over a `UserCurrentSocket`.
unfoldable pub receive_exit_from_primary : Server (Unit {0})
receive_exit_from_primary = do
  user ← on_net (read_large_payload 40)
  name ← or_fault (foreign_string (take 32 user))
  result ← on_users (remove_device name (bits_int (from_le (take 4 (drop 32 user)))))
  if int_eq result success then modifies (drop_user name) else pure tt

-- One round of the loop of `second_server_processing`.
unfoldable pub serve_primary : Server (Unit {0})
serve_primary = do
  bytes ← on_net (read_large_payload command_size)
  let command = decode_command bytes
  if command.command == upload
      then receive_file_uploaded_from_primary command
      else if command.command == delete
      then delete_file_deleted_in_primary command
      else if command.command == insert_user_command
      then insert_user_connected_in_primary
      else if command.command == exit
      then receive_exit_from_primary
      else pure tt

-- The loop, which ends only with the thread or by an election.
unfoldable pub serve_primary_loop : ℕ → Server (Unit {0})
serve_primary_loop zero = diverge
serve_primary_loop (suc rounds) = let rest = serve_primary_loop rounds in serve_primary >> rest

-- What is in the memory of a `connection_t` of which two members have been set.
abbrev pub greeting : ℤ → (ℕ → Bytes) → Connection
greeting id memory = record {
  packet_type = server_conn;
  socket_type = from_le (memory 8);
  device = id;
  username = memory 100;
  socket = bits_int (from_le (memory 4));
  padding = memory 4;
}

-- `second_server_processing`; `id` is `infoAsSecondary.my_id`.
unfoldable pub second_server_processing : ℕ → ℤ → ℤ → Server (Unit {0})
second_server_processing rounds id primary_socket = do
  memory ← gets (λ w. w.indeterminate)
  send primary_socket (encode_connection (greeting id memory))
  wait_for_socket_ack
  serve_primary_loop rounds
