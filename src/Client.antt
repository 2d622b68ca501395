-- ===== src/Client.antt =====
-- The client's side of a connection (client-side/source/Client.cpp).
pub mod Sending
pub mod Uploads
pub mod Downloads
pub mod Replies
pub mod Exchange
pub mod Leftovers
pub mod Deletion
pub mod Listing
pub mod Requests
pub mod Session
use Prim.Native.String.{String}
use dropbox_simulator.Common.{
  ℕ, zero, suc, ◌^◌, ◌%◌, Bool, ℤ, pos, negsuc, Bytes, text, c_string, same, List, [], ◌∷◌, ◌++◌,
  length, take, drop, replicate, ltb, ◌==◌, ◌||◌, not, if◌then◌else◌, Option, none, some,
}
use dropbox_simulator.Thread.{Thread, pure, fault, gets, modifies, ◌>>=◌, ◌>>◌, Net, read, write}
use dropbox_simulator.Transfer.{send_large_payload, client_read_large_payload}
use dropbox_simulator.Wire.{
  CommandPacket, Connection, encode_command, encode_connection, strcpy, to_le, from_le,
}
use dropbox_simulator.Server.{cmd}
use dropbox_simulator.Server.Commands.{upload, download, delete, list_server, exit, overlay}
use dropbox_simulator.Instruction.{Instruction}

-- What the threads of a client share: `instruction` is the `static` member of `Box`, the two
-- Booleans are its globals. `net` is that of the thread's own connection.
pub record Local : Type 0 where
  pub net : Net
  pub files : Bytes → Option Bytes
  pub writable : Bytes → Bool
  pub indeterminate : ℕ → Bytes
  pub instruction : Instruction
  pub instruction_source_is_server : Bool
  pub exit_command_typed : Bool

abbrev pub Client : Type 0 → Type 0
Client = Thread Local

module _ {A : Type 0} where
  unfoldable pub on_net : Thread Net A → Client A
  on_net m c = let (r, n) = m c.net in (r, record c { net = n })

  abbrev pub or_fault : Option A → Client A
  or_fault none = fault
  or_fault (some a) = pure a

-- `sendLargePayloadToSocket`, the loop of which is that of the server's function of this name; no
-- caller looks at its result.
unfoldable pub send : ℤ → Bytes → Client (Unit {0})
send sockfd payload = on_net (send_large_payload sockfd payload) >> pure tt

-- `sendDataToSocket`; no caller but `send` looks at its result.
unfoldable pub send_data : ℤ → Bytes → Client (Unit {0})
send_data sockfd bs = on_net (write sockfd bs) >> pure tt

-- `waitForSocketAck`: one read, whatever it brings.
unfoldable pub wait_for_socket_ack : Client (Unit {0})
wait_for_socket_ack = on_net (read 8) >>= λ _. pure tt

-- `readDataFromSocket`, into a buffer that begins with `old`.
unfoldable pub read_data : ℕ → Bytes → Client Bytes
read_data n old = on_net (read n) >>= λ r. pure (elim r [ none ↦ old | some bs ↦ overlay bs old ])

-- `writeAckIntoSocket`
unfoldable pub write_ack : ℤ → String → Client (Unit {0})
write_ack sockfd message = on_net (write sockfd (text message)) >> pure tt

abbrev pub accepted : ℤ
accepted = pos 0

abbrev pub refused : ℤ
refused = negsuc 0

-- The ladder of `strcmp`s.
unfoldable pub response_code : Bytes → ℤ
response_code response =
    if same response (text "ack")
    then accepted
    else if same response (text "nack1")
    then refused
    else if same response (text "nack2")
    then refused
    else if same response (text "nack3")
    then refused
    else if same response (text "nack4")
    then refused
    else if same response (text "nack5")
    then refused
    else accepted

-- `establishConnectionType`
unfoldable pub establish_connection_type : ℤ → Connection → Client ℤ
establish_connection_type sockfd connection = do
  send sockfd (encode_connection connection)
  buffer ← read_data 100 (replicate 100 0)
  response ← or_fault (c_string buffer)
  pure (response_code response)

-- A command packet on the stack of which the text is not set.
unfoldable pub bare_command : ℕ → Client CommandPacket
bare_command code = do
  memory ← gets (λ c. c.indeterminate)
  pure (record {
    packet_type = cmd;
    command = code;
    additional_info = memory 100;
    padding = memory 4;
  })

-- One with `strcpy` into its text.
unfoldable pub named_command : ℕ → Bytes → Client CommandPacket
named_command code filename = do
  memory ← gets (λ c. c.indeterminate)
  additional_info ← or_fault (strcpy (memory 100) filename)
  pure (record {
    packet_type = cmd;
    command = code;
    additional_info = additional_info;
    padding = memory 4;
  })

-- A command and the acknowledgement that the server answers with.
unfoldable pub request : ℤ → CommandPacket → Client (Unit {0})
request sockfd command = do send sockfd (encode_command command); wait_for_socket_ack

-- `sendExitCommand`
unfoldable pub send_exit_command : ℤ → Client (Unit {0})
send_exit_command sockfd = do command ← bare_command exit; request sockfd command

-- `filePacket`; the pointers are the arrays that they point to.
pub record FilePacket : Type 0 where
  pub packet_type : ℕ
  pub file_size : ℕ
  pub file_name : Bytes
  pub payload : Bytes

-- `FILE`
abbrev pub file : ℕ
file = 2

-- The size of a content as an `int`. Where it is negative `malloc` fails, and what is copied goes
-- to a null pointer.
unfoldable pub int_size : ℕ → Option ℕ
int_size n = let size = n % 2 ^ 32 in if ltb size (2 ^ 31) then some size else none

-- `prepareFilePacket`. The array for the name has `size` bytes too.
unfoldable pub prepare_file_packet : Bytes → Bytes → Client FilePacket
prepare_file_packet filename file_content = do
  size ← or_fault (int_size (length file_content))
  memory ← gets (λ c. c.indeterminate)
  file_name ← or_fault (strcpy (memory size) filename)
  pure (record {
    packet_type = file;
    file_size = size;
    file_name = file_name;
    payload = file_content;
  })

-- `sendFilePacket`
unfoldable pub send_file_packet : ℤ → FilePacket → Client (Unit {0})
send_file_packet sockfd packet = do
  send_data sockfd (to_le 8 packet.packet_type)
  wait_for_socket_ack
  send_data sockfd (to_le 8 packet.file_size)
  wait_for_socket_ack
  name ← or_fault (c_string packet.file_name)
  send_data sockfd name
  wait_for_socket_ack
  send sockfd (take packet.file_size packet.payload)

-- `sendFile`; `size` is the length of the content at its only call.
unfoldable pub send_file : ℤ → Bytes → Bytes → Client (Unit {0})
send_file sockfd filename file_content = do
  command ← bare_command upload
  request sockfd command
  packet ← prepare_file_packet filename file_content
  send_file_packet sockfd packet

-- `deleteFile`
unfoldable pub delete_file : ℤ → Bytes → Client (Unit {0})
delete_file sockfd filename = do command ← named_command delete filename; request sockfd command

-- `ofstream file(path); file.write(...); file.close();`
unfoldable pub write_file : Bytes → Bytes → Client (Unit {0})
write_file path content = modifies λ c.
    if c.writable path
    then record c { files = λ p. if same p path then some content else c.files p }
    else c

-- `payloadSize <= 0`, for a `long` of those bits.
abbrev pub is_no_size : ℕ → Bool
is_no_size n = n == 0 || not (ltb n (2 ^ 63))

-- The end of `downloadFile`, from `payloadSize` on. What a short read leaves of the array was
-- never set.
unfoldable pub receive_file : ℤ → Bytes → ℕ → Client (Unit {0})
receive_file sockfd filename payload_size = if is_no_size payload_size then pure tt else (do
  write_ack sockfd "ack"
  memory ← gets (λ c. c.indeterminate)
  bytes ← on_net (client_read_large_payload payload_size)
  write_ack sockfd "ack"
  write_file (text "./" ++ filename) (overlay bytes (memory payload_size)))

-- `downloadFile`
unfoldable pub download_file : ℤ → Bytes → Client (Unit {0})
download_file sockfd filename = do
  command ← named_command download filename
  request sockfd command
  memory ← gets (λ c. c.indeterminate)
  file_size_buffer ← read_data 8 (memory 8)
  receive_file sockfd filename (from_le file_size_buffer)

-- `list_server`
unfoldable pub list_server_files : ℤ → Client (Unit {0})
list_server_files sockfd = do command ← bare_command list_server; request sockfd command
