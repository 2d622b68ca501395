-- ===== src/Box/Incoming.antt =====
-- What a client's third connection brings: what the server forwards to the other devices of a user
-- (client-side/source/Box.cpp:242-287 and server-side/source/Server.cpp:899-1050).
use dropbox_simulator.Common.{
  ◌-◌, suc, ◌≡◌, ◌<◌, ◌^◌, refl, ap, subst, ◌∙◌, true, ℤ, Bytes, List, [], ◌∷◌, ◌++◌, length,
  replicate, drop, NoNul, c_string-append_nul, c_string, same, if◌then◌else◌, none, some, arith,
}
use dropbox_simulator.Thread.{done, Answer, got, after}
use dropbox_simulator.Transfer.{client_read_large_payload}
use dropbox_simulator.Transfer.Loops.{pieces, arriving}
use dropbox_simulator.Wire.{CommandPacket, encode_command, decode_command, command_size, to_le}
use dropbox_simulator.Wire.Laws.{CommandFits, decode_command-encode_command, length-to_le}
use dropbox_simulator.Server.{World}
use dropbox_simulator.Server.Session.Broadcast.{Steady, sent_to, command_packet}
use dropbox_simulator.Server.Commands.{upload, delete, overlay, payload_size}
use dropbox_simulator.Server.Commands.Peers.{upload_messages}
use dropbox_simulator.Server.Commands.Upload.{payload_size-to_le}
use dropbox_simulator.Server.Commands.Serving.{delivered, delivered-append, delivered-addressed}
use dropbox_simulator.Server.Replica.Mirror.{command_packet-CommandFits}
use dropbox_simulator.Client.{Local, on_net, write_file}
use dropbox_simulator.Client.Sending.{Reliable, meeting, or_fault_lem, read_data_lem}
use dropbox_simulator.Client.Downloads.{keeping, overlay_whole, read_payload_lem, write_file_lem}
use dropbox_simulator.Box.{server_comm_round, store_upload, remove_deleted, remove_file, sync_path}

-- The client at work for the server.
abbrev pub following : Local → Local
following c = record c { instruction_source_is_server = true }

-- Its directory without a file.
abbrev pub lacking : Bytes → Local → Local
lacking path c = record c { files = λ p. if same p path then none else c.files p }

-- The packet after its round.
abbrev pub spent : CommandPacket → CommandPacket
spent command = record command { command = 2 ^ 64 - 1; additional_info = replicate 100 0 }

-- A packet that is filled whole is the one that was sent.
receive_command_lem :
    (command old : CommandPacket) (socket : ℤ) (rest : List Answer) (c : Local)
    → CommandFits command
    → length (encode_command old) ≡ 120
    → on_net
        (client_read_large_payload command_size)
        (meeting (delivered (sent_to socket (encode_command command)) ++ rest) c)
      ≡ (done (encode_command command), meeting rest c)
receive_command_lem command old socket rest c fits sized =
    let size : length (encode_command command) ≡ 120 =
      (decode_command-encode_command command fits).1 in
    rw
      (delivered-addressed socket
        (pieces (suc (length (encode_command command))) (encode_command command)))
      (subst
        (λ n.
          on_net (client_read_large_payload n) (
            meeting
              (arriving (pieces (suc (length (encode_command command))) (encode_command command))
                ++ rest)
              c)
          ≡ (done (encode_command command), meeting rest c))
        size
        (read_payload_lem (encode_command command) rest c (omega (arith, size))
          (omega (arith, size))))

-- What the packet holds once a command has arrived.
overlay_command :
    (command old : CommandPacket)
    → CommandFits command
    → length (encode_command old) ≡ 120
    → decode_command (overlay (encode_command command) (encode_command old)) ≡ command
overlay_command command old fits sized =
    let e = decode_command-encode_command command fits in
    ap decode_command
      (overlay_whole (encode_command command) (encode_command old) (omega (arith, e.1, sized)))
    ∙ e.0

store_upload_lem :
    (command : CommandPacket) (name payload : Bytes) (rest : List Answer) (c : Local)
    → c_string command.additional_info ≡ some name
    → Reliable c
    → 0 < length payload
    → length payload < 2 ^ 31
    → c.writable (sync_path name) ≡ true
    → store_upload command (
        meeting
          (got (to_le 8 (length payload))
            ∷ (arriving (pieces (suc (length payload)) payload) ++ rest))
          c)
      ≡ (done tt, keeping (sync_path name) payload (meeting rest c))
unfolding store_upload
store_upload_lem command name payload rest c is_name h some_bytes small writable =
    let eight = length-to_le 8 (length payload) in
    let body = arriving (pieces (suc (length payload)) payload) ++ rest in
    let whole =
      overlay_whole (to_le 8 (length payload)) (c.indeterminate 8)
        (omega (arith, eight, h.memory 8)) in
    after _ (or_fault_lem is_name) (
      after _
        (read_data_lem 7 (to_le 8 (length payload)) (c.indeterminate 8) body c
          (omega (arith, eight)))
        (after _ (or_fault_lem (ap payload_size whole ∙ payload_size-to_le (length payload) small))
          (after _ (read_payload_lem payload rest c some_bytes small) (
            ap (λ b. write_file (sync_path name) b (meeting rest c))
              (overlay_whole payload (c.indeterminate (length payload))
                (omega (arith, h.memory (length payload))))
            ∙ write_file_lem (sync_path name) payload (meeting rest c) writable))))

module _ (socket : ℤ) (old : CommandPacket) (rest : List Answer) (c : Local)
    (sized : length (encode_command old) ≡ 120) where
  -- What the server `w` forwards of an upload makes the other client store the same bytes under
  -- the same name in its directory, mark the change as the server's, and be ready for the next
  -- command; nothing else of the client changes. (With memory as large as it is asked for on both
  -- sides, a name of less than 100 bytes without a NUL that the file system accepts, a payload
  -- that is not empty and of less than 2 GB, and a packet of 120 bytes that held any command.)
  pub server_comm_round-upload :
      (name payload : Bytes) (w : World)
      → Steady w
      → Reliable c
      → NoNul name
      → length name < 100
      → 0 < length payload
      → length payload < 2 ^ 31
      → c.writable (sync_path name) ≡ true
      → server_comm_round old
          (meeting (delivered (upload_messages name payload w socket) ++ rest) c)
        ≡ (
          done (spent (command_packet w upload name)),
          keeping (sync_path name) payload (following (meeting rest c)),
        )
  unfolding server_comm_round
  server_comm_round-upload name payload w h hc named short some_bytes small writable =
      let command = command_packet w upload name in
      let fits = command_packet-CommandFits upload name w h (omega arith) short in
      let size : List (ℤ × Bytes) = (socket, to_le 8 (length payload)) ∷ [] in
      let is_name =
        c_string-append_nul name (drop (suc (length name)) (w.indeterminate 100)) named in
      rw
        (
          delivered-append (sent_to socket (encode_command command))
              (size ++ sent_to socket payload) rest,
          delivered-addressed socket (pieces (suc (length payload)) payload),
        )
        (after _
          (receive_command_lem command old socket
            (got (to_le 8 (length payload))
              ∷ (arriving (pieces (suc (length payload)) payload) ++ rest))
            c fits sized)
          (rw (overlay_command command old fits sized) (
            after _
              (store_upload_lem command name payload rest (following c) is_name
                (record { whole_writes = hc.whole_writes; memory = hc.memory }) some_bytes small
                writable)
              refl)))

  -- A deletion that the server forwards makes the other client delete the file of that name from
  -- its directory and mark the change as the server's; nothing else of it changes. (With a packet
  -- of the deletion that fits and holds a name, and a packet of 120 bytes that held any command.)
  pub server_comm_round-delete :
      (command : CommandPacket) (name : Bytes)
      → CommandFits command
      → command.command ≡ delete
      → c_string command.additional_info ≡ some name
      → server_comm_round old
          (meeting (delivered (sent_to socket (encode_command command)) ++ rest) c)
        ≡ (done (spent command), lacking (sync_path name) (following (meeting rest c)))
  unfolding server_comm_round remove_deleted remove_file
  server_comm_round-delete command name fits is_delete is_name =
      after _ (receive_command_lem command old socket rest c fits sized) (
        rw (overlay_command command old fits sized)
          (rw is_delete (after _ (after _ (or_fault_lem is_name) refl) refl)))
