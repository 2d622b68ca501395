-- ===== src/Server/Replica/Mirror.antt =====
-- What the primary server sends about a change, read by a backup server
-- (server-side/source/Server.cpp:935-964, 1038-1047, 1116-1122 and 142-167).
use dropbox_simulator.Common.{
  ℕ, suc, ◌≡◌, subst, ◌<◌, ◌^◌, refl, ◌∙◌, true, ℤ, Bytes, List, [], ◌∷◌, ◌++◌, length, ◌≤◌, drop,
  length-append, length-drop, NoNul, c_string-append_nul, arith,
}
use dropbox_simulator.Thread.{done, faults, Answer, got, after}
use dropbox_simulator.Transfer.{read_large_payload}
use dropbox_simulator.Transfer.Loops.{pieces, arriving}
use dropbox_simulator.Wire.{encode_command, to_le}
use dropbox_simulator.Wire.Laws.{CommandFits, decode_command-encode_command, length-to_le}
use dropbox_simulator.Server.Commands.{session_bytes}
use dropbox_simulator.Server.Commands.Removal.{length-session_bytes}
use dropbox_simulator.Server.{UserCurrentSocket, World, on_net}
use dropbox_simulator.Server.Session.Broadcast.{Steady, command_packet, sent_to}
use dropbox_simulator.Server.Commands.{upload, delete, remove_file}
use dropbox_simulator.Server.Commands.Peers.{
  facing, upload_messages, read_data_lem, read_payload_lem,
}
use dropbox_simulator.Server.Commands.Upload.{
  storing, or_fault_lem, payload_size-to_le, write_file_lem,
}
use dropbox_simulator.Server.Commands.Removal.{without, delete_messages, exit_messages, exit_packet}
use dropbox_simulator.Server.Commands.Serving.{
  delivered, delivered-append, delivered-addressed, read_command_lem,
}
use dropbox_simulator.Server.Replica.{
  serve_primary, receive_file_uploaded_from_primary, delete_file_deleted_in_primary,
  receive_exit_from_primary,
}

-- The packet that is made of a text is one.
pub command_packet-CommandFits :
    (code : ℕ) (info : Bytes) (w : World)
    → Steady w
    → code < 2 ^ 64
    → length info < 100
    → CommandFits (command_packet w code info)
command_packet-CommandFits code info w h small short = record {
  type_fits = omega arith;
  command_fits = small;
  info_fits =
      length-append info (0 ∷ drop (suc (length info)) (w.indeterminate 100))
      ∙ ground (arith, length-drop (suc (length info)) (w.indeterminate 100), h.memory 100);
  padding_fits = h.memory 4;
}

-- What a backup server is sent about an upload makes it store the same file at the same path, and
-- changes nothing else: `p` is the primary server, `b` the backup. (With the memory of the
-- primary as large as it is asked for, a path of less than 100 bytes without a NUL that the
-- backup's file system accepts, and a payload that is not empty and of less than 2 GB.)
pub serve_primary-upload :
    (path payload : Bytes) (socket : ℤ) (rest : List Answer) (p b : World)
    → Steady p
    → NoNul path
    → length path < 100
    → 0 < length payload
    → length payload < 2 ^ 31
    → b.writable path ≡ true
    → serve_primary (facing (delivered (upload_messages path payload p socket) ++ rest) b)
      ≡ (done tt, storing path payload (facing rest b))
unfolding serve_primary receive_file_uploaded_from_primary
serve_primary-upload path payload socket rest p b h named short some_bytes small writable =
    let c = command_packet p upload path in
    let fits = command_packet-CommandFits upload path p h (omega arith) short in
    let body = delivered (sent_to socket payload) ++ rest in
    let size : length (to_le 8 (length payload)) ≤ 8 =
      ground (arith, length-to_le 8 (length payload)) in
    rw
      (delivered-append (sent_to socket (encode_command c))
        (((socket, to_le 8 (length payload)) ∷ []) ++ sent_to socket payload) rest)
      (after _ (read_command_lem c socket (got (to_le 8 (length payload)) ∷ body) b fits) (
        rw (decode_command-encode_command c fits).0 (
          after _ (read_data_lem 7 (to_le 8 (length payload)) body b size) (
            after _ (or_fault_lem (payload_size-to_le (length payload) small)) (
              rw (delivered-addressed socket (pieces (suc (length payload)) payload)) (
                after _ (read_payload_lem payload rest b some_bytes small) (
                  after _ (or_fault_lem (c_string-append_nul path _ named))
                    (write_file_lem path payload (facing rest b) writable))))))))

-- What a backup server is sent about a deletion makes it delete the file at the same path, and
-- changes nothing else. (With the memory of the primary `p` as large as it is asked for, and a
-- path of less than 100 bytes without a NUL.)
pub serve_primary-delete :
    (path : Bytes) (socket : ℤ) (rest : List Answer) (p b : World)
    → Steady p
    → NoNul path
    → length path < 100
    → serve_primary (facing (delivered (delete_messages path p socket) ++ rest) b)
      ≡ (done tt, without path (facing rest b))
unfolding serve_primary delete_file_deleted_in_primary remove_file
serve_primary-delete path socket rest p b h named short =
    let c = command_packet p delete path in
    let fits = command_packet-CommandFits delete path p h (omega arith) short in
    after _ (read_command_lem c socket rest b fits) (
      rw (decode_command-encode_command c fits).0
        (after _ (or_fault_lem (c_string-append_nul path _ named)) refl))

-- What a backup server is sent about an exit makes it read through a pointer of another process:
-- the exit is not mirrored. (With the memory of the primary `p` as large as it is asked for.)
pub serve_primary-exit :
    (current : UserCurrentSocket) (socket : ℤ) (rest : List Answer) (p b : World)
    → Steady p
    → serve_primary (facing (delivered (exit_messages current p socket) ++ rest) b)
      ≡ (faults, facing rest b)
unfolding serve_primary receive_exit_from_primary
serve_primary-exit current socket rest p b h =
    let c = exit_packet p in
    let fits : CommandFits c = record {
      type_fits = omega arith;
      command_fits = omega arith;
      info_fits = h.memory 100;
      padding_fits = h.memory 4;
    } in
    let user = session_bytes current p in
    let sized = length-session_bytes current p h in
    let body = delivered (sent_to socket user) ++ rest in
    rw (delivered-append (sent_to socket (encode_command c)) (sent_to socket user) rest) (
      after _ (read_command_lem c socket body b fits) (
        rw (decode_command-encode_command c fits).0 (
          rw (delivered-addressed socket (pieces (suc (length user)) user)) (
            after _
              (subst
                (λ n.
                  on_net (read_large_payload n)
                    (facing (arriving (pieces (suc (length user)) user) ++ rest) b)
                  ≡ (done user, facing rest b))
                sized (read_payload_lem user rest b (omega (arith, sized)) (omega (arith, sized))))
              refl))))
