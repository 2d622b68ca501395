-- ===== src/Client/Exchange.antt =====
-- Both sides of a connection: what the client writes (client-side/source/Client.cpp) is what the
-- thread that serves its socket reads (server-side/source/Server.cpp:899-1167), and the other way
-- round.
use dropbox_simulator.Common.{
  suc, ◌≡◌, ◌<◌, ◌^◌, ap, ◌∙◌, true, ℤ, Bytes, text, List, [], ◌∷◌, ◌++◌, length, NoNul, some,
  arith,
}
use dropbox_simulator.Registry.{Device}
use dropbox_simulator.Registry.Lookup.{devices_of}
use dropbox_simulator.Thread.{done, Answer, got}
use dropbox_simulator.Transfer.Loops.{pieces}
use dropbox_simulator.Wire.{encode_command, to_le}
use dropbox_simulator.Wire.Laws.{length-to_le}
use dropbox_simulator.Server.{World, UserCurrentSocket}
use dropbox_simulator.Server.Session.Broadcast.{Steady, having_sent, having_sent_twice, sent_to}
use dropbox_simulator.Server.Commands.{upload, serve_command, dispatch, file_path}
use dropbox_simulator.Server.Commands.Peers.{facing, having_sent-Steady}
use dropbox_simulator.Server.Commands.Propagation.{Unlocked}
use dropbox_simulator.Server.Commands.Upload.{ack, upload_outbox, storing, upload_file_command_lem}
use dropbox_simulator.Server.Commands.Serving.{
  delivered, delivered-append, delivered-addressed, serve_command_lem,
}
use dropbox_simulator.Client.{Local, file, send_file}
use dropbox_simulator.Client.Sending.{
  Reliable, writing, meeting, bare_packet, bare_packet-CommandFits,
}
use dropbox_simulator.Client.Uploads.{upload_stream, file_messages, send_file_lem}

module _ (current : UserCurrentSocket) (sockfd : ℤ) where
  -- The acknowledgements of an upload, the one of its command included.
  abbrev pub upload_acks : List (ℤ × Bytes)
  upload_acks =
      let one : List (ℤ × Bytes) = (current.current_socket, text "ack") ∷ [] in
      one ++ (one ++ (one ++ (one ++ one)))

  -- An upload from both sides. What the client writes makes the thread of its connection store the
  -- file with the same bytes under the same name, in the directory of the user, and tell the other
  -- devices and the backup servers; what this thread writes to the client is five
  -- acknowledgements, of which the client waits for four, so that one is left to be read. (With
  -- whole writes on both sides, both semaphores free, the user in the table, a name without NUL
  -- bytes that fits with the path in 100 bytes and is shorter than the content, a content of less
  -- than 2 GB, and a path that the file system accepts.)
  pub serve_command-send_file :
      (name content : Bytes) (ds : List Device) (rest : List Answer) (w : World) (c : Local)
      → Steady w
      → Unlocked w
      → Reliable c
      → devices_of current.user_name w.users ≡ some ds
      → NoNul name
      → length (file_path current.user_name name) < 100
      → length name < length content
      → length content < 2 ^ 31
      → w.writable (file_path current.user_name name) ≡ true
      → (send_file sockfd name content (meeting (delivered upload_acks) c) ≡ (
        done tt,
        writing (upload_stream sockfd name content c) (meeting (got (text "ack") ∷ []) c),
      ))
        × (serve_command current
              (facing (delivered (upload_stream sockfd name content c) ++ rest) w)
            ≡ (
              done tt,
              having_sent
                  (ack current name content (to_le 8 file) rest
                    ++ upload_outbox current name content (to_le 8 file) rest ds w)
                  (storing (file_path current.user_name name) content (facing rest w)),
            ))
  unfolding dispatch
  serve_command-send_file name content ds rest w c h free hc at named short longer small writable =
      let packet = bare_packet c upload in
      let body = file_messages sockfd name content in
      let one = ack current name content (to_le 8 file) rest in
      let outbox = upload_outbox current name content (to_le 8 file) rest ds w in
      (
        send_file_lem sockfd name content (text "ack") (text "ack") (text "ack") (text "ack")
            (got (text "ack") ∷ []) c hc named longer (omega arith) (omega arith) (omega arith)
            (omega arith) small,
        rw (delivered-append (sent_to sockfd (encode_command packet)) body rest) (
            serve_command_lem current packet sockfd (delivered body ++ rest) w h
              (bare_packet-CommandFits c upload hc (omega arith))
            ∙ rw (delivered-addressed sockfd (pieces (suc (length content)) content)) (
                upload_file_command_lem current name content (to_le 8 file) rest ds
                  (having_sent one w) (having_sent-Steady one w h)
                  (record { users_free = free.users_free; servers_free = free.servers_free }) at
                  (omega (arith, length-to_le 8 file)) named short (omega arith) small writable
                ∙ ap
                    (λ u.
                      (done tt, storing (file_path current.user_name name) content (facing rest u)))
                    (having_sent_twice one outbox w))),
      )

  -- What the server writes in a download, its acknowledgement of the command included.
  abbrev pub download_answer : Bytes → List (ℤ × Bytes)
  download_answer content =
      ((current.current_socket, text "ack") ∷ [])
      ++ (((current.current_socket, to_le 8 (length content)) ∷ [])
          ++ sent_to current.current_socket content)
