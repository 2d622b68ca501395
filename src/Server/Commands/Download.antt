-- ===== src/Server/Commands/Download.antt =====
-- What a download sends (server-side/source/Server.cpp:968-1007), when every write takes all that
-- it is given.
use dropbox_simulator.Common.{
  ◌≡◌, ◌≤◌, ◌<◌, ◌^◌, refl, ap, ◌∙◌, true, ℤ, Bytes, List, [], ◌∷◌, ◌++◌, length, some, same_refl,
  c_string, NoNul, leb, arith,
}
use dropbox_simulator.Registry.{Device}
use dropbox_simulator.Registry.Lookup.{devices_of}
use dropbox_simulator.Thread.{done, Answer, got, after, read, ◌>>◌}
use dropbox_simulator.Wire.{CommandPacket, to_le}
use dropbox_simulator.Server.{World, UserCurrentSocket, on_net}
use dropbox_simulator.Server.Session.Broadcast.{
  Steady, having_sent, having_sent_twice, sent_to, send_lem,
}
use dropbox_simulator.Server.Commands.{
  download_file_command, upload_file_command, wait_for_socket_ack, file_path,
}
use dropbox_simulator.Server.Commands.Peers.{facing, send_data_lem}
use dropbox_simulator.Server.Commands.Propagation.{Unlocked}
use dropbox_simulator.Server.Commands.Upload.{
  uploading, upload_outbox, storing, upload_file_command_lem,
}

wait_for_socket_ack_lem :
    (bs : Bytes) (rest : List Answer) (w : World)
    → length bs ≤ 8
    → wait_for_socket_ack (facing (got bs ∷ rest) w) ≡ (done tt, facing rest w)
unfolding wait_for_socket_ack on_net read
wait_for_socket_ack_lem bs rest w h =
    let fits : leb (length bs) 8 ≡ true = ground arith in rw fits refl

module _ (current : UserCurrentSocket) (command : CommandPacket) (name : Bytes)
    (named : c_string command.additional_info ≡ some name) where
  -- What is written in a download of a file that is there: its size, then its bytes.
  abbrev pub download_outbox : Bytes → List (ℤ × Bytes)
  download_outbox content =
      ((current.current_socket, to_le 8 (length content)) ∷ [])
      ++ sent_to current.current_socket content

  -- A download of a file that is there sends its size and its bytes, each followed by a read of
  -- the client's acknowledgement, and changes nothing. (With whole writes, a command that names
  -- the file, of less than 2 GB, and acknowledgements of at most 8 bytes.)
  pub download_file_command_lem :
      (content ack1 ack2 : Bytes) (rest : List Answer) (w : World)
      → Steady w
      → w.files (file_path current.user_name name) ≡ some content
      → length ack1 ≤ 8
      → length ack2 ≤ 8
      → length content < 2 ^ 31
      → download_file_command current command (facing (got ack1 ∷ got ack2 ∷ rest) w)
        ≡ (done tt, having_sent (download_outbox content) (facing rest w))
  unfolding download_file_command
  download_file_command_lem content ack1 ack2 rest w h there a b small =
      let size : List (ℤ × Bytes) = (current.current_socket, to_le 8 (length content)) ∷ [] in
      let w1 = facing (got ack1 ∷ got ack2 ∷ rest) w in
      let w2 = facing (got ack2 ∷ rest) (having_sent size w) in
      rw named (
        rw there (
          after _
            (send_data_lem current.current_socket (to_le 8 (length content)) w1
              (record { whole_writes = h.whole_writes; memory = h.memory }))
            (after _ (wait_for_socket_ack_lem ack1 (got ack2 ∷ rest) (having_sent size w) a) (
              after _
                (send_lem current.current_socket content w2
                  (record { whole_writes = h.whole_writes; memory = h.memory }) small)
                (wait_for_socket_ack_lem ack2 rest
                    (having_sent (sent_to current.current_socket content) (having_sent size w)) b
                  ∙ ap (λ u. (done tt, facing rest u))
                      (having_sent_twice size (sent_to current.current_socket content) w))))))

  -- A file that a session uploads is what it then downloads under that name: what the download
  -- sends is the size and the bytes of the upload. (With whole writes, both semaphores free, the
  -- user in the table, a command that names the file, a kind and acknowledgements of at most 8
  -- bytes, a name without a NUL, a path of less than 100 bytes that the file system accepts, and a
  -- payload that is not empty and of less than 2 GB.)
  pub download-upload :
      (payload kind ack1 ack2 : Bytes) (rest : List Answer) (ds : List Device) (w : World)
      → Steady w
      → Unlocked w
      → devices_of current.user_name w.users ≡ some ds
      → length kind ≤ 8
      → NoNul name
      → length (file_path current.user_name name) < 100
      → 0 < length payload
      → length payload < 2 ^ 31
      → w.writable (file_path current.user_name name) ≡ true
      → length ack1 ≤ 8
      → length ack2 ≤ 8
      → let answers = got ack1 ∷ got ack2 ∷ rest in
        (upload_file_command current >> download_file_command current command)
          (facing (uploading current name payload kind answers) w)
        ≡ (
          done tt,
          having_sent
              (upload_outbox current name payload kind answers ds w ++ download_outbox payload)
              (storing (file_path current.user_name name) payload (facing rest w)),
        )
  download-upload payload kind ack1 ack2 rest ds w h free at k no_nul short some_bytes fits writable
        a b =
      let answers = got ack1 ∷ got ack2 ∷ rest in
      let sent = upload_outbox current name payload kind answers ds w in
      let file = file_path current.user_name name in
      after _
        (upload_file_command_lem current name payload kind answers ds w h free at k no_nul short
          some_bytes fits writable)
        (download_file_command_lem payload ack1 ack2 rest
            (having_sent sent (storing file payload w))
            (record { whole_writes = h.whole_writes; memory = h.memory }) (rw (same_refl file) refl)
            a b fits
          ∙ ap (λ u. (done tt, storing file payload (facing rest u)))
              (having_sent_twice sent (download_outbox payload) w))
