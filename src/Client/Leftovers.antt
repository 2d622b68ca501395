-- ===== src/Client/Leftovers.antt =====
-- What an upload leaves unread on the client's connection, and what a download makes of it
-- (client-side/source/Client.cpp:68-109 and 208-245).
use dropbox_simulator.Common.{
  ◌≡◌, ◌<◌, ◌^◌, ap, ◌∙◌, ℤ, Bytes, text, List, ◌∷◌, ◌++◌, length, NoNul, arith,
}
use dropbox_simulator.Thread.{Answer, got, after, ◌>>◌}
use dropbox_simulator.Wire.{to_le, from_le}
use dropbox_simulator.Server.{UserCurrentSocket}
use dropbox_simulator.Server.Session.Broadcast.{sent_to}
use dropbox_simulator.Server.Commands.{overlay}
use dropbox_simulator.Server.Commands.Serving.{delivered}
use dropbox_simulator.Client.{Local, send_file, download_file, receive_file}
use dropbox_simulator.Client.Sending.{Reliable, writing, writing_twice, meeting}
use dropbox_simulator.Client.Uploads.{upload_stream, send_file_lem}
use dropbox_simulator.Client.Downloads.{download_request, download_file-receive_file}
use dropbox_simulator.Client.Exchange.{upload_acks, download_answer}

module _ (current : UserCurrentSocket) (sockfd : ℤ) where
  -- A download that follows an upload on the same connection goes wrong: the client takes the
  -- acknowledgement that the upload left unread for that of its command, and the one of its
  -- command for the size of the file, of which the first three bytes are then the text "ack" and
  -- the others what the array held. With this size it goes on to receive the file, while the true
  -- size is still unread, ahead of the content. (With whole writes, a name without NUL bytes that
  -- is shorter than its content, a content of less than 2 GB, and another name of less than 100
  -- bytes.)
  pub download_after_upload :
      (name content other there : Bytes) (rest : List Answer) (c : Local)
      → Reliable c
      → NoNul name
      → length name < length content
      → length content < 2 ^ 31
      → length other < 100
      → (send_file sockfd name content >> download_file sockfd other) (
          meeting
            (delivered (upload_acks current sockfd ++ download_answer current sockfd there) ++ rest)
            c)
        ≡ receive_file sockfd other (from_le (overlay (text "ack") (c.indeterminate 8))) (
            writing (upload_stream sockfd name content c ++ download_request sockfd other c) (
              meeting
                (got (to_le 8 (length there))
                  ∷ (delivered (sent_to current.current_socket there) ++ rest))
                c))
  download_after_upload name content other there rest c h named longer small short =
      let asked = upload_stream sockfd name content c in
      let size =
        got (to_le 8 (length there)) ∷ (delivered (sent_to current.current_socket there) ++ rest) in
      after _
        (send_file_lem sockfd name content (text "ack") (text "ack") (text "ack") (text "ack")
          (got (text "ack") ∷ got (text "ack") ∷ size) c h named longer (omega arith) (omega arith)
          (omega arith) (omega arith) small)
        (download_file-receive_file sockfd other (text "ack") (text "ack") size (writing asked c)
            (record { whole_writes = h.whole_writes; memory = h.memory }) short (omega arith)
            (omega arith)
          ∙ ap
              (λ u.
                receive_file sockfd other (from_le (overlay (text "ack") (c.indeterminate 8)))
                  (meeting size u))
              (writing_twice asked (download_request sockfd other c) c))
