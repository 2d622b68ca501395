-- ===== src/Client/Downloads.antt =====
-- What `downloadFile` and `deleteFile` write, and what a download stores
-- (client-side/source/Client.cpp:194-254).
use dropbox_simulator.Common.{
  suc, ◌≡◌, ◌≤◌, ◌<◌, ◌^◌, refl, ap, subst, ◌∙◌, true, false, ℤ, Bytes, text, List, [], ◌∷◌, ◌++◌,
  append-nil, length, drop_all, same, arith, some, if◌then◌else◌,
}
use dropbox_simulator.Thread.{done, Answer, got, after}
use dropbox_simulator.Thread.{Net}
use dropbox_simulator.Transfer.Loops.{pieces, arriving, read_large_payload-pieces}
use dropbox_simulator.Transfer.Receiving.{Agrees, read_large_payload-Agrees}
use dropbox_simulator.Wire.{encode_command, to_le, from_le}
use dropbox_simulator.Wire.Laws.{from_le-to_le, length-to_le, Fits-8}
use dropbox_simulator.Server.Session.Broadcast.{sent_to}
use dropbox_simulator.Server.Commands.{download, delete, overlay}
use dropbox_simulator.Client.{
  Local, on_net, download_file, delete_file, receive_file, write_file, is_no_size,
}
use dropbox_simulator.Transfer.{client_read_large_payload}
use dropbox_simulator.Client.Sending.{
  Reliable, writing, writing_twice, meeting, write_ack_lem, read_data_lem, request_lem,
  named_packet, named_command_lem,
}

-- The client's directory with a file in it.
abbrev pub keeping : Bytes → Bytes → Local → Local
keeping path content c = record c { files = λ p. if same p path then some content else c.files p }

pub write_file_lem :
    (path content : Bytes) (c : Local)
    → c.writable path ≡ true
    → write_file path content c ≡ (done tt, keeping path content c)
unfolding write_file
write_file_lem path content c e = rw e

-- An array that is filled keeps nothing of what it held.
pub overlay_whole : (bs old : Bytes) → length old ≤ length bs → overlay bs old ≡ bs
overlay_whole bs old h = rw (drop_all (length bs) old h) (append-nil bs)

pub read_payload_lem :
    (payload : Bytes) (rest : List Answer) (c : Local)
    → 0 < length payload
    → length payload < 2 ^ 31
    → on_net
        (client_read_large_payload (length payload))
        (meeting (arriving (pieces (suc (length payload)) payload) ++ rest) c)
      ≡ (done payload, meeting rest c)
unfolding on_net
read_payload_lem payload rest c h small =
    let s : Net = record c.net {
      inbox = arriving (pieces (suc (length payload)) payload) ++ rest;
    } in
    let e : client_read_large_payload (length payload) s
        ≡ (done payload, record c.net { inbox = rest }) =
      subst (λ r. Agrees (length payload) r (client_read_large_payload (length payload) s))
        (read_large_payload-pieces payload rest c.net h small)
        (read_large_payload-Agrees (length payload) s small) in
    rw e refl

abbrev pub download_path : Bytes → Bytes
download_path name = text "./" ++ name

-- What the client writes in a download, with the two acknowledgements.
abbrev pub acks : ℤ → List (ℤ × Bytes)
acks sockfd = (sockfd, text "ack") ∷ (sockfd, text "ack") ∷ []

receive_file_lem :
    (sockfd : ℤ) (name payload : Bytes) (rest : List Answer) (c : Local)
    → Reliable c
    → 0 < length payload
    → length payload < 2 ^ 31
    → c.writable (download_path name) ≡ true
    → receive_file sockfd name
        (length payload)
        (meeting (arriving (pieces (suc (length payload)) payload) ++ rest) c)
      ≡ (done tt, writing (acks sockfd) (keeping (download_path name) payload (meeting rest c)))
unfolding receive_file
receive_file_lem sockfd name payload rest c h some_bytes small writable =
    let sized : is_no_size (length payload) ≡ false = ground arith in
    let one : List (ℤ × Bytes) = (sockfd, text "ack") ∷ [] in
    let body = arriving (pieces (suc (length payload)) payload) ++ rest in
    let c1 = writing one c in
    rw sized (
      after _ (write_ack_lem sockfd "ack" (meeting body c) h.whole_writes) (
        after _ (read_payload_lem payload rest c1 some_bytes small) (
          after _ (write_ack_lem sockfd "ack" (meeting rest c1) h.whole_writes) (
            ap (λ b. write_file (download_path name) b (meeting rest (writing one c1)))
              (overlay_whole payload (c.indeterminate (length payload))
                (omega (arith, h.memory (length payload))))
            ∙ write_file_lem (download_path name) payload (meeting rest (writing one c1)) writable
            ∙ ap (λ u. (done tt, keeping (download_path name) payload (meeting rest u)))
                (writing_twice one one c)))))

-- What `downloadFile` asks for.
abbrev pub download_request : ℤ → Bytes → Local → List (ℤ × Bytes)
download_request sockfd name c = sent_to sockfd (encode_command (named_packet c download name))

-- The second answer is taken for the size.
pub download_file-receive_file :
    (sockfd : ℤ) (name a b : Bytes) (rest : List Answer) (c : Local)
    → Reliable c
    → length name < 100
    → length a ≤ 8
    → length b ≤ 8
    → download_file sockfd name (meeting (got a ∷ got b ∷ rest) c)
      ≡ receive_file sockfd name
          (from_le (overlay b (c.indeterminate 8)))
          (writing (download_request sockfd name c) (meeting rest c))
unfolding download_file
download_file-receive_file sockfd name a b rest c h short sa sb =
    let c1 = writing (download_request sockfd name c) c in
    after _
      (named_command_lem download name (meeting (got a ∷ got b ∷ rest) c) (h.memory 100) short)
      (after _
        (request_lem sockfd (named_packet c download name) a (got b ∷ rest) c h.whole_writes sa)
        (after _ (read_data_lem 7 b (c.indeterminate 8) rest c1 sb) refl))

pub download_file_lem :
    (sockfd : ℤ) (name payload a : Bytes) (rest : List Answer) (c : Local)
    → Reliable c
    → length name < 100
    → length a ≤ 8
    → 0 < length payload
    → length payload < 2 ^ 31
    → c.writable (download_path name) ≡ true
    → download_file sockfd name (
        meeting
          (got a
            ∷ got (to_le 8 (length payload))
            ∷ (arriving (pieces (suc (length payload)) payload) ++ rest))
          c)
      ≡ (
        done tt,
        writing
            (download_request sockfd name c ++ acks sockfd)
            (keeping (download_path name) payload (meeting rest c)),
      )
download_file_lem sockfd name payload a rest c h short sa some_bytes small writable =
    let body = arriving (pieces (suc (length payload)) payload) ++ rest in
    let asked = download_request sockfd name c in
    let eight = length-to_le 8 (length payload) in
    let size : from_le (overlay (to_le 8 (length payload)) (c.indeterminate 8)) ≡ length payload =
      ap from_le (
        overlay_whole (to_le 8 (length payload)) (c.indeterminate 8)
          (omega (arith, eight, h.memory 8)))
      ∙ from_le-to_le 8 (length payload) (Fits-8 (length payload) (omega arith)) in
    download_file-receive_file sockfd name a (to_le 8 (length payload)) body c h short sa
      (omega (arith, eight))
    ∙ ap (λ n. receive_file sockfd name n (writing asked (meeting body c))) size
    ∙ receive_file_lem sockfd name payload rest (writing asked c)
        (record { whole_writes = h.whole_writes; memory = h.memory }) some_bytes small writable
    ∙ ap (λ u. (done tt, keeping (download_path name) payload (meeting rest u)))
        (writing_twice asked (acks sockfd) c)

pub delete_file_lem :
    (sockfd : ℤ) (name a : Bytes) (rest : List Answer) (c : Local)
    → Reliable c
    → length name < 100
    → length a ≤ 8
    → delete_file sockfd name (meeting (got a ∷ rest) c) ≡ (
      done tt,
      writing (sent_to sockfd (encode_command (named_packet c delete name))) (meeting rest c),
    )
unfolding delete_file
delete_file_lem sockfd name a rest c h short sa =
    after _ (named_command_lem delete name (meeting (got a ∷ rest) c) (h.memory 100) short)
      (request_lem sockfd (named_packet c delete name) a rest c h.whole_writes sa)
