-- ===== src/Client/Uploads.antt =====
-- What `sendFile` writes (client-side/source/Client.cpp:71-108), where each wait finds an answer.
use dropbox_simulator.Common.{
  suc, ◌≡◌, ◌≤◌, ◌<◌, ◌^◌, ◌%◌, refl, take_all, ap, ◌∙◌, true, ℤ, Bytes, List, [], ◌∷◌, ◌++◌,
  length, drop, NoNul, c_string-append_nul, ltb, arith,
}
use dropbox_simulator.Thread.{done, Answer, got, after}
use dropbox_simulator.Wire.{encode_command, strcpy, to_le}
use dropbox_simulator.Server.Session.Broadcast.{sent_to}
use dropbox_simulator.Server.Commands.{upload}
use dropbox_simulator.Client.{
  Local, send, int_size, FilePacket, file, send_file, send_file_packet, prepare_file_packet,
  bare_command,
}
use dropbox_simulator.Client.Sending.{
  Reliable, writing, writing_twice, meeting, send_lem, send_data_lem, wait_for_socket_ack_lem,
  or_fault_lem, request_lem, bare_packet,
}

-- A file's packet, where the name fits.
abbrev packet_of : Local → Bytes → Bytes → FilePacket
packet_of c name content = record {
  packet_type = file;
  file_size = length content;
  file_name = name ++ (0 ∷ drop (suc (length name)) (c.indeterminate (length content)));
  payload = content;
}

prepare_file_packet_lem :
    (name content : Bytes) (c : Local)
    → Reliable c
    → length name < length content
    → length content < 2 ^ 31
    → prepare_file_packet name content c ≡ (done (packet_of c name content), c)
unfolding prepare_file_packet strcpy int_size
prepare_file_packet_lem name content c h fits small =
    let room : ltb (length name) (length (c.indeterminate (length content))) ≡ true =
      ground (arith, h.memory (length content)) in
    let is_int : length content % 2 ^ 32 ≡ length content = ground arith in
    let positive : ltb (length content) (2 ^ 31) ≡ true = ground arith in
    rw is_int (rw positive (rw room refl))

-- What the client writes after the command.
abbrev pub file_messages : ℤ → Bytes → Bytes → List (ℤ × Bytes)
file_messages sockfd name content =
    (sockfd, to_le 8 file)
    ∷ (sockfd, to_le 8 (length content))
    ∷ (sockfd, name)
    ∷ sent_to sockfd content

send_file_packet_lem :
    (sockfd : ℤ) (name content a b d : Bytes) (rest : List Answer) (c : Local)
    → c.net.accepts ≡ []
    → NoNul name
    → length a ≤ 8
    → length b ≤ 8
    → length d ≤ 8
    → length content < 2 ^ 31
    → send_file_packet sockfd (packet_of c name content) (meeting (got a ∷ got b ∷ got d ∷ rest) c)
      ≡ (done tt, writing (file_messages sockfd name content) (meeting rest c))
unfolding send_file_packet
send_file_packet_lem sockfd name content a b d rest c h named short_a short_b short_d small =
    let kind : List (ℤ × Bytes) = (sockfd, to_le 8 file) ∷ [] in
    let size : List (ℤ × Bytes) = (sockfd, to_le 8 (length content)) ∷ [] in
    let title : List (ℤ × Bytes) = (sockfd, name) ∷ [] in
    let body = sent_to sockfd content in
    let c1 = writing kind c in
    let c2 = writing size c1 in
    let c3 = writing title c2 in
    after _ (send_data_lem sockfd (to_le 8 file) (meeting (got a ∷ got b ∷ got d ∷ rest) c) h) (
      after _ (wait_for_socket_ack_lem a (got b ∷ got d ∷ rest) c1 short_a) (
        after _
          (send_data_lem sockfd (to_le 8 (length content)) (meeting (got b ∷ got d ∷ rest) c1) h)
          (after _ (wait_for_socket_ack_lem b (got d ∷ rest) c2 short_b) (
            after _ (or_fault_lem (c_string-append_nul name _ named)) (
              after _ (send_data_lem sockfd name (meeting (got d ∷ rest) c2) h) (
                after _ (wait_for_socket_ack_lem d rest c3 short_d) (
                  ap (λ p. send sockfd p (meeting rest c3))
                    (take_all (length content) content (omega arith))
                  ∙ send_lem sockfd content (meeting rest c3) h small
                  ∙ ap (λ u. (done tt, meeting rest u))
                      (writing_twice title body c2
                        ∙ writing_twice size (title ++ body) c1
                        ∙ writing_twice kind (size ++ (title ++ body)) c))))))))

-- All that `sendFile` writes.
abbrev pub upload_stream : ℤ → Bytes → Bytes → Local → List (ℤ × Bytes)
upload_stream sockfd name content c =
    sent_to sockfd (encode_command (bare_packet c upload)) ++ file_messages sockfd name content

pub send_file_lem :
    (sockfd : ℤ) (name content a b d e : Bytes) (rest : List Answer) (c : Local)
    → Reliable c
    → NoNul name
    → length name < length content
    → length a ≤ 8
    → length b ≤ 8
    → length d ≤ 8
    → length e ≤ 8
    → length content < 2 ^ 31
    → send_file sockfd name content (meeting (got a ∷ got b ∷ got d ∷ got e ∷ rest) c)
      ≡ (done tt, writing (upload_stream sockfd name content c) (meeting rest c))
unfolding send_file bare_command
send_file_lem sockfd name content a b d e rest c h named short sa sb sd se small =
    let first = sent_to sockfd (encode_command (bare_packet c upload)) in
    let c1 = writing first c in
    after _
      (request_lem sockfd (bare_packet c upload) a (got b ∷ got d ∷ got e ∷ rest) c h.whole_writes
        sa)
      (after _
        (prepare_file_packet_lem name content (meeting (got b ∷ got d ∷ got e ∷ rest) c1)
          (record { whole_writes = h.whole_writes; memory = h.memory }) short small)
        (send_file_packet_lem sockfd name content b d e rest c1 h.whole_writes named sb sd se small
          ∙ ap (λ u. (done tt, meeting rest u))
              (writing_twice first (file_messages sockfd name content) c)))
