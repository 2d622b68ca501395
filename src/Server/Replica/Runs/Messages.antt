-- ===== src/Server/Replica/Runs/Messages.antt =====
-- Which of the messages of the primary go to the socket of one backup server
-- (server-side/source/Server.cpp:857-868, 951-963 and 1036-1047).
use dropbox_simulator.Common.{
  suc, ◌≡◌, refl, ap, ◌∙◌, text, length, true, false, ℤ, int_eq, int_eq_iff, Bytes, List, [], ◌∷◌,
  ◌++◌, append-nil, concat, map, All, Bool-cases, inl, inr, arith,
}
use dropbox_simulator.Registry.{Device}
use dropbox_simulator.Thread.{Answer}
use dropbox_simulator.Transfer.Loops.{pieces}
use dropbox_simulator.Wire.{Connection, encode_command, encode_connection, to_le}
use dropbox_simulator.Server.{World, UserCurrentSocket}
use dropbox_simulator.Server.Backups.{server_sockets}
use dropbox_simulator.Server.Session.{insert_user_command}
use dropbox_simulator.Server.Session.Broadcast.{command_packet, sent_to, announcement}
use dropbox_simulator.Server.Session.Handshake.{acceptance}
use dropbox_simulator.Server.Session.Broadcast.{announcements}
use dropbox_simulator.Server.Commands.{upload, file_path}
use dropbox_simulator.Server.Commands.Peers.{peer_sockets, upload_messages}
use dropbox_simulator.Server.Commands.Upload.{ack, upload_outbox}
use dropbox_simulator.Server.Replica.Runs.{written_to, Others, HasBackup}
use dropbox_simulator.Transfer.Loops.{addressed}

-- All of it goes to `j`.
abbrev pub Addressed : ℤ → List (ℤ × Bytes) → Type 0
Addressed j = All (λ m. m.0 ≡ j)

pub written_to-append :
    (k : ℤ) (xs ys : List (ℤ × Bytes))
    → written_to k (xs ++ ys) ≡ written_to k xs ++ written_to k ys
unfolding written_to
written_to-append k [] ys = refl
written_to-append k (x ∷ xs) ys = elim (Bool-cases (int_eq x.0 k)) [
  | inl here ↦ rw here (ap (◌∷◌ x) (written_to-append k xs ys))
  | inr there ↦ rw there (written_to-append k xs ys)
]

pub written_to_own : (k : ℤ) (ms : List (ℤ × Bytes)) → Addressed k ms → written_to k ms ≡ ms
unfolding written_to
written_to_own k [] h = refl
written_to_own k (m ∷ ms) (e, h) =
    let here : int_eq m.0 k ≡ true = ground (arith, int_eq_iff m.0 k) in
    rw here (ap (◌∷◌ m) (written_to_own k ms h))

pub written_to_other :
    (j k : ℤ) (ms : List (ℤ × Bytes)) → Addressed j ms → int_eq j k ≡ false → written_to k ms ≡ []
unfolding written_to
written_to_other j k [] h other = refl
written_to_other j k (m ∷ ms) (e, h) other =
    let there : int_eq m.0 k ≡ false = ap (λ x. int_eq x k) e ∙ other in
    rw there (written_to_other j k ms h other)

pub addressed-Addressed : (j : ℤ) (ps : List Bytes) → Addressed j (addressed j ps)
addressed-Addressed j [] = tt
addressed-Addressed j (p ∷ ps) = (refl, addressed-Addressed j ps)

pub Addressed-append :
    (j : ℤ) (xs ys : List (ℤ × Bytes)) → Addressed j xs → Addressed j ys → Addressed j (xs ++ ys)
Addressed-append j [] ys h g = g
Addressed-append j (x ∷ xs) ys (e, h) g = (e, Addressed-append j xs ys h g)

module _ (k : ℤ) (messages : ℤ → List (ℤ × Bytes)) (each : (j : ℤ) → Addressed j (messages j)) where
  pub written_to-Others : (js : List ℤ) → Others k js → written_to k (concat (map messages js)) ≡ []
  unfolding written_to
  written_to-Others [] h = refl
  written_to-Others (j ∷ js) (other, h) =
      written_to-append k (messages j) (concat (map messages js))
      ∙ rw (written_to_other j k (messages j) (each j) other) (written_to-Others js h)

  -- A socket that is there once gets its own messages.
  pub written_to_once :
      (before after : List ℤ)
      → Others k before
      → Others k after
      → written_to k (concat (map messages (before ++ (k ∷ after)))) ≡ messages k
  unfolding written_to
  written_to_once [] after h g =
      written_to-append k (messages k) (concat (map messages after))
      ∙ rw (written_to_own k (messages k) (each k), written_to-Others after g)
          (append-nil (messages k))
  written_to_once (j ∷ before) after (other, h) g =
      written_to-append k (messages j) (concat (map messages (before ++ (k ∷ after))))
      ∙ rw (written_to_other j k (messages j) (each j) other) (written_to_once before after h g)

pub sent_to-Addressed : (j : ℤ) (payload : Bytes) → Addressed j (sent_to j payload)
sent_to-Addressed j payload = addressed-Addressed j (pieces (suc (length payload)) payload)

-- The messages of one backup, among those to all of them.
pub own_messages :
    (k : ℤ) (w : World) (messages : ℤ → List (ℤ × Bytes))
    → ((j : ℤ) → Addressed j (messages j))
    → HasBackup k w
    → written_to k (concat (map messages (server_sockets w.servers))) ≡ messages k
own_messages k w messages each (before, after, e, h, g) =
    rw e (written_to_once k messages each before after h g)

pub announced_lem :
    (k : ℤ) (w : World) (connection : Connection) (socket : ℤ)
    → int_eq socket k ≡ false
    → HasBackup k w
    → written_to k (acceptance w connection socket) ≡ announcement w connection k
announced_lem k w connection socket other has =
    written_to-append k ((socket, text "ack") ∷ []) (announcements w connection)
    ∙ rw (written_to_other socket k ((socket, text "ack") ∷ []) (refl, tt) other) (
        own_messages k w (announcement w connection)
          (λ j.
            Addressed-append j
              (sent_to j
                (encode_command (command_packet w insert_user_command (text "stringteste"))))
              (sent_to j (encode_connection connection))
              (sent_to-Addressed j
                (encode_command (command_packet w insert_user_command (text "stringteste"))))
              (sent_to-Addressed j (encode_connection connection)))
          has)

upload_messages-Addressed :
    (info payload : Bytes) (w : World) (j : ℤ) → Addressed j (upload_messages info payload w j)
upload_messages-Addressed info payload w j =
    Addressed-append j (sent_to j (encode_command (command_packet w upload info)))
      (((j, to_le 8 (length payload)) ∷ []) ++ sent_to j payload)
      (sent_to-Addressed j (encode_command (command_packet w upload info)))
      (refl, sent_to-Addressed j payload)

pub uploaded_lem :
    (k : ℤ) (current : UserCurrentSocket) (name payload kind : Bytes) (rest : List Answer)
    (ds : List Device) (w : World)
    → int_eq current.current_socket k ≡ false
    → Others k (peer_sockets current ds)
    → HasBackup k w
    → written_to k (upload_outbox current name payload kind rest ds w)
      ≡ upload_messages (file_path current.user_name name) payload w k
uploaded_lem k current name payload kind rest ds w other others has =
    let path = file_path current.user_name name in
    let to_client = ack current name payload kind rest in
    let acks = to_client ++ (to_client ++ (to_client ++ to_client)) in
    let to_peers = concat (map (upload_messages name payload w) (peer_sockets current ds)) in
    let to_servers = concat (map (upload_messages path payload w) (server_sockets w.servers)) in
    written_to-append k acks (to_peers ++ to_servers)
    ∙ rw
        (
          written_to_other current.current_socket k acks (refl, (refl, (refl, (refl, tt)))) other,
          written_to-append k to_peers to_servers,
          written_to-Others k (upload_messages name payload w)
              (upload_messages-Addressed name payload w) (peer_sockets current ds) others,
        )
        (own_messages k w (upload_messages path payload w)
          (upload_messages-Addressed path payload w) has)

-- What one of the user's other devices is sent of an upload.
pub uploaded_to_peer_lem :
    (k : ℤ) (current : UserCurrentSocket) (name payload kind : Bytes) (rest : List Answer)
    (ds : List Device) (w : World) (before after : List ℤ)
    → int_eq current.current_socket k ≡ false
    → peer_sockets current ds ≡ before ++ (k ∷ after)
    → Others k before
    → Others k after
    → Others k (server_sockets w.servers)
    → written_to k (upload_outbox current name payload kind rest ds w)
      ≡ upload_messages name payload w k
uploaded_to_peer_lem k current name payload kind rest ds w before after other peers h g servers =
    let path = file_path current.user_name name in
    let to_client = ack current name payload kind rest in
    let acks = to_client ++ (to_client ++ (to_client ++ to_client)) in
    let to_peers = concat (map (upload_messages name payload w) (peer_sockets current ds)) in
    let to_servers = concat (map (upload_messages path payload w) (server_sockets w.servers)) in
    let own : written_to k to_peers ≡ upload_messages name payload w k = rw peers (
      written_to_once k (upload_messages name payload w) (upload_messages-Addressed name payload w)
        before after h g) in
    written_to-append k acks (to_peers ++ to_servers)
    ∙ rw
        (
          written_to_other current.current_socket k acks (refl, (refl, (refl, (refl, tt)))) other,
          written_to-append k to_peers to_servers,
          own,
          written_to-Others k (upload_messages path payload w)
              (upload_messages-Addressed path payload w) (server_sockets w.servers) servers,
        )
        (append-nil (upload_messages name payload w k))
