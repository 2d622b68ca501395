-- ===== src/Client/Replies.antt =====
-- What a client makes of the answer to its connection (client-side/source/Client.cpp:30-55 and
-- server-side/source/Server.cpp:808-897).
use Prim.Native.String.{String}
use dropbox_simulator.Common.{
  ℕ, ◌≡◌, ◌<◌, ◌⊎◌, inl, inr, refl, ℤ, Bytes, text, List, [], ◌∷◌, ◌++◌, length, NoNul, c_string,
  c_string-append_nul, replicate, drop-replicate, some, arith, same,
}
use dropbox_simulator.Registry.Invariant.{IsValid}
use dropbox_simulator.Wire.Laws.{length-encode_connection}
use dropbox_simulator.Thread.{done, exits, Answer, got, failed, after, read}
use dropbox_simulator.Wire.{Connection, encode_connection}
use dropbox_simulator.Server.{World}
use dropbox_simulator.Server.Commands.{overlay}
use dropbox_simulator.Server.Session.{handle_user_controller_structure}
use dropbox_simulator.Server.Session.Broadcast.{Steady, sent_to, announcements}
use dropbox_simulator.Server.Session.Handshake.{Admissible, handle_user_controller_structure_lem}
use dropbox_simulator.Server.Session.Outcome.{IsRefused}
use dropbox_simulator.Client.{
  Local, accepted, refused, establish_connection_type, response_code, read_data, on_net,
}
use dropbox_simulator.Client.Sending.{writing, meeting, send_lem, read_data_lem, or_fault_lem}

-- The client with its connection packet sent.
abbrev pub connecting : ℤ → Connection → Local → Local
connecting sockfd connection c = writing (sent_to sockfd (encode_connection connection)) c

pub establish_connection_type_lem :
    (sockfd : ℤ) (connection : Connection) (reply : Bytes) (rest : List Answer) (c : Local)
    → c.net.accepts ≡ []
    → NoNul reply
    → length reply < 100
    → establish_connection_type sockfd connection (meeting (got reply ∷ rest) c)
      ≡ (done (response_code reply), connecting sockfd connection (meeting rest c))
unfolding establish_connection_type
establish_connection_type_lem sockfd connection reply rest c h named short =
    let (m, e) = drop-replicate {A = ℕ} 0 (length reply) 100 short in
    let is_reply : c_string (overlay reply (replicate 100 0)) ≡ some reply =
      rw e (c_string-append_nul reply (replicate m 0) named) in
    after _
      (send_lem sockfd (encode_connection connection) (meeting (got reply ∷ rest) c) h
        (length-encode_connection connection))
      (after _
        (read_data_lem 99 reply (replicate 100 0) rest (connecting sockfd connection c)
          (omega arith))
        (after _ (or_fault_lem is_reply) refl))

-- A connection that ends, or fails, before it is answered is taken for an accepted one. (With
-- whole writes.)
pub establish_connection_type-accepted :
    (sockfd : ℤ) (connection : Connection) (answer : Answer) (rest : List Answer) (c : Local)
    → c.net.accepts ≡ []
    → (answer ≡ got []) ⊎ (answer ≡ failed)
    → establish_connection_type sockfd connection (meeting (answer ∷ rest) c)
      ≡ (done accepted, connecting sockfd connection (meeting rest c))
unfolding establish_connection_type read_data on_net read response_code same
establish_connection_type-accepted sockfd connection answer rest c h lost = elim lost [
  | inl ended ↦
      after _
        (send_lem sockfd (encode_connection connection) (meeting (answer ∷ rest) c) h
          (length-encode_connection connection))
        (rw ended refl)
  | inr broken ↦
      after _
        (send_lem sockfd (encode_connection connection) (meeting (answer ∷ rest) c) h
          (length-encode_connection connection))
        (rw broken refl)
]

module _ (name : Bytes) (connection : Connection) (socket sockfd : ℤ)
    (ok : Admissible name connection) where
  -- What the server wrote to the client first, and what the client makes of it.
  abbrev pub Answers : World → World → Local → List Answer → String → ℤ → Type 0
  Answers w u c rest message code =
      ((more : List (ℤ × Bytes)) × (u.net.outbox ≡ w.net.outbox ++ ((socket, text message) ∷ more)))
      × (establish_connection_type sockfd connection (meeting (got (text message) ∷ rest) c)
          ≡ (done code, connecting sockfd connection (meeting rest c)))

  -- The first bytes that the server writes to a new connection tell the client how it went. If the
  -- server lets it in, the client returns that it is accepted, and if it does not, the server ends
  -- its thread and the client returns that it is refused; the server refuses exactly a known user
  -- with two other devices, and an unknown one when the table is full. (With whole writes on both
  -- sides, a well-formed table, and an admissible connection.)
  pub establish-handle :
      (w : World) (c : Local) (rest : List Answer)
      → Steady w
      → IsValid w.users
      → c.net.accepts ≡ []
      → let (r, u) = handle_user_controller_structure connection socket w in
        ((¬ IsRefused name connection w) × (r ≡ done tt) × Answers w u c rest "ack" accepted)
        ⊎ (IsRefused name connection w
            × (r ≡ exits)
            × ((message : String) × Answers w u c rest message refused))
  unfolding response_code same
  establish-handle w c rest h v hc =
      let replies =
        λ (m : String). establish_connection_type_lem sockfd connection (text m) rest c hc in
      elim (handle_user_controller_structure_lem name connection socket ok w h v) [
        | inl (inl (d, there, (us, r, valid, updates))) ↦ rw r (
            inl (
              ground arith,
              refl,
              ((announcements w connection, refl), replies "ack" (ground arith) (omega arith)),
            ))
        | inl (inr (inl (ds, fresh, at, room, (us, r, valid, updates)))) ↦ rw r (
            inl (
              ground arith,
              refl,
              ((announcements w connection, refl), replies "ack" (ground arith) (omega arith)),
            ))
        | inl (inr (inr (ds, fresh, at, full, r))) ↦ rw r (
            inr (
              (fresh, inl (ds, at, full)),
              refl,
              ("nack3", (([], refl), replies "nack3" (ground arith) (omega arith))),
            ))
        | inr (inl (at, full, r)) ↦ rw r (
            inr (
              (ground arith, inr (at, full)),
              refl,
              ("nack1", (([], refl), replies "nack1" (ground arith) (omega arith))),
            ))
        | inr (inr (at, room, (us, r, valid, updates))) ↦ rw r (
            inl (
              ground arith,
              refl,
              ((announcements w connection, refl), replies "ack" (ground arith) (omega arith)),
            ))
      ]
