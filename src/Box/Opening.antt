-- ===== src/Box/Opening.antt =====
-- The three connections of `open` (client-side/source/Box.cpp:25-81).
use dropbox_simulator.Common.{
  ℕ, suc, ◌≡◌, ◌<◌, ◌≤◌, ◌⊎◌, ◌%◌, ◌+◌, ◌^◌, refl, sym, inl, inr, ap, subst, ◌∙◌, true, ℤ, pos,
  Bytes, List, [], ◌∷◌, ◌++◌, length, length-append, length-drop, drop, NoNul, c_string-append_nul,
  Bool-cases, if◌then◌else◌, none, some, arith,
}
use dropbox_simulator.Registry.{t1, t2, t3, is_socket_type}
use dropbox_simulator.Server.Session.{socket_type_arg}
use dropbox_simulator.Registry.Sessions.{IsName}
use dropbox_simulator.Thread.{done, Net, Answer, got, after}
use dropbox_simulator.Wire.{Connection, strcpy, encode_connection}
use dropbox_simulator.Wire.Laws.{ConnectionFits, IsInt32}
use dropbox_simulator.Server.{conn}
use dropbox_simulator.Server.Session.Broadcast.{sent_to}
use dropbox_simulator.Server.Session.Handshake.{Admissible}
use dropbox_simulator.Client.{Local, response_code, refused, establish_connection_type}
use dropbox_simulator.Client.Sending.{Reliable, meeting}
use dropbox_simulator.Client.Replies.{establish_connection_type_lem}
use dropbox_simulator.Box.{new_connection, device_of_rand, with_net, connect, open_box}
use native.Mathlib.Nat.{mod-lt}
use dropbox_simulator.Common.{int_eq, ltb}

-- The connection that `open` asks for.
abbrev pub asked_for : Local → Bytes → ℕ → ℕ → ℤ → Connection
asked_for c username socket_type rand sockfd = record {
  packet_type = conn;
  socket_type = socket_type;
  device = device_of_rand rand;
  username = username ++ (0 ∷ drop (suc (length username)) (c.indeterminate 100));
  socket = sockfd;
  padding = c.indeterminate 4;
}

-- The socket after its handshake.
abbrev pub greeted : Local → Bytes → ℕ → ℕ → ℤ → Net → List Answer → Net
greeted c username socket_type rand sockfd net rest = record net {
  inbox = rest;
  outbox =
      net.outbox
      ++ sent_to sockfd (encode_connection (asked_for c username socket_type rand sockfd));
}

-- A socket whose first read brings this text.
pub record Answering (net : Net) (reply : Bytes) (rest : List Answer) : Type 0 where
  pub whole_writes : net.accepts ≡ []
  pub comes : net.inbox ≡ got reply ∷ rest
  pub is_text : NoNul reply
  pub fits : length reply < 100

module _ (username : Bytes) (rand : ℕ) (c : Local) (h : Reliable c) (named : NoNul username)
    (short : length username < 100) where
  new_connection_lem :
      (socket_type : ℕ) (sockfd : ℤ)
      → new_connection username socket_type rand sockfd c
        ≡ (done (asked_for c username socket_type rand sockfd), c)
  unfolding new_connection strcpy
  new_connection_lem socket_type sockfd =
      let room : ltb (length username) (length (c.indeterminate 100)) ≡ true =
        ground (arith, h.memory 100) in
      rw room

  connect_lem :
      (socket_type : ℕ) (sockfd : ℤ) (net : Net) (reply : Bytes) (rest : List Answer)
      → net.accepts ≡ []
      → net.inbox ≡ got reply ∷ rest
      → NoNul reply
      → length reply < 100
      → connect username rand socket_type (sockfd, net) c
        ≡ (done (response_code reply, greeted c username socket_type rand sockfd net rest), c)
  unfolding connect
  connect_lem socket_type sockfd net reply rest whole comes is_reply fits =
      let asked = asked_for c username socket_type rand sockfd in
      let e : meeting (got reply ∷ rest) (record c { net = net }) ≡ record c { net = net } =
        ap (λ i. record c { net = record net { inbox = i } }) (sym comes) in
      let answered : establish_connection_type sockfd asked (record c { net = net }) ≡ (
        done (response_code reply),
        record c { net = greeted c username socket_type rand sockfd net rest },
      ) =
        subst
          (λ u. establish_connection_type sockfd asked u ≡ (
            done (response_code reply),
            record c { net = greeted c username socket_type rand sockfd net rest },
          ))
          e
          (establish_connection_type_lem sockfd asked reply rest (record c { net = net }) whole
            is_reply fits) in
      after _ (new_connection_lem socket_type sockfd) (ap (with_net c.net) answered)

  -- `open` starts its threads exactly when the answer to its first connection is no refusal: then
  -- it has sent, on each socket, a connection of the three types in turn, whatever the other two
  -- answers say. (A name without NUL bytes that fits; whole writes; each socket brings first an
  -- answer without NUL bytes, of less than 100 of them.)
  pub open_box_lem :
      (s1 s2 s3 : ℤ) (n1 n2 n3 : Net) (r1 r2 r3 : Bytes) (l1 l2 l3 : List Answer)
      → Answering n1 r1 l1
      → Answering n2 r2 l2
      → Answering n3 r3 l3
      → open_box username rand (s1, n1) (s2, n2) (s3, n3) c ≡ (
        done (
            if int_eq (response_code r1) refused
            then none
            else some (
              greeted c username t1 rand s1 n1 l1,
              greeted c username t2 rand s2 n2 l2,
              greeted c username t3 rand s3 n3 l3,
            )),
        c,
      )
  unfolding open_box
  open_box_lem s1 s2 s3 n1 n2 n3 r1 r2 r3 l1 l2 l3 a1 a2 a3 =
      after _ (connect_lem t1 s1 n1 r1 l1 a1.whole_writes a1.comes a1.is_text a1.fits)
        (elim (Bool-cases (int_eq (response_code r1) refused)) [
          | inl e ↦ rw e refl
          | inr e ↦ rw e (
              after _ (connect_lem t2 s2 n2 r2 l2 a2.whole_writes a2.comes a2.is_text a2.fits) (
                after _ (connect_lem t3 s3 n3 r3 l3 a3.whole_writes a3.comes a3.is_text a3.fits)
                  refl))
        ])

  -- The connection that `open` asks for is one that the server takes: its device is a number from
  -- 1 to 10, every member fits its place in the packet, and the server reads the name and the
  -- type of the socket back from it. (A name without NUL bytes, not empty, that fits; one of the
  -- three types; a socket that is an `int`.)
  pub new_connection-Admissible :
      (socket_type : ℕ) (sockfd : ℤ)
      → IsName username
      → (socket_type ≡ t1) ⊎ ((socket_type ≡ t2) ⊎ (socket_type ≡ t3))
      → IsInt32 sockfd
      → (connection : Connection) × (new_connection username socket_type rand sockfd c
          ≡ (done connection, c))
        × ConnectionFits connection
        × Admissible username connection
        × ((d : ℕ) × (connection.device ≡ pos d) × (0 < d) × (d ≤ 10))
  new_connection-Admissible socket_type sockfd nonempty kind is_int =
      let small : rand % 10 < 10 = mod-lt rand (omega arith) in
      let sized : length (asked_for c username socket_type rand sockfd).username ≡ 100 =
        length-append username (0 ∷ drop (suc (length username)) (c.indeterminate 100))
        ∙ ground (arith, length-drop (suc (length username)) (c.indeterminate 100), h.memory 100) in
      let taken : (is_socket_type (socket_type_arg socket_type) ≡ true) × (socket_type < 2 ^ 64) =
        elim kind [
          | inl e ↦ rw e (refl, omega arith)
          | inr (inl e) ↦ rw e (refl, omega arith)
          | inr (inr e) ↦ rw e (refl, omega arith)
        ] in
      (
        asked_for c username socket_type rand sockfd,
        new_connection_lem socket_type sockfd,
        record {
          type_fits = omega arith;
          socket_type_fits = taken.1;
          device_fits = omega (arith, small);
          name_fits = sized;
          socket_fits = is_int;
          padding_fits = h.memory 4;
        },
        record {
          is_named =
              c_string-append_nul username (drop (suc (length username)) (c.indeterminate 100))
                named;
          name_ok = nonempty;
          id_ok = refl;
          socket_ok = taken.0;
        },
        (rand % 10 + 1, refl, omega arith, omega (arith, small)),
      )
