-- ===== src/Server/Session/Handshake.antt =====
-- Who is let in, and what the table of users and the sockets see of it.
use Prim.Native.String.{String}
use dropbox_simulator.Common.{
  ◌<◌, ◌≤◌, ◌≡◌, ◌≢◌, ap, ◌∙◌, ◌⊎◌, inl, inr, true, ℤ, Bytes, text, c_string, List, [], ◌∷◌, ◌++◌,
  Option, none, some, arith, same_iff, int_eq_iff,
}
use dropbox_simulator.Registry.{
  Device, Users, free_device, insert_user, insert_socket, is_socket_type, set_socket, defined,
  max_users, max_devices, count_devices, number_of_users_logged,
}
use dropbox_simulator.Registry.Lookup.{devices_of, device_of}
use dropbox_simulator.Registry.Writes.{with_id}
use dropbox_simulator.Registry.Invariant.{IsValid}
use dropbox_simulator.Registry.Sessions.{IsName, IsId, Updates}
use dropbox_simulator.Registry.Refinement.{
  insert_device-Inserted, insert_socket_lem, insert_user_lem,
}
use dropbox_simulator.Thread.{Result, done, exits}
use dropbox_simulator.Wire.{Connection}
use dropbox_simulator.Server.{World, from_checked}
use dropbox_simulator.Server.Session.{
  accept, reject, handle_known_user, handle_new_user, handle_user_controller_structure,
  socket_type_arg,
}
use dropbox_simulator.Server.Session.Broadcast.{
  Steady, having_sent, having_sent_twice, write_ack_lem, announcements, announce_lem,
}

reject_lem :
    (socket : ℤ) (message : String) (w : World)
    → Steady w
    → reject socket message w ≡ (exits, having_sent ((socket, text message) ∷ []) w)
unfolding reject
reject_lem socket message w h = rw (write_ack_lem socket message w h)

-- What a client is answered and the backup servers are told, on acceptance.
abbrev pub acceptance : World → Connection → ℤ → List (ℤ × Bytes)
acceptance w connection socket = ((socket, text "ack") ∷ []) ++ announcements w connection

-- The device with the socket of a new connection.
abbrev pub connected : Connection → ℤ → Device → Device
connected connection socket = set_socket socket (socket_type_arg connection.socket_type)

pub accept_lem :
    (user : Bytes) (connection : Connection) (socket : ℤ) (w : World) (vs : Users)
    → Steady w
    → insert_socket user connection.device socket (socket_type_arg connection.socket_type) w.users
      ≡ defined vs
    → accept user connection socket w
      ≡ (done tt, having_sent (acceptance w connection socket) (record w { users = vs }))
unfolding accept
accept_lem user connection socket w vs h e =
    rw (e, from_checked)
      (rw
        (write_ack_lem socket "ack" (record w { users = vs })
          (record { whole_writes = h.whole_writes; memory = h.memory }))
        (announce_lem connection (having_sent ((socket, text "ack") ∷ []) (record w { users = vs }))
            (record { whole_writes = h.whole_writes; memory = h.memory })
          ∙ ap (λ u. (done tt, u))
              (having_sent_twice ((socket, text "ack") ∷ []) (announcements w connection)
                (record w { users = vs }))))

-- A connection of a session: a name and an id that are in use, and one of the three sockets.
pub record Admissible (name : Bytes) (connection : Connection) : Type 0 where
  pub is_named : c_string connection.username ≡ some name
  pub name_ok : IsName name
  pub id_ok : IsId connection.device
  pub socket_ok : is_socket_type (socket_type_arg connection.socket_type) ≡ true

-- The thread goes on; the device, `d` before the socket is set, is in the table with the socket,
-- and nothing else of the table has changed; the client has an "ack" and the backup servers know.
abbrev pub Admits : Bytes → Connection → ℤ → Device → World → Result (Unit {0}) × World → Type 0
Admits name connection socket d w r =
    (us : Users) × (r
      ≡ (done tt, having_sent (acceptance w connection socket) (record w { users = us })))
    × IsValid us
    × Updates name connection.device (some (connected connection socket d)) w.users us

-- The thread ends; the client has the answer, and nothing else has changed.
abbrev pub Refuses : String → ℤ → World → Result (Unit {0}) × World → Type 0
Refuses message socket w r = r ≡ (exits, having_sent ((socket, text message) ∷ []) w)

module _ (name : Bytes) (connection : Connection) (socket : ℤ)
    (ok : Admissible name connection) where
  accept-Admits :
      (w : World) (d : Device)
      → Steady w
      → IsValid w.users
      → device_of name connection.device w.users ≡ some d
      → Admits name connection socket d w (accept name connection socket w)
  accept-Admits w d h v e =
      let (us, r, valid, updates) =
        insert_socket_lem name connection.device w.users ok.name_ok ok.id_ok v socket
          (socket_type_arg connection.socket_type) d ok.socket_ok e in
      (us, accept_lem name connection socket w us h r, valid, updates)

  -- Of two updates of one device the second counts.
  Updates-Updates :
      (x y : Option Device) (us vs ts : Users)
      → Updates name connection.device x us vs
      → Updates name connection.device y vs ts
      → Updates name connection.device y us ts
  Updates-Updates x y us vs ts p q n k hn hk = ground (arith, p n k hn hk, q n k hn hk)

  -- The device has just been put into the table.
  accept_new-Admits :
      (w : World) (vs : Users)
      → Steady w
      → IsValid vs
      → Updates name connection.device (some (with_id connection.device free_device)) w.users vs
      → Admits name connection socket
          (with_id connection.device free_device)
          w
          (accept name connection socket (record w { users = vs }))
  accept_new-Admits w vs h v p =
      let d = with_id connection.device free_device in
      let there : device_of name connection.device vs ≡ some d = ground (
        arith,
        p name connection.device ok.name_ok ok.id_ok,
        same_iff name name,
        int_eq_iff connection.device connection.device,
      ) in
      let (us, r, valid, q) =
        accept-Admits (record w { users = vs }) d
          (record { whole_writes = h.whole_writes; memory = h.memory }) v there in
      (
        us,
        r,
        valid,
        Updates-Updates (some d) (some (connected connection socket d)) w.users vs us p q,
      )

  -- How a connection of a user who is in the table ends.
  abbrev pub KnownOutcome : World → Result (Unit {0}) × World → Type 0
  KnownOutcome w r =
      ((d : Device) × (device_of name connection.device w.users ≡ some d)
        × Admits name connection socket d w r)
      ⊎ ((ds : List Device) × (device_of name connection.device w.users ≡ none)
          × (devices_of name w.users ≡ some ds)
          × (count_devices ds < max_devices)
          × Admits name connection socket (with_id connection.device free_device) w r)
      ⊎ ((ds : List Device) × (device_of name connection.device w.users ≡ none)
          × (devices_of name w.users ≡ some ds)
          × (count_devices ds ≡ max_devices)
          × Refuses "nack3" socket w r)

  handle_known_user_lem :
      (w : World)
      → Steady w
      → IsValid w.users
      → devices_of name w.users ≢ none
      → KnownOutcome w (handle_known_user name connection socket w)
  unfolding handle_known_user
  handle_known_user_lem w h v known =
      let (code, vs, r, valid, outcome) =
        insert_device-Inserted name connection.device w.users ok.name_ok ok.id_ok v in
      elim outcome [
        | inl (c, missing, same_table) ↦ absurd (known missing)
        | inr (inl (d, c, there, same_table)) ↦
            inl (d, there, rw (r, from_checked) (rw (c, same_table) (accept-Admits w d h v there)))
        | inr (inr (inl (ds, c, fresh, at, full, same_table))) ↦ inr (
            inr (
              ds,
              fresh,
              at,
              full,
              rw (r, from_checked) (rw (c, same_table) (reject_lem socket "nack3" w h)),
            ))
        | inr (inr (inr (ds, c, fresh, at, room, p))) ↦ inr (
            inl
              (ds, fresh, at, room, rw (r, from_checked) (rw c (accept_new-Admits w vs h valid p))))
      ]

  handle_new_user_lem :
      (w : World) (us : Users) (ds : List Device)
      → Steady w
      → IsValid us
      → ((n : Bytes) (k : ℤ) → IsName n → IsId k → device_of n k us ≡ device_of n k w.users)
      → devices_of name w.users ≡ none
      → devices_of name us ≡ some ds
      → count_devices ds ≡ 0
      → Admits name connection socket
          (with_id connection.device free_device)
          w
          (handle_new_user name connection socket (record w { users = us }))
  unfolding handle_new_user
  handle_new_user_lem w us ds h v unchanged stranger at empty =
      let (code, vs, r, valid, outcome) =
        insert_device-Inserted name connection.device us ok.name_ok ok.id_ok v in
      elim outcome [
        | inl (c, missing, same_table) ↦ absurd (ground arith)
        | inr (inl (d, c, there, same_table)) ↦
            absurd (ground (arith, unchanged name connection.device ok.name_ok ok.id_ok))
        | inr (inr (inl (es, c, fresh, at', full, same_table))) ↦ absurd (ground arith)
        | inr (inr (inr (es, c, fresh, at', room, p))) ↦
            rw (r, from_checked)
              (rw c (
                accept_new-Admits w vs h valid
                  (λ n k hn hk. ground (arith, p n k hn hk, unchanged n k hn hk))))
      ]

  -- Where every write takes all it is given, in a well-formed table, for a connection with a name
  -- that is not empty, an id that is not -1 and one of the three socket types,
  -- `handle_user_controller_structure` returns or ends the thread, and never faults. A device
  -- that is in the table is let in; so is a new one of a user with fewer than two devices, and of
  -- a new user while fewer than five are logged in: the table, still well formed, then has that
  -- device with the socket set and is otherwise as it was, the client is sent "ack" and every
  -- backup server the connection. A third device is sent "nack3" and a sixth user "nack1"; then
  -- the thread ends, and nothing but that answer has changed.
  pub handle_user_controller_structure_lem :
      (w : World)
      → Steady w
      → IsValid w.users
      → let r = handle_user_controller_structure connection socket w in
        KnownOutcome w r
        ⊎ ((devices_of name w.users ≡ none)
            × (max_users ≤ number_of_users_logged w.users)
            × Refuses "nack1" socket w r)
        ⊎ ((devices_of name w.users ≡ none)
            × (number_of_users_logged w.users < max_users)
            × Admits name connection socket (with_id connection.device free_device) w r)
  unfolding handle_user_controller_structure
  handle_user_controller_structure_lem w h v =
      let (valid, unchanged, outcome) = insert_user_lem name w.users ok.name_ok v in
      elim outcome [
        | inl (r, known) ↦ inl (rw (ok.is_named, r) (handle_known_user_lem w h v known))
        | inr (inl (r, stranger, full)) ↦
            inr (inl (stranger, full, rw (ok.is_named, r) (reject_lem socket "nack1" w h)))
        | inr (inr (r, stranger, room, (ds, at, empty))) ↦ inr (
            inr (
              stranger,
              room,
              rw ok.is_named (
                  rw r (
                    handle_new_user_lem w (insert_user name w.users).1 ds h valid unchanged stranger
                      at empty)),
            ))
      ]
