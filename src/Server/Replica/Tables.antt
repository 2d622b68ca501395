-- ===== src/Server/Replica/Tables.antt =====
-- What a connection makes of the tables of the primary server and of a backup server, apart from
-- the sockets (server-side/source/Server.cpp:249-263 and 808-897).
use mathlib.Core.Option
use dropbox_simulator.Common.{
  ◌≡◌, ◌≢◌, refl, sym, ap, ◌∙◌, ℤ, Bytes, List, map, Option, none, some, inl, inr, arith, same_iff,
  int_eq_iff,
}
use dropbox_simulator.Registry.{
  Device, Users, free_device, user_already_connected, Checked, defined, undefined, insert_user,
  insert_device, insert_socket, count_devices, number_of_users_logged,
}
use dropbox_simulator.Registry.Lookup.{devices_of, device_of}
use dropbox_simulator.Registry.Writes.{with_id}
use dropbox_simulator.Registry.Invariant.{IsValid}
use dropbox_simulator.Registry.Sessions.{Updates}
use dropbox_simulator.Registry.Refinement.{
  insert_user_lem, insert_device-Inserted, insert_socket_lem,
}
use dropbox_simulator.Registry.Sockets.{
  socketless, socketless_device, socketless_result, insert_user-socketless,
  insert_device-socketless, insert_socket-socketless, devices_of-socketless, device_of-socketless,
  number_of_users_logged-socketless, count_devices-socketless, Checked-cases,
}
use dropbox_simulator.Thread.{Result, done, faults}
use dropbox_simulator.Wire.{Connection}
use dropbox_simulator.Server.{World, from_checked}
use dropbox_simulator.Server.Session.{
  socket_type_arg, accept, handle_known_user, handle_new_user, handle_user_controller_structure,
}
use dropbox_simulator.Server.Session.Broadcast.{Steady, having_sent}
use dropbox_simulator.Server.Session.Handshake.{Admissible, acceptance, accept_lem}
use dropbox_simulator.Server.Session.Outcome.{IsRefused}
use dropbox_simulator.Server.Replica.Connections.{mirror_tables}

abbrev table_of : Users → Checked (ℤ × Users) → Users
table_of us (defined (code, vs)) = vs
table_of us undefined = us

-- The table, once the user and the device have been put into it.
unfoldable pub entered : Bytes → ℤ → Users → Users
entered name id us = table_of us (insert_device name id (insert_user name us).1)

entered_lem :
    (name : Bytes) (id : ℤ) (us : Users) (code : ℤ) (vs : Users)
    → insert_device name id (insert_user name us).1 ≡ defined (code, vs)
    → entered name id us ≡ vs
unfolding entered
entered_lem name id us code vs r = ap (table_of us) r

table_of-socketless :
    (us : Users) (r : Checked (ℤ × Users))
    → table_of (socketless us) (socketless_result r) ≡ socketless (table_of us r)
table_of-socketless us (defined (code, vs)) = refl
table_of-socketless us undefined = refl

entered-socketless :
    (name : Bytes) (id : ℤ) (us : Users)
    → entered name id (socketless us) ≡ socketless (entered name id us)
unfolding entered
entered-socketless name id us = rw (insert_user-socketless name us) (
    rw (insert_device-socketless name id (insert_user name us).1)
      (table_of-socketless us (insert_device name id (insert_user name us).1)))

-- Two tables that differ in their sockets differ in their sockets afterwards.
pub entered_alike :
    (name : Bytes) (id : ℤ) (us vs : Users)
    → socketless us ≡ socketless vs
    → socketless (entered name id us) ≡ socketless (entered name id vs)
entered_alike name id us vs e =
    sym (entered-socketless name id us) ∙ ap (entered name id) e ∙ entered-socketless name id vs

map_is_none : {A B : Type 0} (f : A → B) (o : Option A) → Option.map f o ≡ none → o ≡ none
map_is_none f none e = refl
map_is_none f (some a) e = absurd (ground arith)

map_is_some :
    {A B : Type 0} (f : A → B) (o : Option A) (b : B)
    → Option.map f o ≡ some b
    → (a : A) × (o ≡ some a) × (f a ≡ b)
map_is_some f none b e = absurd (ground arith)
map_is_some f (some a) b e = (a, refl, ground arith)

-- Who is refused does not depend on the sockets.
pub IsRefused-alike :
    (name : Bytes) (connection : Connection) (p b : World)
    → socketless p.users ≡ socketless b.users
    → IsRefused name connection b
    → IsRefused name connection p
IsRefused-alike name connection p b e (fresh, why) =
    let k = connection.device in
    let users_alike : Option.map (map socketless_device) (devices_of name p.users)
        ≡ Option.map (map socketless_device) (devices_of name b.users) =
      sym (devices_of-socketless name p.users)
      ∙ ap (devices_of name) e
      ∙ devices_of-socketless name b.users in
    (
      map_is_none socketless_device (device_of name k p.users) (
          sym (device_of-socketless name k p.users)
          ∙ ap (device_of name k) e
          ∙ device_of-socketless name k b.users
          ∙ ap (Option.map socketless_device) fresh),
      elim why [
        | inl (ds, at, full) ↦
            let (es, at', alike) =
              map_is_some (map socketless_device) (devices_of name p.users)
                (map socketless_device ds)
                (users_alike ∙ ap (Option.map (map socketless_device)) at) in
            inl (
              es,
              at',
              sym (count_devices-socketless es)
                  ∙ ap count_devices alike
                  ∙ count_devices-socketless ds
                  ∙ full,
            )
        | inr (stranger, many) ↦ inr (
          map_is_none (map socketless_device) (devices_of name p.users)
              (users_alike ∙ ap (Option.map (map socketless_device)) stranger),
          ground (
            arith,
            number_of_users_logged-socketless p.users,
            number_of_users_logged-socketless b.users,
            ap number_of_users_logged e,
          ),
        )
      ],
    )

module _ (name : Bytes) (connection : Connection) (ok : Admissible name connection) where
  -- The three calls on the table of a backup server enter the device.
  pub mirror_tables-entered :
      (w : World) (us : Users)
      → mirror_tables name connection ok w ≡ (done tt, record w { users = us })
      → socketless us ≡ socketless (entered name connection.device w.users)
  unfolding entered
  mirror_tables-entered w us e =
      let ts : Users = (insert_user name w.users).1 in
      elim (Checked-cases (insert_device name connection.device ts)) [
        | inr wrong ↦
            let run : mirror_tables name connection ok w ≡ (faults, record w { users = ts }) =
              rw (wrong, from_checked) refl in
            absurd (ground (arith, ap (λ x. x.0) (sym run ∙ e)))
        | inl ((code, vs), r) ↦
            elim (Checked-cases (
              insert_socket name connection.device connection.socket
                (socket_type_arg connection.socket_type) vs)) [
                  | inr wrong ↦
                      let run : mirror_tables name connection ok w
                          ≡ (faults, record w { users = vs }) =
                        rw (r, from_checked) (rw (wrong, from_checked) refl) in
                      absurd (ground (arith, ap (λ x. x.0) (sym run ∙ e)))
                  | inl (ss, s) ↦
                      let run : mirror_tables name connection ok w
                          ≡ (done tt, record w { users = ss }) =
                        rw (r, from_checked) (rw (s, from_checked) refl) in
                      ap (λ x. socketless x.1.users) (sym e ∙ run)
                      ∙ insert_socket-socketless name connection.device connection.socket
                          (socket_type_arg connection.socket_type) vs ss s
                      ∙ ap (λ x. socketless (table_of w.users x)) (sym r)
                ]
      ]

  -- The thread goes on, with the device entered.
  abbrev Enters : ℤ → Users → World → Result (Unit {0}) × World → Type 0
  Enters socket before w r =
      (us : Users) × (r
        ≡ (done tt, having_sent (acceptance w connection socket) (record w { users = us })))
      × (socketless us ≡ socketless (entered name connection.device before))

  accept-Enters :
      (socket : ℤ) (before : Users) (w : World) (vs : Users) (d : Device)
      → Steady w
      → IsValid vs
      → device_of name connection.device vs ≡ some d
      → entered name connection.device before ≡ vs
      → Enters socket before w (accept name connection socket (record w { users = vs }))
  accept-Enters socket before w vs d h v there e =
      let (us, r, _, _) =
        insert_socket_lem name connection.device vs ok.name_ok ok.id_ok v socket
          (socket_type_arg connection.socket_type) d ok.socket_ok there in
      (
        us,
        accept_lem name connection socket (record w { users = vs }) us
            (record { whole_writes = h.whole_writes; memory = h.memory }) r,
        insert_socket-socketless name connection.device socket
              (socket_type_arg connection.socket_type) vs us r
            ∙ ap socketless (sym e),
      )

  -- The device has just been put into the table.
  new_device-Enters :
      (socket : ℤ) (before : Users) (w : World) (us vs : Users)
      → Steady w
      → IsValid vs
      → Updates name connection.device (some (with_id connection.device free_device)) us vs
      → entered name connection.device before ≡ vs
      → Enters socket before w (accept name connection socket (record w { users = vs }))
  new_device-Enters socket before w us vs h v p e =
      accept-Enters socket before w vs (with_id connection.device free_device) h v
        (ground (
          arith,
          p name connection.device ok.name_ok ok.id_ok,
          same_iff name name,
          int_eq_iff connection.device connection.device,
        ))
        e

  known_user-Enters :
      (socket : ℤ) (w : World)
      → Steady w
      → IsValid w.users
      → ¬ IsRefused name connection w
      → insert_user name w.users ≡ (user_already_connected, w.users)
      → devices_of name w.users ≢ none
      → Enters socket w.users w (handle_known_user name connection socket w)
  unfolding handle_known_user
  known_user-Enters socket w h v welcome inserted known =
      let (code, vs, r, valid, outcome) =
        insert_device-Inserted name connection.device w.users ok.name_ok ok.id_ok v in
      let e : entered name connection.device w.users ≡ vs =
        entered_lem name connection.device w.users code vs
          (ap (λ x. insert_device name connection.device x.1) inserted ∙ r) in
      elim outcome [
        | inl (c, missing, same_table) ↦ absurd (known missing)
        | inr (inl (d, c, there, same_table)) ↦
            rw (r, from_checked)
              (rw (c, same_table)
                (accept-Enters socket w.users w w.users d h v there (e ∙ same_table)))
        | inr (inr (inl (ds, c, fresh, at, full, same_table))) ↦
            absurd (welcome (fresh, inl (ds, at, full)))
        | inr (inr (inr (ds, c, fresh, at, room, p))) ↦
            rw (r, from_checked) (rw c (new_device-Enters socket w.users w w.users vs h valid p e))
      ]

  new_user-Enters :
      (socket : ℤ) (w : World) (ds : List Device)
      → Steady w
      → IsValid (insert_user name w.users).1
      → devices_of name (insert_user name w.users).1 ≡ some ds
      → count_devices ds ≡ 0
      → device_of name connection.device (insert_user name w.users).1 ≡ none
      → Enters socket w.users w (
          handle_new_user name connection socket
            (record w { users = (insert_user name w.users).1 }))
  unfolding handle_new_user
  new_user-Enters socket w ds h v at empty unknown =
      let (code, vs, r, valid, outcome) =
        insert_device-Inserted name connection.device (insert_user name w.users).1 ok.name_ok
          ok.id_ok v in
      elim outcome [
        | inl (c, missing, same_table) ↦ absurd (ground arith)
        | inr (inl (d, c, there, same_table)) ↦ absurd (ground arith)
        | inr (inr (inl (es, c, fresh, at', full, same_table))) ↦ absurd (ground arith)
        | inr (inr (inr (es, c, fresh, at', room, p))) ↦
            rw (r, from_checked)
              (rw c (
                new_device-Enters socket w.users w (insert_user name w.users).1 vs h valid p
                  (entered_lem name connection.device w.users code vs r)))
      ]

  -- A connection that is let in enters the device.
  pub handle_user_controller_structure-entered :
      (socket : ℤ) (w : World)
      → Steady w
      → IsValid w.users
      → ¬ IsRefused name connection w
      → Enters socket w.users w (handle_user_controller_structure connection socket w)
  unfolding handle_user_controller_structure
  handle_user_controller_structure-entered socket w h v welcome =
      let (valid, unchanged, outcome) = insert_user_lem name w.users ok.name_ok v in
      elim outcome [
        | inl (r, known) ↦ rw (ok.is_named, r) (known_user-Enters socket w h v welcome r known)
        | inr (inl (r, stranger, full)) ↦ absurd (welcome (ground arith, inr (stranger, full)))
        | inr (inr (r, stranger, room, (ds, at, empty))) ↦ rw ok.is_named (
            rw r (
              new_user-Enters socket w ds h valid at empty
                (ground (arith, unchanged name connection.device ok.name_ok ok.id_ok))))
      ]
