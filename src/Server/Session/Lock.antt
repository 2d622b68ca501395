-- ===== src/Server/Session/Lock.antt =====
-- The semaphore around the table of users, through `mediatorThread`.
use Prim.Native.String.{String}
use dropbox_simulator.Common.{
  ◌<◌, ◌≡◌, refl, sym, inl, inr, true, false, ℤ, Bytes, length, ◌==◌, same_refl, some, arith,
}
use dropbox_simulator.Registry.{Device, Users, free_device}
use dropbox_simulator.Registry.Writes.{with_id}
use dropbox_simulator.Registry.Contracts.{IsFound, HasSocket, set_socket-HasSocket}
use dropbox_simulator.Registry.Invariant.{IsValid}
use dropbox_simulator.Registry.Sessions.{Updates}
use dropbox_simulator.Thread.{Result, done, exits, blocks}
use dropbox_simulator.Wire.{Connection}
use dropbox_simulator.Server.{World, wait_users, conn, server_conn}
use dropbox_simulator.Server.Session.{
  handle_user_controller_structure, serve_connection, socket_type_arg,
}
use dropbox_simulator.Server.Session.Broadcast.{Steady}
use dropbox_simulator.Server.Session.Handshake.{
  Admissible, Refuses, handle_user_controller_structure_lem, connected,
}
use dropbox_simulator.Server.Session.Outcome.{
  IsRefused, threads_for, user_path, admitted, admitted_lem,
}

module _ (name : Bytes) (connection : Connection) (socket : ℤ)
    (ok : Admissible name connection) where
  handle_refused :
      (w : World)
      → Steady w
      → IsValid w.users
      → IsRefused name connection w
      → (message : String) × Refuses message socket w
          (handle_user_controller_structure connection socket w)
  handle_refused w h v (fresh, why) =
      elim (handle_user_controller_structure_lem name connection socket ok w h v) [
        | inl (inl (d, there, _)) ↦ absurd (ground arith)
        | inl (inr (inl (ds, _, at, room, _))) ↦ absurd (ground arith)
        | inl (inr (inr (ds, _, at, full, r))) ↦ ("nack3", r)
        | inr (inl (at, full, r)) ↦ ("nack1", r)
        | inr (inr (at, room, _)) ↦ absurd (ground arith)
      ]

  -- A connection that is refused ends its thread inside the critical section: the semaphore is
  -- never posted, and from then on the thread of every connection of a client blocks, whoever it
  -- is from. (With whole writes, a well-formed table, the semaphore free and a connection of a
  -- client, with a name that is not empty, an id that is not -1 and one of the three socket types,
  -- whose device is not there and has no room.)
  pub refused_connection_locks_out :
      (w : World)
      → Steady w
      → IsValid w.users
      → w.user_lock ≡ 1
      → (connection.packet_type == server_conn) ≡ false
      → IsRefused name connection w
      → let (r, u) = serve_connection connection socket w in
        (r ≡ exits)
        × (u.users ≡ w.users)
        × ((later : Connection) (s : ℤ)
            → (later.packet_type == server_conn) ≡ false
            → serve_connection later s u ≡ (blocks, u))
  unfolding serve_connection wait_users
  refused_connection_locks_out w h v free client refused =
      let entered : World = record w { user_lock = 0 } in
      let (message, r) =
        handle_refused entered (record { whole_writes = h.whole_writes; memory = h.memory }) v
          refused in
      rw (client, free) (rw r (refl, refl, λ later s is_client. rw is_client))

  -- What an admitted connection leaves behind; `d` is the device before it, `e` after it.
  abbrev pub Session : World → Device → Device → Result (Unit {0}) × World → Type 0
  Session w d e (r, u) =
      (r ≡ done tt)
      × (u.user_lock ≡ w.user_lock)
      × IsValid u.users
      × IsFound name connection.device w.users d
      × HasSocket (socket_type_arg connection.socket_type) socket d e
      × Updates name connection.device (some e) w.users u.users
      × (u.dirs (user_path name connection socket ok) ≡ true)
      × (u.spawned ≡ threads_for name connection socket ok w.spawned)

  admission :
      (w : World) (us : Users) (d : Device)
      → w.user_lock ≡ 1
      → IsFound name connection.device w.users d
      → IsValid us
      → Updates name connection.device (some (connected connection socket d)) w.users us
      → serve_connection connection socket w ≡ (done tt, admitted name connection socket ok w us)
      → (d e : Device) × Session w d e (serve_connection connection socket w)
  admission w us d free found valid up r = (
    d,
    connected connection socket d,
    rw r (
      refl,
      sym free,
      valid,
      found,
      set_socket-HasSocket socket (socket_type_arg connection.socket_type) d ok.socket_ok,
      up,
      rw (same_refl (user_path name connection socket ok)),
      refl,
    ),
  )

  -- A connection that is let in, of a user whose name has at most 38 bytes, leaves the semaphore
  -- as it was, the table well formed, the user's directory in place and the thread for its socket
  -- started. The device, which was in the table or is a new one without sockets, is then there with
  -- the socket of the connection; its other two sockets, and every other device, are as they were.
  -- (With whole writes, a well-formed table, the semaphore free and a connection packet with a name
  -- that is not empty, an id that is not -1 and one of the three socket types, whose device is
  -- there or has room.)
  pub accepted_connection :
      (w : World)
      → Steady w
      → IsValid w.users
      → w.user_lock ≡ 1
      → connection.packet_type ≡ conn
      → length name < 39
      → ¬ IsRefused name connection w
      → (d e : Device) × Session w d e (serve_connection connection socket w)
  accepted_connection w h v free is_conn short welcome =
      let entered : World = record w { user_lock = 0 } in
      elim (handle_user_controller_structure_lem name connection socket ok entered
        (record { whole_writes = h.whole_writes; memory = h.memory }) v) [
          | inl (inl (d, there, (us, r, valid, up))) ↦
              admission w us d free (inl there) valid up
                (admitted_lem name connection socket ok w us free is_conn short r)
          | inl (inr (inl (ds, fresh, at, room, (us, r, valid, up)))) ↦
              admission w us (with_id connection.device free_device) free (inr (fresh, refl)) valid
                up (admitted_lem name connection socket ok w us free is_conn short r)
          | inl (inr (inr (ds, fresh, at, full, r))) ↦ absurd (welcome (fresh, inl (ds, at, full)))
          | inr (inl (at, full, r)) ↦ absurd (welcome (ground arith, inr (at, full)))
          | inr (inr (at, room, (us, r, valid, up))) ↦
              admission w us (with_id connection.device free_device) free (inr (ground arith, refl))
                valid up (admitted_lem name connection socket ok w us free is_conn short r)
        ]
