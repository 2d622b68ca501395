-- ===== src/Server/Session/Outcome.antt =====
-- What becomes of a connection in `mediatorThread` (server-side/source/Server.cpp:16-71), with the
-- semaphore free.
use Prim.Native.String.{String}
use dropbox_simulator.Common.{
  ◌<◌, ◌≤◌, ◌≡◌, refl, text, [], ◌⊎◌, inl, inr, true, false, ℤ, Bytes, List, ◌∷◌, ◌++◌, length,
  ◌==◌, ltb, same, if◌then◌else◌, none, some, arith, Bool-cases,
}
use dropbox_simulator.Registry.{
  Device, Users, free_device, max_users, max_devices, count_devices, number_of_users_logged, t1, t2,
}
use dropbox_simulator.Registry.Lookup.{devices_of, device_of}
use dropbox_simulator.Registry.Writes.{with_id}
use dropbox_simulator.Registry.Invariant.{IsValid}
use dropbox_simulator.Registry.Sessions.{Updates}
use dropbox_simulator.Thread.{Result, done, exits}
use dropbox_simulator.Wire.{Connection}
use dropbox_simulator.Server.{
  World, wait_users, post_users, conn, server_conn, create_user_directory, database_dir, slash,
  Spawn, UserCurrentSocket,
}
use dropbox_simulator.Server.Session.{
  handle_user_controller_structure, serve_connection, start_session,
}
use dropbox_simulator.Server.Session.Broadcast.{Steady, having_sent}
use dropbox_simulator.Server.Session.Handshake.{
  Admissible, handle_user_controller_structure_lem, acceptance, connected,
}

-- No one new can be let in: the user has two other devices, or is a sixth.
abbrev pub IsRefused : Bytes → Connection → World → Type 0
IsRefused name connection w =
    (device_of name connection.device w.users ≡ none)
    × (((ds : List Device) × (devices_of name w.users ≡ some ds) × (count_devices ds ≡ max_devices))
        ⊎ ((devices_of name w.users ≡ none) × (max_users ≤ number_of_users_logged w.users)))

module _ (name : Bytes) (connection : Connection) (socket : ℤ)
    (ok : Admissible name connection) where
  abbrev pub current : UserCurrentSocket
  current = record { user_name = name; current_device = connection.device; current_socket = socket }

  -- The thread that serves the socket: none for the third, on which the server only sends.
  abbrev pub threads_for : List Spawn → List Spawn
  threads_for before =
      if connection.socket_type == t1
      then Spawn.terminal current ∷ before
      else if connection.socket_type == t2
      then Spawn.inotify current ∷ before
      else before

  abbrev pub user_path : Bytes
  user_path = database_dir ++ (slash ++ name)

  start_session_lem :
      (w : World)
      → length name < 39
      → connection.packet_type ≡ conn
      → start_session connection socket w ≡ (
        done tt,
        record w {
          dirs = λ p. if same p user_path then true else w.dirs p;
          spawned = threads_for w.spawned;
        },
      )
  unfolding start_session create_user_directory
  start_session_lem w short is_conn =
      let fits : ltb (length user_path) 50 ≡ true = ground arith in
      let is_conn' : (connection.packet_type == conn) ≡ true = ground arith in
      rw (ok.is_named, fits)
        (rw is_conn' (elim (Bool-cases (connection.socket_type == t1)) [
          | inl first ↦ rw first
          | inr not_first ↦ rw not_first (elim (Bool-cases (connection.socket_type == t2)) [
            | inl second ↦ rw second
            | inr not_second ↦ rw not_second
          ])
        ]))

  -- The server after a connection that it lets in, where `us` is its table.
  abbrev pub admitted : World → Users → World
  admitted w us =
      record (having_sent (acceptance w connection socket)
        (record w { users = us; user_lock = 1 })) {
          dirs = λ p. if same p user_path then true else w.dirs p;
          spawned = threads_for w.spawned;
        }

  pub admitted_lem :
      (w : World) (us : Users)
      → w.user_lock ≡ 1
      → connection.packet_type ≡ conn
      → length name < 39
      → handle_user_controller_structure connection socket (record w { user_lock = 0 }) ≡ (
        done tt,
        having_sent (acceptance w connection socket) (record w { users = us; user_lock = 0 }),
      )
      → serve_connection connection socket w ≡ (done tt, admitted w us)
  unfolding serve_connection wait_users post_users
  admitted_lem w us free is_conn short r =
      let client : (connection.packet_type == server_conn) ≡ false = ground arith in
      let left : World =
        having_sent (acceptance w connection socket) (record w { users = us; user_lock = 1 }) in
      rw (client, free) (rw r (rw (start_session_lem left short is_conn) refl))

  -- With the semaphore free, a connection is refused, and its thread ends with the semaphore, or
  -- it is let in.
  abbrev pub Outcome : World → Result (Unit {0}) × World → Type 0
  Outcome w r =
      (IsRefused name connection w
        × ((message : String) × (r
              ≡ (exits, having_sent ((socket, text message) ∷ []) (record w { user_lock = 0 })))))
      ⊎ ((¬ IsRefused name connection w)
          × ((us : Users) × (d : Device) × (r ≡ (done tt, admitted w us))
              × IsValid us
              × Updates name connection.device (some (connected connection socket d)) w.users us))

  pub serve_connection_lem :
      (w : World)
      → Steady w
      → IsValid w.users
      → w.user_lock ≡ 1
      → connection.packet_type ≡ conn
      → length name < 39
      → Outcome w (serve_connection connection socket w)
  unfolding serve_connection wait_users
  serve_connection_lem w h v free is_conn short =
      let entered : World = record w { user_lock = 0 } in
      let client : (connection.packet_type == server_conn) ≡ false = ground arith in
      elim (handle_user_controller_structure_lem name connection socket ok entered
        (record { whole_writes = h.whole_writes; memory = h.memory }) v) [
          | inl (inl (d, there, (us, r, valid, up))) ↦
              inr (ground arith, (us, d, admitted_lem w us free is_conn short r, valid, up))
          | inl (inr (inl (ds, fresh, at, room, (us, r, valid, up)))) ↦ inr (
            ground arith,
            (
              us,
              with_id connection.device free_device,
              admitted_lem w us free is_conn short r,
              valid,
              up,
            ),
          )
          | inl (inr (inr (ds, fresh, at, full, r))) ↦
              inl ((fresh, inl (ds, at, full)), ("nack3", rw (client, free) (rw r refl)))
          | inr (inl (at, full, r)) ↦
              inl ((ground arith, inr (at, full)), ("nack1", rw (client, free) (rw r refl)))
          | inr (inr (at, room, (us, r, valid, up))) ↦ inr (
            ground arith,
            (
              us,
              with_id connection.device free_device,
              admitted_lem w us free is_conn short r,
              valid,
              up,
            ),
          )
        ]
