-- ===== src/Tests/Sessions.antt =====
-- Connections to a server whose table is `busy`.
use dropbox_simulator.Common.{
  ◌≡◌, refl, ◌⊎◌, inl, ◌<◌, ◌≤◌, ℤ, pos, Bytes, same, [], ◌∷◌, ◌++◌, replicate, length-replicate,
  none, false, true, arith, ◌==◌,
}
use dropbox_simulator.Registry.{
  Device, t1, max_users, number_of_users_logged, free_device, count_devices,
}
use dropbox_simulator.Registry.Lookup.{devices_of, device_with}
use dropbox_simulator.Registry.Writes.{with_id}
use dropbox_simulator.Thread.{exits, blocks}
use dropbox_simulator.Wire.{Connection}
use dropbox_simulator.Server.{World, conn, server_conn}
use dropbox_simulator.Server.Session.{handle_user_controller_structure, serve_connection}
use dropbox_simulator.Server.Session.Broadcast.{Steady}
use dropbox_simulator.Server.Session.Handshake.{
  Admissible, KnownOutcome, Refuses, Admits, handle_user_controller_structure_lem,
}
use dropbox_simulator.Server.Session.Outcome.{IsRefused}
use dropbox_simulator.Server.Session.Lock.{
  Session, refused_connection_locks_out, accepted_connection,
}
use dropbox_simulator.Tests.Tables.{ana, bia, busy, busy-IsValid}

-- A server with one backup server and no one in the critical section.
abbrev pub busy_world : World
busy_world = record {
  users = busy;
  servers = record { id = pos 14; socket = pos 30 } ∷ [];
  user_lock = 1;
  server_lock = 1;
  net = record { inbox = []; accepts = []; outbox = [] };
  closed = [];
  spawned = [];
  files = λ _. none;
  dirs = λ _. false;
  writable = λ _. true;
  indeterminate = λ n. replicate n 0xab;
}

pub busy_world-Steady : Steady busy_world
busy_world-Steady = record { whole_writes = refl; memory = λ n. length-replicate n 0xab }

abbrev pub connection_of : Bytes → ℤ → Connection
connection_of name device = record {
  packet_type = conn;
  socket_type = t1;
  device = device;
  username = name ++ replicate 97 0;
  socket = pos 3;
  padding = replicate 4 0;
}

tablet-Admissible : Admissible ana (connection_of ana (pos 9))
unfolding same
tablet-Admissible = record { is_named = refl; name_ok = refl; id_ok = refl; socket_ok = refl }

pub bia_tablet-Admissible : Admissible bia (connection_of bia (pos 9))
unfolding same
bia_tablet-Admissible = record { is_named = refl; name_ok = refl; id_ok = refl; socket_ok = refl }

handle_user_controller_structure_lem_example :
    let connection = connection_of ana (pos 9) in
    let r = handle_user_controller_structure connection (pos 21) busy_world in
    KnownOutcome ana connection (pos 21) tablet-Admissible busy_world r
    ⊎ ((devices_of ana busy ≡ none)
        × (max_users ≤ number_of_users_logged busy)
        × Refuses "nack1" (pos 21) busy_world r)
    ⊎ ((devices_of ana busy ≡ none)
        × (number_of_users_logged busy < max_users)
        × Admits ana connection (pos 21) (with_id (pos 9) free_device) busy_world r)
handle_user_controller_structure_lem_example =
    handle_user_controller_structure_lem ana (connection_of ana (pos 9)) (pos 21) tablet-Admissible
      busy_world busy_world-Steady busy-IsValid

refused_connection_locks_out_example :
    let (r, u) = serve_connection (connection_of ana (pos 9)) (pos 21) busy_world in
    (r ≡ exits)
    × (u.users ≡ busy)
    × ((later : Connection) (s : ℤ)
        → (later.packet_type == server_conn) ≡ false
        → serve_connection later s u ≡ (blocks, u))
unfolding same devices_of device_with count_devices
refused_connection_locks_out_example =
    refused_connection_locks_out ana (connection_of ana (pos 9)) (pos 21) tablet-Admissible
      busy_world busy_world-Steady busy-IsValid refl refl (refl, inl (_, refl, refl))

accepted_connection_example :
    (d e : Device) × Session bia
      (connection_of bia (pos 9))
      (pos 22)
      bia_tablet-Admissible
      busy_world
      d
      e
      (serve_connection (connection_of bia (pos 9)) (pos 22) busy_world)
unfolding same devices_of device_with count_devices
accepted_connection_example =
    accepted_connection bia (connection_of bia (pos 9)) (pos 22) bia_tablet-Admissible busy_world
      busy_world-Steady busy-IsValid refl refl (omega arith) bia_has_room
  where
    bia_has_room : ¬ IsRefused bia (connection_of bia (pos 9)) busy_world
    bia_has_room h = ground arith
