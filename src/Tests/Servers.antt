-- ===== src/Tests/Servers.antt =====
-- The start of a server, an election and heartbeats.
use dropbox_simulator.Common.{
  ◌≡◌, refl, ◌⊎◌, inl, inr, ◌≤◌, ◌*◌, ◌-◌, suc, ℕ, true, false, pos, same, List, [], ◌∷◌, concat,
  replicate, arith,
}
use dropbox_simulator.Registry.Invariant.{IsValid}
use dropbox_simulator.Thread.{done, failed, got}
use dropbox_simulator.Server.{World}
use dropbox_simulator.Server.Session.{serve_connection}
use dropbox_simulator.Server.Session.Broadcast.{having_sent}
use dropbox_simulator.Server.Commands.Peers.{facing}
use dropbox_simulator.Server.History.{
  Change, after_changes, is_connected, connects, Reaches, start, goes_on, WasRefused,
}
use dropbox_simulator.Server.Start.{start_server, start_server-Standing}
use dropbox_simulator.Server.Election.{election, vote, election_split}
use dropbox_simulator.Server.Heartbeats.{send_heartbeats, heartbeats, send_heartbeats_lem}
use dropbox_simulator.Tests.Tables.{bia}
use dropbox_simulator.Tests.Sessions.{
  busy_world, busy_world-Steady, connection_of, bia_tablet-Admissible,
}

abbrev with_bia : World
with_bia = (serve_connection (connection_of bia (pos 9)) (pos 22) (start_server busy_world)).1

abbrev changes : List Change
changes = record { is_there = true; name = bia; device = pos 9 } ∷ []

bia_comes : Reaches (start_server busy_world) changes with_bia
bia_comes =
    goes_on start
      (connects bia (connection_of bia (pos 9)) (pos 22) bia_tablet-Admissible refl (omega arith))

start_server-Standing_example :
    IsValid with_bia.users
    × (((with_bia.user_lock ≡ 1)
          × (is_connected bia (pos 9) with_bia.users ≡ after_changes bia (pos 9) false changes))
        ⊎ ((with_bia.user_lock ≡ 0) × WasRefused (start_server busy_world) with_bia))
unfolding same
start_server-Standing_example =
    start_server-Standing bia (pos 9) bia_comes
      (record { users_size = refl; users_slots = omega arith }) busy_world-Steady refl refl

election_split_example :
    (election (pos 6) (pos 2) (facing (failed ∷ []) busy_world)
      ≡ (done true, facing [] (having_sent (vote (pos 6) (pos 2)) busy_world)))
    × (election (pos 8) (pos 3) (facing (got [] ∷ []) busy_world)
        ≡ (done true, facing [] (having_sent (vote (pos 8) (pos 3)) busy_world)))
election_split_example =
    election_split (pos 6) (pos 8) (pos 2) (pos 3) failed (got []) [] [] busy_world busy_world
      busy_world-Steady busy_world-Steady refl refl (inl refl) (inr refl)

-- Three beats in 1000 units of time, of which a second has 100.
send_heartbeats_lem_example :
    (n : ℕ) × (send_heartbeats 100 7 (250 ∷ 310 ∷ 607 ∷ 800 ∷ 1007 ∷ []) busy_world
      ≡ (done tt, having_sent (concat (replicate n (heartbeats busy_world))) busy_world))
    × (n * (3 * 100) ≤ 1007 - 7)
    × (1007 - 7 ≤ suc n * (3 * 100))
send_heartbeats_lem_example =
    send_heartbeats_lem 100 7 (250 ∷ 310 ∷ 607 ∷ 800 ∷ 1007 ∷ []) busy_world busy_world-Steady
      (omega arith)
