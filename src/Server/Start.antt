-- ===== src/Server/Start.antt =====
-- The start of a server (server-side/source/Server.cpp:73-81), and what follows from it for the
-- runs that begin with it.
use dropbox_simulator.Common.{
  ◌≡◌, refl, sym, ap, subst, ◌∙◌, ◌⊎◌, true, false, ℤ, Bytes, same, same_iff, List, [], ◌∷◌, map,
  length, if◌then◌else◌, none, some, arith,
}
use dropbox_simulator.Registry.{
  Device, Users, free_device, max_users, initiate_user_controller_structure,
}
use dropbox_simulator.Registry.Lookup.{devices_of, device_with, HasSlots}
use dropbox_simulator.Registry.Invariant.{IsValid}
use dropbox_simulator.Registry.Removal.{initiate-IsValid}
use dropbox_simulator.Registry.Sessions.{IsName, IsId}
use dropbox_simulator.Registry.Sockets.{socketless, socketless_user, socketless_device}
use dropbox_simulator.Server.{World, database_dir}
use dropbox_simulator.Server.Backups.{initiate_backup_server_structure}
use dropbox_simulator.Server.Session.Broadcast.{Steady}
use dropbox_simulator.Server.History.{
  Change, after_changes, is_connected, is_some, Reaches, WasRefused,
}
use dropbox_simulator.Server.History.Runs.{Reaches-Standing}
use dropbox_simulator.Server.Replica.Runs.{Mirrors}

-- What `run` does before its loop, but for `getBackupServersIPs`.
unfoldable pub start_server : World → World
start_server w = record w {
  users = initiate_user_controller_structure w.users;
  servers = initiate_backup_server_structure w.servers;
  user_lock = 1;
  server_lock = 1;
  dirs = λ p. if same p database_dir then true else w.dirs p;
}

-- The arrays of the program: five users with two devices each.
pub record HasArrays (w : World) : Type 0 where
  pub users_size : length w.users ≡ max_users
  pub users_slots : HasSlots w.users

nobody_there :
    (n : Bytes) (us : Users)
    → IsName n
    → devices_of n (initiate_user_controller_structure us) ≡ none
unfolding devices_of initiate_user_controller_structure same
nobody_there n [] hn = refl
nobody_there n (u ∷ us) hn = ground (arith, nobody_there n us hn, same_iff [] n, same_iff n [])

-- From its start on, whatever sequence of connections, uploads, deletions and exits a server goes
-- through, its table is well formed, and either the semaphore is free and a device is connected
-- just if it has come and not left since, or a connection has been refused, the semaphore is
-- taken, and the table is as it was at that refusal. (With whole writes, and the connections,
-- uploads, deletions and exits as in `Turn`: admissible connections with names of less than 39
-- bytes, exits of sessions whose device is there, and uploads and deletions by users who are
-- there, of files with paths of less than 100 bytes; for a name that is not empty and an id that
-- is not -1.)
pub start_server-Standing :
    {w u : World} {cs : List Change} (n : Bytes) (k : ℤ)
    → Reaches (start_server w) cs u
    → HasArrays w
    → Steady w
    → IsName n
    → IsId k
    → IsValid u.users
      × (((u.user_lock ≡ 1) × (is_connected n k u.users ≡ after_changes n k false cs))
          ⊎ ((u.user_lock ≡ 0) × WasRefused (start_server w) u))
unfolding start_server
start_server-Standing {w} {u} {cs} n k r arrays h hn hk =
    let (steady, servers, valid, stands) =
      Reaches-Standing n k r (record { whole_writes = h.whole_writes; memory = h.memory })
        (record { users_free = refl; servers_free = refl })
        (initiate-IsValid w.users arrays.users_size arrays.users_slots) hn hk in
    let before : is_connected n k (initiate_user_controller_structure w.users) ≡ false =
      ap (λ x. is_some (elim x [ none ↦ none | some ds ↦ device_with k ds ]))
        (nobody_there n w.users hn) in
    (
      valid,
      subst
          (λ b.
            ((u.user_lock ≡ 1) × (is_connected n k u.users ≡ after_changes n k b cs))
            ⊎ ((u.user_lock ≡ 0) × WasRefused (start_server w) u))
          before stands,
    )

freed_alike :
    (ds es : List Device)
    → length ds ≡ length es
    → map socketless_device (map (λ _. free_device) ds)
      ≡ map socketless_device (map (λ _. free_device) es)
freed_alike [] [] e = refl
freed_alike [] (x ∷ es) e = absurd (omega arith)
freed_alike (d ∷ ds) [] e = absurd (omega arith)
freed_alike (d ∷ ds) (x ∷ es) e =
    ap (◌∷◌ (socketless_device free_device)) (freed_alike ds es (omega arith))

initiated_alike :
    (us vs : Users)
    → HasSlots us
    → HasSlots vs
    → length us ≡ length vs
    → socketless (initiate_user_controller_structure us)
      ≡ socketless (initiate_user_controller_structure vs)
unfolding initiate_user_controller_structure socketless_user
initiated_alike [] [] h g e = refl
initiated_alike [] (v ∷ vs) h g e = absurd (omega arith)
initiated_alike (u ∷ us) [] h g e = absurd (omega arith)
initiated_alike (u ∷ us) (v ∷ vs) (h, hs) (g, gs) e =
    rw (freed_alike u.devices v.devices (h ∙ sym g), initiated_alike us vs hs gs (omega arith)) refl

-- Two servers that have started over the same files have the same.
pub start_server-Mirrors :
    (w b : World)
    → HasArrays w
    → HasArrays b
    → w.files ≡ b.files
    → w.dirs ≡ b.dirs
    → w.writable ≡ b.writable
    → Mirrors (start_server w) (start_server b)
unfolding start_server
start_server-Mirrors w b hw hb files dirs writable = record {
  same_tables =
      initiated_alike w.users b.users hw.users_slots hb.users_slots
        (hw.users_size ∙ sym hb.users_size);
  same_files = files;
  same_dirs = ap (λ d p. if same p database_dir then true else d p) dirs;
  same_writable = writable;
  backup_IsValid = initiate-IsValid b.users hb.users_size hb.users_slots;
}
