-- ===== src/Server/Backups.antt =====
-- The table of backup servers (server-side/source/Server.cpp:437-460), and the loops that send
-- to each of them.
use dropbox_simulator.Common.{
  ℕ, suc, ◌≡◌, refl, ap, ◌⊎◌, inl, inr, false, ℤ, int_eq, List, [], ◌∷◌, ◌++◌, map, length,
  if◌then◌else◌, arith, Bool-cases,
}
use dropbox_simulator.Registry.{unused, success, error}
use dropbox_simulator.Thread.{pure, ◌>>◌}
use dropbox_simulator.Server.{BackupServer, Server}

abbrev free_server : BackupServer
free_server = record { id = unused; socket = unused }

-- `initiate_backup_server_structure`
unfoldable pub initiate_backup_server_structure : List BackupServer → List BackupServer
initiate_backup_server_structure = map λ _. free_server

-- `clean_server_structure`
unfoldable pub clean_server_structure : List BackupServer → List BackupServer
clean_server_structure = map λ _. free_server

-- `insert_server`: the first free slot takes the server.
unfoldable pub insert_server : ℤ → ℤ → List BackupServer → ℤ × List BackupServer
insert_server id socket [] = (error, [])
insert_server id socket (s ∷ ss) =
    let (code, rest) = insert_server id socket ss in
    if int_eq s.id unused
    then (success, record { id = id; socket = socket } ∷ ss)
    else (code, s ∷ rest)

-- `for (auto &server : backupServers) if (server.id != -1) { … }`
unfoldable pub for_each_server : (ℤ → Server (Unit {0})) → List BackupServer → Server (Unit {0})
for_each_server body [] = pure tt
for_each_server body (s ∷ ss) =
    let rest = for_each_server body ss in
    if int_eq s.id unused then rest else (body s.socket >> rest)

-- The sockets of the servers that are there, in the order of the table.
unfoldable pub server_sockets : List BackupServer → List ℤ
server_sockets [] = []
server_sockets (s ∷ ss) =
    let rest = server_sockets ss in if int_eq s.id unused then rest else s.socket ∷ rest

unfoldable pub free_servers : List BackupServer → ℕ
free_servers [] = 0
free_servers (s ∷ ss) = let n = free_servers ss in if int_eq s.id unused then suc n else n

-- With a free slot, a server whose id is not -1 is added, once, and the servers that are there
-- stay; with none, `insert_server` answers -1 and changes nothing.
pub insert_server_lem :
    (id socket : ℤ) (ss : List BackupServer)
    → int_eq id unused ≡ false
    → let (code, ts) = insert_server id socket ss in
      ((free_servers ss ≡ 0) × (code ≡ error) × (ts ≡ ss))
      ⊎ ((before after : List ℤ) × (code ≡ success)
          × (free_servers ss ≡ suc (free_servers ts))
          × (server_sockets ss ≡ before ++ after)
          × (server_sockets ts ≡ before ++ (socket ∷ after))
          × (length ts ≡ length ss))
unfolding insert_server server_sockets free_servers
insert_server_lem id socket [] n = inl (refl, refl, refl)
insert_server_lem id socket (s ∷ ss) n = elim (Bool-cases (int_eq s.id unused)) [
  | inl free ↦
      inr (
        [],
        server_sockets ss,
        ground arith,
        ground arith,
        ground arith,
        ground arith,
        ground arith,
      )
  | inr taken ↦ elim (insert_server_lem id socket ss n) [
    | inl (f, c, t) ↦ inl (ground arith, ground arith, ground arith)
    | inr (before, after, c, f, p, q, l) ↦ inr (
      s.socket ∷ before,
      after,
      ground arith,
      ground arith,
      ground arith,
      ground arith,
      ground arith,
    )
  ]
]

-- Whatever the table held, after `initiate_backup_server_structure` it has no server, and every
-- one of its slots is free.
pub initiate_backup_server_structure_lem :
    (ss : List BackupServer)
    → (server_sockets (initiate_backup_server_structure ss) ≡ [])
      × (free_servers (initiate_backup_server_structure ss) ≡ length ss)
      × (initiate_backup_server_structure ss ≡ clean_server_structure ss)
unfolding initiate_backup_server_structure clean_server_structure server_sockets free_servers
initiate_backup_server_structure_lem [] = (refl, refl, refl)
initiate_backup_server_structure_lem (s ∷ ss) =
    let (p, q, r) = initiate_backup_server_structure_lem ss in (p, ap suc q, refl)
