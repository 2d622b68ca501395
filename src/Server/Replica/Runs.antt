-- ===== src/Server/Replica/Runs.antt =====
-- A primary server that serves clients, and a backup server that is told of it
-- (server-side/source/Server.cpp:16-71, 124-261 and 899-1049).
pub mod Messages
pub mod Steps
pub mod Mirroring
use dropbox_simulator.Common.{
  ℕ, zero, suc, ◌≡◌, ◌<◌, ◌≤◌, ◌^◌, true, false, ℤ, int_eq, Bytes, List, [], ◌∷◌, ◌++◌, length, All,
  NoNul, c_string, if◌then◌else◌, some,
}
use dropbox_simulator.Registry.{Device}
use dropbox_simulator.Registry.Lookup.{devices_of}
use dropbox_simulator.Registry.Invariant.{IsValid}
use dropbox_simulator.Registry.Sockets.{socketless}
use dropbox_simulator.Thread.{Answer}
use dropbox_simulator.Wire.{Connection, CommandPacket}
use dropbox_simulator.Wire.Laws.{ConnectionFits}
use dropbox_simulator.Server.{World, UserCurrentSocket, conn}
use dropbox_simulator.Server.Backups.{server_sockets}
use dropbox_simulator.Server.Session.{serve_connection}
use dropbox_simulator.Server.Session.Broadcast.{Steady}
use dropbox_simulator.Server.Session.Handshake.{Admissible}
use dropbox_simulator.Server.Session.Outcome.{IsRefused}
use dropbox_simulator.Server.Commands.{dispatch, upload, delete, file_path}
use dropbox_simulator.Server.Commands.Peers.{facing, peer_sockets}
use dropbox_simulator.Server.Commands.Propagation.{Unlocked}
use dropbox_simulator.Server.Commands.Upload.{uploading}

-- Of all that was written, what went to one socket.
unfoldable pub written_to : ℤ → List (ℤ × Bytes) → List (ℤ × Bytes)
written_to k [] = []
written_to k (m ∷ ms) = let rest = written_to k ms in if int_eq m.0 k then m ∷ rest else rest

-- None of the sockets is `k`.
abbrev pub Others : ℤ → List ℤ → Type 0
Others k = All (λ j. int_eq j k ≡ false)

-- `k` is the socket of one of the backup servers.
abbrev pub HasBackup : ℤ → World → Type 0
HasBackup k w =
    (before : List ℤ) × (after : List ℤ) × (server_sockets w.servers ≡ before ++ (k ∷ after))
    × Others k before
    × Others k after

-- A primary server with a backup at its socket `k`, between two commands.
pub record IsPrimary (k : ℤ) (w : World) : Type 0 where
  pub steady : Steady w
  pub unlocked : Unlocked w
  pub table_IsValid : IsValid w.users
  pub has_backup : HasBackup k w

-- A server and a backup that has all that it has: the same users with the same devices in the
-- same slots, the same files and the same directories. The sockets are each server's own.
pub record Mirrors (p b : World) : Type 0 where
  pub same_tables : socketless p.users ≡ socketless b.users
  pub same_files : p.files ≡ b.files
  pub same_dirs : p.dirs ≡ b.dirs
  pub same_writable : p.writable ≡ b.writable
  pub backup_IsValid : IsValid b.users

-- The primary serves a client, on sockets that are not that of the backup: a connection is let
-- in, or a user who is there uploads or deletes a file.
pub data Serves (k : ℤ) : World → World → Type 0 where
  connects :
      {w : World} (name : Bytes) (connection : Connection) (socket : ℤ)
      → Admissible name connection
      → connection.packet_type ≡ conn
      → ConnectionFits connection
      → length name < 39
      → ¬ IsRefused name connection w
      → int_eq socket k ≡ false
      → Serves k w (serve_connection connection socket w).1
  uploads :
      {w : World} (current : UserCurrentSocket) (command : CommandPacket)
      (name payload kind : Bytes) (rest : List Answer) (ds : List Device)
      → devices_of current.user_name w.users ≡ some ds
      → length kind ≤ 8
      → NoNul name
      → NoNul (file_path current.user_name name)
      → length (file_path current.user_name name) < 100
      → 0 < length payload
      → length payload < 2 ^ 31
      → w.writable (file_path current.user_name name) ≡ true
      → command.command ≡ upload
      → int_eq current.current_socket k ≡ false
      → Others k (peer_sockets current ds)
      → Serves k w
          (dispatch current command (facing (uploading current name payload kind rest) w)).1
  deletes :
      {w : World} (current : UserCurrentSocket) (command : CommandPacket) (name : Bytes)
      (ds : List Device)
      → devices_of current.user_name w.users ≡ some ds
      → c_string command.additional_info ≡ some name
      → NoNul (file_path current.user_name name)
      → length (file_path current.user_name name) < 100
      → command.command ≡ delete
      → Others k (peer_sockets current ds)
      → Serves k w (dispatch current command w).1

-- A number of clients served, one after the other.
pub data Runs (k : ℤ) : ℕ → World → World → Type 0 where
  start : {w : World} → Runs k 0 w w
  goes_on : {n : ℕ} {w t u : World} → Serves k w t → Runs k n t u → Runs k (suc n) w u
