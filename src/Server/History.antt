-- ===== src/Server/History.antt =====
-- Any run of connections, uploads, deletions and exits on the server
-- (server-side/source/Server.cpp:16-71 and 899-1167), one after the other as the semaphore of the
-- table of users lets them.
pub mod Locked
pub mod Runs
use dropbox_simulator.Common.{
  ◌≡◌, ◌<◌, ◌≤◌, ◌^◌, NoNul, ◌⊎◌, inl, inr, refl, ap, ◌∙◌, true, false, Bool, ◌&&◌, ℤ, int_eq,
  Bytes, same, List, [], ◌∷◌, ◌++◌, length, c_string, ◌==◌, if◌then◌else◌, Option, none, some,
  arith,
}
use dropbox_simulator.Registry.{Device, Users}
use dropbox_simulator.Registry.Lookup.{devices_of, device_with, device_of}
use dropbox_simulator.Registry.Invariant.{IsValid}
use dropbox_simulator.Registry.Sessions.{Updates, IsName, IsId}
use dropbox_simulator.Thread.{Result, Answer, blocks, done, after, continue}
use dropbox_simulator.Wire.{Connection, CommandPacket}
use dropbox_simulator.Server.{World, UserCurrentSocket, conn, server_conn, wait_users}
use dropbox_simulator.Server.Session.{serve_connection}
use dropbox_simulator.Server.Session.Broadcast.{Steady, having_sent}
use dropbox_simulator.Server.Session.Handshake.{Admissible}
use dropbox_simulator.Server.Session.Outcome.{IsRefused, serve_connection_lem}
use dropbox_simulator.Server.Commands.{
  dispatch, upload, delete, exit, upload_file_command, propagate_upload, delete_file_command,
  remove_file, propagate_delete, file_path,
}
use dropbox_simulator.Server.Commands.Upload.{
  or_fault_lem, uploading, upload_received, upload_file_command_lem,
}
use dropbox_simulator.Server.Commands.Peers.{facing}
use dropbox_simulator.Server.Commands.Propagation.{Unlocked}
use dropbox_simulator.Server.Commands.Removal.{dispatch-exit, without, delete_file_command_lem}

-- A device of a user that came or left.
pub record Change : Type 0 where
  pub is_there : Bool
  pub name : Bytes
  pub device : ℤ

-- Whether a device is connected after these changes, the last one first.
unfoldable pub after_changes : Bytes → ℤ → Bool → List Change → Bool
after_changes n k before [] = before
after_changes n k before (c ∷ cs) =
    if same c.name n && int_eq c.device k then c.is_there else after_changes n k before cs

abbrev pub is_some : Option Device → Bool
is_some none = false
is_some (some d) = true

abbrev pub is_connected : Bytes → ℤ → Users → Bool
is_connected n k us = is_some (device_of n k us)

-- A connection of a client is served, the session of a device that is there is ended, a user
-- who is there uploads or deletes a file, or bytes arrive.
pub data Turn : World → List Change → World → Type 0 where
  connects :
      {w : World} (name : Bytes) (connection : Connection) (socket : ℤ)
      → Admissible name connection
      → connection.packet_type ≡ conn
      → length name < 39
      → Turn w
          (record { is_there = true; name = name; device = connection.device } ∷ [])
          (serve_connection connection socket w).1
  leaves :
      {w : World} (current : UserCurrentSocket) (command : CommandPacket) (ds : List Device)
      (d : Device)
      → IsName current.user_name
      → IsId current.current_device
      → devices_of current.user_name w.users ≡ some ds
      → device_with current.current_device ds ≡ some d
      → command.command ≡ exit
      → Turn w
          (record { is_there = false; name = current.user_name; device = current.current_device }
            ∷ [])
          (dispatch current command w).1
  deletes :
      {w : World} (current : UserCurrentSocket) (command : CommandPacket) (name : Bytes)
      (ds : List Device)
      → devices_of current.user_name w.users ≡ some ds
      → c_string command.additional_info ≡ some name
      → length (file_path current.user_name name) < 100
      → command.command ≡ delete
      → Turn w [] (dispatch current command w).1
  uploads :
      {w : World} (current : UserCurrentSocket) (command : CommandPacket)
      (name payload kind : Bytes) (rest : List Answer) (ds : List Device)
      → devices_of current.user_name w.users ≡ some ds
      → length kind ≤ 8
      → NoNul name
      → length (file_path current.user_name name) < 100
      → 0 < length payload
      → length payload < 2 ^ 31
      → w.writable (file_path current.user_name name) ≡ true
      → command.command ≡ upload
      → Turn w [] (dispatch current command (facing (uploading current name payload kind rest) w)).1
  hears : {w : World} (answers : List Answer) → Turn w [] (facing answers w)

pub data Reaches (w : World) : List Change → World → Type 0 where
  start : Reaches w [] w
  goes_on :
      {t u : World} {before now : List Change}
      → Reaches w before t
      → Turn t now u
      → Reaches w (now ++ before) u

-- A connection that is refused, on the way.
abbrev pub WasRefused : World → World → Type 0
WasRefused w u =
    (v : World) × (cs : List Change) × (name : Bytes) × (connection : Connection) × Reaches w cs v
    × (v.user_lock ≡ 1)
    × IsRefused name connection v
    × (u.users ≡ v.users)

abbrev pub Standing : Bytes → ℤ → World → List Change → World → Type 0
Standing n k w cs u =
    Steady u
    × (u.server_lock ≡ 1)
    × IsValid u.users
    × (((u.user_lock ≡ 1)
          × (is_connected n k u.users ≡ after_changes n k (is_connected n k w.users) cs))
        ⊎ ((u.user_lock ≡ 0) × WasRefused w u))
