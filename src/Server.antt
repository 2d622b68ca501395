-- ===== src/Server.antt =====
-- The state that the threads of the server share, and the steps that their handlers are made of
-- (server-side/source/Server.cpp).
pub mod Backups
pub mod Session
pub mod Commands
pub mod Replica
pub mod History
pub mod Start
pub mod Election
pub mod Heartbeats
pub mod Configuration
use Prim.Native.String.{String}
use dropbox_simulator.Common.{
  ℕ, zero, suc, ◌+◌, ◌-◌, Bool, true, false, ℤ, pos, negsuc, int_eq, Bytes, text, c_string, same,
  List, [], ◌∷◌, ◌++◌, length, leb, ltb, if◌then◌else◌, Option, none, some,
}
use dropbox_simulator.Registry.{Users, Checked, defined, undefined, unused}
use dropbox_simulator.Thread.{
  Thread, Result, done, exits, blocks, faults, diverges, pure, pthread_exit, fault, gets, modifies,
  ◌>>=◌, ◌>>◌, Net, write,
}
use dropbox_simulator.Transfer.{send_large_payload}
use dropbox_simulator.Wire.{CommandPacket, strcpy}

pub record BackupServer : Type 0 where
  pub id : ℤ
  pub socket : ℤ

-- `UserCurrentSocket`, the argument of a thread that serves one socket.
pub record UserCurrentSocket : Type 0 where
  pub user_name : Bytes
  pub current_device : ℤ
  pub current_socket : ℤ

-- The threads that `mediatorThread` starts.
pub data Spawn : Type 0 where
  terminal inotify : UserCurrentSocket → Spawn
  secondary : ℤ → ℤ → Spawn

-- `users` and `servers` are the global tables, the locks the values of the semaphores around
-- them. `indeterminate n` is what `n` bytes of uninitialised memory hold. `writable` says which
-- paths the file system lets a file be created at.
pub record World : Type 0 where
  pub users : Users
  pub servers : List BackupServer
  pub user_lock : ℕ
  pub server_lock : ℕ
  pub net : Net
  pub closed : List ℤ
  pub spawned : List Spawn
  pub files : Bytes → Option Bytes
  pub dirs : Bytes → Bool
  pub writable : Bytes → Bool
  pub indeterminate : ℕ → Bytes

abbrev pub Server : Type 0 → Type 0
Server = Thread World

module _ {A : Type 0} where
  unfoldable pub on_net : Thread Net A → Server A
  on_net m w = let (r, n) = m w.net in (r, record w { net = n })

  abbrev pub from_checked : World → Checked (A × Users) → Result A × World
  from_checked w (defined (a, us)) = (done a, record w { users = us })
  from_checked w undefined = (faults, w)

  -- A call on the table of users, whose undefined behaviour is the thread's.
  abbrev pub on_users : (Users → Checked (A × Users)) → Server A
  on_users f w = from_checked w (f w.users)

  abbrev pub or_fault : Option A → Server A
  or_fault none = fault
  or_fault (some a) = pure a

-- `sem_wait` and `sem_post` on the two semaphores.
unfoldable pub wait_users : Server (Unit {0})
wait_users w = elim w.user_lock [
  | zero ↦ (blocks, w)
  | suc n ↦ (done tt, record w { user_lock = n })
]

unfoldable pub post_users : Server (Unit {0})
post_users w = (done tt, record w { user_lock = suc w.user_lock })

unfoldable pub wait_servers : Server (Unit {0})
wait_servers w = elim w.server_lock [
  | zero ↦ (blocks, w)
  | suc n ↦ (done tt, record w { server_lock = n })
]

unfoldable pub post_servers : Server (Unit {0})
post_servers w = (done tt, record w { server_lock = suc w.server_lock })

-- `writeAckIntoSocket`; no caller looks at its result.
unfoldable pub write_ack : ℤ → String → Server (Unit {0})
write_ack socket message = on_net (write socket (text message)) >> pure tt

-- `sendLargePayloadToSocket`; no caller looks at its result.
unfoldable pub send : ℤ → Bytes → Server (Unit {0})
send socket payload = on_net (send_large_payload socket payload) >> pure tt

abbrev pub cmd : ℕ
cmd = 1

abbrev pub conn : ℕ
conn = 3

abbrev pub server_conn : ℕ
server_conn = 4

-- A command packet on the stack, with `strcpy` into its text.
unfoldable pub new_command : ℕ → Bytes → Server CommandPacket
new_command code info = do
  memory ← gets (λ w. w.indeterminate)
  additional_info ← or_fault (strcpy (memory 100) info)
  pure (record {
    packet_type = cmd;
    command = code;
    additional_info = additional_info;
    padding = memory 4;
  })

abbrev pub database_dir : Bytes
database_dir = text "./database"

abbrev pub slash : Bytes
slash = text "/"

-- `createUserDirectory`: the path is put together in an array of 50 bytes.
unfoldable pub create_user_directory : Bytes → Server (Unit {0})
create_user_directory user =
    let path = database_dir ++ (slash ++ user) in
    if ltb (length path) 50
    then modifies (λ w. record w { dirs = λ p. if same p path then true else w.dirs p })
    else fault
