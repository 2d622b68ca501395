-- ===== src/Server/History/Locked.antt =====
-- The server once a refused connection has taken the semaphore (server-side/source/Server.cpp:16-71
-- and 899-1167).
use dropbox_simulator.Common.{
  ◌≡◌, refl, ap, ◌∙◌, false, ℤ, Bytes, List, c_string, ◌==◌, some, arith,
}
use dropbox_simulator.Registry.Invariant.{IsValid}
use dropbox_simulator.Thread.{Result, blocks, after, continue}
use dropbox_simulator.Wire.{Connection, CommandPacket}
use dropbox_simulator.Server.{World, UserCurrentSocket, conn, server_conn, wait_users}
use dropbox_simulator.Server.Session.{serve_connection}
use dropbox_simulator.Server.Session.Broadcast.{Steady}
use dropbox_simulator.Server.Commands.{
  dispatch, upload, delete, exit, upload_file_command, propagate_upload, delete_file_command,
  remove_file, propagate_delete, file_path,
}
use dropbox_simulator.Server.Commands.Upload.{or_fault_lem, uploading, upload_received}
use dropbox_simulator.Server.Commands.Peers.{facing}
use dropbox_simulator.Server.Commands.Removal.{without}
use dropbox_simulator.Server.History.{
  Change, Turn, connects, leaves, deletes, uploads, hears, WasRefused,
}

locked_connection :
    (connection : Connection) (socket : ℤ) (w : World)
    → connection.packet_type ≡ conn
    → w.user_lock ≡ 0
    → serve_connection connection socket w ≡ (blocks, w)
unfolding serve_connection wait_users
locked_connection connection socket w is_conn locked =
    let client : (connection.packet_type == server_conn) ≡ false = ground arith in
    rw client (rw locked refl)

locked_exit :
    (current : UserCurrentSocket) (command : CommandPacket) (w : World)
    → command.command ≡ exit
    → w.user_lock ≡ 0
    → dispatch current command w ≡ (blocks, w)
unfolding dispatch wait_users
locked_exit current command w is_exit locked = rw is_exit (rw locked refl)

pub dispatch-delete :
    (current : UserCurrentSocket) (command : CommandPacket) (w : World)
    → command.command ≡ delete
    → dispatch current command w ≡ delete_file_command current command w
unfolding dispatch
dispatch-delete current command w e = rw e refl

wait_locked : (w : World) → w.user_lock ≡ 0 → wait_users w ≡ (blocks, w)
unfolding wait_users
wait_locked w e = rw e refl

-- A part that waits for ever ends a chain.
blocked :
    {A B : Type 0} (f : A → World → Result B × World) {r : Result A × World} {v : World}
    → r ≡ (blocks, v)
    → continue f r ≡ (blocks, v)
blocked f e = ap (continue f) e

-- A deletion removes the file, and then waits.
locked_deletion :
    (current : UserCurrentSocket) (command : CommandPacket) (name : Bytes) (w : World)
    → c_string command.additional_info ≡ some name
    → command.command ≡ delete
    → w.user_lock ≡ 0
    → dispatch current command w ≡ (blocks, without (file_path current.user_name name) w)
unfolding delete_file_command remove_file propagate_delete
locked_deletion current command name w named is_delete locked =
    dispatch-delete current command w is_delete
    ∙ after _ (or_fault_lem named)
        (blocked _ (wait_locked (without (file_path current.user_name name) w) locked))

pub dispatch-upload :
    (current : UserCurrentSocket) (command : CommandPacket) (w : World)
    → command.command ≡ upload
    → dispatch current command w ≡ upload_file_command current w
unfolding dispatch
dispatch-upload current command w e = rw e refl

locked_propagation :
    (current : UserCurrentSocket) (name payload : Bytes) (w : World)
    → w.user_lock ≡ 0
    → propagate_upload current name payload w ≡ (blocks, w)
unfolding propagate_upload
locked_propagation current name payload w locked = blocked _ (wait_locked w locked)

-- Once a refused connection holds the semaphore, nothing moves.
pub Turn-locked :
    {t u : World} {now : List Change} (w : World)
    → Turn t now u
    → Steady t
    → t.server_lock ≡ 1
    → IsValid t.users
    → t.user_lock ≡ 0
    → WasRefused w t
    → Steady u × (u.server_lock ≡ 1) × IsValid u.users × (u.user_lock ≡ 0) × WasRefused w u
Turn-locked w (connects {w = t} name connection socket ok is_conn short) h s v locked was =
    rw (locked_connection connection socket t is_conn locked) (h, s, v, locked, was)
Turn-locked w (leaves {w = t} current command ds d named numbered at there is_exit) h s v locked
      was =
    rw (locked_exit current command t is_exit locked) (h, s, v, locked, was)
Turn-locked w (deletes {w = t} current command name ds at named short is_delete) h s v locked was =
    rw (locked_deletion current command name t named is_delete locked)
      (record { whole_writes = h.whole_writes; memory = h.memory }, s, v, locked, was)
Turn-locked w
      (uploads {w = t} current command name payload kind rest ds at k named short some_bytes fits
        writable is_upload)
      h s v locked was =
    let stored =
      upload_received current name payload kind rest t h k named short some_bytes fits writable in
    rw
      (dispatch-upload current command (facing (uploading current name payload kind rest) t)
          is_upload
        ∙ stored
        ∙ locked_propagation current name payload _ locked)
      (record { whole_writes = h.whole_writes; memory = h.memory }, s, v, locked, was)
Turn-locked w (hears {w = t} answers) h s v locked was =
    (record { whole_writes = h.whole_writes; memory = h.memory }, s, v, locked, was)
