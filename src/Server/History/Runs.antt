-- ===== src/Server/History/Runs.antt =====
-- What holds after any run (server-side/source/Server.cpp:16-71 and 899-1167).
use dropbox_simulator.Common.{
  ◌≡◌, ◌<◌, inl, inr, refl, ap, ◌∙◌, true, false, Bool, ◌&&◌, ℤ, int_eq, Bytes, same, List, ◌∷◌,
  ◌++◌, length, c_string, if◌then◌else◌, Option, none, some,
}
use dropbox_simulator.Registry.{Device, Users}
use dropbox_simulator.Registry.Lookup.{devices_of, device_of}
use dropbox_simulator.Registry.Invariant.{IsValid}
use dropbox_simulator.Registry.Sessions.{Updates, IsName, IsId}
use dropbox_simulator.Thread.{done}
use dropbox_simulator.Wire.{CommandPacket}
use dropbox_simulator.Server.{World, UserCurrentSocket}
use dropbox_simulator.Server.Session.Broadcast.{Steady, having_sent}
use dropbox_simulator.Server.Session.Outcome.{serve_connection_lem}
use dropbox_simulator.Server.Commands.{dispatch, delete, file_path}
use dropbox_simulator.Server.Commands.Upload.{uploading, upload_file_command_lem}
use dropbox_simulator.Server.Commands.Peers.{facing}
use dropbox_simulator.Server.Commands.Propagation.{Unlocked}
use dropbox_simulator.Server.Commands.Removal.{dispatch-exit, without, delete_file_command_lem}
use dropbox_simulator.Server.History.{
  Change, after_changes, is_some, is_connected, Turn, connects, leaves, deletes, uploads, hears,
  Reaches, start, goes_on, Standing,
}
use dropbox_simulator.Server.History.Locked.{dispatch-delete, dispatch-upload, Turn-locked}

is_some_if :
    (b : Bool) (x y : Option Device)
    → is_some (if b then x else y) ≡ (if b then is_some x else is_some y)
is_some_if true x y = refl
is_some_if false x y = refl

-- An update of the table is a change.
Updates-after_changes :
    (n : Bytes) (k : ℤ) (name : Bytes) (id : ℤ) (x : Option Device) (us vs : Users) (before : Bool)
    (cs : List Change)
    → IsName n
    → IsId k
    → Updates name id x us vs
    → is_connected n k us ≡ after_changes n k before cs
    → is_connected n k vs
      ≡ after_changes n k before (record { is_there = is_some x; name = name; device = id } ∷ cs)
unfolding after_changes
Updates-after_changes n k name id x us vs before cs hn hk up e =
    ap is_some (up n k hn hk)
    ∙ is_some_if (same name n && int_eq id k) x (device_of n k us)
    ∙ ap (λ b. if same name n && int_eq id k then is_some x else b) e

free_deletion :
    (current : UserCurrentSocket) (command : CommandPacket) (name : Bytes) (ds : List Device)
    (w : World)
    → Steady w
    → Unlocked w
    → devices_of current.user_name w.users ≡ some ds
    → c_string command.additional_info ≡ some name
    → length (file_path current.user_name name) < 100
    → command.command ≡ delete
    → (messages : List (ℤ × Bytes)) × (dispatch current command w
        ≡ (done tt, having_sent messages (without (file_path current.user_name name) w)))
free_deletion current command name ds w h free at named short is_delete =
    let deleted = delete_file_command_lem current command name ds w h free at named short in
    (_, dispatch-delete current command w is_delete ∙ deleted)

Turn-free :
    {t u : World} {before now : List Change} (n : Bytes) (k : ℤ) (w : World)
    → Turn t now u
    → Reaches w before t
    → IsName n
    → IsId k
    → Steady t
    → t.server_lock ≡ 1
    → IsValid t.users
    → t.user_lock ≡ 1
    → is_connected n k t.users ≡ after_changes n k (is_connected n k w.users) before
    → Standing n k w (now ++ before) u
Turn-free n k w (connects {w = t} name connection socket ok is_conn short) r hn hk h s v free e =
    elim (serve_connection_lem name connection socket ok t h v free is_conn short) [
      | inl (refusal, (message, served)) ↦ rw served (
        record { whole_writes = h.whole_writes; memory = h.memory },
        s,
        v,
        inr (refl, (t, _, name, connection, r, free, refusal, refl)),
      )
      | inr (let_in, (us, d, served, valid, up)) ↦ rw served (
        record { whole_writes = h.whole_writes; memory = h.memory },
        s,
        valid,
        inl (refl, Updates-after_changes n k name connection.device _ t.users us _ _ hn hk up e),
      )
    ]
Turn-free n k w (leaves {w = t} current command ds d named numbered at there is_exit) r hn hk h s v
      free e =
    let (served, valid, up, left) =
      dispatch-exit current command ds d t h (record { users_free = free; servers_free = s }) v
        named numbered at there is_exit in
    rw served (
      record { whole_writes = h.whole_writes; memory = h.memory },
      s,
      valid,
      inl (
        free,
        Updates-after_changes n k current.user_name current.current_device none t.users _ _ _ hn hk
            up e,
      ),
    )
Turn-free n k w (deletes {w = t} current command name ds at named short is_delete) r hn hk h s v
      free e =
    let (messages, served) =
      free_deletion current command name ds t h (record { users_free = free; servers_free = s }) at
        named short is_delete in
    rw served (record { whole_writes = h.whole_writes; memory = h.memory }, s, v, inl (free, e))
Turn-free n k w
      (uploads {w = t} current command name payload kind rest ds at kind_fits named short some_bytes
        fits writable is_upload)
      r hn hk h s v free e =
    let uploaded =
      upload_file_command_lem current name payload kind rest ds t h
        (record { users_free = free; servers_free = s }) at kind_fits named short some_bytes fits
        writable in
    rw
      (dispatch-upload current command (facing (uploading current name payload kind rest) t)
          is_upload
        ∙ uploaded)
      (record { whole_writes = h.whole_writes; memory = h.memory }, s, v, inl (free, e))
Turn-free n k w (hears {w = t} answers) r hn hk h s v free e =
    (record { whole_writes = h.whole_writes; memory = h.memory }, s, v, inl (free, e))

-- Whatever sequence of connections, uploads, deletions and exits the server goes through, its
-- table stays well formed, and either the semaphore is free and a device is connected just if the
-- last change of it was its coming (or there was none and it was connected at the start), or a
-- connection has been refused, the semaphore is taken, and the table is as it was at that refusal.
-- (From a well-formed table with both semaphores free, with whole writes, admissible connections
-- with names of less than 39 bytes, exits of sessions whose device is there, and uploads and
-- deletions by users who are there, of files with paths of less than 100 bytes, the uploads as
-- `uploadFileCommand` takes them; for a name that is not empty and an id that is not -1.)
pub Reaches-Standing :
    {w u : World} {cs : List Change} (n : Bytes) (k : ℤ)
    → Reaches w cs u
    → Steady w
    → Unlocked w
    → IsValid w.users
    → IsName n
    → IsId k
    → Standing n k w cs u
unfolding after_changes
Reaches-Standing n k start h free v hn hk = (h, free.servers_free, v, inl (free.users_free, refl))
Reaches-Standing {w} n k (goes_on r turn) h free v hn hk =
    let (steady, servers, valid, stands) = Reaches-Standing n k r h free v hn hk in
    elim stands [
      | inl (still_free, e) ↦ Turn-free n k w turn r hn hk steady servers valid still_free e
      | inr (locked, was) ↦
          let (steady', servers', valid', locked', was') =
            Turn-locked w turn steady servers valid locked was in
          (steady', servers', valid', inr (locked', was'))
    ]
