-- ===== src/Box/Synchronised.antt =====
-- A file that is saved on one device, on its way to the server, to another device and to a backup
-- server (client-side/source/Box.cpp:188-287, server-side/source/Server.cpp:899-966 and 220-234).
use dropbox_simulator.Common.{
  ℕ, ◌≡◌, ◌<◌, ◌^◌, ◌∙◌, refl, false, true, ℤ, int_eq, Bytes, text, List, [], ◌∷◌, ◌++◌, length,
  length-append, NoNul, some, arith,
}
use dropbox_simulator.Registry.{Device}
use dropbox_simulator.Registry.Lookup.{devices_of}
use dropbox_simulator.Thread.{done, Answer, got}
use dropbox_simulator.Wire.{CommandPacket, encode_command, to_le}
use dropbox_simulator.Server.{World, UserCurrentSocket, slash}
use dropbox_simulator.Server.Backups.{server_sockets}
use dropbox_simulator.Server.Session.Broadcast.{Steady, having_sent, command_packet}
use dropbox_simulator.Server.Commands.{serve_command, file_path, upload}
use dropbox_simulator.Server.Commands.Peers.{facing, peer_sockets, upload_messages}
use dropbox_simulator.Server.Commands.Propagation.{Unlocked}
use dropbox_simulator.Server.Commands.Upload.{ack, upload_outbox, storing}
use dropbox_simulator.Server.Commands.Serving.{delivered}
use dropbox_simulator.Server.Replica.{serve_primary}
use dropbox_simulator.Server.Replica.Mirror.{serve_primary-upload}
use dropbox_simulator.Server.Replica.Runs.{written_to, Others, HasBackup}
use dropbox_simulator.Server.Replica.Runs.Messages.{
  written_to-append, written_to_other, uploaded_lem, uploaded_to_peer_lem,
}
use dropbox_simulator.Client.{Local, file}
use dropbox_simulator.Client.Sending.{Reliable, writing, meeting}
use dropbox_simulator.Client.Uploads.{upload_stream}
use dropbox_simulator.Client.Downloads.{keeping}
use dropbox_simulator.Client.Exchange.{upload_acks}
use dropbox_simulator.Box.{server_comm_round, sync_path}
use dropbox_simulator.Box.Incoming.{spent, following, server_comm_round-upload}
use dropbox_simulator.Box.Events.{handle_event}
use dropbox_simulator.Box.Events.Propagation.{Saved, watched}
use dropbox_simulator.Box.Saves.{serve_command-handle_event}

-- The sockets at the server: `peer` is the third one of another device of the user, once among
-- those, and `backup` that of one backup server; neither is that of the session.
pub record Sockets (current : UserCurrentSocket) (ds : List Device) (w : World) (peer backup : ℤ)
    : Type 0 where
  pub before : List ℤ
  pub after : List ℤ
  pub is_peer : peer_sockets current ds ≡ before ++ (peer ∷ after)
  pub others_before : Others peer before
  pub others_after : Others peer after
  pub no_server : Others peer (server_sockets w.servers)
  pub not_session : int_eq current.current_socket peer ≡ false
  pub has_backup : HasBackup backup w
  pub no_peer : Others backup (peer_sockets current ds)
  pub backup_not_session : int_eq current.current_socket backup ≡ false

-- A file that the user writes in the directory of one device is afterwards on the server, on
-- another device of the user and on a backup server: the thread that watches the directory sends
-- it; the thread of the server that serves this connection stores the same bytes under the same
-- name in the directory of the user; what this one writes to the third socket of the other device
-- makes it store them under that name in its own directory, as a change of the server's; and what
-- it writes to the socket of the backup makes that one store them at the path that the server has
-- them at. (With a change that is the user's, a name without NUL bytes that fits in the client's
-- array, the server's path and less than the content, a content of less than 2 GB, whole writes
-- and nothing left unread on every side, both semaphores free, the user in the table, a path
-- without NUL bytes, file systems that accept the paths, sockets that are all different, and a
-- packet of 120 bytes at the other device.)
pub handle_event-synchronised :
    (current : UserCurrentSocket) (sockfd : ℤ) (mask : ℕ) (name content : Bytes) (ds : List Device)
    (rest later more : List Answer) (peer backup : ℤ) (old : CommandPacket) (w b : World)
    (c other : Local)
    → Sockets current ds w peer backup
    → c.instruction_source_is_server ≡ false
    → Saved mask
    → c.files (text "sync_dir/" ++ name) ≡ some content
    → length name < length c.instruction.filename
    → 9 < length c.instruction.path
    → Steady w
    → Unlocked w
    → Reliable c
    → Reliable other
    → devices_of current.user_name w.users ≡ some ds
    → NoNul name
    → NoNul (file_path current.user_name name)
    → length (file_path current.user_name name) < 100
    → length name < length content
    → length content < 2 ^ 31
    → w.writable (file_path current.user_name name) ≡ true
    → b.writable (file_path current.user_name name) ≡ true
    → other.writable (sync_path name) ≡ true
    → length (encode_command old) ≡ 120
    → let path = file_path current.user_name name in
      (ms : List (ℤ × Bytes)) × (handle_event sockfd mask name
          (meeting (delivered (upload_acks current sockfd)) c)
        ≡ (
          done tt,
          writing (upload_stream sockfd name content c) (
              meeting
                (got (text "ack") ∷ [])
                (record c { instruction = watched name c.instruction })),
        ))
      × (serve_command current (facing (delivered (upload_stream sockfd name content c) ++ rest) w)
          ≡ (done tt, having_sent ms (storing path content (facing rest w))))
      × (server_comm_round old (meeting (delivered (written_to peer ms) ++ later) other) ≡ (
        done (spent (command_packet w upload name)),
        keeping (sync_path name) content (following (meeting later other)),
      ))
      × (serve_primary (facing (delivered (written_to backup ms) ++ more) b)
          ≡ (done tt, storing path content (facing more b)))
handle_event-synchronised current sockfd mask name content ds rest later more peer backup old w b c
      other s user saved there fits room h free hc ho at named path_named short longer small
      writable writable_b writable_o sized =
    let path = file_path current.user_name name in
    let one = ack current name content (to_le 8 file) rest in
    let outbox = upload_outbox current name content (to_le 8 file) rest ds w in
    let (sent, served) =
      serve_command-handle_event current sockfd mask name content ds rest w c user saved there fits
        room h free hc at named short longer small writable in
    let to_peer : written_to peer (one ++ outbox) ≡ upload_messages name content w peer =
      written_to-append peer one outbox
      ∙ rw (written_to_other current.current_socket peer one (refl, tt) s.not_session) (
          uploaded_to_peer_lem peer current name content (to_le 8 file) rest ds w s.before s.after
            s.not_session s.is_peer s.others_before s.others_after s.no_server) in
    let to_backup : written_to backup (one ++ outbox) ≡ upload_messages path content w backup =
      written_to-append backup one outbox
      ∙ rw (written_to_other current.current_socket backup one (refl, tt) s.backup_not_session) (
          uploaded_lem backup current name content (to_le 8 file) rest ds w s.backup_not_session
            s.no_peer s.has_backup) in
    let name_short : length name < 100 =
      ground (arith, short, length-append current.user_name (slash ++ name)) in
    (
      one ++ outbox,
      sent,
      served,
      rw to_peer (
          server_comm_round-upload peer old later other sized name content w h ho named name_short
            (omega (arith, longer)) small writable_o),
      rw to_backup (
          serve_primary-upload path content backup more w b h path_named short
            (omega (arith, longer)) small writable_b),
    )
