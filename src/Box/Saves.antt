-- ===== src/Box/Saves.antt =====
-- A file that the user saves in the directory, from the event to the server
-- (client-side/source/Box.cpp:188-232 and server-side/source/Server.cpp:899-966).
use dropbox_simulator.Common.{
  ℕ, ◌≡◌, ◌<◌, ◌^◌, ◌∙◌, true, false, ℤ, Bytes, text, List, [], ◌∷◌, ◌++◌, length, NoNul, some,
}
use dropbox_simulator.Registry.{Device}
use dropbox_simulator.Registry.Lookup.{devices_of}
use dropbox_simulator.Thread.{done, Answer, got}
use dropbox_simulator.Wire.{to_le}
use dropbox_simulator.Server.{World, UserCurrentSocket}
use dropbox_simulator.Server.Session.Broadcast.{Steady, having_sent}
use dropbox_simulator.Server.Commands.{serve_command, file_path}
use dropbox_simulator.Server.Commands.Peers.{facing}
use dropbox_simulator.Server.Commands.Propagation.{Unlocked}
use dropbox_simulator.Server.Commands.Upload.{ack, upload_outbox, storing}
use dropbox_simulator.Server.Commands.Serving.{delivered}
use dropbox_simulator.Client.{Local, file}
use dropbox_simulator.Client.Sending.{Reliable, writing, meeting}
use dropbox_simulator.Client.Uploads.{upload_stream}
use dropbox_simulator.Client.Exchange.{upload_acks, serve_command-send_file}
use dropbox_simulator.Box.Events.{handle_event}
use dropbox_simulator.Box.Events.Propagation.{Saved, watched, handle_event-send_file}

-- A file that the user writes in the directory, or moves into it, is on the server afterwards: the
-- thread that watches the directory reads it and sends it on its connection, and the thread that
-- serves this connection stores the same bytes under the same name in the directory of the user,
-- and tells the other devices and the backup servers. (With a change that is not the server's, a
-- name without NUL bytes that fits in the client's array, the server's path and less than the
-- content, a content of less than 2 GB, whole writes on both sides, nothing left unread, both
-- semaphores free, the user in the table, and a path that the server's file system accepts.)
pub serve_command-handle_event :
    (current : UserCurrentSocket) (sockfd : ℤ) (mask : ℕ) (name content : Bytes) (ds : List Device)
    (rest : List Answer) (w : World) (c : Local)
    → c.instruction_source_is_server ≡ false
    → Saved mask
    → c.files (text "sync_dir/" ++ name) ≡ some content
    → length name < length c.instruction.filename
    → 9 < length c.instruction.path
    → Steady w
    → Unlocked w
    → Reliable c
    → devices_of current.user_name w.users ≡ some ds
    → NoNul name
    → length (file_path current.user_name name) < 100
    → length name < length content
    → length content < 2 ^ 31
    → w.writable (file_path current.user_name name) ≡ true
    → (handle_event sockfd mask name (meeting (delivered (upload_acks current sockfd)) c) ≡ (
      done tt,
      writing
          (upload_stream sockfd name content c)
          (meeting (got (text "ack") ∷ []) (record c { instruction = watched name c.instruction })),
    ))
      × (serve_command current (facing (delivered (upload_stream sockfd name content c) ++ rest) w)
          ≡ (
            done tt,
            having_sent
                (ack current name content (to_le 8 file) rest
                  ++ upload_outbox current name content (to_le 8 file) rest ds w)
                (storing (file_path current.user_name name) content (facing rest w)),
          ))
serve_command-handle_event current sockfd mask name content ds rest w c user saved there fits room h
      free hc at named short longer small writable =
    let c1 : Local = record c { instruction = watched name c.instruction } in
    let (sent, served) =
      serve_command-send_file current sockfd name content ds rest w c1 h free
        (record { whole_writes = hc.whole_writes; memory = hc.memory }) at named short longer small
        writable in
    (
      handle_event-send_file sockfd name content
            (meeting (delivered (upload_acks current sockfd)) c) user named fits room mask saved
            there
          ∙ sent,
      served,
    )
