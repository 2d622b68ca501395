-- ===== src/Tests/Clients.antt =====
-- The phone of Ana, on both sides of its first connection.
use dropbox_simulator.Common.{
  ◌≡◌, refl, ◌⊎◌, true, false, pos, ℤ, text, [], ◌∷◌, ◌++◌, replicate, length-replicate, none,
  arith, concat, map,
}
use Prim.Native.String.{String}
use dropbox_simulator.Thread.{done, exits, got, ◌>>◌}
use dropbox_simulator.Wire.{encode_command, from_le, to_le}
use dropbox_simulator.Server.{World}
use dropbox_simulator.Server.Backups.{server_sockets}
use dropbox_simulator.Server.Session.{handle_user_controller_structure}
use dropbox_simulator.Server.Session.Outcome.{IsRefused}
use dropbox_simulator.Server.Session.Broadcast.{having_sent, sent_to}
use dropbox_simulator.Server.Commands.{delete, overlay, serve_command, file_path}
use dropbox_simulator.Server.Commands.Peers.{facing, peer_sockets}
use dropbox_simulator.Server.Commands.Upload.{ack, upload_outbox, storing}
use dropbox_simulator.Server.Commands.Removal.{without, delete_messages}
use dropbox_simulator.Server.Commands.Serving.{delivered}
use dropbox_simulator.Instruction.{reset}
use dropbox_simulator.Client.{
  Local, file, accepted, refused, send_file, download_file, delete_file, receive_file,
}
use dropbox_simulator.Client.Sending.{Reliable, writing, meeting, named_packet}
use dropbox_simulator.Client.Uploads.{upload_stream}
use dropbox_simulator.Client.Downloads.{download_request}
use dropbox_simulator.Client.Replies.{Answers, establish-handle}
use dropbox_simulator.Client.Exchange.{upload_acks, download_answer, serve_command-send_file}
use dropbox_simulator.Client.Leftovers.{download_after_upload}
use dropbox_simulator.Client.Deletion.{serve_command-delete_file}
use dropbox_simulator.Tests.Tables.{ana, bia, busy-IsValid}
use dropbox_simulator.Tests.Sessions.{
  busy_world, busy_world-Steady, connection_of, bia_tablet-Admissible,
}
use dropbox_simulator.Tests.Commands.{
  session, both, notes, draft, busy_world-Unlocked, anas_devices,
}

abbrev pub phone_local : Local
phone_local = record {
  net = record { inbox = []; accepts = []; outbox = [] };
  files = λ _. none;
  writable = λ _. true;
  indeterminate = λ n. replicate n 0xcd;
  instruction = reset;
  instruction_source_is_server = false;
  exit_command_typed = false;
}

pub phone_local-Reliable : Reliable phone_local
phone_local-Reliable = record { whole_writes = refl; memory = λ n. length-replicate n 0xcd }

abbrev sockfd : ℤ
sockfd = pos 5

serve_command-send_file_example :
    (send_file sockfd notes draft (meeting (delivered (upload_acks session sockfd)) phone_local) ≡ (
      done tt,
      writing
          (upload_stream sockfd notes draft phone_local)
          (meeting (got (text "ack") ∷ []) phone_local),
    ))
    × (serve_command session
          (facing (delivered (upload_stream sockfd notes draft phone_local) ++ []) busy_world)
        ≡ (
          done tt,
          having_sent
              (ack session notes draft (to_le 8 file) []
                ++ upload_outbox session notes draft (to_le 8 file) [] both busy_world)
              (storing (file_path ana notes) draft (facing [] busy_world)),
        ))
serve_command-send_file_example =
    serve_command-send_file session sockfd notes draft both [] busy_world phone_local
      busy_world-Steady busy_world-Unlocked phone_local-Reliable anas_devices (ground arith)
      (omega arith) (omega arith) (omega arith) refl

-- The draft is on the server.
abbrev drafted : World
drafted = storing (file_path ana notes) draft busy_world

download_after_upload_example :
    (send_file sockfd notes draft >> download_file sockfd notes) (
      meeting
        (delivered (upload_acks session sockfd ++ download_answer session sockfd draft) ++ [])
        phone_local)
    ≡ receive_file sockfd notes (from_le (overlay (text "ack") (replicate 8 0xcd))) (
        writing
          (upload_stream sockfd notes draft phone_local
            ++ download_request sockfd notes phone_local)
          (meeting (got (to_le 8 7) ∷ (delivered (sent_to (pos 4) draft) ++ [])) phone_local))
download_after_upload_example =
    download_after_upload session sockfd notes draft notes draft [] phone_local phone_local-Reliable
      (ground arith) (omega arith) (omega arith) (omega arith)

serve_command-delete_file_example :
    let request = sent_to sockfd (encode_command (named_packet phone_local delete notes)) in
    let path = file_path ana notes in
    (delete_file sockfd notes (meeting (delivered ((pos 4, text "ack") ∷ []) ++ []) phone_local)
      ≡ (done tt, writing request (meeting [] phone_local)))
    × (serve_command session (facing (delivered request ++ []) drafted) ≡ (
      done tt,
      having_sent
          (((pos 4, text "ack") ∷ [])
            ++ (concat (
                  map
                    (λ k. sent_to k (encode_command (named_packet phone_local delete notes)))
                    (peer_sockets session both))
                ++ concat (map (delete_messages path drafted) (server_sockets drafted.servers))))
          (without path (facing [] drafted)),
    ))
serve_command-delete_file_example =
    serve_command-delete_file session sockfd notes both [] [] drafted phone_local
      (record { whole_writes = refl; memory = busy_world-Steady.memory })
      (record { users_free = refl; servers_free = refl }) phone_local-Reliable anas_devices
      (ground arith) (omega arith)

establish-handle_example :
    let connection = connection_of bia (pos 9) in
    let (r, u) = handle_user_controller_structure connection (pos 22) busy_world in
    let ends =
      Answers bia connection (pos 22) sockfd bia_tablet-Admissible busy_world u phone_local [] in
    ((¬ IsRefused bia connection busy_world) × (r ≡ done tt) × ends "ack" accepted)
    ⊎ (IsRefused bia connection busy_world
        × (r ≡ exits)
        × ((message : String) × ends message refused))
establish-handle_example =
    establish-handle bia (connection_of bia (pos 9)) (pos 22) sockfd bia_tablet-Admissible
      busy_world phone_local [] busy_world-Steady busy-IsValid refl
