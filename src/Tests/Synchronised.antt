-- ===== src/Tests/Synchronised.antt =====
-- Ana saves her notes on the phone; the laptop and a backup server get them.
use dropbox_simulator.Common.{◌≡◌, refl, ℤ, pos, Bytes, text, List, [], ◌∷◌, ◌++◌, inl, arith}
use dropbox_simulator.Thread.{done, got, failed}
use dropbox_simulator.Wire.{encode_command, to_le}
use dropbox_simulator.Server.Backups.{server_sockets}
use dropbox_simulator.Server.Session.Broadcast.{having_sent, command_packet}
use dropbox_simulator.Server.Commands.{serve_command, file_path, upload}
use dropbox_simulator.Server.Commands.Peers.{facing, peer_sockets}
use dropbox_simulator.Server.Commands.Upload.{storing}
use dropbox_simulator.Server.Commands.Serving.{delivered}
use dropbox_simulator.Server.Replica.{serve_primary}
use dropbox_simulator.Server.Replica.Runs.{written_to}
use dropbox_simulator.Instruction.{reset}
use dropbox_simulator.Client.Sending.{writing, meeting}
use dropbox_simulator.Client.Uploads.{upload_stream}
use dropbox_simulator.Client.Downloads.{keeping}
use dropbox_simulator.Client.Exchange.{upload_acks}
use dropbox_simulator.Box.{server_comm_round, sync_path}
use dropbox_simulator.Box.Incoming.{spent, following}
use dropbox_simulator.Box.Events.{handle_event}
use dropbox_simulator.Box.Events.Propagation.{watched}
use dropbox_simulator.Box.Synchronised.{Sockets, handle_event-synchronised}
use dropbox_simulator.Tests.Tables.{ana}
use dropbox_simulator.Tests.Sessions.{busy_world, busy_world-Steady}
use dropbox_simulator.Tests.Commands.{
  session, both, notes, draft, busy_world-Unlocked, anas_devices,
}
use dropbox_simulator.Tests.Clients.{phone_local, phone_local-Reliable}
use dropbox_simulator.Tests.Boxes.{no_command}
use dropbox_simulator.Tests.Events.{writer, draft_is_there}

laptop_and_backup : Sockets session both busy_world (pos 10) (pos 30)
unfolding peer_sockets server_sockets
laptop_and_backup = record {
  before = [];
  after = [];
  is_peer = refl;
  others_before = tt;
  others_after = tt;
  no_server = (refl, tt);
  not_session = refl;
  has_backup = ([], [], refl, tt, tt);
  no_peer = (refl, tt);
  backup_not_session = refl;
}

handle_event-synchronised_example :
    let path = file_path ana notes in
    (ms : List (ℤ × Bytes)) × (handle_event
        (pos 6)
        8
        notes
        (meeting (delivered (upload_acks session (pos 6))) writer)
      ≡ (
        done tt,
        writing (upload_stream (pos 6) notes draft writer) (
            meeting
              (got (text "ack") ∷ [])
              (record writer { instruction = watched notes writer.instruction })),
      ))
    × (serve_command session
          (facing (delivered (upload_stream (pos 6) notes draft writer) ++ []) busy_world)
        ≡ (done tt, having_sent ms (storing path draft (facing [] busy_world))))
    × (server_comm_round no_command (meeting (delivered (written_to (pos 10) ms) ++ []) phone_local)
        ≡ (
          done (spent (command_packet busy_world upload notes)),
          keeping (sync_path notes) draft (following (meeting [] phone_local)),
        ))
    × (serve_primary (facing (delivered (written_to (pos 30) ms) ++ (failed ∷ [])) busy_world)
        ≡ (done tt, storing path draft (facing (failed ∷ []) busy_world)))
unfolding reset encode_command to_le
handle_event-synchronised_example =
    handle_event-synchronised session (pos 6) 8 notes draft both [] [] (failed ∷ []) (pos 10)
      (pos 30) no_command busy_world busy_world writer phone_local laptop_and_backup refl
      (refl, inl refl) draft_is_there (omega arith) (omega arith) busy_world-Steady
      busy_world-Unlocked (record { whole_writes = refl; memory = phone_local-Reliable.memory })
      phone_local-Reliable anas_devices (ground arith) (ground arith) (omega arith) (omega arith)
      (omega arith) refl refl refl refl
