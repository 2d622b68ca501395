-- ===== src/Tests/Races.antt =====
-- "delete old" is typed, and "notes" is saved.
use dropbox_simulator.Common.{
  ◌≡◌, refl, ℤ, pos, Bytes, text, List, [], ◌∷◌, ◌++◌, replicate, concat, map, inl, arith,
}
use dropbox_simulator.Thread.{done}
use dropbox_simulator.Wire.{encode_command}
use dropbox_simulator.Server.Backups.{server_sockets}
use dropbox_simulator.Server.Session.Broadcast.{having_sent, sent_to}
use dropbox_simulator.Server.Commands.{delete, serve_command, file_path}
use dropbox_simulator.Server.Commands.Peers.{facing, peer_sockets}
use dropbox_simulator.Server.Commands.Removal.{without, delete_messages}
use dropbox_simulator.Server.Commands.Serving.{delivered}
use dropbox_simulator.Instruction.{Instruction}
use dropbox_simulator.Client.Sending.{writing, meeting, named_packet}
use dropbox_simulator.Client.Uploads.{upload_stream}
use dropbox_simulator.Box.Events.Propagation.{watched}
use dropbox_simulator.Box.Interleaved.{interrupted_round, upload_net, interrupted_round-misdirected}
use dropbox_simulator.Tests.Tables.{ana}
use dropbox_simulator.Tests.Sessions.{busy_world, busy_world-Steady}
use dropbox_simulator.Tests.Commands.{
  session, both, notes, draft, busy_world-Unlocked, anas_devices,
}
use dropbox_simulator.Tests.Clients.{phone_local-Reliable}
use dropbox_simulator.Tests.Events.{writer, draft_is_there}

abbrev line : Bytes
line = text "delete old" ++ replicate 190 0

interrupted_round-misdirected_example :
    let one : List (ℤ × Bytes) = (pos 4, text "ack") ∷ [] in
    let request = sent_to (pos 5) (encode_command (named_packet writer delete notes)) in
    let path = file_path ana notes in
    ((i : Instruction) × (interrupted_round
          (pos 5)
          line
          (pos 6)
          (upload_net [] [])
          8
          notes
          (meeting (delivered one ++ []) writer)
        ≡ (
          done (record {
            inbox = [];
            accepts = [];
            outbox = upload_stream (pos 6) notes draft writer;
          }),
          writing request (meeting [] (record writer { instruction = watched notes i })),
        )))
    × (serve_command session (facing (delivered request ++ []) busy_world) ≡ (
      done tt,
      having_sent
          (one
            ++ (concat (
                  map
                    (λ k. sent_to k (encode_command (named_packet writer delete notes)))
                    (peer_sockets session both))
                ++ concat
                    (map (delete_messages path busy_world) (server_sockets busy_world.servers))))
          (without path (facing [] busy_world)),
    ))
interrupted_round-misdirected_example =
    interrupted_round-misdirected session (pos 5) (pos 6) line 0x6f (text "ld") 8 notes draft both
      [] [] [] [] busy_world writer refl (omega arith) refl (refl, inl refl) draft_is_there
      (ground arith) (omega arith) (omega arith) (omega arith) (omega arith)
      (record { whole_writes = refl; memory = phone_local-Reliable.memory }) busy_world-Steady
      busy_world-Unlocked anas_devices
