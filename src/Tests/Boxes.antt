-- ===== src/Tests/Boxes.antt =====
-- The threads of Ana's phone.
use dropbox_simulator.Common.{
  ℕ, ◌≡◌, ◌≤◌, ◌<◌, refl, inl, inr, pos, ℤ, Bytes, text, List, [], ◌∷◌, ◌++◌, replicate, none, some,
  arith, concat, map, same,
}
use dropbox_simulator.Registry.{t1, t2, t3}
use dropbox_simulator.Registry.Lookup.{device_with}
use dropbox_simulator.Registry.Invariant.{IsValid}
use dropbox_simulator.Registry.Sessions.{Updates}
use dropbox_simulator.Thread.{Net, done, exits, got}
use dropbox_simulator.Wire.{Connection, CommandPacket, encode_command, to_le}
use dropbox_simulator.Wire.Laws.{ConnectionFits}
use dropbox_simulator.Server.Backups.{server_sockets}
use dropbox_simulator.Server.Session.Handshake.{Admissible}
use dropbox_simulator.Server.Session.Broadcast.{having_sent, sent_to, command_packet}
use dropbox_simulator.Server.Commands.{exit, upload, serve_command, close_sockets}
use dropbox_simulator.Server.Commands.Peers.{facing, upload_messages}
use dropbox_simulator.Server.Commands.Removal.{table_left, exit_messages}
use dropbox_simulator.Server.Commands.Serving.{delivered}
use dropbox_simulator.Instruction.{Instruction, reset}
use dropbox_simulator.Client.{response_code}
use dropbox_simulator.Client.Sending.{meeting, bare_packet}
use dropbox_simulator.Client.Downloads.{keeping}
use dropbox_simulator.Box.{new_connection, open_box, monitor_console, server_comm_round, sync_path}
use dropbox_simulator.Box.Opening.{Answering, greeted, open_box_lem, new_connection-Admissible}
use dropbox_simulator.Box.Exits.{finished, serve_command-exit}
use dropbox_simulator.Box.Incoming.{following, spent, server_comm_round-upload}
use dropbox_simulator.Tests.Tables.{ana, phone, busy, busy-IsValid}
use dropbox_simulator.Tests.Sessions.{busy_world, busy_world-Steady}
use dropbox_simulator.Tests.Commands.{
  session, both, notes, draft, busy_world-Unlocked, anas_devices,
}
use dropbox_simulator.Tests.Clients.{phone_local, phone_local-Reliable}

abbrev answering : Bytes → Net
answering reply = record { inbox = got reply ∷ []; accepts = []; outbox = [] }

answering_ack : Answering (answering (text "ack")) (text "ack") []
answering_ack = record {
  whole_writes = refl;
  comes = refl;
  is_text = ground arith;
  fits = omega arith;
}

answering_nack : Answering (answering (text "nack3")) (text "nack3") []
answering_nack = record {
  whole_writes = refl;
  comes = refl;
  is_text = ground arith;
  fits = omega arith;
}

-- The second and the third connection are refused.
open_box_lem_example :
    open_box ana 41
      (pos 5, answering (text "ack"))
      (pos 6, answering (text "nack3"))
      (pos 7, answering (text "nack3"))
      phone_local
    ≡ (
      done (
          some (
            greeted phone_local ana t1 41 (pos 5) (answering (text "ack")) [],
            greeted phone_local ana t2 41 (pos 6) (answering (text "nack3")) [],
            greeted phone_local ana t3 41 (pos 7) (answering (text "nack3")) [],
          )),
      phone_local,
    )
unfolding response_code same
open_box_lem_example =
    open_box_lem ana 41 phone_local phone_local-Reliable (ground arith) (omega arith) (pos 5)
      (pos 6) (pos 7) (answering (text "ack")) (answering (text "nack3")) (answering (text "nack3"))
      (text "ack") (text "nack3") (text "nack3") [] [] [] answering_ack answering_nack
      answering_nack

new_connection-Admissible_example :
    (connection : Connection) × (new_connection ana t2 41 (pos 6) phone_local
      ≡ (done connection, phone_local))
    × ConnectionFits connection
    × Admissible ana connection
    × ((d : ℕ) × (connection.device ≡ pos d) × (0 < d) × (d ≤ 10))
unfolding same
new_connection-Admissible_example =
    new_connection-Admissible ana 41 phone_local phone_local-Reliable (ground arith) (omega arith)
      t2 (pos 6) refl (inr (inl refl)) (omega arith)

pub phone_is_there : device_with (pos 7) both ≡ some phone
unfolding device_with
phone_is_there = refl

serve_command-exit_example :
    let one : List (ℤ × Bytes) = (pos 4, text "ack") ∷ [] in
    let request = sent_to (pos 5) (encode_command (bare_packet phone_local exit)) in
    let vs = table_left session busy in
    ((i : Instruction) × (monitor_console
          (pos 5)
          (text "exit" ∷ [])
          (replicate 200 0x61)
          (meeting (delivered one ++ []) phone_local)
        ≡ (done tt, finished i (pos 5) (meeting [] phone_local))))
    × (serve_command session (facing (delivered request ++ []) busy_world) ≡ (
      exits,
      having_sent
          (concat (map (exit_messages session busy_world) (server_sockets busy_world.servers)))
          (close_sockets phone (record (having_sent one (facing [] busy_world)) { users = vs })),
    ))
    × IsValid vs
    × Updates ana (pos 7) none busy vs
unfolding reset same
serve_command-exit_example =
    serve_command-exit session (pos 5) (replicate 200 0x61) [] both phone [] [] busy_world
      phone_local phone_local-Reliable refl refl busy_world-Steady busy_world-Unlocked busy-IsValid
      refl refl anas_devices phone_is_there

abbrev pub no_command : CommandPacket
no_command = record {
  packet_type = 0;
  command = 0;
  additional_info = replicate 100 0;
  padding = replicate 4 0;
}

server_comm_round-upload_example :
    server_comm_round no_command
      (meeting (delivered (upload_messages notes draft busy_world (pos 10)) ++ []) phone_local)
    ≡ (
      done (spent (command_packet busy_world upload notes)),
      keeping (sync_path notes) draft (following (meeting [] phone_local)),
    )
unfolding encode_command to_le
server_comm_round-upload_example =
    server_comm_round-upload (pos 10) no_command [] phone_local refl notes draft busy_world
      busy_world-Steady phone_local-Reliable (ground arith) (omega arith) (omega arith)
      (omega arith) refl
