-- ===== src/Box/Exits.antt =====
-- The end of a session, from the line that is typed (client-side/source/Box.cpp:89-142) to the
-- thread that serves the connection (server-side/source/Server.cpp:1052-1141).
use dropbox_simulator.Common.{
  ◌≡◌, ◌≤◌, refl, ap, ◌∙◌, true, false, ℤ, int_eq, Bytes, text, List, [], ◌∷◌, ◌++◌, length, drop,
  same, concat, map, ltb, c_string, c_string-append_nul, none, some, arith,
}
use dropbox_simulator.Registry.{Device}
use dropbox_simulator.Registry.Lookup.{devices_of, device_with}
use dropbox_simulator.Registry.Invariant.{IsValid}
use dropbox_simulator.Registry.Sessions.{IsName, IsId, Updates}
use dropbox_simulator.Thread.{done, exits, Answer, got, after}
use dropbox_simulator.Wire.{encode_command, strcpy}
use dropbox_simulator.Server.{World, UserCurrentSocket}
use dropbox_simulator.Server.Backups.{server_sockets}
use dropbox_simulator.Server.Session.Broadcast.{Steady, having_sent, sent_to}
use dropbox_simulator.Server.Commands.{exit, serve_command, close_sockets}
use dropbox_simulator.Server.Commands.Peers.{facing}
use dropbox_simulator.Server.Commands.Propagation.{Unlocked}
use dropbox_simulator.Server.Commands.Removal.{table_left, exit_messages, dispatch-exit}
use dropbox_simulator.Server.Commands.Serving.{delivered, serve_command_lem}
use dropbox_simulator.Instruction.{
  Instruction, prepare, reset, exit_id, command_of, strtok, token, set_command_id,
}
use dropbox_simulator.Client.{Local, send_exit_command, bare_command}
use dropbox_simulator.Client.Sending.{
  Reliable, writing, meeting, bare_packet, or_fault_lem, request_lem, bare_packet-CommandFits,
}
use dropbox_simulator.Box.{monitor_console, console_round, parse_line, scan, cut_line, perform}

-- What is left of the instruction when the line is "exit".
after_exit : (i : Instruction) × (i.command_id ≡ exit_id) × (prepare (text "exit") reset ≡ some i)
unfolding prepare strtok strcpy token reset set_command_id command_of same
after_exit = (_, refl, refl)

send_exit_command_lem :
    (sockfd : ℤ) (a : Bytes) (rest : List Answer) (c : Local)
    → Reliable c
    → length a ≤ 8
    → send_exit_command sockfd (meeting (got a ∷ rest) c)
      ≡ (done tt, writing (sent_to sockfd (encode_command (bare_packet c exit))) (meeting rest c))
unfolding send_exit_command bare_command
send_exit_command_lem sockfd a rest c h short =
    request_lem sockfd (bare_packet c exit) a rest c h.whole_writes short

-- The state after the line "exit".
abbrev pub finished : Instruction → ℤ → Local → Local
finished i sockfd c = record (writing (sent_to sockfd (encode_command (bare_packet c exit))) c) {
  instruction = i;
  exit_command_typed = true;
}

-- The loop ends once the last command was the exit.
monitor_console_lem :
    (sockfd : ℤ) (lines : List Bytes) (line : Bytes) (c : Local)
    → c.instruction.command_id ≡ exit_id
    → monitor_console sockfd lines line c ≡ (done tt, record c { exit_command_typed = true })
unfolding monitor_console
monitor_console_lem sockfd [] line c e = rw e refl
monitor_console_lem sockfd (typed ∷ later) line c e = rw e refl

perform_exit_lem : (sockfd id : ℤ) → id ≡ exit_id → perform sockfd id ≡ send_exit_command sockfd
unfolding perform
perform_exit_lem sockfd id e = rw e refl

pub parse_line_lem :
    (i : Instruction) (line typed : Bytes) (c : Local)
    → c_string line ≡ some typed
    → prepare typed reset ≡ some i
    → parse_line line c ≡ (done tt, record c { instruction = i })
unfolding parse_line
parse_line_lem i line typed c is_typed e =
    after _ (or_fault_lem is_typed) (after _ (or_fault_lem e) refl)

console_round_lem :
    (i : Instruction) (sockfd : ℤ) (line typed a : Bytes) (rest : List Answer) (c : Local)
    → c_string line ≡ some typed
    → prepare typed reset ≡ some i
    → i.command_id ≡ exit_id
    → Reliable c
    → length a ≤ 8
    → console_round sockfd line (meeting (got a ∷ rest) c) ≡ (
      done tt,
      writing
          (sent_to sockfd (encode_command (bare_packet c exit)))
          (record (meeting rest c) { instruction = i }),
    )
unfolding console_round
console_round_lem i sockfd line typed a rest c is_typed e is_exit h short =
    after _ (parse_line_lem i line typed (meeting (got a ∷ rest) c) is_typed e) (
      ap (λ m. m (meeting (got a ∷ rest) (record c { instruction = i })))
        (perform_exit_lem sockfd i.command_id is_exit)
      ∙ send_exit_command_lem sockfd a rest (record c { instruction = i })
          (record { whole_writes = h.whole_writes; memory = h.memory }) short)

pub monitor_console-exit :
    (sockfd : ℤ) (line a : Bytes) (later : List Bytes) (rest : List Answer) (c : Local)
    → Reliable c
    → length line ≡ 200
    → length a ≤ 8
    → int_eq c.instruction.command_id exit_id ≡ false
    → (i : Instruction) × (i.command_id ≡ exit_id)
      × (monitor_console sockfd (text "exit" ∷ later) line (meeting (got a ∷ rest) c)
          ≡ (done tt, finished i sockfd (meeting rest c)))
unfolding monitor_console scan strcpy
monitor_console-exit sockfd line a later rest c h sized short goes_on =
    let (i, is_exit, prepared) = after_exit in
    let scanned = text "exit" ++ (0 ∷ drop 5 line) in
    let typed = c_string-append_nul (text "exit") (drop 5 line) (ground arith) in
    let e =
      console_round_lem i sockfd scanned (text "exit") a rest c typed prepared is_exit h short in
    let room : ltb 4 (length line) ≡ true = ground (arith, sized) in
    let c1 =
      writing (sent_to sockfd (encode_command (bare_packet c exit)))
        (record (meeting rest c) { instruction = i }) in
    (
      i,
      is_exit,
      rw (goes_on, room)
          (after _ e (monitor_console_lem sockfd later (cut_line scanned) c1 is_exit)),
    )

-- The line "exit" ends a session on both sides: the client sends its exit, waits for the
-- acknowledgement, and its console thread ends with the flag that ends the other threads set; the
-- thread that serves the connection acknowledges, closes the sockets of the device, tells each
-- backup server and ends, and the device is gone from the table of users, and no other one. (With
-- whole writes on both sides, both semaphores free, a well-formed table and the device in it,
-- under a name that is not empty and an id that is not -1, and a last command that was not the
-- exit.)
pub serve_command-exit :
    (current : UserCurrentSocket) (sockfd : ℤ) (line : Bytes) (later : List Bytes)
    (ds : List Device) (d : Device) (rest rest' : List Answer) (w : World) (c : Local)
    → Reliable c
    → length line ≡ 200
    → int_eq c.instruction.command_id exit_id ≡ false
    → Steady w
    → Unlocked w
    → IsValid w.users
    → IsName current.user_name
    → IsId current.current_device
    → devices_of current.user_name w.users ≡ some ds
    → device_with current.current_device ds ≡ some d
    → let one : List (ℤ × Bytes) = (current.current_socket, text "ack") ∷ [] in
      let request = sent_to sockfd (encode_command (bare_packet c exit)) in
      let vs = table_left current w.users in
      ((i : Instruction) × (monitor_console sockfd
            (text "exit" ∷ later)
            line
            (meeting (delivered one ++ rest) c)
          ≡ (done tt, finished i sockfd (meeting rest c))))
      × (serve_command current (facing (delivered request ++ rest') w) ≡ (
        exits,
        having_sent
            (concat (map (exit_messages current w) (server_sockets w.servers)))
            (close_sockets d (record (having_sent one (facing rest' w)) { users = vs })),
      ))
      × IsValid vs
      × Updates current.user_name current.current_device none w.users vs
serve_command-exit current sockfd line later ds d rest rest' w c hc sized goes_on h free v named
      numbered at there =
    let one : List (ℤ × Bytes) = (current.current_socket, text "ack") ∷ [] in
    let (i, is_exit, e) =
      monitor_console-exit sockfd line (text "ack") later rest c hc sized (omega arith) goes_on in
    let (served, valid, updated, gone) =
      dispatch-exit current (bare_packet c exit) ds d (having_sent one (facing rest' w))
        (record { whole_writes = h.whole_writes; memory = h.memory })
        (record { users_free = free.users_free; servers_free = free.servers_free }) v named numbered
        at there refl in
    (
      (i, e),
      serve_command_lem current (bare_packet c exit) sockfd rest' w h
            (bare_packet-CommandFits c exit hc (omega arith))
          ∙ served,
      valid,
      updated,
    )
