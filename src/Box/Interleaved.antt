-- ===== src/Box/Interleaved.antt =====
-- The threads of the console and of the directory, which share one instruction without a lock
-- (client-side/source/Box.cpp:100-137 and 190-231).
use dropbox_simulator.Common.{
  ◌^◌, ℕ, suc, ◌≡◌, ◌<◌, ◌∙◌, refl, ap, false, ℤ, Bytes, text, c_string, c_string-append_nul, List,
  [], ◌∷◌, ◌++◌, concat, map, length, drop, NoNul, some, arith,
}
use dropbox_simulator.Registry.{Device}
use dropbox_simulator.Registry.Lookup.{devices_of}
use dropbox_simulator.Thread.{Net, done, pure, gets, after, got, Answer, ◌>>=◌, ◌>>◌}
use dropbox_simulator.Wire.{encode_command}
use dropbox_simulator.Server.{World, UserCurrentSocket}
use dropbox_simulator.Server.Backups.{server_sockets}
use dropbox_simulator.Server.Session.Broadcast.{Steady, having_sent, sent_to}
use dropbox_simulator.Server.Commands.{delete, serve_command, file_path}
use dropbox_simulator.Server.Commands.Peers.{facing, peer_sockets}
use dropbox_simulator.Server.Commands.Propagation.{Unlocked}
use dropbox_simulator.Server.Commands.Removal.{without, delete_messages}
use dropbox_simulator.Server.Commands.Serving.{delivered}
use dropbox_simulator.Instruction.{Instruction, delete_id, space}
use dropbox_simulator.Instruction.Laws.{prepare-delete}
use dropbox_simulator.Operations.{delete_file}
use dropbox_simulator.Client.{Local, Client}
use dropbox_simulator.Client
use dropbox_simulator.Client.Sending.{Reliable, writing, meeting, named_packet, or_fault_lem}
use dropbox_simulator.Client.Uploads.{upload_stream, send_file_lem}
use dropbox_simulator.Client.Deletion.{serve_command-delete_file}
use dropbox_simulator.Box.{parse_line, perform, on_connection, with_net}
use dropbox_simulator.Box.Exits.{parse_line_lem}
use dropbox_simulator.Box.Events.{handle_event}
use dropbox_simulator.Box.Events.Propagation.{Saved, watched, handle_event-send_file}

-- A round of the console in which, between the parsing of the line and its execution, the other
-- thread handles an event on its own connection `other`, with the network `net`.
unfoldable pub interrupted_round : ℤ → Bytes → ℤ → Net → ℕ → Bytes → Client Net
interrupted_round sockfd line other net mask name = do
  parse_line line
  (x, net_after) ← on_connection net (handle_event other mask name)
  instruction ← gets (λ c. c.instruction)
  perform sockfd instruction.command_id
  pure net_after

-- The network of the other thread, with the four acknowledgements of an upload to come.
abbrev pub upload_net : List Answer → List (ℤ × Bytes) → Net
upload_net rest written =
    let one : Answer = got (text "ack") in
    record { inbox = one ∷ one ∷ one ∷ one ∷ rest; accepts = []; outbox = written }

event_between :
    (other : ℤ) (mask : ℕ) (name content : Bytes) (rest : List Answer) (written : List (ℤ × Bytes))
    (c : Local)
    → c.instruction_source_is_server ≡ false
    → NoNul name
    → length name < length c.instruction.filename
    → 9 < length c.instruction.path
    → Saved mask
    → c.files (text "sync_dir/" ++ name) ≡ some content
    → length name < length content
    → length content < 2 ^ 31
    → Reliable c
    → on_connection (upload_net rest written) (handle_event other mask name) c ≡ (
      done (
        tt,
        record {
          inbox = rest;
          accepts = [];
          outbox = written ++ upload_stream other name content c;
        },
      ),
      record c { instruction = watched name c.instruction },
    )
event_between other mask name content rest written c user named fits room saved there longer small
      h =
    let c1 : Local = record c { net = upload_net rest written } in
    let c2 : Local = record c {
      net = upload_net rest written;
      instruction = watched name c.instruction;
    } in
    let e =
      handle_event-send_file other name content c1 user named fits room mask saved there
      ∙ send_file_lem other name content (text "ack") (text "ack") (text "ack") (text "ack") rest c2
          (record { whole_writes = refl; memory = h.memory }) named longer (omega arith)
          (omega arith) (omega arith) (omega arith) small in
    ap (λ r. with_net c.net r) e

perform_delete_lem :
    (sockfd : ℤ) (name : Bytes) (id : ℤ) (c : Local)
    → id ≡ delete_id
    → c_string c.instruction.filename ≡ some name
    → perform sockfd id c ≡ Client.delete_file sockfd name c
unfolding perform delete_file
perform_delete_lem sockfd name id c e is_name = rw e (after _ (or_fault_lem is_name) refl)

-- The user types "delete" and a name, and saves a file of another name before the thread of the
-- console has gone on: the other thread writes the name of the saved file into the instruction
-- that both share and sends the file, and what the console then sends is the deletion of that
-- file, whatever was typed. The server removes the saved file, and tells the other devices and the
-- backup servers to do so. (With a typed name of 1 to 49 bytes, a saved file of the user, with a
-- name without NUL bytes that has less than 50 bytes, fits with the server's path in 100 and is
-- shorter than the content, a content of less than 2 GB, whole writes on both sides, both semaphores free and the user in the
-- table.)
pub interrupted_round-misdirected :
    (current : UserCurrentSocket) (sockfd other : ℤ) (line : Bytes) (b : ℕ) (typed : Bytes)
    (mask : ℕ) (name content : Bytes) (ds : List Device) (rest rest' others : List Answer)
    (written : List (ℤ × Bytes)) (w : World) (c : Local)
    → c_string line ≡ some (text "delete" ++ (space ∷ (b ∷ typed)))
    → length (b ∷ typed) < 50
    → c.instruction_source_is_server ≡ false
    → Saved mask
    → c.files (text "sync_dir/" ++ name) ≡ some content
    → NoNul name
    → length name < 50
    → length name < length content
    → length content < 2 ^ 31
    → length (file_path current.user_name name) < 100
    → Reliable c
    → Steady w
    → Unlocked w
    → devices_of current.user_name w.users ≡ some ds
    → let one : List (ℤ × Bytes) = (current.current_socket, text "ack") ∷ [] in
      let request = sent_to sockfd (encode_command (named_packet c delete name)) in
      let path = file_path current.user_name name in
      ((i : Instruction) × (interrupted_round sockfd line other
            (upload_net others written)
            mask
            name
            (meeting (delivered one ++ rest) c)
          ≡ (
            done (record {
              inbox = others;
              accepts = [];
              outbox = written ++ upload_stream other name content c;
            }),
            writing request (meeting rest (record c { instruction = watched name i })),
          )))
      × (serve_command current (facing (delivered request ++ rest') w) ≡ (
        done tt,
        having_sent
            (one
              ++ (concat (
                    map
                      (λ k. sent_to k (encode_command (named_packet c delete name)))
                      (peer_sockets current ds))
                  ++ concat (map (delete_messages path w) (server_sockets w.servers))))
            (without path (facing rest' w)),
      ))
unfolding interrupted_round
interrupted_round-misdirected current sockfd other line b typed mask name content ds rest rest'
      others written w c is_line short user saved there named name_short longer small path_short hc
      h free at =
    let one : List (ℤ × Bytes) = (current.current_socket, text "ack") ∷ [] in
    let (i, parsed, is_delete, filename_size, path_size) = prepare-delete b typed short in
    let waiting : Local = meeting (delivered one ++ rest) c in
    let c1 : Local = record waiting { instruction = i } in
    let c2 : Local = record c { instruction = watched name i } in
    let (deleted, served) =
      serve_command-delete_file current sockfd name ds rest rest' w c2 h free
        (record { whole_writes = hc.whole_writes; memory = hc.memory }) at named path_short in
    (
      (
        i,
        after _
            (parse_line_lem i line (text "delete" ++ (space ∷ (b ∷ typed))) waiting is_line parsed)
            (after _
              (event_between other mask name content others written c1 user named
                (omega (arith, filename_size)) (omega (arith, path_size)) saved there longer small
                (record { whole_writes = hc.whole_writes; memory = hc.memory }))
              (after _
                (perform_delete_lem sockfd name i.command_id (meeting (delivered one ++ rest) c2)
                    is_delete (c_string-append_nul name (drop (suc (length name)) i.filename) named)
                  ∙ deleted)
                refl)),
      ),
      served,
    )
