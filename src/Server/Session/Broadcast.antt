-- ===== src/Server/Session/Broadcast.antt =====
-- What the server writes when every write takes all that it is given.
use Prim.Native.String.{String}
use dropbox_simulator.Common.{
  ℕ, suc, ◌<◌, ◌^◌, ◌≡◌, refl, sym, ap, ◌∙◌, true, ℤ, int_eq, Bytes, text, List, [], ◌∷◌, ◌++◌,
  append_assoc, append-nil, concat, map, length, drop, ltb, arith, Bool-cases, inl, inr,
}
use mathlib.Core.Path.{fun_ext}
use dropbox_simulator.Registry.{unused}
use dropbox_simulator.Thread.{done, write}
use dropbox_simulator.Transfer.Loops.{pieces, addressed, send_large_payload-whole}
use dropbox_simulator.Wire.Laws.{length-encode_command, length-encode_connection}
use dropbox_simulator.Wire.{Connection, CommandPacket, strcpy, encode_command, encode_connection}
use dropbox_simulator.Server.{
  World, Server, BackupServer, on_net, write_ack, send, new_command, cmd,
}
use dropbox_simulator.Server.Backups.{for_each_server, server_sockets}
use dropbox_simulator.Server.Session.{forward_connection, announce, insert_user_command}

-- Writes are whole, and `n` bytes of memory are `n` bytes.
pub record Steady (w : World) : Type 0 where
  pub whole_writes : w.net.accepts ≡ []
  pub memory : (n : ℕ) → length (w.indeterminate n) ≡ n

-- The same world, with more written.
abbrev pub having_sent : List (ℤ × Bytes) → World → World
having_sent xs w = record w { net = record w.net { outbox = w.net.outbox ++ xs } }

pub having_sent_twice :
    (xs ys : List (ℤ × Bytes)) (w : World)
    → having_sent ys (having_sent xs w) ≡ having_sent (xs ++ ys) w
having_sent_twice xs ys w =
    ap (λ o. record w { net = record w.net { outbox = o } }) (append_assoc w.net.outbox xs ys)

-- A payload on its way, in pieces.
abbrev pub sent_to : ℤ → Bytes → List (ℤ × Bytes)
sent_to socket payload = addressed socket (pieces (suc (length payload)) payload)

pub send_lem :
    (socket : ℤ) (payload : Bytes) (w : World)
    → Steady w
    → length payload < 2 ^ 31
    → send socket payload w ≡ (done tt, having_sent (sent_to socket payload) w)
unfolding send on_net
send_lem socket payload w h small =
    let (e, c) = send_large_payload-whole socket payload w.net h.whole_writes small in rw e

pub write_ack_lem :
    (socket : ℤ) (message : String) (w : World)
    → Steady w
    → write_ack socket message w ≡ (done tt, having_sent ((socket, text message) ∷ []) w)
unfolding write_ack on_net write
write_ack_lem socket message w h = ground (arith, h)

-- The packet that `new_command` makes of a text that fits.
abbrev pub command_packet : World → ℕ → Bytes → CommandPacket
command_packet w code info = record {
  packet_type = cmd;
  command = code;
  additional_info = info ++ (0 ∷ drop (suc (length info)) (w.indeterminate 100));
  padding = w.indeterminate 4;
}

pub new_command_lem :
    (code : ℕ) (info : Bytes) (w : World)
    → Steady w
    → length info < 100
    → new_command code info w ≡ (done (command_packet w code info), w)
unfolding new_command strcpy
new_command_lem code info w h fits =
    let room : ltb (length info) (length (w.indeterminate 100)) ≡ true =
      ground (arith, h.memory 100) in
    rw room

-- What one backup server is sent about a connection.
abbrev pub announcement : World → Connection → ℤ → List (ℤ × Bytes)
announcement w connection socket =
    sent_to socket (encode_command (command_packet w insert_user_command (text "stringteste")))
    ++ sent_to socket (encode_connection connection)

forward_connection_lem :
    (connection : Connection) (socket : ℤ) (w : World)
    → Steady w
    → forward_connection connection socket w
      ≡ (done tt, having_sent (announcement w connection socket) w)
unfolding forward_connection
forward_connection_lem connection socket w h =
    let packet = command_packet w insert_user_command (text "stringteste") in
    let first = sent_to socket (encode_command packet) in
    let second = sent_to socket (encode_connection connection) in
    rw (new_command_lem insert_user_command (text "stringteste") w h (omega arith)) (
      rw (send_lem socket (encode_command packet) w h (length-encode_command packet)) (
        send_lem socket (encode_connection connection) (having_sent first w)
          (record { whole_writes = h.whole_writes; memory = h.memory })
          (length-encode_connection connection)
        ∙ ap (λ u. (done tt, u)) (having_sent_twice first second w)))

-- A loop over the servers whose body only sends.
pub for_each_server_lem :
    (body : ℤ → Server (Unit {0})) (messages : World → ℤ → List (ℤ × Bytes))
    → ((xs : List (ℤ × Bytes)) (u : World) (k : ℤ) → messages (having_sent xs u) k ≡ messages u k)
    → ((k : ℤ) (u : World) → Steady u → body k u ≡ (done tt, having_sent (messages u k) u))
    → (ss : List BackupServer) (w : World) → Steady w
    → for_each_server body ss w
      ≡ (done tt, having_sent (concat (map (messages w) (server_sockets ss))) w)
unfolding for_each_server server_sockets
for_each_server_lem body messages stable sends [] w h =
    ap (λ o. (done tt, record w { net = record w.net { outbox = o } }))
      (sym (append-nil w.net.outbox))
for_each_server_lem body messages stable sends (s ∷ ss) w h =
    elim (Bool-cases (int_eq s.id unused)) [
      | inl free ↦ rw free (for_each_server_lem body messages stable sends ss w h)
      | inr taken ↦
          let sent = messages w s.socket in
          rw taken (
            rw (sends s.socket w h) (
              for_each_server_lem body messages stable sends ss (having_sent sent w)
                (record { whole_writes = h.whole_writes; memory = h.memory })
              ∙ rw (fun_ext (stable sent w)) (
                  ap (λ u. (done tt, u))
                    (having_sent_twice sent (concat (map (messages w) (server_sockets ss))) w))))
    ]

-- What the backup servers are sent about a connection, in the order of the table.
abbrev pub announcements : World → Connection → List (ℤ × Bytes)
announcements w connection = concat (map (announcement w connection) (server_sockets w.servers))

pub announce_lem :
    (connection : Connection) (w : World)
    → Steady w
    → announce connection w ≡ (done tt, having_sent (announcements w connection) w)
unfolding announce
announce_lem connection w h =
    for_each_server_lem (forward_connection connection) (λ u. announcement u connection)
      (λ xs u k. refl) (λ k u steady. forward_connection_lem connection k u steady) w.servers w h
