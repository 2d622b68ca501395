-- ===== src/Server/Commands/Serving.antt =====
-- The rounds of the loop over a client's commands (server-side/source/Server.cpp:1142-1165), where
-- a command arrives as it was sent.
use dropbox_simulator.Common.{
  suc, ◌≡◌, subst, refl, ap, ℤ, Bytes, text, List, [], ◌∷◌, ◌++◌, map, length, arith,
}
use dropbox_simulator.Thread.{done, Answer, got, after}
use dropbox_simulator.Transfer.{read_large_payload}
use dropbox_simulator.Transfer.Loops.{pieces, arriving, addressed}
use dropbox_simulator.Wire.{CommandPacket, encode_command, command_size}
use dropbox_simulator.Wire.Laws.{CommandFits, decode_command-encode_command}
use dropbox_simulator.Server.{World, UserCurrentSocket, on_net}
use dropbox_simulator.Server.Session.Broadcast.{Steady, having_sent, sent_to, write_ack_lem}
use dropbox_simulator.Server.Commands.{serve_command, dispatch}
use dropbox_simulator.Server.Commands.Peers.{facing, read_payload_lem}

-- What arrives at the other end of one socket.
abbrev pub delivered : List (ℤ × Bytes) → List Answer
delivered = map (λ m. got m.1)

pub delivered-append :
    (xs ys : List (ℤ × Bytes)) (rest : List Answer)
    → delivered (xs ++ ys) ++ rest ≡ delivered xs ++ (delivered ys ++ rest)
delivered-append [] ys rest = refl
delivered-append (x ∷ xs) ys rest = ap (◌∷◌ (got x.1)) (delivered-append xs ys rest)

pub delivered-addressed :
    (socket : ℤ) (ps : List Bytes) → delivered (addressed socket ps) ≡ arriving ps
delivered-addressed socket [] = refl
delivered-addressed socket (p ∷ ps) = ap (◌∷◌ (got p)) (delivered-addressed socket ps)

-- A command that arrives as it was sent is read and decoded to itself.
pub read_command_lem :
    (c : CommandPacket) (socket : ℤ) (rest : List Answer) (w : World)
    → CommandFits c
    → on_net
        (read_large_payload command_size)
        (facing (delivered (sent_to socket (encode_command c)) ++ rest) w)
      ≡ (done (encode_command c), facing rest w)
read_command_lem c socket rest w fits =
    let size : length (encode_command c) ≡ 120 = (decode_command-encode_command c fits).1 in
    rw (delivered-addressed socket (pieces (suc (length (encode_command c))) (encode_command c))) (
      subst
        (λ n.
          on_net (read_large_payload n) (
            facing (arriving (pieces (suc (length (encode_command c))) (encode_command c)) ++ rest)
              w)
          ≡ (done (encode_command c), facing rest w))
        size
        (read_payload_lem (encode_command c) rest w (omega (arith, size)) (omega (arith, size))))

-- The command is acknowledged, and then served.
pub serve_command_lem :
    (current : UserCurrentSocket) (c : CommandPacket) (socket : ℤ) (rest : List Answer) (w : World)
    → Steady w
    → CommandFits c
    → serve_command current (facing (delivered (sent_to socket (encode_command c)) ++ rest) w)
      ≡ dispatch current c (having_sent ((current.current_socket, text "ack") ∷ []) (facing rest w))
unfolding serve_command
serve_command_lem current c socket rest w h fits = after _ (read_command_lem c socket rest w fits) (
    after _
      (write_ack_lem current.current_socket "ack" (facing rest w)
        (record { whole_writes = h.whole_writes; memory = h.memory }))
      (rw (decode_command-encode_command c fits).0 refl))
