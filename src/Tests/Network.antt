-- ===== src/Tests/Network.antt =====
-- Payloads over a network that is slow, short or broken.
use dropbox_simulator.Common.{◌^◌, arith, ◌≡◌, refl, pos, text, [], ◌∷◌}
use dropbox_simulator.Thread.{Net, got, part, whole, exits, faults, diverges, read, write}
use dropbox_simulator.Transfer.{
  send_large_payload, send_loop, after_write, read_large_payload, receive_loop, after_read,
  client_read_large_payload, client_receive_loop, determine_correct_size,
}
use dropbox_simulator.Transfer.Receiving.{
  Received, read_large_payload-Received, Agrees, read_large_payload-Agrees, receive_loop-diverges,
}

-- Six of ten bytes, in a segment of four and one of two.
abbrev short_of_bytes : Net
short_of_bytes = record {
  inbox = got (text "0123") ∷ got (text "45") ∷ got (text "6789") ∷ [];
  accepts = [];
  outbox = [];
}

ends_early : (read_large_payload 10 short_of_bytes).0 ≡ exits
unfolding read_large_payload receive_loop determine_correct_size after_read read
ends_early = refl

read_large_payload-Received_example : Received 10 (read_large_payload 10 short_of_bytes)
read_large_payload-Received_example = read_large_payload-Received 10 short_of_bytes (omega arith)

read_large_payload-Agrees_example :
    Agrees 10 (read_large_payload 10 short_of_bytes) (client_read_large_payload 10 short_of_bytes)
read_large_payload-Agrees_example = read_large_payload-Agrees 10 short_of_bytes (omega arith)

-- The second write takes one byte of four.
abbrev reluctant : Net
reluctant = record { inbox = []; accepts = whole ∷ part 1 ∷ []; outbox = [] }

goes_wrong : (send_large_payload (pos 5) (text "0123456789") reluctant).0 ≡ faults
unfolding send_large_payload send_loop determine_correct_size write after_write
goes_wrong = refl

-- A file of 4 GB.
receive_loop-diverges_example :
    (receive_loop 7 (2 ^ 32) 0 short_of_bytes ≡ (diverges, short_of_bytes))
    × (client_receive_loop 7 (2 ^ 32) 0 short_of_bytes ≡ (diverges, short_of_bytes))
receive_loop-diverges_example = receive_loop-diverges 7 (2 ^ 32) short_of_bytes (omega arith) refl
