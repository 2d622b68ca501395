-- ===== src/Tests/Transfers.antt =====
-- Payloads and packets.
use dropbox_simulator.Common.{
  arith, ◌≡◌, refl, ◌++◌, ◌^◌, ◌*◌, ◌-◌, concat, List, pos, Bytes, text, [], ◌∷◌, arith,
}
use dropbox_simulator.Thread.{Net, failed, done}
use dropbox_simulator.Transfer.{read_large_payload, send_large_payload, determine_correct_size}
use dropbox_simulator.Transfer.Loops.{
  pieces, addressed, arriving, read_large_payload-send_large_payload,
}

abbrev quiet : Net
quiet = record { inbox = []; accepts = []; outbox = [] }

abbrev note : Bytes
note = text "0123456789"

pieces_of_note : pieces 11 note ≡ text "0123" ∷ text "4567" ∷ text "89" ∷ []
unfolding pieces
pieces_of_note = refl

read_large_payload-send_large_payload_example :
    (segments : List Bytes) × (concat segments ≡ note)
    × (send_large_payload (pos 4) note quiet
        ≡ (done (pos 10), record quiet { outbox = [] ++ addressed (pos 4) segments }))
    × (read_large_payload 10 (record quiet { inbox = arriving segments ++ (failed ∷ []) })
        ≡ (done note, record quiet { inbox = failed ∷ [] }))
read_large_payload-send_large_payload_example =
    read_large_payload-send_large_payload (pos 4) note (failed ∷ []) quiet quiet refl (omega arith)
      (omega arith)

-- 4 GB are an `int` of 0: nothing is read, again and again. 3 GB are a negative one.
wraps_to_zero : determine_correct_size (2 ^ 32) 0 ≡ 0
unfolding determine_correct_size
wraps_to_zero = refl

wraps_to_negative : determine_correct_size (3 * 2 ^ 30) 0 ≡ 2 ^ 64 - 2 ^ 30
unfolding determine_correct_size
wraps_to_negative = refl
