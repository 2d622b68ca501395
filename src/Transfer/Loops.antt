-- ===== src/Transfer/Loops.antt =====
-- What the loops send and receive, piece by piece.
use dropbox_simulator.Common.{
  ℕ, zero, suc, ◌+◌, ◌^◌, ◌<◌, ◌≤◌, ◌≡◌, refl, sym, ◌∙◌, ap, subst, true, false, ℤ, pos, Bytes,
  List, [], ◌∷◌, ◌++◌, append_assoc, append-nil, map, length, length-drop, length-take, take, drop,
  drop-add, take-append-drop, take_all, concat, leb, ltb, ◌==◌, if◌then◌else◌, some, arith,
  Bool-cases, inl, inr,
}
use dropbox_simulator.Thread.{done, ◌>>=◌, continue, pure, Net, Answer, got, read, write}
use dropbox_simulator.Transfer.{
  buffer_size, determine_correct_size, determine_correct_size_lem, send_loop, send_large_payload,
  receive_loop, after_write, after_read, read_large_payload,
}

-- The pieces of a payload: `BUFFER_SIZE` bytes each, but for the last.
unfoldable pub pieces : ℕ → Bytes → List Bytes
pieces zero payload = []
pieces (suc fuel) payload =
    let rest = pieces fuel (drop buffer_size payload) in
    if leb (length payload) buffer_size then payload ∷ [] else take buffer_size payload ∷ rest

-- Pieces on their way to a socket, and as the reads of the other side find them.
abbrev pub addressed : ℤ → List Bytes → List (ℤ × Bytes)
addressed socket = map λ piece. (socket, piece)

abbrev pub arriving : List Bytes → List Answer
arriving = map λ piece. got piece

pub concat-pieces :
    (fuel : ℕ) (payload : Bytes) → length payload < fuel → concat (pieces fuel payload) ≡ payload
unfolding pieces
concat-pieces zero payload h = absurd (omega arith)
concat-pieces (suc fuel) payload h = elim (Bool-cases (leb (length payload) buffer_size)) [
  | inl short ↦ rw short (append-nil payload)
  | inr long ↦ rw long (
      ap (◌++◌ (take buffer_size payload)) (
        concat-pieces fuel (drop buffer_size payload)
          (ground (arith, length-drop buffer_size payload)))
      ∙ take-append-drop buffer_size payload)
]

abbrev reliable : List Answer → List (ℤ × Bytes) → Net
reliable inbox outbox = record { inbox = inbox; accepts = []; outbox = outbox }

-- One round of the loop, for a write that takes all of its piece.
send_loop_round :
    (fuel : ℕ) (socket : ℤ) (payload : Bytes) (n k : ℕ) (s t : Net)
    → determine_correct_size (length payload) n ≡ k
    → n + k ≤ length payload
    → write socket (take k (drop n payload)) s ≡ (done (pos k), t)
    → send_loop (suc fuel) socket payload n n s ≡ (
        if ltb (n + k) (length payload)
        then send_loop fuel socket payload (n + k) (n + k) t
        else (done (pos (n + k)), t))
unfolding send_loop after_write
send_loop_round fuel socket payload n k s t d fits w =
    let no_overrun : ltb (length payload) (n + k) ≡ false = ground arith in
    rw (d, no_overrun)
      (rw (w, ◌>>=◌)
        (elim (Bool-cases (ltb (n + k) (length payload))) [
          | inl more ↦ rw more
          | inr over ↦ rw over
        ]))

write_whole :
    (socket : ℤ) (bs : Bytes) (inbox : List Answer) (outbox : List (ℤ × Bytes)) (k : ℕ)
    → length bs ≡ k
    → write socket bs (reliable inbox outbox)
      ≡ (done (pos k), reliable inbox (outbox ++ ((socket, bs) ∷ [])))
unfolding write
write_whole socket bs inbox outbox k e = rw e

-- From `n` bytes on, where `r` is what is left.
send_loop_whole :
    (fuel : ℕ) (socket : ℤ) (payload r : Bytes) (n : ℕ) (inbox : List Answer)
    (outbox : List (ℤ × Bytes))
    → drop n payload ≡ r
    → n + length r ≡ length payload
    → length r < fuel
    → length payload < 2 ^ 31
    → send_loop fuel socket payload n n (reliable inbox outbox)
      ≡ (done (pos (length payload)), reliable inbox (outbox ++ addressed socket (pieces fuel r)))
unfolding pieces
send_loop_whole zero socket payload r n inbox outbox e l h small = absurd (omega arith)
send_loop_whole (suc fuel) socket payload r n inbox outbox e l h small =
    let size = determine_correct_size_lem (length payload) n small in
    elim (Bool-cases (leb (length r) buffer_size)) [
      | inl short ↦
          let last : take (length r) (drop n payload) ≡ r =
            rw e (take_all (length r) r (omega arith)) in
          let over : ltb (n + length r) (length payload) ≡ false = ground arith in
          send_loop_round fuel socket payload n (length r) _ _ (ground (arith, size)) (omega arith)
            (write_whole socket (take (length r) (drop n payload)) inbox outbox (length r)
              (ap length last))
          ∙ rw (over, short, l, last)
      | inr long ↦
          let more : ltb (n + buffer_size) (length payload) ≡ true = ground arith in
          let piece : take buffer_size (drop n payload) ≡ take buffer_size r = rw e in
          let full : length (take buffer_size r) ≡ buffer_size =
            ground (arith, length-take buffer_size r) in
          send_loop_round fuel socket payload n buffer_size _ _ (ground (arith, size))
            (ground arith)
            (write_whole socket (take buffer_size (drop n payload)) inbox outbox buffer_size
              (ap length piece ∙ full))
          ∙ rw (more, long, piece)
              (send_loop_whole fuel socket payload (drop buffer_size r) (n + buffer_size) inbox
                  (outbox ++ ((socket, take buffer_size r) ∷ []))
                  (drop-add n buffer_size payload ∙ ap (drop buffer_size) e)
                  (ground (arith, length-drop buffer_size r))
                  (ground (arith, length-drop buffer_size r)) small
                ∙ rw (append_assoc outbox ((socket, take buffer_size r) ∷ [])))
    ]

-- A read finds a segment of just the size that it asks for.
read_whole :
    (k : ℕ) (bs : Bytes) (rest : List Answer) (s : Net)
    → 0 < k
    → length bs ≡ k
    → read k (record s { inbox = got bs ∷ rest }) ≡ (done (some bs), record s { inbox = rest })
unfolding read
read_whole zero bs rest s h e = absurd (omega arith)
read_whole (suc k) bs rest s h e =
    let fits : leb (length bs) (suc k) ≡ true = ground arith in
    rw (take_all (suc k) bs (omega arith), fits)

-- One round of the loop, for a read that finds the whole piece.
receive_loop_round :
    (fuel size n k : ℕ) (bs : Bytes) (rest : List Answer) (s : Net)
    → determine_correct_size size n ≡ k
    → 0 < k
    → k ≤ buffer_size
    → length bs ≡ k
    → receive_loop (suc fuel) size n (record s { inbox = got bs ∷ rest }) ≡ (
        if ltb (n + k) size
        then continue
            (λ more. pure (bs ++ more))
            (receive_loop fuel size (n + k) (record s { inbox = rest }))
        else (done bs, record s { inbox = rest }))
unfolding receive_loop after_read
receive_loop_round fuel size n k bs rest s d h small e =
    let in_buffer : ltb buffer_size k ≡ false = ground arith in
    let same_size : (length bs == k) ≡ true = ground arith in
    rw (d, in_buffer)
      (rw (read_whole k bs rest s h e) (
        rw same_size
          (elim (Bool-cases (ltb (n + k) size)) [ inl more ↦ rw more | inr over ↦ rw over ])))

receive_loop-pieces :
    (fuel size n : ℕ) (r : Bytes) (rest : List Answer) (s : Net)
    → 0 < length r
    → n + length r ≡ size
    → length r < fuel
    → size < 2 ^ 31
    → receive_loop fuel size n (record s { inbox = arriving (pieces fuel r) ++ rest })
      ≡ (done r, record s { inbox = rest })
unfolding pieces
receive_loop-pieces zero size n r rest s p l h small = absurd (omega arith)
receive_loop-pieces (suc fuel) size n r rest s p l h small =
    let want = determine_correct_size_lem size n small in
    elim (Bool-cases (leb (length r) buffer_size)) [
      | inl short ↦
          let over : ltb (n + length r) size ≡ false = ground arith in
          rw short (
            receive_loop_round fuel size n (length r) r rest s (ground (arith, want)) p
              (ground arith) refl
            ∙ rw over)
      | inr long ↦
          let more : ltb (n + buffer_size) size ≡ true = ground arith in
          let full : length (take buffer_size r) ≡ buffer_size =
            ground (arith, length-take buffer_size r) in
          rw long (
            receive_loop_round fuel size n buffer_size (take buffer_size r)
              (arriving (pieces fuel (drop buffer_size r)) ++ rest) s (ground (arith, want))
              (omega arith) (omega arith) full
            ∙ rw more (
                rw
                  (receive_loop-pieces fuel size (n + buffer_size) (drop buffer_size r) rest s
                    (ground (arith, length-drop buffer_size r))
                    (ground (arith, length-drop buffer_size r))
                    (ground (arith, length-drop buffer_size r)) small)
                  (ap (λ t. (done t, record s { inbox = rest })) (take-append-drop buffer_size r))))
    ]

-- With writes that take all they are given, `sendLargePayloadToSocket` of less than 2 GB returns
-- the size of the payload, having written the payload's bytes, in order and no others, to that
-- socket.
pub send_large_payload-whole :
    (socket : ℤ) (payload : Bytes) (s : Net)
    → s.accepts ≡ []
    → length payload < 2 ^ 31
    → (send_large_payload socket payload s ≡ (
      done (pos (length payload)),
      record s { outbox = s.outbox ++ addressed socket (pieces (suc (length payload)) payload) },
    ))
      × (concat (pieces (suc (length payload)) payload) ≡ payload)
unfolding send_large_payload
send_large_payload-whole socket payload s reliable_writes small = (
  subst
      (λ a. send_loop (suc (length payload)) socket payload 0 0 (record s { accepts = a }) ≡ (
        done (pos (length payload)),
        record s {
          accepts = a;
          outbox = s.outbox ++ addressed socket (pieces (suc (length payload)) payload);
        },
      ))
      (sym reliable_writes)
      (send_loop_whole (suc (length payload)) socket payload payload 0 s.inbox s.outbox refl
        (omega arith) (omega arith) small),
  concat-pieces (suc (length payload)) payload (omega arith),
)

-- Where the pieces of a payload that is not empty arrive as they were sent,
-- `readLargePayloadFromSocket` of the server returns the payload and leaves what came after it.
pub read_large_payload-pieces :
    (payload : Bytes) (rest : List Answer) (s : Net)
    → 0 < length payload
    → length payload < 2 ^ 31
    → read_large_payload
        (length payload)
        (record s { inbox = arriving (pieces (suc (length payload)) payload) ++ rest })
      ≡ (done payload, record s { inbox = rest })
unfolding read_large_payload
read_large_payload-pieces payload rest s h small =
    receive_loop-pieces (suc (length payload)) (length payload) 0 payload rest s h (omega arith)
      (omega arith) small

-- What `sendLargePayloadToSocket` writes of a payload that is not empty and has less than 2 GB,
-- where every write takes all that it is given, is a list of segments that make up the payload;
-- and where the segments arrive one by one, `readLargePayloadFromSocket` of the server returns the
-- payload and leaves what came after it.
pub read_large_payload-send_large_payload :
    (socket : ℤ) (payload : Bytes) (rest : List Answer) (s r : Net)
    → s.accepts ≡ []
    → 0 < length payload
    → length payload < 2 ^ 31
    → (segments : List Bytes) × (concat segments ≡ payload)
      × (send_large_payload socket payload s ≡ (
        done (pos (length payload)),
        record s { outbox = s.outbox ++ addressed socket segments },
      ))
      × (read_large_payload (length payload) (record r { inbox = arriving segments ++ rest })
          ≡ (done payload, record r { inbox = rest }))
read_large_payload-send_large_payload socket payload rest s r reliable_writes h small =
    let (sent, all) = send_large_payload-whole socket payload s reliable_writes small in
    (
      pieces (suc (length payload)) payload,
      all,
      sent,
      read_large_payload-pieces payload rest r h small,
    )
