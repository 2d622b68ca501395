-- ===== src/Transfer/Receiving.antt =====
-- `readLargePayloadFromSocket` of the server (server-side/source/Server.cpp:535-554) and of the
-- client (client-side/source/Client.cpp:133-153), whatever the network does.
use dropbox_simulator.Common.{
  ℕ, zero, suc, ◌+◌, ◌-◌, ◌^◌, ◌≡◌, ◌≤◌, ◌<◌, ◌⊎◌, inl, inr, refl, subst, true, false, ◌%◌, Bytes,
  List, [], ◌∷◌, ◌++◌, length, length-append, take, ltb, ◌==◌, Option, none, some, arith,
  Bool-cases,
}
use dropbox_simulator.Thread.{
  Thread, Result, done, exits, blocks, faults, diverges, pure, continue, Net, Answer, got, failed,
  read, leftover,
}
use dropbox_simulator.Transfer.{
  buffer_size, determine_correct_size, determine_correct_size_lem, after_read, receive_loop,
  read_large_payload, client_after_read, client_receive_loop, client_read_large_payload,
}

-- How a receive of `size` bytes may end.
abbrev pub Received : ℕ → Result Bytes × Net → Type 0
Received size (done bs, s) = length bs ≡ size
Received size (exits, s) = Unit
Received size (blocks, s) = Unit
Received size (faults, s) = ⊥
Received size (diverges, s) = ⊥

-- A read blocks, or returns.
read_cases :
    (n : ℕ) (s : Net)
    → (read n s ≡ (blocks, s)) ⊎ ((o : Option Bytes) × (t : Net) × (read n s ≡ (done o, t)))
unfolding read
read_cases zero s = inr (some [], s, refl)
read_cases (suc n) s = inbox_cases s.inbox refl
  where
    inbox_cases :
        (l : List Answer)
        → s.inbox ≡ l
        → (read (suc n) s ≡ (blocks, s))
          ⊎ ((o : Option Bytes) × (t : Net) × (read (suc n) s ≡ (done o, t)))
    inbox_cases [] e = inl (rw e refl)
    inbox_cases (got bs ∷ rest) e =
        inr (some (take (suc n) bs), record s { inbox = leftover (suc n) bs rest }, rw e refl)
    inbox_cases (failed ∷ rest) e = inr (none, record s { inbox = rest }, rw e refl)

Received-append :
    (bs : Bytes) (k m : ℕ) (r : Result Bytes × Net)
    → length bs + k ≡ m
    → Received k r
    → Received m (continue (λ more. pure (bs ++ more)) r)
Received-append bs k m (done more, s) e h = omega (arith, length-append bs more)
Received-append bs k m (exits, s) e h = tt
Received-append bs k m (blocks, s) e h = tt
Received-append bs k m (faults, s) e h = h
Received-append bs k m (diverges, s) e h = h

determine_bounds :
    (size n : ℕ)
    → n < size
    → size < 2 ^ 31
    → (0 < determine_correct_size size n)
      × (n + determine_correct_size size n ≤ size)
      × (ltb buffer_size (determine_correct_size size n) ≡ false)
determine_bounds size n h small = ground (arith, determine_correct_size_lem size n small)

module _ (size n : ℕ) where
  abbrev want : ℕ
  want = determine_correct_size size n

  -- What a round does with what it reads, where the rounds that follow are known to end well.
  after_read-Received :
      (next : Thread Net Bytes) (o : Option Bytes) (t : Net)
      → n + want ≤ size
      → ((n + want < size) → Received (size - (n + want)) (next t))
      → Received (size - n) (after_read want (ltb (n + want) size) next o t)
  unfolding after_read
  after_read-Received next none t fits later = tt
  after_read-Received next (some bs) t fits later = elim (Bool-cases (length bs == want)) [
    | inl whole ↦ elim (Bool-cases (ltb (n + want) size)) [
      | inl more ↦
          rw (whole, more)
            (Received-append bs (size - (n + want)) (size - n) (next t) (ground arith)
              (later (ground arith)))
      | inr over ↦ rw (whole, over) (ground arith)
    ]
    | inr short ↦ rw short tt
  ]

receive_loop-Received :
    (fuel size n : ℕ) (s : Net)
    → n < size
    → size < 2 ^ 31
    → size - n < fuel
    → Received (size - n) (receive_loop fuel size n s)
unfolding receive_loop
receive_loop-Received zero size n s within small enough = absurd (omega arith)
receive_loop-Received (suc fuel) size n s within small enough =
    let (some_bytes, fits, in_buffer) = determine_bounds size n within small in
    rw in_buffer (elim (read_cases (determine_correct_size size n) s) [
      | inl waits ↦ rw waits tt
      | inr (o, t, e) ↦ rw e (
          after_read-Received size n (receive_loop fuel size (n + determine_correct_size size n)) o
            t fits
            (λ more.
              receive_loop-Received fuel size (n + determine_correct_size size n) t more small
                (omega arith)))
    ])

read_nothing : (s : Net) → read_large_payload 0 s ≡ (done [], s)
unfolding read_large_payload receive_loop after_read determine_correct_size read
read_nothing s = refl

-- Whatever the network brings, `readLargePayloadFromSocket` of the server, of less than 2 GB, comes
-- to an end: it returns just as many bytes as it is to read, or ends the thread, or waits for more.
pub read_large_payload-Received :
    (size : ℕ) (s : Net) → size < 2 ^ 31 → Received size (read_large_payload size s)
unfolding read_large_payload
read_large_payload-Received zero s small = rw (read_nothing s) refl
read_large_payload-Received (suc size) s small =
    let all : suc size - 0 ≡ suc size = omega arith in
    subst (λ k. Received k (receive_loop (suc (suc size)) (suc size) 0 s)) all
      (receive_loop-Received (suc (suc size)) (suc size) 0 s (omega arith) small (omega arith))

-- What the client's function does where the server's does `r`, of `size` bytes to be read.
abbrev pub Agrees : ℕ → Result Bytes × Net → Result Bytes × Net → Type 0
Agrees size (exits, t) r = (bs : Bytes) × (length bs < size) × (r ≡ (done bs, t))
Agrees size (done bs, t) r = r ≡ (done bs, t)
Agrees size (blocks, t) r = r ≡ (blocks, t)
Agrees size (faults, t) r = r ≡ (faults, t)
Agrees size (diverges, t) r = r ≡ (diverges, t)

Agrees-append :
    (bs : Bytes) (k m : ℕ) (r r' : Result Bytes × Net)
    → length bs + k ≡ m
    → Agrees k r r'
    → Agrees m (continue (λ more. pure (bs ++ more)) r) (continue (λ more. pure (bs ++ more)) r')
Agrees-append bs k m (exits, t) r' l (more, fewer, e) =
    (bs ++ more, omega (arith, length-append bs more), rw e refl)
Agrees-append bs k m (done more, t) r' l e = rw e refl
Agrees-append bs k m (blocks, t) r' l e = rw e refl
Agrees-append bs k m (faults, t) r' l e = rw e refl
Agrees-append bs k m (diverges, t) r' l e = rw e refl

module _ (size n : ℕ) where
  after_read-Agrees :
      (next next' : Thread Net Bytes) (o : Option Bytes) (t : Net)
      → n < size
      → n + want size n ≤ size
      → ((n + want size n < size) → Agrees (size - (n + want size n)) (next t) (next' t))
      → Agrees
          (size - n)
          (after_read (want size n) (ltb (n + want size n) size) next o t)
          (client_after_read (want size n) (ltb (n + want size n) size) next' o t)
  unfolding after_read client_after_read
  after_read-Agrees next next' none t within fits later = ([], omega arith, refl)
  after_read-Agrees next next' (some bs) t within fits later =
      elim (Bool-cases (length bs == want size n)) [
        | inl whole ↦ elim (Bool-cases (ltb (n + want size n) size)) [
          | inl more ↦
              rw (whole, more)
                (Agrees-append bs (size - (n + want size n)) (size - n) (next t) (next' t)
                  (ground arith) (later (ground arith)))
          | inr over ↦ rw (whole, over) refl
        ]
        | inr short ↦ rw short ([], omega arith, refl)
      ]

receive_loop-Agrees :
    (fuel size n : ℕ) (s : Net)
    → n < size
    → size < 2 ^ 31
    → Agrees (size - n) (receive_loop fuel size n s) (client_receive_loop fuel size n s)
unfolding receive_loop client_receive_loop
receive_loop-Agrees zero size n s within small = refl
receive_loop-Agrees (suc fuel) size n s within small =
    let (some_bytes, fits, in_buffer) = determine_bounds size n within small in
    rw in_buffer (elim (read_cases (want size n) s) [
      | inl waits ↦ rw waits refl
      | inr (o, t, e) ↦ rw e (
          after_read-Agrees size n (receive_loop fuel size (n + want size n))
            (client_receive_loop fuel size (n + want size n)) o t within fits
            (λ more. receive_loop-Agrees fuel size (n + want size n) t more small))
    ])

client_reads_nothing : (s : Net) → client_read_large_payload 0 s ≡ (done [], s)
unfolding client_read_large_payload client_receive_loop client_after_read determine_correct_size
    read
client_reads_nothing s = refl

-- Whatever the network brings, the two copies of `readLargePayloadFromSocket`, of less than 2 GB,
-- read the same: where the server's returns, the client's returns the same bytes; where the
-- server's waits, the client's does; and where the server's ends its thread, the client's returns,
-- with fewer bytes than it was to read.
pub read_large_payload-Agrees :
    (size : ℕ) (s : Net)
    → size < 2 ^ 31
    → Agrees size (read_large_payload size s) (client_read_large_payload size s)
unfolding read_large_payload client_read_large_payload
read_large_payload-Agrees zero s small = rw (read_nothing s, client_reads_nothing s) refl
read_large_payload-Agrees (suc size) s small =
    let all : suc size - 0 ≡ suc size = omega arith in
    subst
      (λ k.
        Agrees k (receive_loop (suc (suc size)) (suc size) 0 s)
          (client_receive_loop (suc (suc size)) (suc size) 0 s))
      all (receive_loop-Agrees (suc (suc size)) (suc size) 0 s (omega arith) small)

-- Of a size that is a multiple of 4 GB neither copy reads anything, however long it goes on: the
-- `int` that it becomes is 0, and the loop asks for no bytes, again and again.
pub receive_loop-diverges :
    (fuel size : ℕ) (s : Net)
    → 0 < size
    → size % 2 ^ 32 ≡ 0
    → (receive_loop fuel size 0 s ≡ (diverges, s))
      × (client_receive_loop fuel size 0 s ≡ (diverges, s))
unfolding receive_loop client_receive_loop determine_correct_size after_read client_after_read read
receive_loop-diverges zero size s some_bytes wraps = (refl, refl)
receive_loop-diverges (suc fuel) size s some_bytes wraps =
    let (server, client) = receive_loop-diverges fuel size s some_bytes wraps in
    let again : ltb 0 size ≡ true = ground arith in
    (rw wraps (rw again (rw server refl)), rw wraps (rw again (rw client refl)))
