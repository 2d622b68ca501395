-- ===== src/Transfer.antt =====
-- The loops that move a payload in pieces of `BUFFER_SIZE` bytes. The client and the server have
-- a copy of each.
pub mod Loops
pub mod Receiving
pub mod Sending
use dropbox_simulator.Common.{
  ℕ, zero, suc, ◌+◌, ◌-◌, ◌%◌, ◌^◌, ◌<◌, ◌≡◌, arith, Bool, true, false, ℤ, pos, negsuc, Bytes, List,
  [], ◌∷◌, ◌++◌, length, take, drop, leb, ltb, ◌==◌, if◌then◌else◌, Option, none, some,
}
use dropbox_simulator.Thread.{
  Thread, pure, pthread_exit, fault, diverge, ◌>>=◌, ◌>>◌, Net, read, write,
}

abbrev pub buffer_size : ℕ
buffer_size = 4

-- `determineCorrectSizeToBeRead`. The `size_t` of the caller becomes an `int`, and the result a
-- `size_t` again, so a negative one is huge. `done`, never negative, is at most the `int` where
-- that is positive.
unfoldable pub determine_correct_size : ℕ → ℕ → ℕ
determine_correct_size total done =
    let size = total % 2 ^ 32 in
    if ltb size (2 ^ 31)
    then (if leb buffer_size (size - done) then buffer_size else size - done)
    else 2 ^ 64 - (2 ^ 32 - size + done)

-- For a size that is an `int`.
pub determine_correct_size_lem :
    (total done : ℕ)
    → total < 2 ^ 31
    → determine_correct_size total done
      ≡ (if leb buffer_size (total - done) then buffer_size else total - done)
unfolding determine_correct_size
determine_correct_size_lem total done h = ground arith

-- `bytesWritenInSocket += bytesWritenInCurrentIteration`, of which a write gives -1 or more.
abbrev pub add_written : ℕ → ℤ → ℤ
add_written n (pos k) = pos (n + k)
add_written zero (negsuc k) = negsuc k
add_written (suc n) (negsuc k) = pos (n - k)

-- The end of a round and the loop's test, with the next round. The test compares an `int` with
-- a `size_t`: a negative count is a huge number there, and ends the loop.
unfoldable pub after_write : ℕ → (ℕ → Thread Net ℤ) → ℤ → Thread Net ℤ
after_write total next (negsuc k) = pure (negsuc k)
after_write total next (pos n) = if ltb n total then next n else pure (pos n)

-- The loop of `sendLargePayloadToSocket`; `copied` and `written` are its counters. A `memcpy`
-- past the end of the payload is undefined.
unfoldable pub send_loop : ℕ → ℤ → Bytes → ℕ → ℕ → Thread Net ℤ
send_loop zero socket payload copied written = diverge
send_loop (suc fuel) socket payload copied written =
    let total = length payload in
    let size = determine_correct_size total written in
    let next = send_loop fuel socket payload (copied + size) in
    if ltb total (copied + size)
    then fault
    else (write socket (take size (drop copied payload)) >>= λ r.
        after_write total next (add_written written r))

-- `sendLargePayloadToSocket`, `sendLargePayload`
unfoldable pub send_large_payload : ℤ → Bytes → Thread Net ℤ
send_large_payload socket payload = send_loop (suc (length payload)) socket payload 0 0

-- The end of a round of the server's `readLargePayloadFromSocket` and the loop's test: a read
-- that brings less than it asks for ends the thread.
unfoldable pub after_read : ℕ → Bool → Thread Net Bytes → Option Bytes → Thread Net Bytes
after_read want again next none = pthread_exit
after_read want again next (some bs) =
    if length bs == want
    then (if again then (next >>= λ more. pure (bs ++ more)) else pure bs)
    else pthread_exit

-- The loop, with what it puts into the buffer; `n` bytes have been read. A read of more than the
-- `BUFFER_SIZE` bytes of its own buffer is undefined.
unfoldable pub receive_loop : ℕ → ℕ → ℕ → Thread Net Bytes
receive_loop zero size n = diverge
receive_loop (suc fuel) size n =
    let want = determine_correct_size size n in
    let next = receive_loop fuel size (n + want) in
    if ltb buffer_size want
    then fault
    else (read want >>= after_read want (ltb (n + want) size) next)

-- `Server::readLargePayloadFromSocket`
unfoldable pub read_large_payload : ℕ → Thread Net Bytes
read_large_payload size = receive_loop (suc size) size 0

-- The client's loop: a read that brings less ends the loop, and its bytes are dropped.
unfoldable pub client_after_read : ℕ → Bool → Thread Net Bytes → Option Bytes → Thread Net Bytes
client_after_read want again next none = pure []
client_after_read want again next (some bs) =
    if length bs == want
    then (if again then (next >>= λ more. pure (bs ++ more)) else pure bs)
    else pure []

unfoldable pub client_receive_loop : ℕ → ℕ → ℕ → Thread Net Bytes
client_receive_loop zero size n = diverge
client_receive_loop (suc fuel) size n =
    let want = determine_correct_size size n in
    let next = client_receive_loop fuel size (n + want) in
    if ltb buffer_size want
    then fault
    else (read want >>= client_after_read want (ltb (n + want) size) next)

-- `Client::readLargePayloadFromSocket`
unfoldable pub client_read_large_payload : ℕ → Thread Net Bytes
client_read_large_payload size = client_receive_loop (suc size) size 0
