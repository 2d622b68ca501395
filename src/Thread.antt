-- ===== src/Thread.antt =====
-- A thread of the client or of the server: what it does to a state `S`, and how it ends. The
-- calls of the operating system that the threads share are here: `read` and `write` on a socket.
-- What the other side and the network do is part of the state: `inbox` holds what the reads of
-- this thread's socket find, in order, and `accepts` how much each write takes.
use dropbox_simulator.Common.{
  ℕ, zero, suc, ℤ, pos, negsuc, Bytes, List, [], ◌∷◌, ◌++◌, length, take, drop, leb, if◌then◌else◌,
  Option, none, some, ◌≡◌, ap, ◌∙◌,
}

-- `exits` is `pthread_exit`; `blocks` waits for ever, in a read or on a semaphore; `faults` is
-- undefined behaviour; `diverges` says that the model ran out of fuel.
pub data Result (A : Type 0) : Type 0 where
  done : A → Result A
  exits blocks faults diverges : Result A

abbrev pub Thread : Type 0 → Type 0 → Type 0
Thread S A = S → Result A × S

module _ {S A : Type 0} where
  abbrev pub pure : A → Thread S A
  pure a s = (done a, s)

  abbrev pub pthread_exit : Thread S A
  pthread_exit s = (exits, s)

  abbrev pub fault : Thread S A
  fault s = (faults, s)

  abbrev pub diverge : Thread S A
  diverge s = (diverges, s)

  abbrev pub gets : (S → A) → Thread S A
  gets f s = (done (f s), s)

-- Only a part that is done is followed by the next one.
abbrev pub continue : {S A B : Type 0} → (A → Thread S B) → Result A × S → Result B × S
continue f (done a, t) = f a t
continue f (exits, t) = (exits, t)
continue f (blocks, t) = (blocks, t)
continue f (faults, t) = (faults, t)
continue f (diverges, t) = (diverges, t)

infixl 5 ◌>>=◌ ◌>>◌
abbrev pub ◌>>=◌ : {S A B : Type 0} → Thread S A → (A → Thread S B) → Thread S B
◌>>=◌ m f s = continue f (m s)

abbrev pub ◌>>◌ : {S A B : Type 0} → Thread S A → Thread S B → Thread S B
m >> k = m >>= λ _. k

abbrev pub modifies : {S : Type 0} → (S → S) → Thread S (Unit {0})
modifies f s = (done tt, f s)

-- What a read finds: bytes, none of them at the end of the stream, or an error.
pub data Answer : Type 0 where
  got : Bytes → Answer
  failed : Answer

-- How much of its bytes a write takes.
pub data Accept : Type 0 where
  whole : Accept
  part : ℕ → Accept
  refused : Accept

pub record Net : Type 0 where
  pub inbox : List Answer
  pub accepts : List Accept
  pub outbox : List (ℤ × Bytes)

-- What is left of a segment after a read of `n` bytes.
abbrev pub leftover : ℕ → Bytes → List Answer → List Answer
leftover n bs rest = if leb (length bs) n then rest else got (drop n bs) ∷ rest

-- `read(socket, buffer, n)` on the thread's own socket; `none` is -1. A read of no bytes returns
-- at once, and one with nothing to come blocks.
unfoldable pub read : ℕ → Thread Net (Option Bytes)
read zero s = (done (some []), s)
read (suc n) s = elim s.inbox [
  | [] ↦ (blocks, s)
  | answer ∷ rest ↦ elim answer [
    | got bs ↦ (done (some (take (suc n) bs)), record s { inbox = leftover (suc n) bs rest })
    | failed ↦ (done none, record s { inbox = rest })
  ]
]

abbrev pub post : ℤ → Bytes → List Accept → Net → Net
post socket bs left s = record s { accepts = left; outbox = s.outbox ++ ((socket, bs) ∷ []) }

-- `write(socket, bs, length)`. Where `accepts` has run out, writes are whole.
unfoldable pub write : ℤ → Bytes → Thread Net ℤ
write socket bs s = elim s.accepts [
  | [] ↦ (done (pos (length bs)), post socket bs [] s)
  | accept ∷ left ↦ elim accept [
    | whole ↦ (done (pos (length bs)), post socket bs left s)
    | part k ↦ (done (pos (length (take k bs))), post socket (take k bs) left s)
    | refused ↦ (done (negsuc 0), record s { accepts = left })
  ]
]

-- A part that is done, and then the next one.
pub after :
    {S A B : Type 0} {x : Result A × S} {a : A} {u : S} {r : Result B × S} (k : A → Thread S B)
    → x ≡ (done a, u)
    → k a u ≡ r
    → continue k x ≡ r
after k e rest = ap (continue k) e ∙ rest
