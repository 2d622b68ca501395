-- ===== src/Server/Election.antt =====
-- The election between two backup servers (server-side/source/Server.cpp:203-215). What the reads
-- of the thread find is what comes on the socket between the two.
use dropbox_simulator.Common.{
  ◌≡◌, ◌⊎◌, inl, inr, refl, ap, ◌∙◌, Bool, true, false, ℤ, pos, negsuc, Bytes, List, [], ◌∷◌, ◌++◌,
  take, ltb, arith,
}
use dropbox_simulator.Thread.{pure, done, Answer, got, failed, after, read, ◌>>=◌, ◌>>◌}
use dropbox_simulator.Wire.{to_le, from_le, int_bits, bits_int}
use dropbox_simulator.Wire.Laws.{IsInt32, from_le-to_le, length-to_le, bits_int-int_bits}
use dropbox_simulator.Server.{World, Server, on_net}
use dropbox_simulator.Server.Session.Broadcast.{Steady, having_sent}
use dropbox_simulator.Server.Commands.{read_data, send_data, overlay}
use dropbox_simulator.Server.Commands.Peers.{facing, send_data_lem, read_data_lem}
use dropbox_simulator.Server.Commands.Serving.{delivered}

abbrev pub int_lt : ℤ → ℤ → Bool
int_lt (pos a) (pos b) = ltb a b
int_lt (pos a) (negsuc b) = false
int_lt (negsuc a) (pos b) = true
int_lt (negsuc a) (negsuc b) = ltb b a

-- `int secondaryId = 0`, with the bytes that were read put over it.
unfoldable pub secondary_id : Bytes → ℤ
secondary_id bytes = bits_int (from_le (take 4 (overlay bytes (to_le 4 0))))

-- The election: whether the server is the new primary.
unfoldable pub election : ℤ → ℤ → Server Bool
election secondary_socket id = do
  send_data secondary_socket (to_le 4 (int_bits id))
  bytes ← read_data 4
  pure (int_lt (secondary_id bytes) id)

-- What the server of this id writes.
abbrev pub vote : ℤ → ℤ → List (ℤ × Bytes)
vote socket id = (socket, to_le 4 (int_bits id)) ∷ []

secondary_id-vote : (id : ℤ) → IsInt32 id → secondary_id (to_le 4 (int_bits id)) ≡ id
unfolding secondary_id to_le
secondary_id-vote id h =
    let (e, fits) = bits_int-int_bits id h in ap bits_int (from_le-to_le 4 (int_bits id) fits) ∙ e

voted :
    (socket id other_socket other : ℤ) (rest : List Answer) (w : World)
    → Steady w
    → IsInt32 other
    → election socket id (facing (delivered (vote other_socket other) ++ rest) w)
      ≡ (done (int_lt other id), facing rest (having_sent (vote socket id) w))
unfolding election
voted socket id other_socket other rest w h fits =
    after _
      (send_data_lem socket (to_le 4 (int_bits id))
        (facing (delivered (vote other_socket other) ++ rest) w)
        (record { whole_writes = h.whole_writes; memory = h.memory }))
      (after _
        (read_data_lem 3 (to_le 4 (int_bits other)) rest (having_sent (vote socket id) w)
          (ground (arith, length-to_le 4 (int_bits other))))
        (ap (λ i. (done (int_lt i id), facing rest (having_sent (vote socket id) w)))
          (secondary_id-vote other fits)))

int_lt-cases :
    (i j : ℤ)
    → ((i ≡ j) × (int_lt j i ≡ false) × (int_lt i j ≡ false))
      ⊎ ((int_lt j i ≡ true) × (int_lt i j ≡ false))
      ⊎ ((int_lt j i ≡ false) × (int_lt i j ≡ true))
int_lt-cases (pos a) (pos b) = ground arith
int_lt-cases (pos a) (negsuc b) = inr (inl (refl, refl))
int_lt-cases (negsuc a) (pos b) = inr (inr (refl, refl))
int_lt-cases (negsuc a) (negsuc b) = ground arith

-- Two backup servers `a` and `b` that read each other's id agree: of two different ids the server
-- of the greater one, and only that one, is the new primary; of two equal ids neither is. (With
-- whole writes on both sides, and ids that are `int`s.)
pub election_agrees :
    (s t i j : ℤ) (more rest : List Answer) (a b : World)
    → Steady a
    → Steady b
    → IsInt32 i
    → IsInt32 j
    → (v : Bool) × (w : Bool) × (election s i (facing (delivered (vote t j) ++ more) a)
        ≡ (done v, facing more (having_sent (vote s i) a)))
      × (election t j (facing (delivered (vote s i) ++ rest) b)
          ≡ (done w, facing rest (having_sent (vote t j) b)))
      × (((i ≡ j) × (v ≡ false) × (w ≡ false))
          ⊎ ((int_lt j i ≡ true) × (v ≡ true) × (w ≡ false))
          ⊎ ((int_lt i j ≡ true) × (v ≡ false) × (w ≡ true)))
election_agrees s t i j more rest a b ha hb hi hj = (
  int_lt j i,
  int_lt i j,
  voted s i t j more a ha hj,
  voted t j s i rest b hb hi,
  elim (int_lt-cases i j) [
    | inl (e, v, w) ↦ inl (e, v, w)
    | inr (inl (v, w)) ↦ inr (inl (v, v, w))
    | inr (inr (v, w)) ↦ inr (inr (w, v, w))
  ],
)

-- What a read finds where there is no one.
abbrev pub NoAnswer : Answer → Type 0
NoAnswer answer = (answer ≡ failed) ⊎ (answer ≡ got [])

read_nothing :
    (answer : Answer) (rest : List Answer) (w : World)
    → NoAnswer answer
    → read_data 4 (facing (answer ∷ rest) w) ≡ (done [], facing rest w)
unfolding read_data on_net read
read_nothing answer rest w none = elim none [ inl e ↦ rw e refl | inr e ↦ rw e refl ]

unanswered :
    (socket id : ℤ) (answer : Answer) (rest : List Answer) (w : World)
    → Steady w
    → NoAnswer answer
    → election socket id (facing (answer ∷ rest) w)
      ≡ (done (int_lt (pos 0) id), facing rest (having_sent (vote socket id) w))
unfolding election secondary_id to_le from_le bits_int
unanswered socket id answer rest w h none =
    after _
      (send_data_lem socket (to_le 4 (int_bits id)) (facing (answer ∷ rest) w)
        (record { whole_writes = h.whole_writes; memory = h.memory }))
      (after _ (read_nothing answer rest (having_sent (vote socket id) w) none) refl)

-- Two backup servers that do not reach each other, their reads failing or at the end of the
-- stream, are both the new primary. (With whole writes on both sides, and ids greater than 0.)
pub election_split :
    (s t i j : ℤ) (x y : Answer) (more rest : List Answer) (a b : World)
    → Steady a
    → Steady b
    → int_lt (pos 0) i ≡ true
    → int_lt (pos 0) j ≡ true
    → NoAnswer x
    → NoAnswer y
    → (election s i (facing (x ∷ more) a) ≡ (done true, facing more (having_sent (vote s i) a)))
      × (election t j (facing (y ∷ rest) b) ≡ (done true, facing rest (having_sent (vote t j) b)))
election_split s t i j x y more rest a b ha hb hi hj nx ny = (
  unanswered s i x more a ha nx ∙ ap (λ v. (done v, facing more (having_sent (vote s i) a))) hi,
  unanswered t j y rest b hb ny ∙ ap (λ v. (done v, facing rest (having_sent (vote t j) b))) hj,
)
