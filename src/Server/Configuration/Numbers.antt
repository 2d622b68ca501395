-- ===== src/Server/Configuration/Numbers.antt =====
-- Numbers as they are written, and as `atoi` reads them.
use dropbox_simulator.Common.{
  ℕ, zero, suc, ◌+◌, ◌-◌, ◌*◌, ◌/◌, ◌%◌, ◌^◌, ◌≡◌, ◌<◌, ap, ◌∙◌, true, false, pos, Bytes, [], ◌∷◌,
  ◌++◌, length, length-append, All, ltb, if◌then◌else◌, some, arith, Bool-cases, inl, inr, ◌==◌,
}
use dropbox_simulator.Server.Configuration.{is_digit, is_space, value, skip_space, signed, atoi}

abbrev pub Digits : Bytes → Type 0
Digits = All (λ b. is_digit b ≡ true)

-- The decimal digits of a number.
unfoldable pub digits : ℕ → ℕ → Bytes
digits zero n = []
digits (suc fuel) n =
    if ltb n 10 then (0x30 + n) ∷ [] else digits fuel (n / 10) ++ ((0x30 + n % 10) ∷ [])

abbrev pub decimal : ℕ → Bytes
decimal n = digits (suc n) n

Digits-append : (xs ys : Bytes) → Digits xs → Digits ys → Digits (xs ++ ys)
Digits-append [] ys h k = k
Digits-append (x ∷ xs) ys h k = (h.0, Digits-append xs ys h.1 k)

value-append :
    (n : ℕ) (xs : Bytes) (d : ℕ)
    → Digits xs
    → d < 10
    → value n (xs ++ ((0x30 + d) ∷ [])) ≡ value n xs * 10 + d
unfolding value
value-append n [] d h k = ground arith
value-append n (x ∷ xs) d h k = rw h.0 (value-append (n * 10 + (x - 0x30)) xs d h.1 k)

pub digits_lem :
    (fuel n : ℕ)
    → n < fuel
    → Digits (digits fuel n) × (value 0 (digits fuel n) ≡ n) × (0 < length (digits fuel n))
unfolding digits value
digits_lem zero n h = absurd (omega arith)
digits_lem (suc fuel) n h = elim (Bool-cases (ltb n 10)) [
  | inl small ↦ rw small ((ground arith, tt), ground arith, omega arith)
  | inr large ↦
      let (ds, v, l) = digits_lem fuel (n / 10) (ground arith) in
      rw large (
        Digits-append (digits fuel (n / 10)) _ ds (ground arith, tt),
        value-append 0 (digits fuel (n / 10)) (n % 10) ds (omega arith) ∙ ground (arith, v),
        ground (arith, length-append (digits fuel (n / 10)) ((0x30 + n % 10) ∷ [])),
      )
]

-- `atoi` reads what is written.
pub atoi-decimal : (n : ℕ) → n < 2 ^ 31 → atoi (decimal n) ≡ some (pos n)
unfolding skip_space signed
atoi-decimal n h =
    let (ds, v, l) = digits_lem (suc n) n (omega arith) in of_digits (decimal n) ds v l
  where
    of_digits : (s : Bytes) → Digits s → value 0 s ≡ n → 0 < length s → atoi s ≡ some (pos n)
    of_digits [] ds v l = absurd (omega arith)
    of_digits (b ∷ bs) (d, ds) v l =
        let small : ltb (value 0 (b ∷ bs)) (2 ^ 31) ≡ true = ground arith in
        let solid : is_space b ≡ false = ground arith in
        let plus : (b == 0x2b) ≡ false = ground arith in
        let minus : (b == 0x2d) ≡ false = ground arith in
        rw solid (rw (minus, plus) (rw small (ap (λ k. some (pos k)) v)))
