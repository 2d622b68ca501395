-- ===== src/Server/Configuration/Reading.antt =====
-- What `getBackupServersIPs` makes of a server.txt (server-side/source/Server.cpp:297-435).
use dropbox_simulator.Common.{
  ℕ, suc, ◌≡◌, ◌<◌, ◌^◌, refl, Bool, ◌&&◌, Bool-cases, inl, inr, if◌then◌else◌, none, ap, ◌∙◌, true,
  false, ◌||◌, ℤ, pos, Bytes, c_string-append_nul, NoNul, [], ◌∷◌, ◌++◌, length, drop, All, ltb,
  ◌==◌, Option, some, arith,
}
use dropbox_simulator.Wire.{strcpy}
use dropbox_simulator.Instruction.{token, strtok, space, ◌>>=◌}
use dropbox_simulator.Server.Configuration.{
  Address, Reader, newline, atoi, line_of, after_line, getline, copy_of, read_address, read_id,
  set_info,
}
use dropbox_simulator.Server.Configuration.Numbers.{Digits, decimal, digits_lem, atoi-decimal}

-- Whether the block of `malloc(n)` has room for the NUL that the code does not ask for.
abbrev pub has_room : (ℕ → Bytes) → ℕ → Bool
has_room heap n = ltb n (length (heap n))

-- Bytes without NUL, space and newline.
abbrev pub Plain : Bytes → Type 0
Plain = All (λ b. (b == 0 || b == space || b == newline) ≡ false)

abbrev pub SomePlain : Bytes → Type 0
SomePlain s = Plain s × (0 < length s)

pub Plain-NoNul : (s : Bytes) → Plain s → NoNul s
Plain-NoNul [] h = tt
Plain-NoNul (b ∷ s) h = (ground arith, Plain-NoNul s h.1)

NoNul-append : (a b : Bytes) → NoNul a → NoNul b → NoNul (a ++ b)
NoNul-append [] b h k = k
NoNul-append (x ∷ a) b h k = (h.0, NoNul-append a b h.1 k)

Digits-Plain : (s : Bytes) → Digits s → Plain s
Digits-Plain [] h = tt
Digits-Plain (b ∷ s) h = (ground arith, Digits-Plain s h.1)

pub decimal-Plain : (n : ℕ) → SomePlain (decimal n)
decimal-Plain n =
    let (ds, v, l) = digits_lem (suc n) n (omega arith) in (Digits-Plain (decimal n) ds, l)

token-append : (s rest : Bytes) → Plain s → token (s ++ (space ∷ rest)) ≡ (s, rest)
unfolding token
token-append [] rest h = refl
token-append (b ∷ s) rest h =
    let other : (b == space) ≡ false = ground arith in
    rw other (ap (λ p. (b ∷ p.0, p.1)) (token-append s rest h.1))

token-all : (s : Bytes) → Plain s → token s ≡ (s, [])
unfolding token
token-all [] h = refl
token-all (b ∷ s) h =
    let other : (b == space) ≡ false = ground arith in
    rw other (ap (λ p. (b ∷ p.0, p.1)) (token-all s h.1))

strtok-append : (s rest : Bytes) → SomePlain s → strtok (s ++ (space ∷ rest)) ≡ some (s, rest)
unfolding strtok
strtok-append [] rest (h, l) = absurd (omega arith)
strtok-append (b ∷ s) rest (h, l) =
    let other : (b == space) ≡ false = ground arith in
    rw other (ap some (token-append (b ∷ s) rest h))

strtok-all : (s : Bytes) → SomePlain s → strtok s ≡ some (s, [])
unfolding strtok
strtok-all [] (h, l) = absurd (omega arith)
strtok-all (b ∷ s) (h, l) =
    let other : (b == space) ≡ false = ground arith in rw other (ap some (token-all (b ∷ s) h))

-- One line of several.
abbrev pub NoNewline : Bytes → Type 0
NoNewline = All (λ b. (b == newline) ≡ false)

pub Plain-NoNewline : (s : Bytes) → Plain s → NoNewline s
Plain-NoNewline [] h = tt
Plain-NoNewline (b ∷ s) h = (ground arith, Plain-NoNewline s h.1)

pub NoNewline-append : (a b : Bytes) → NoNewline a → NoNewline b → NoNewline (a ++ b)
NoNewline-append [] b h k = k
NoNewline-append (x ∷ a) b h k = (h.0, NoNewline-append a b h.1 k)

line_of-append : (l rest : Bytes) → NoNewline l → line_of (l ++ (newline ∷ rest)) ≡ l
unfolding line_of
line_of-append [] rest h = refl
line_of-append (b ∷ l) rest h = rw h.0 (ap (◌∷◌ b) (line_of-append l rest h.1))

after_line-append : (l rest : Bytes) → NoNewline l → after_line (l ++ (newline ∷ rest)) ≡ some rest
unfolding after_line
after_line-append [] rest h = refl
after_line-append (b ∷ l) rest h = rw h.0 (after_line-append l rest h.1)

abbrev pub reading : Bytes → Bytes → Reader
reading line rest = record { rest = rest; good = true; line = line }

pub getline_lem :
    (l old rest : Bytes)
    → NoNewline l
    → getline (reading old (l ++ (newline ∷ rest))) ≡ reading l rest
unfolding getline
getline_lem l old rest h =
    rw (after_line-append l rest h) (ap (λ k. reading k rest) (line_of-append l rest h))

pub read_id_lem : (n : ℕ) → n < 2 ^ 31 → read_id (decimal n) ≡ some (pos n)
unfolding read_id
read_id_lem n small =
    rw (c_string-append_nul (decimal n) [] (Plain-NoNul (decimal n) (decimal-Plain n).0))
      (atoi-decimal n small)

-- A step that succeeds is followed by the next one.
pub bound :
    {A B : Type 0} {o : Option A} {a : A} (f : A → Option B) {r : Option B}
    → o ≡ some a
    → f a ≡ r
    → (o >>= f) ≡ r
bound f e k = ap (λ o. o >>= f) e ∙ k

-- A step that is undefined makes all undefined.
pub unbound : {A B : Type 0} {o : Option A} (f : A → Option B) → o ≡ none → (o >>= f) ≡ none
unbound f e = ap (λ o. o >>= f) e

module _ (heap : ℕ → Bytes) where
  strcpy_fits :
      (s : Bytes)
      → has_room heap (length s) ≡ true
      → strcpy (heap (length s)) s ≡ some (s ++ (0 ∷ drop (suc (length s)) (heap (length s))))
  unfolding strcpy
  strcpy_fits s room = rw room refl

  strcpy_overflows :
      (s : Bytes) → has_room heap (length s) ≡ false → strcpy (heap (length s)) s ≡ none
  unfolding strcpy
  strcpy_overflows s full = rw full refl

  copy_of_lem : (s : Bytes) → NoNul s → has_room heap (length s) ≡ true → copy_of heap s ≡ some s
  unfolding copy_of
  copy_of_lem s h room = rw (strcpy_fits s room) (c_string-append_nul s _ h)

  copy_of_overflows : (s : Bytes) → has_room heap (length s) ≡ false → copy_of heap s ≡ none
  unfolding copy_of
  copy_of_overflows s full = unbound _ (strcpy_overflows s full)

  pub set_info_lem :
      (a : Address) → NoNul a.ip → has_room heap (length a.ip) ≡ true → set_info heap a ≡ some a
  unfolding set_info
  set_info_lem a h room = rw (copy_of_lem a.ip h room) refl

  -- An address, with a number that `atoi` reads.
  pub read_address_lem :
      (ip number : Bytes) (port : ℤ)
      → SomePlain ip
      → SomePlain number
      → atoi number ≡ some port
      → read_address heap (ip ++ (space ∷ number)) ≡ (
          if has_room heap (length (ip ++ (space ∷ number))) && has_room heap (length ip)
          then some (record { ip = ip; port = port })
          else none)
  unfolding read_address
  read_address_lem ip number port is_ip is_number e =
      let whole : Bytes = ip ++ (space ∷ number) in
      let no_nul : NoNul whole =
        NoNul-append ip (space ∷ number) (Plain-NoNul ip is_ip.0)
          (refl, Plain-NoNul number is_number.0) in
      bound _ (c_string-append_nul whole [] no_nul)
        (elim (Bool-cases (has_room heap (length whole))) [
          | inr full ↦ unbound _ (strcpy_overflows whole full) ∙ rw full refl
          | inl room ↦ bound _ (strcpy_fits whole room) (
              bound _ (c_string-append_nul whole _ no_nul) (
                bound _ (strtok-append ip number is_ip)
                  (elim (Bool-cases (has_room heap (length ip))) [
                    | inr full ↦ unbound _ (copy_of_overflows ip full) ∙ rw (room, full) refl
                    | inl room_too ↦
                        bound _ (copy_of_lem ip (Plain-NoNul ip is_ip.0) room_too)
                          (bound _ (strtok-all number is_number) (bound _ e refl))
                        ∙ rw (room, room_too) refl
                  ])))
        ])
