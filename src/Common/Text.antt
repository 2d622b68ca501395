-- ===== src/Common/Text.antt =====
-- Text as bytes: `std::string` and NUL-terminated character arrays.
use Prim.Native.Char.{code}
use Prim.Native.String.{String}
use Prim.Native.Nat.{ℕ}
use mathlib.Core.Path.{◌≡◌, refl}
use mathlib.Core.Logic.{◌↔◌}
use mathlib.Core.Bool.{Bool, true, false, ◌&&◌}
use mathlib.Core.Option
use mathlib.Core.Option.{Option, none, some}
use mathlib.Core.List.{List, [], ◌∷◌, ◌++◌}
use native.Mathlib.Omega.{arith}
use dropbox_simulator.Common.Tests.{◌==◌, if◌then◌else◌}
use dropbox_simulator.Common.Lists.{All}

abbrev pub Bytes : Type 0
Bytes = List ℕ

-- A quoted ASCII text as bytes.
abbrev pub text : String → Bytes
text String.[] = []
text (String.◌∷◌ c s) = code c ∷ text s

-- `==` on `std::string`, and `strcmp(a, b) == 0`.
unfoldable pub same : Bytes → Bytes → Bool
same [] [] = true
same [] (y ∷ ys) = false
same (x ∷ xs) [] = false
same (x ∷ xs) (y ∷ ys) = (x == y) && same xs ys

pub same_iff : (a b : Bytes) → (same a b ≡ true) ↔ (a ≡ b)
unfolding same
same_iff [] [] = ground arith
same_iff [] (y ∷ ys) = ground arith
same_iff (x ∷ xs) [] = ground arith
same_iff (x ∷ xs) (y ∷ ys) = ground (arith, same_iff xs ys)

pub same_refl : (a : Bytes) → same a a ≡ true
same_refl a = (same_iff a a).1 refl

-- The C string that begins at the start of a buffer: `none` if the buffer holds no NUL, in
-- which case the string functions read past its end.
abbrev pub c_string : Bytes → Option Bytes
c_string [] = none
c_string (b ∷ bs) = if b == 0 then some [] else Option.map (◌∷◌ b) (c_string bs)

-- No byte is NUL, as in every C string.
abbrev pub NoNul : Bytes → Type 0
NoNul = All (λ b. (b == 0) ≡ false)

pub c_string-append_nul : (s rest : Bytes) → NoNul s → c_string (s ++ (0 ∷ rest)) ≡ some s
c_string-append_nul [] rest h = refl
c_string-append_nul (b ∷ s) rest h = ground (arith, c_string-append_nul s rest h.1)
