-- ===== src/Base/Text.antt =====
-- Texts are lists of bytes. Equality, and the texts of numbers.
use Prim.Native.Nat.{ℕ, zero, suc, ◌+◌, ◌/◌, ◌%◌}
use Prim.Native.Char.{code}
use Prim.Native.String.{String}
use mathlib.Core.Path.{◌≡◌, refl, sym, ◌∙◌}
use mathlib.Core.Bool.{Bool, true, false, ◌&&◌}
use mathlib.Core.List.{List, [], ◌∷◌, ◌++◌}
use native.Mathlib.Omega.{arith}
use super_voice.Base.Tests.{ltb, ◌==◌, if◌then◌else◌, Bool-cases}
use mathlib.Core.Logic.{inl, inr}
use super_voice.Base.Int.{ℤ, pos, negsuc}

-- The bytes of an ASCII literal.
abbrev pub text : String → List ℕ
text String.[] = []
text (String.◌∷◌ c s) = code c ∷ text s

unfoldable pub same : List ℕ → List ℕ → Bool
same [] [] = true
same [] (b ∷ bs) = false
same (a ∷ as') [] = false
same (a ∷ as') (b ∷ bs) = a == b && same as' bs

pub same→eq : (xs ys : List ℕ) → same xs ys ≡ true → xs ≡ ys
unfolding same
same→eq [] [] h = refl
same→eq [] (b ∷ bs) h = cc
same→eq (a ∷ xs) [] h = cc
same→eq (a ∷ xs) (b ∷ bs) h = ground (arith, same→eq xs bs)

pub same_refl : (xs : List ℕ) → same xs xs ≡ true
unfolding same
same_refl [] = refl
same_refl (x ∷ xs) = ground (arith, same_refl xs)

-- Two texts that equal a third are equal.
pub same_trans : (i j k : List ℕ) → same i j ≡ true → same k j ≡ true → same i k ≡ true
same_trans i j k p q = rw (same→eq i j p, same→eq k j q) (same_refl j)

pub same_sym : (i j : List ℕ) → same i j ≡ false → same j i ≡ false
same_sym i j h = elim (Bool-cases (same j i)) [
  | inl e ↦ absurd (true-ne-false (sym (rw (same→eq j i e) (same_refl i)) ∙ h))
  | inr e ↦ e
]
  where
    true-ne-false : true ≡ false → ⊥
    true-ne-false p = cc

-- `std::to_string` of an unsigned number: the digits, with as much fuel as the number is large.
digits_of : ℕ → ℕ → List ℕ
digits_of zero n = []
digits_of (suc fuel) n =
    let front = digits_of fuel (n / 10) in
    if ltb n 10 then (b'0' + n) ∷ [] else front ++ ((b'0' + n % 10) ∷ [])

unfoldable pub to_string : ℕ → List ℕ
unfolding digits_of
to_string n = digits_of (suc n) n

-- `std::to_string` of a signed number.
unfoldable pub to_string_signed : ℤ → List ℕ
unfolding to_string
to_string_signed (pos n) = to_string n
to_string_signed (negsuc n) = b'-' ∷ to_string (suc n)
