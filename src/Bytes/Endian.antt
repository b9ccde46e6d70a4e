-- ===== src/Bytes/Endian.antt =====
-- Round trips of the little-endian helpers.
use super_voice.Base.{
  ℕ, zero, suc, ◌+◌, ◌*◌, ◌/◌, ◌%◌, ◌^◌, ◌≤◌, ◌<◌, ◌≡◌, refl, sym, ap, ◌∙◌, List, [], ◌∷◌, arith,
  length, All,
}
use super_voice.Base.Bits.{bit_and_byte, bit_or-add}
use super_voice.Base.Word.{IsByte}
use super_voice.Bytes.{
  to_le_loop, to_le_array, from_le_loop, from_le_array, or_byte, byte_of, write_u32_le,
  write_u64_le,
}
use native.Mathlib.Numerals.{towards_suc}
use native.Mathlib.Nat.{pow-suc, div-div-eq-div-mul, mod-eq_of_lt, pow-le-pow_right}

-- The number that a list of bytes stands for, least significant byte first.
abbrev pub le_value : List ℕ → ℕ
le_value [] = 0
le_value (b ∷ bs) = b + 256 * le_value bs

-- The bytes of a number, least significant first.
abbrev pub le_bytes : ℕ → ℕ → List ℕ
le_bytes zero value = []
le_bytes (suc n) value = value % 256 ∷ le_bytes n (value / 256)

pub pow_byte : (i : ℕ) → 2 ^ (8 * (i + 1)) ≡ 2 ^ (8 * i) * 256
pow_byte i =
    let e : 8 * (i + 1) ≡ 8 * i + 8 = omega arith in
    rw e (simp towards_suc (simp pow-suc (omega arith)))

pub pow_byte_suc : (i : ℕ) → 2 ^ (8 * suc i) ≡ 2 ^ (8 * i) * 256
pow_byte_suc i = let e : suc i ≡ i + 1 = omega arith in rw e (pow_byte i)

byte_of_lem : (value i : ℕ) → byte_of value i ≡ value / 2 ^ (8 * i) % 256
byte_of_lem value i = omega (arith, bit_and_byte (value / 2 ^ (8 * i)))

div-pow_byte : (value i : ℕ) → value / 2 ^ (8 * (i + 1)) ≡ value / 2 ^ (8 * i) / 256
div-pow_byte value i = rw (pow_byte i) (sym (div-div-eq-div-mul value (2 ^ (8 * i)) 256))

to_le_loop_lem : (n i value : ℕ) → to_le_loop n i value ≡ le_bytes n (value / 2 ^ (8 * i))
unfolding to_le_loop
to_le_loop_lem zero i value = refl
to_le_loop_lem (suc n) i value =
    rw (byte_of_lem value i, to_le_loop_lem n (i + 1) value, div-pow_byte value i) refl

-- `to_le_array` writes the digits to base 256, least significant first.
pub to_le_array_lem : (width value : ℕ) → to_le_array width value ≡ le_bytes width value
unfolding to_le_array
to_le_array_lem width value = rw (to_le_loop_lem width 0 value) (ap (le_bytes width) (omega arith))

pub length-le_bytes : (n value : ℕ) → length (le_bytes n value) ≡ n
length-le_bytes zero value = refl
length-le_bytes (suc n) value = ap suc (length-le_bytes n (value / 256))

pub le_bytes-IsByte : (n value : ℕ) → All IsByte (le_bytes n value)
le_bytes-IsByte zero value = tt
le_bytes-IsByte (suc n) value = (omega arith, le_bytes-IsByte n (value / 256))

pub le_value-le_bytes : (n value : ℕ) → value < 2 ^ (8 * n) → le_value (le_bytes n value) ≡ value
le_value-le_bytes zero value h = omega arith
le_value-le_bytes (suc n) value h =
    omega (arith, le_value-le_bytes n (value / 256) (omega (arith, pow_byte_suc n)))

pub le_bytes-le_value : (bs : List ℕ) → All IsByte bs → le_bytes (length bs) (le_value bs) ≡ bs
le_bytes-le_value [] h = refl
le_bytes-le_value (b ∷ bs) h =
    let low : (b + 256 * le_value bs) % 256 ≡ b = omega arith in
    let high : (b + 256 * le_value bs) / 256 ≡ le_value bs = omega arith in
    rw (low, high, le_bytes-le_value bs h.1) refl

or_byte_lem :
    (width acc b i : ℕ)
    → acc < 2 ^ (8 * i)
    → b < 256
    → i < width
    → (or_byte width acc b i ≡ acc + b * 2 ^ (8 * i)) × (acc + b * 2 ^ (8 * i) < 2 ^ (8 * (i + 1)))
or_byte_lem width acc b i ha hb hi =
    (rw (mod-eq_of_lt fits) (bit_or-add (8 * i) acc b ha), sum_fits)
  where
    sum_fits : acc + b * 2 ^ (8 * i) < 2 ^ (8 * (i + 1))
    sum_fits = grind (arith, pow_byte i)

    fits : b * 2 ^ (8 * i) < 2 ^ (8 * width)
    fits =
        let wide : 2 ^ (8 * (i + 1)) ≤ 2 ^ (8 * width) =
          pow-le-pow_right (omega arith) (omega arith) in
        omega (arith, wide, sum_fits)

pub from_le_loop_lem :
    (width : ℕ) (bs : List ℕ) (i acc : ℕ)
    → acc < 2 ^ (8 * i)
    → All IsByte bs
    → i + length bs ≤ width
    → from_le_loop width bs i acc ≡ acc + 2 ^ (8 * i) * le_value bs
unfolding from_le_loop
from_le_loop_lem width [] i acc ha hb hi = omega arith
from_le_loop_lem width (b ∷ bs) i acc ha hb hi =
    let one = or_byte_lem width acc b i ha hb.0 (omega arith) in
    let rest = from_le_loop_lem width bs (i + 1) (acc + b * 2 ^ (8 * i)) one.1 hb.1 (omega arith) in
    rw (one.0, rest, pow_byte i) (omega arith)

-- Reading the digits back gives the number.
pub from_le_array_lem :
    (width : ℕ) (bs : List ℕ)
    → All IsByte bs
    → length bs ≤ width
    → from_le_array width bs ≡ le_value bs
unfolding from_le_array
from_le_array_lem width bs hb hl =
    from_le_loop_lem width bs 0 0 (omega arith) hb (omega arith) ∙ (omega arith)

-- At every width, `from_le_array` gives back a value that fits the width from what `to_le_array`
-- wrote, and `to_le_array` gives back as many bytes as the width from what `from_le_array` read.
pub from_le_array-to_le_array :
    (width value : ℕ) (bs : List ℕ)
    → value < 2 ^ (8 * width)
    → All IsByte bs
    → length bs ≡ width
    → (from_le_array width (to_le_array width value) ≡ value)
      × (to_le_array width (from_le_array width bs) ≡ bs)
from_le_array-to_le_array width value bs hv hb hl = (there, back)
  where
    there : from_le_array width (to_le_array width value) ≡ value
    there = rw (to_le_array_lem width value) (
        from_le_array_lem width (le_bytes width value) (le_bytes-IsByte width value)
          (omega (arith, length-le_bytes width value))
        ∙ le_value-le_bytes width value hv)

    back : to_le_array width (from_le_array width bs) ≡ bs
    back =
        rw (from_le_array_lem width bs hb (omega arith), to_le_array_lem width (le_value bs), ← hl)
          (le_bytes-le_value bs hb)

-- The writers of fixed width write the same digits.
pub write_u32_le_lem : (v : ℕ) → write_u32_le v ≡ le_bytes 4 v
unfolding write_u32_le
write_u32_le_lem v = ground (
  arith,
  bit_and_byte v,
  bit_and_byte (v / 2 ^ 8),
  bit_and_byte (v / 2 ^ 16),
  bit_and_byte (v / 2 ^ 24),
)

pub write_u64_le_lem : (v : ℕ) → write_u64_le v ≡ le_bytes 8 v
unfolding write_u64_le to_le_array
write_u64_le_lem v = to_le_array_lem 8 v
