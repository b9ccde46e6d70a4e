-- ===== src/Bytes/Safe.antt =====
-- No read of the decoders is out of bounds.
use super_voice.Base.{
  ℕ, zero, suc, ◌+◌, ◌-◌, ◌^◌, ◌≤◌, ◌<◌, ◌≡◌, refl, ◌∙◌, ◌⊎◌, inl, inr, List, [], ◌∷◌, arith,
  length, ltb, ltb→lt, le→ltb, Bool-cases, false, get_elem?, some,
}
use super_voice.Base.Word.{u64}
use super_voice.Base.Result.{Result, ok, err, out_of_range}
use super_voice.Bytes.{ByteReader, remaining, read, read_bytes, read_le, read_le_loop, or_byte}

get_elem?_inside : (xs : List ℕ) (k : ℕ) → k < length xs → (x : ℕ) × (get_elem? xs k ≡ some x)
get_elem?_inside [] k h = absurd (omega arith)
get_elem?_inside (x ∷ xs) zero h = (x, refl)
get_elem?_inside (x ∷ xs) (suc k) h = get_elem?_inside xs k (omega arith)

read_le_loop_step :
    (width n i : ℕ) (buffer : List ℕ) (offset acc b : ℕ)
    → u64 (offset + i) ≡ offset + i
    → get_elem? buffer (offset + i) ≡ some b
    → read_le_loop width (suc n) i buffer offset acc
      ≡ read_le_loop width n (i + 1) buffer offset (or_byte width acc b i)
unfolding read_le_loop
read_le_loop_step width n i buffer offset acc b fits e = rw (fits, e, read_le_loop) refl

read_le_loop_inside :
    (width n i : ℕ) (buffer : List ℕ) (offset acc : ℕ)
    → offset + i + n ≤ length buffer
    → length buffer < 2 ^ 63
    → (v : ℕ) × (read_le_loop width n i buffer offset acc ≡ ok v)
unfolding read_le_loop
read_le_loop_inside width zero i buffer offset acc h small = (acc, refl)
read_le_loop_inside width (suc n) i buffer offset acc h small =
    let at = get_elem?_inside buffer (offset + i) (omega arith) in
    let fits : u64 (offset + i) ≡ offset + i = omega arith in
    let rest =
      read_le_loop_inside width n (i + 1) buffer offset (or_byte width acc at.0 i) (omega arith)
        small in
    (rest.0, read_le_loop_step width n i buffer offset acc at.0 fits at.1 ∙ rest.1)

-- A read gives a value if the bytes are there, and throws `std::out_of_range` if they are not.
pub read_le_outcome :
    (width : ℕ) (buffer : List ℕ) (offset : ℕ)
    → width ≤ 8
    → offset ≤ length buffer
    → length buffer < 2 ^ 63
    → ((offset + width ≤ length buffer) × ((v : ℕ) × (read_le width buffer offset ≡ ok v)))
      ⊎ ((length buffer < offset + width) × (read_le width buffer offset ≡ err out_of_range))
unfolding read_le
read_le_outcome width buffer offset hw ho small =
    elim (Bool-cases (ltb (length buffer) (u64 (offset + width)))) [
      | inl short ↦ inr (omega (arith, ltb→lt _ _ short), rw short refl)
      | inr enough ↦ inl (enough→le enough, ((inside enough).0, rw enough (inside enough).1))
    ]
  where
    enough→le : ltb (length buffer) (u64 (offset + width)) ≡ false → offset + width ≤ length buffer
    enough→le e = ground arith

    inside :
        ltb (length buffer) (u64 (offset + width)) ≡ false
        → (v : ℕ) × (read_le_loop width width 0 buffer offset 0 ≡ ok v)
    inside e = read_le_loop_inside width width 0 buffer offset 0 (omega (arith, enough→le e)) small

-- The reader stands inside its bytes, and these can be addressed.
pub record InBounds (r : ByteReader) : Type 0 where
  pub inside : r.offset ≤ length r.bytes
  pub small : length r.bytes < 2 ^ 63

-- A call of a reader throws nothing but `std::out_of_range`, and leaves the reader in bounds.
pub data Safe {ℓ} {A : Type ℓ} : Result (A × ByteReader) → Type ℓ where
  returns : {a : A} {r : ByteReader} → InBounds r → Safe (ok (a, r))
  throws : Safe (err out_of_range)

pub read-Safe : (width : ℕ) (r : ByteReader) → width ≤ 8 → InBounds r → Safe (read width r)
unfolding read
read-Safe width r hw b = elim (read_le_outcome width r.bytes r.offset hw b.inside b.small) [
  | inl (fits, (v, e)) ↦
      rw e (returns (record { inside = omega (arith, b.small, fits); small = b.small }))
  | inr (short, e) ↦ rw e throws
]

pub read_bytes-Safe : (count : ℕ) (r : ByteReader) → InBounds r → Safe (read_bytes count r)
unfolding read_bytes remaining
read_bytes-Safe count r b =
    elim (Bool-cases (ltb (u64 (length r.bytes + 2 ^ 64 - r.offset)) count)) [
      | inl short ↦ rw short throws
      | inr enough ↦
          rw (enough, within enough) (returns (record { inside = inside enough; small = b.small }))
    ]
  where
    fits :
        ltb (u64 (length r.bytes + 2 ^ 64 - r.offset)) count ≡ false
        → r.offset + count ≤ length r.bytes
    fits e = ground (arith, b.small, b.inside)

    within :
        ltb (u64 (length r.bytes + 2 ^ 64 - r.offset)) count ≡ false
        → ltb (length r.bytes) (r.offset + count) ≡ false
    within e = le→ltb _ _ (fits e)

    inside :
        ltb (u64 (length r.bytes + 2 ^ 64 - r.offset)) count ≡ false
        → u64 (r.offset + count) ≤ length r.bytes
    inside e = omega (arith, fits e, b.small)
