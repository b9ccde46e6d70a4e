-- ===== src/Crc/Detect.antt =====
-- What the checksum detects.
use Prim.Native.Nat.{bit_xor}
use super_voice.Base.{
  ℕ, zero, suc, ◌/◌, ◌%◌, ◌^◌, ◌<◌, ◌≡◌, refl, sym, ◌∙◌, ◌⊎◌, inl, inr, arith, List, [], ◌∷◌, ◌++◌,
  All,
}
use super_voice.Base.Word.{IsByte}
use super_voice.Base.Bits.Xor.{
  bit_xor_comm, bit_xor_assoc, bit_xor_self, bit_xor-zero, bit_xor-div_pow, bit_xor-lt,
}
use super_voice.Crc.{polynomial, rounds, table_round, update_byte, update, reset, value, crc32}
use super_voice.Crc.Linear.{table_round-even, table_round-odd, parity}
use super_voice.Crc.Agree.{update_byte_lem}

-- Exclusive or with one number loses nothing.
bit_xor-injective : (a b c : ℕ) → bit_xor a c ≡ bit_xor b c → a ≡ b
bit_xor-injective a b c h = ground (
  arith,
  bit_xor_assoc a c c,
  bit_xor_assoc b c c,
  bit_xor_self c,
  bit_xor-zero a,
  bit_xor-zero b,
)

-- The polynomial has the top bit, so the parity of a word can be read off its round.
odd_high : (x : ℕ) → x < 2 ^ 32 → bit_xor (x / 2) polynomial / 2 ^ 31 ≡ 1
odd_high x h =
    let low : x / 2 / 2 ^ 31 ≡ 0 = omega arith in
    bit_xor-div_pow 31 (x / 2) polynomial ∙ rw low refl

table_round-lt : (x : ℕ) → x < 2 ^ 32 → table_round x < 2 ^ 32
table_round-lt x h = go (parity x)
  where
    go : (x % 2 ≡ 0) ⊎ (x % 2 ≡ 1) → table_round x < 2 ^ 32
    go (inl p) = rw (table_round-even x p) (omega arith)
    go (inr p) =
        rw (table_round-odd x p) (bit_xor-lt 32 (x / 2) polynomial (omega arith) (omega arith))

table_round-injective : (x y : ℕ) → x < 2 ^ 32 → y < 2 ^ 32 → table_round x ≡ table_round y → x ≡ y
table_round-injective x y hx hy e = go (parity x) (parity y)
  where
    go : (x % 2 ≡ 0) ⊎ (x % 2 ≡ 1) → (y % 2 ≡ 0) ⊎ (y % 2 ≡ 1) → x ≡ y
    go (inl p) (inl q) = omega (arith, table_round-even x p, table_round-even y q)
    go (inl p) (inr q) =
        absurd (omega (arith, table_round-even x p, table_round-odd y q, odd_high y hy))
    go (inr p) (inl q) =
        absurd (omega (arith, table_round-odd x p, table_round-even y q, odd_high x hx))
    go (inr p) (inr q) =
        let halves : x / 2 ≡ y / 2 =
          bit_xor-injective (x / 2) (y / 2) polynomial
            (sym (table_round-odd x p) ∙ e ∙ table_round-odd y q) in
        omega (arith, halves)

rounds-lt : (n x : ℕ) → x < 2 ^ 32 → rounds n x < 2 ^ 32
unfolding rounds
rounds-lt zero x h = h
rounds-lt (suc n) x h = rounds-lt n (table_round x) (table_round-lt x h)

rounds-injective : (n x y : ℕ) → x < 2 ^ 32 → y < 2 ^ 32 → rounds n x ≡ rounds n y → x ≡ y
unfolding rounds
rounds-injective zero x y hx hy e = e
rounds-injective (suc n) x y hx hy e = table_round-injective x y hx hy (
    rounds-injective n (table_round x) (table_round y) (table_round-lt x hx) (table_round-lt y hy)
      e)

byte_word : (crc byte : ℕ) → crc < 2 ^ 32 → byte < 256 → bit_xor crc byte < 2 ^ 32
byte_word crc byte hc hb = bit_xor-lt 32 crc byte hc (omega arith)

update_byte-lt : (crc byte : ℕ) → crc < 2 ^ 32 → byte < 256 → update_byte crc byte < 2 ^ 32
update_byte-lt crc byte hc hb =
    rw (update_byte_lem crc byte hb) (rounds-lt 8 (bit_xor crc byte) (byte_word crc byte hc hb))

pub update-lt :
    (crc : ℕ) (bytes : List ℕ) → crc < 2 ^ 32 → All IsByte bytes → update crc bytes < 2 ^ 32
unfolding update
update-lt crc [] hc hb = hc
update-lt crc (byte ∷ bytes) hc hb =
    update-lt (update_byte crc byte) bytes (update_byte-lt crc byte hc hb.0) hb.1

-- A checksum fits 32 bits.
pub crc32-lt : (bytes : List ℕ) → All IsByte bytes → crc32 bytes < 2 ^ 32
unfolding crc32 value
crc32-lt bytes h =
    bit_xor-lt 32 (update reset bytes) 0xFFFFFFFF (update-lt reset bytes (omega arith) h)
      (omega arith)

-- Equal registers after the same bytes were equal before them.
update-injective :
    (x y : ℕ) (bytes : List ℕ)
    → x < 2 ^ 32
    → y < 2 ^ 32
    → All IsByte bytes
    → update x bytes ≡ update y bytes
    → x ≡ y
unfolding update
update-injective x y [] hx hy hb e = e
update-injective x y (b ∷ bs) hx hy hb e = bit_xor-injective x y b (
    rounds-injective 8 (bit_xor x b) (bit_xor y b) (byte_word x b hx hb.0) (byte_word y b hy hb.0) (
      sym (update_byte_lem x b hb.0)
      ∙ update-injective (update_byte x b) (update_byte y b) bs (update_byte-lt x b hx hb.0)
          (update_byte-lt y b hy hb.0) hb.1 e
      ∙ update_byte_lem y b hb.0))

-- A register is fed in pieces as it is fed at once.
pub update-append : (crc : ℕ) (xs ys : List ℕ) → update crc (xs ++ ys) ≡ update (update crc xs) ys
unfolding update
update-append crc [] ys = refl
update-append crc (x ∷ xs) ys = update-append (update_byte crc x) xs ys

-- Two lists of bytes of the same length that differ in at most one place, and have the same
-- checksum, do not differ there: every change of one byte is detected.
pub crc32_detects_byte :
    (before : List ℕ) (a b : ℕ) (after : List ℕ)
    → All IsByte before
    → a < 256
    → b < 256
    → All IsByte after
    → crc32 (before ++ (a ∷ after)) ≡ crc32 (before ++ (b ∷ after))
    → a ≡ b
unfolding crc32 value
crc32_detects_byte before a b after h ha hb hl e =
    let crc = update reset before in
    let hc : crc < 2 ^ 32 = update-lt reset before (omega arith) h in
    let registers : update reset (before ++ (a ∷ after)) ≡ update reset (before ++ (b ∷ after)) =
      bit_xor-injective _ _ 0xFFFFFFFF e in
    let split : update (update_byte crc a) after ≡ update (update_byte crc b) after =
      sym (update-append reset before (a ∷ after))
      ∙ registers
      ∙ update-append reset before (b ∷ after) in
    let joined : update_byte crc a ≡ update_byte crc b =
      update-injective (update_byte crc a) (update_byte crc b) after (update_byte-lt crc a hc ha)
        (update_byte-lt crc b hc hb) hl split in
    let words : bit_xor crc a ≡ bit_xor crc b =
      rounds-injective 8 (bit_xor crc a) (bit_xor crc b) (byte_word crc a hc ha)
        (byte_word crc b hc hb)
        (sym (update_byte_lem crc a ha) ∙ joined ∙ update_byte_lem crc b hb) in
    bit_xor-injective a b crc (bit_xor_comm a crc ∙ words ∙ bit_xor_comm crc b)
