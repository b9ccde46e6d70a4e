-- ===== src/Crc/Linear.antt =====
-- A round of the CRC is linear over exclusive or, so eight rounds of a word are its high part
-- combined with eight rounds of its low byte.
use Prim.Native.Nat.{bit_xor}
use super_voice.Base.{
  ℕ, zero, suc, ◌+◌, ◌*◌, ◌/◌, ◌%◌, ◌^◌, ◌≡◌, refl, sym, ap, ◌∙◌, ◌⊎◌, inl, inr, arith,
}
use super_voice.Base.Bits.{bit_and-mask}
use super_voice.Base.Bits.Xor.{
  bit_xor-div_two, bit_xor-mod_two, bit_xor_comm, bit_xor_assoc, bit_xor_self, zero-bit_xor,
  bit_xor-add,
}
use native.Mathlib.Nat.{pow-suc}
use super_voice.Crc.{polynomial, table_round, rounds}

-- A round by the parity of the word.
pub table_round-even : (x : ℕ) → x % 2 ≡ 0 → table_round x ≡ x / 2
unfolding table_round
table_round-even x h = ground (arith, bit_and-mask 1 x)

pub table_round-odd : (x : ℕ) → x % 2 ≡ 1 → table_round x ≡ bit_xor (x / 2) polynomial
unfolding table_round
table_round-odd x h = ground (arith, bit_and-mask 1 x)

pub parity : (x : ℕ) → (x % 2 ≡ 0) ⊎ (x % 2 ≡ 1)
parity x = grind arith

-- Two of three equal terms cancel.
bit_xor_swap : (a b c : ℕ) → bit_xor (bit_xor a b) c ≡ bit_xor (bit_xor a c) b
bit_xor_swap a b c = ground (arith, bit_xor_assoc a b c, bit_xor_assoc a c b, bit_xor_comm b c)

bit_xor_cancel : (a b c : ℕ) → bit_xor (bit_xor a c) (bit_xor b c) ≡ bit_xor a b
bit_xor_cancel a b c = ground (
  arith,
  bit_xor_assoc a c (bit_xor b c),
  bit_xor_comm b c,
  bit_xor_assoc c c b,
  bit_xor_self c,
  zero-bit_xor b,
)

pub table_round-bit_xor :
    (a b : ℕ) → table_round (bit_xor a b) ≡ bit_xor (table_round a) (table_round b)
table_round-bit_xor a b = go (parity a) (parity b)
  where
    sum : bit_xor a b % 2 ≡ (a + b) % 2
    sum = bit_xor-mod_two a b

    go :
        (a % 2 ≡ 0) ⊎ (a % 2 ≡ 1)
        → (b % 2 ≡ 0) ⊎ (b % 2 ≡ 1)
        → table_round (bit_xor a b) ≡ bit_xor (table_round a) (table_round b)
    go (inl p) (inl q) =
        rw
          (
            table_round-even a p,
            table_round-even b q,
            table_round-even (bit_xor a b) (omega (arith, sum)),
          )
          (bit_xor-div_two a b)
    go (inl p) (inr q) =
        rw
          (
            table_round-even a p,
            table_round-odd b q,
            table_round-odd (bit_xor a b) (omega (arith, sum)),
          )
          (rw (bit_xor-div_two a b) (bit_xor_assoc _ _ _))
    go (inr p) (inl q) =
        rw
          (
            table_round-odd a p,
            table_round-even b q,
            table_round-odd (bit_xor a b) (omega (arith, sum)),
          )
          (rw (bit_xor-div_two a b) (bit_xor_swap _ _ _))
    go (inr p) (inr q) =
        rw
          (
            table_round-odd a p,
            table_round-odd b q,
            table_round-even (bit_xor a b) (omega (arith, sum)),
          )
          (bit_xor-div_two a b ∙ sym (bit_xor_cancel _ _ _))

pub rounds-bit_xor : (n a b : ℕ) → rounds n (bit_xor a b) ≡ bit_xor (rounds n a) (rounds n b)
unfolding rounds
rounds-bit_xor zero a b = refl
rounds-bit_xor (suc n) a b =
    rw (table_round-bit_xor a b) (rounds-bit_xor n (table_round a) (table_round b))

-- Rounds shift a multiple of a power of two down.
rounds_high : (n h : ℕ) → rounds n (h * 2 ^ n) ≡ h
unfolding rounds
rounds_high zero h = omega arith
rounds_high (suc n) h =
    let twice : h * 2 ^ suc n ≡ h * 2 ^ n * 2 = rw (pow-suc 2 n) (omega arith) in
    let one : table_round (h * 2 ^ suc n) ≡ h * 2 ^ n =
      rw twice (table_round-even (h * 2 ^ n * 2) (omega arith) ∙ omega arith) in
    rw one (rounds_high n h)

-- Eight rounds of a word, by its low byte.
pub rounds_eight : (x : ℕ) → rounds 8 x ≡ bit_xor (x / 256) (rounds 8 (x % 256))
rounds_eight x =
    let split : x ≡ bit_xor (x / 256 * 2 ^ 8) (x % 256) =
      omega (arith, bit_xor-add 8 (x / 256) (x % 256) (omega arith)) in
    ap (rounds 8) split
    ∙ rounds-bit_xor 8 (x / 256 * 2 ^ 8) (x % 256)
    ∙ ap (λ h. bit_xor h (rounds 8 (x % 256))) (rounds_high 8 (x / 256))
