-- ===== src/Base/Bits/Xor.antt =====
-- Exclusive or is a commutative group in which every number is its own inverse, and commutes
-- with halving.
use Prim.Native.Nat.{ℕ, zero, suc, ◌+◌, ◌*◌, ◌/◌, ◌%◌, ◌^◌, ◌<◌, bit_xor, bit_xor-bitwise}
use mathlib.Core.Path.{◌≡◌, refl, ap, sym}
use native.Mathlib.Nat.{pow-suc, div-div-eq-div-mul}
use native.Mathlib.Omega.{arith}
use super_voice.Base.Bits.Digit.{half_ind, bit_xor_step}

pub bit_xor-mod_two : (a b : ℕ) → bit_xor a b % 2 ≡ (a + b) % 2
bit_xor-mod_two a b = omega (arith, bit_xor_step a b)

pub bit_xor-div_two : (a b : ℕ) → bit_xor a b / 2 ≡ bit_xor (a / 2) (b / 2)
bit_xor-div_two a b = omega (arith, bit_xor_step a b)

pub zero-bit_xor : (a : ℕ) → bit_xor 0 a ≡ a
zero-bit_xor a = bit_xor-bitwise 0 a

pub bit_xor-zero : (a : ℕ) → bit_xor a 0 ≡ a
bit_xor-zero a =
    half_ind (λ n. bit_xor n 0 ≡ n) refl (λ n p ih. omega (arith, bit_xor_step n 0, ih)) a

pub bit_xor_comm : (a b : ℕ) → bit_xor a b ≡ bit_xor b a
bit_xor_comm =
    half_ind (λ n. (b : ℕ) → bit_xor n b ≡ bit_xor b n)
      (λ b. omega (arith, zero-bit_xor b, bit_xor-zero b))
      (λ n p ih b. omega (arith, bit_xor_step n b, bit_xor_step b n, ih (b / 2)))

pub bit_xor_assoc : (a b c : ℕ) → bit_xor (bit_xor a b) c ≡ bit_xor a (bit_xor b c)
bit_xor_assoc =
    half_ind (λ n. (b c : ℕ) → bit_xor (bit_xor n b) c ≡ bit_xor n (bit_xor b c))
      (λ b c. rw (zero-bit_xor b, zero-bit_xor (bit_xor b c)))
      (λ n p ih b c. ground (
        arith,
        bit_xor_step (bit_xor n b) c,
        bit_xor_step n (bit_xor b c),
        bit_xor-div_two n b,
        bit_xor-div_two b c,
        bit_xor-mod_two n b,
        bit_xor-mod_two b c,
        ih (b / 2) (c / 2),
      ))

pub bit_xor_self : (a : ℕ) → bit_xor a a ≡ 0
bit_xor_self a =
    half_ind (λ n. bit_xor n n ≡ 0) refl (λ n p ih. omega (arith, bit_xor_step n n, ih)) a

div_pow-suc : (a k : ℕ) → a / 2 ^ suc k ≡ a / 2 ^ k / 2
div_pow-suc a k = rw (pow-suc 2 k) (sym (div-div-eq-div-mul a (2 ^ k) 2))

pub bit_xor-div_pow : (k a b : ℕ) → bit_xor a b / 2 ^ k ≡ bit_xor (a / 2 ^ k) (b / 2 ^ k)
bit_xor-div_pow zero a b = ground arith
bit_xor-div_pow (suc k) a b = ground (
  arith,
  div_pow-suc a k,
  div_pow-suc b k,
  div_pow-suc (bit_xor a b) k,
  bit_xor-div_two (a / 2 ^ k) (b / 2 ^ k),
  bit_xor-div_pow k a b,
)

pub bit_xor-lt : (k a b : ℕ) → a < 2 ^ k → b < 2 ^ k → bit_xor a b < 2 ^ k
bit_xor-lt zero a b ha hb = ground (arith, bit_xor-zero 0)
bit_xor-lt (suc k) a b ha hb = omega (
  arith,
  bit_xor_step a b,
  pow-suc 2 k,
  bit_xor-lt k (a / 2) (b / 2) (omega (arith, pow-suc 2 k)) (omega (arith, pow-suc 2 k)),
)

-- A high part combined with a part below it is their sum.
pub bit_xor-add : (k hi lo : ℕ) → lo < 2 ^ k → bit_xor (hi * 2 ^ k) lo ≡ hi * 2 ^ k + lo
bit_xor-add zero hi lo fits = ground (arith, bit_xor-zero (hi * 1))
bit_xor-add (suc k) hi lo fits = ground (
  arith,
  bit_xor_step (hi * 2 ^ suc k) lo,
  ap (λ (t : ℕ). hi * t) (pow-suc 2 k),
  pow-suc 2 k,
  bit_xor-add k hi (lo / 2) (omega (arith, pow-suc 2 k)),
)
