-- ===== src/Base/Bits.antt =====
-- The native `&`, `|` and `^` at variables: one equation for the lowest digit of each, and the
-- laws that the code's shifts and masks rest on.
pub mod Xor
mod Digit
pub use Digit.{half_ind, bit_xor_step}
use Digit.{bit_or_step, bit_and_step}
use Prim.Native.Nat.{
  ℕ, zero, suc, ◌+◌, ◌-◌, ◌*◌, ◌/◌, ◌%◌, ◌^◌, ◌≤◌, ◌<◌, bit_and, bit_or, bit_or-bitwise,
}
use mathlib.Core.Path.{◌≡◌, refl, ap}
use native.Mathlib.Nat.{pow-suc, one-le-pow}
use native.Mathlib.Omega.{arith}

bit_or-zero : (a : ℕ) → bit_or a 0 ≡ a
bit_or-zero a = half_ind (λ n. bit_or n 0 ≡ n) refl (λ n p ih. omega (arith, bit_or_step n 0, ih)) a

bit_and-zero : (a : ℕ) → bit_and a 0 ≡ 0
bit_and-zero a =
    half_ind (λ n. bit_and n 0 ≡ 0) refl (λ n p ih. omega (arith, bit_and_step n 0, ih)) a

mul-pow-suc : (q k : ℕ) → q * 2 ^ suc k ≡ 2 * (q * 2 ^ k)
mul-pow-suc q k = omega (arith, ap (λ (t : ℕ). q * t) (pow-suc 2 k))

-- A low part or-ed with a part above it is their sum.
pub bit_or-add : (k lo hi : ℕ) → lo < 2 ^ k → bit_or lo (hi * 2 ^ k) ≡ lo + hi * 2 ^ k
bit_or-add zero lo hi fits = ground (arith, bit_or-bitwise 0 (hi * 1))
bit_or-add (suc k) lo hi fits = ground (
  arith,
  bit_or_step lo (hi * 2 ^ suc k),
  mul-pow-suc hi k,
  pow-suc 2 k,
  bit_or-add k (lo / 2) hi (omega (arith, pow-suc 2 k)),
)

bit_and-fields : (k q r : ℕ) → r < 2 ^ k → bit_and (q * 2 ^ k + r) (2 ^ k - 1) ≡ r
bit_and-fields zero q r fits = rw bit_and-zero (omega arith)
bit_and-fields (suc k) q r fits = ground (
  arith,
  bit_and_step (q * 2 ^ suc k + r) (2 ^ suc k - 1),
  mul-pow-suc q k,
  pow-suc 2 k,
  bit_and-fields k q (r / 2) (omega (arith, pow-suc 2 k)),
)

-- `& (2 ^ k - 1)` is the remainder.
pub bit_and-mask : (k a : ℕ) → bit_and a (2 ^ k - 1) ≡ a % 2 ^ k
bit_and-mask k a = ground (arith, one-le-pow k 2, bit_and-fields k (a / 2 ^ k) (a % 2 ^ k))

-- `& 0xff` is the low byte.
pub bit_and_byte : (a : ℕ) → bit_and a 0xff ≡ a % 256
bit_and_byte a = bit_and-mask 8 a
