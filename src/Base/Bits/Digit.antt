-- ===== src/Base/Bits/Digit.antt =====
-- The native bit operations recur on digits with a count; here the count is dropped.
use Prim.Native.Nat.{
  ℕ, zero, suc, ◌+◌, ◌*◌, ◌/◌, ◌%◌, ◌≤◌, ◌<◌, min, max, digits, bitwise, differ, bit_and, bit_or,
  bit_xor, bit_and-bitwise, bit_or-bitwise, bit_xor-bitwise,
}
use mathlib.Core.Path.{◌≡◌, refl}
use native.Mathlib.Nat.{le_refl}
use native.Mathlib.Omega.{arith}

half_ind_below {ℓ} :
    (P : ℕ → Type ℓ) → P 0 → ((n : ℕ) → 0 < n → P (n / 2) → P n) → (k n : ℕ) → n ≤ k → P n
half_ind_below P z s k zero h = z
half_ind_below P z s zero (suc n) h = absurd (omega arith)
half_ind_below P z s (suc k) (suc n) h =
    s (suc n) (omega arith) (half_ind_below P z s k (suc n / 2) (omega arith))

-- Induction from half a number to the number.
pub half_ind {ℓ} : (P : ℕ → Type ℓ) → P 0 → ((n : ℕ) → 0 < n → P (n / 2) → P n) → (n : ℕ) → P n
half_ind P z s n = half_ind_below P z s n n (le_refl n)

module _ (out : ℕ → ℕ) (op : ℕ → ℕ → ℕ) where
  digits_count : (c d x y : ℕ) → x ≤ c → x ≤ d → digits out op c x y ≡ digits out op d x y
  digits_count zero zero x y hc hd = refl
  digits_count (suc c) zero zero y hc hd = refl
  digits_count (suc c) zero (suc x) y hc hd = absurd (omega arith)
  digits_count zero (suc d) zero y hc hd = refl
  digits_count zero (suc d) (suc x) y hc hd = absurd (omega arith)
  digits_count (suc c) (suc d) zero y hc hd = refl
  digits_count (suc c) (suc d) (suc x) y hc hd =
      rw (digits_count c d (suc x / 2) (y / 2) (omega arith) (omega arith))

  bitwise_step :
      (x y : ℕ)
      → bitwise out op (suc x) y ≡ bitwise out op (suc x / 2) (y / 2) * 2 + op (suc x % 2) (y % 2)
  bitwise_step x y =
      omega (arith, digits_count x (suc x / 2) (suc x / 2) (y / 2) (omega arith) (le_refl _))

pub bit_or_step : (x y : ℕ) → bit_or x y ≡ bit_or (x / 2) (y / 2) * 2 + max (x % 2) (y % 2)
bit_or_step zero y = simp bit_or-bitwise (omega arith)
bit_or_step (suc x) y = simp bit_or-bitwise (bitwise_step (λ b. b) max x y)

pub bit_and_step : (x y : ℕ) → bit_and x y ≡ bit_and (x / 2) (y / 2) * 2 + min (x % 2) (y % 2)
bit_and_step zero y = simp bit_and-bitwise (omega arith)
bit_and_step (suc x) y = simp bit_and-bitwise (bitwise_step (λ b. 0) min x y)

differ_bits : (x y : ℕ) → x < 2 → y < 2 → differ x y ≡ (x + y) % 2
differ_bits zero y hx hy = omega arith
differ_bits (suc zero) zero hx hy = omega arith
differ_bits (suc zero) (suc zero) hx hy = omega arith
differ_bits (suc zero) (suc (suc y)) hx hy = absurd (omega arith)
differ_bits (suc (suc x)) y hx hy = absurd (omega arith)

differ-digits : (x y : ℕ) → differ (x % 2) (y % 2) ≡ (x + y) % 2
differ-digits x y = omega (arith, differ_bits (x % 2) (y % 2) (omega arith) (omega arith))

pub bit_xor_step : (x y : ℕ) → bit_xor x y ≡ bit_xor (x / 2) (y / 2) * 2 + (x + y) % 2
bit_xor_step zero y = simp bit_xor-bitwise (omega arith)
bit_xor_step (suc x) y = omega (
  arith,
  bit_xor-bitwise (suc x) y,
  bit_xor-bitwise (suc x / 2) (y / 2),
  bitwise_step (λ b. b) differ x y,
  differ-digits (suc x) y,
)
