-- ===== src/Endianness/Bits.antt =====
-- The bitwise or of numbers whose binary digits do not meet is their sum.
use Prim.Native.Nat.{bit_or, bit_or-bitwise, digits, max}
use native.Mathlib.Nat.{pow-suc}
use task_pool_concurrency_im.Prelude.{
  ℕ, zero, suc, ◌+◌, ◌*◌, ◌/◌, ◌^◌, ◌≤◌, ◌<◌, ◌≡◌, ap, ◌∙◌, arith,
}

abbrev or_digits : ℕ → ℕ → ℕ → ℕ
or_digits n a b = digits (λ b. b) max n a b

double : (k b c : ℕ) → c ≡ b * 2 ^ suc k → c ≡ b * 2 ^ k * 2
double k b c e = omega (arith, ap (λ (t : ℕ). b * t) (pow-suc 2 k))

or_digits-low : (n k a b c : ℕ) → a ≤ n → a < 2 ^ k → c ≡ b * 2 ^ k → or_digits n a c ≡ a + c
or_digits-low zero k zero b c p q e = omega arith
or_digits-low zero k (suc a) b c p q e = absurd (omega arith)
or_digits-low (suc n) k zero b c p q e = omega arith
or_digits-low (suc n) zero (suc a) b c p q e = absurd (omega arith)
or_digits-low (suc n) (suc k) (suc a) b c p q e = omega (
  arith,
  double k b c e,
  or_digits-low n k (suc a / 2) b (c / 2) (omega arith) (omega (arith, pow-suc 2 k))
      (omega (arith, double k b c e)),
)

or_digits-high : (n k a b c : ℕ) → c ≤ n → a < 2 ^ k → c ≡ b * 2 ^ k → or_digits n c a ≡ c + a
or_digits-high zero k a b zero p q e = omega arith
or_digits-high zero k a b (suc c) p q e = absurd (omega arith)
or_digits-high (suc n) k a b zero p q e = omega arith
or_digits-high (suc n) zero a b (suc c) p q e = omega (
  arith,
  or_digits-high n zero (a / 2) (suc c / 2) (suc c / 2) (omega arith) (omega arith) (omega arith),
)
or_digits-high (suc n) (suc k) a b (suc c) p q e = omega (
  arith,
  double k b (suc c) e,
  or_digits-high n k (a / 2) b (suc c / 2) (omega arith) (omega (arith, pow-suc 2 k))
      (omega (arith, double k b (suc c) e)),
)

-- `b` says which multiple of 2 ^ k the second number is.
pub bit_or-low : (k b a c : ℕ) → a < 2 ^ k → c ≡ b * 2 ^ k → bit_or a c ≡ a + c
bit_or-low k b a c h e = bit_or-bitwise a c ∙ or_digits-low a k a b c (omega arith) h e

pub bit_or-high : (k b c a : ℕ) → a < 2 ^ k → c ≡ b * 2 ^ k → bit_or c a ≡ c + a
bit_or-high k b c a h e = bit_or-bitwise c a ∙ or_digits-high c k a b c (omega arith) h e
