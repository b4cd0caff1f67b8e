-- ===== src/Base/Xor.antt =====
-- `^` on machine words: a flipped bit above, and all bits flipped.
use Prim.Native.Nat.{
  ℕ, zero, suc, ◌+◌, ◌-◌, ◌*◌, ◌/◌, ◌%◌, ◌^◌, ◌<◌, bit_xor, differ, bit_xor-bitwise,
}
use mathlib.Core.Path.{◌≡◌, refl}
use native.Mathlib.Nat.{pow-suc, one-le-pow}
use native.Mathlib.Omega.{arith}
use polars_metal.Base.Bits.{digits_enough, double_pow}

zero-bit_xor : (b : ℕ) → bit_xor 0 b ≡ b
zero-bit_xor b = bit_xor-bitwise 0 b

differ_digits : (x y : ℕ) → x < 2 → y < 2 → differ x y ≡ (x + y) % 2
differ_digits zero y h k = omega (arith, k)
differ_digits (suc zero) zero h k = refl
differ_digits (suc zero) (suc zero) h k = refl
differ_digits (suc zero) (suc (suc y)) h k = absurd (omega (arith, k))
differ_digits (suc (suc x)) y h k = absurd (omega (arith, h))

bit_xor_low : (a b : ℕ) → bit_xor a b ≡ bit_xor (a / 2) (b / 2) * 2 + (a % 2 + b % 2) % 2
bit_xor_low zero b = omega (arith, zero-bit_xor b, zero-bit_xor (b / 2))
bit_xor_low (suc a) b = omega (
  arith,
  bit_xor-bitwise (suc a) b,
  bit_xor-bitwise (suc a / 2) (b / 2),
  differ_digits (suc a % 2) (b % 2) (omega arith) (omega arith),
  digits_enough (λ y. y) differ a (suc a / 2) (suc a / 2) (b / 2) (omega arith) (omega arith),
)

-- `a ^ (q << k)` is a sum when `a` fits in `k` bits.
pub bit_xor_above : (k a q : ℕ) → a < 2 ^ k → bit_xor a (q * 2 ^ k) ≡ a + q * 2 ^ k
bit_xor_above zero a q h = let e : a ≡ 0 = omega arith in rw e (omega (arith, zero-bit_xor (q * 1)))
bit_xor_above (suc k) a q h = ground (
  arith,
  bit_xor_low a (q * 2 ^ suc k),
  double_pow q k,
  pow-suc 2 k,
  bit_xor_above k (a / 2) q (omega (arith, pow-suc 2 k)),
)

-- `a ^ ((1 << k) - 1)` is the complement.
pub bit_xor_ones : (k a : ℕ) → a < 2 ^ k → bit_xor a (2 ^ k - 1) ≡ 2 ^ k - 1 - a
bit_xor_ones zero a h = let e : a ≡ 0 = omega arith in rw e refl
bit_xor_ones (suc k) a h = ground (
  arith,
  bit_xor_low a (2 ^ suc k - 1),
  pow-suc 2 k,
  one-le-pow k 2,
  bit_xor_ones k (a / 2) (omega (arith, pow-suc 2 k)),
)
