-- ===== src/Base/Bits.antt =====
-- `|` and `&` on machine words as arithmetic on disjoint bit fields, at every width.
use Prim.Native.Nat.{
  ℕ, zero, suc, ◌+◌, ◌-◌, ◌*◌, ◌/◌, ◌%◌, ◌^◌, ◌≤◌, ◌<◌, min, max, bit_and, bit_or, digits,
  bit_and-bitwise, bit_or-bitwise,
}
use mathlib.Core.Path.{◌≡◌, refl, ap, ◌∙◌}
use native.Mathlib.Nat.{
  pow-suc, pow-succ', one-le-pow, div-add-mod, mul-add-mod_self_left, mod-eq_of_lt, mod-lt,
  div-div-eq-div-mul, div-one, mul-one,
}
use native.Mathlib.Omega.{arith}

-- Fuel at least the first operand is as good as any.
pub digits_enough :
    (z : ℕ → ℕ) (f : ℕ → ℕ → ℕ) (n m a b : ℕ) → a ≤ n → a ≤ m → digits z f n a b ≡ digits z f m a b
digits_enough z f zero zero a b p q = refl
digits_enough z f zero (suc m) zero b p q = refl
digits_enough z f zero (suc m) (suc a) b p q = absurd (omega arith)
digits_enough z f (suc n) zero zero b p q = refl
digits_enough z f (suc n) zero (suc a) b p q = absurd (omega arith)
digits_enough z f (suc n) (suc m) zero b p q = refl
digits_enough z f (suc n) (suc m) (suc a) b p q =
    rw (digits_enough z f n m (suc a / 2) (b / 2) (omega arith) (omega arith))

zero-bit_or : (b : ℕ) → bit_or 0 b ≡ b
zero-bit_or b = bit_or-bitwise 0 b

pub zero-bit_and : (b : ℕ) → bit_and 0 b ≡ 0
zero-bit_and b = bit_and-bitwise 0 b

pub bit_or_low : (a b : ℕ) → bit_or a b ≡ bit_or (a / 2) (b / 2) * 2 + max (a % 2) (b % 2)
bit_or_low zero b = omega (arith, zero-bit_or b, zero-bit_or (b / 2))
bit_or_low (suc a) b = omega (
  arith,
  bit_or-bitwise (suc a) b,
  bit_or-bitwise (suc a / 2) (b / 2),
  digits_enough (λ y. y) max a (suc a / 2) (suc a / 2) (b / 2) (omega arith) (omega arith),
)

pub bit_and_low : (a b : ℕ) → bit_and a b ≡ bit_and (a / 2) (b / 2) * 2 + min (a % 2) (b % 2)
bit_and_low zero b = omega (arith, zero-bit_and b, zero-bit_and (b / 2))
bit_and_low (suc a) b = omega (
  arith,
  bit_and-bitwise (suc a) b,
  bit_and-bitwise (suc a / 2) (b / 2),
  digits_enough (λ y. zero) min a (suc a / 2) (suc a / 2) (b / 2) (omega arith) (omega arith),
)

pub double_pow : (q k : ℕ) → q * 2 ^ suc k ≡ 2 * (q * 2 ^ k)
double_pow q k = omega (arith, ap (λ (t : ℕ). q * t) (pow-suc 2 k))

-- `a | (q << k)` is a sum when `a` fits in `k` bits.
pub bit_or_above : (k a q : ℕ) → a < 2 ^ k → bit_or a (q * 2 ^ k) ≡ a + q * 2 ^ k
bit_or_above zero a q h = let e : a ≡ 0 = omega arith in rw e (omega (arith, zero-bit_or (q * 1)))
bit_or_above (suc k) a q h = ground (
  arith,
  bit_or_low a (q * 2 ^ suc k),
  double_pow q k,
  pow-suc 2 k,
  bit_or_above k (a / 2) q (omega (arith, pow-suc 2 k)),
)

bit_and-zero_below : (n a : ℕ) → a ≤ n → bit_and a 0 ≡ 0
bit_and-zero_below n zero h = refl
bit_and-zero_below zero (suc a) h = absurd (omega arith)
bit_and-zero_below (suc n) (suc a) h =
    omega (arith, bit_and_low (suc a) 0, bit_and-zero_below n (suc a / 2) (omega arith))

pub bit_and-zero : (a : ℕ) → bit_and a 0 ≡ 0
bit_and-zero a = bit_and-zero_below a a (omega arith)

pub mod_double : (a p : ℕ) → 0 < p → a % (2 * p) ≡ a / 2 % p * 2 + a % 2
mod_double a p h =
    let low : ℕ = a / 2 % p * 2 + a % 2 in
    let split : a ≡ 2 * p * (a / 2 / p) + low = grind (arith, div-add-mod (a / 2) p) in
    let small : low < 2 * p = omega (arith, mod-lt (a / 2) h) in
    ap (λ (t : ℕ). t % (2 * p)) split
    ∙ mul-add-mod_self_left (2 * p) (a / 2 / p) low
    ∙ mod-eq_of_lt small

-- `a & ((1 << k) - 1)` keeps the `k` low bits.
pub bit_and_mask : (k a : ℕ) → bit_and a (2 ^ k - 1) ≡ a % 2 ^ k
bit_and_mask zero a = omega (arith, bit_and-zero a)
bit_and_mask (suc k) a = ground (
  arith,
  bit_and_low a (2 ^ suc k - 1),
  pow-suc 2 k,
  pow-succ' 2 k,
  one-le-pow k 2,
  mod_double a (2 ^ k),
  ap (λ (t : ℕ). a % t) (pow-succ' 2 k),
  bit_and_mask k (a / 2),
)

-- `a & (m << k)` clears the `k` low bits.
pub bit_and_above : (k a m : ℕ) → bit_and a (m * 2 ^ k) ≡ bit_and (a / 2 ^ k) m * 2 ^ k
bit_and_above zero a m =
    ap (λ (t : ℕ). bit_and a t) (mul-one m) ∙ omega (arith, ap (λ (t : ℕ). bit_and t m) (div-one a))
bit_and_above (suc k) a m = ground (
  arith,
  bit_and_low a (m * 2 ^ suc k),
  double_pow m k,
  double_pow (bit_and (a / 2 ^ suc k) m) k,
  div-div-eq-div-mul a 2 (2 ^ k),
  ap (λ (t : ℕ). a / t) (pow-succ' 2 k),
  bit_and_above k (a / 2) m,
)

pub bit_and-one : (a : ℕ) → bit_and a 1 ≡ a % 2
bit_and-one a = bit_and_mask 1 a
