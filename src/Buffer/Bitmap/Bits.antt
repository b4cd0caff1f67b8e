-- ===== src/Buffer/Bitmap/Bits.antt =====
-- The single bits of a byte under `|`, `&` and the masks of `set_valid`.
use native.Mathlib.Nat.{pow-succ', div-div-eq-div-mul, div-one, one-le-pow}
use polars_metal.Base.Bits.{bit_or_low, bit_and_low}
use polars_metal.Base.{
  ℕ, zero, suc, ◌-◌, ◌/◌, ◌%◌, ◌^◌, ◌<◌, ◌≡◌, refl, ap, ◌∙◌, min, max, bit_and, bit_or, arith,
  nat_beq, if◌then◌else◌, sym,
}

abbrev pub bit : ℕ → ℕ → ℕ
bit a j = a / 2 ^ j % 2

pub bit-zero : (a : ℕ) → bit a 0 ≡ a % 2
bit-zero a = ap (λ (t : ℕ). t % 2) (div-one a)

pub bit-suc : (a j : ℕ) → bit a (suc j) ≡ bit (a / 2) j
bit-suc a j =
    ap (λ (t : ℕ). a / t % 2) (pow-succ' 2 j)
    ∙ ap (λ (t : ℕ). t % 2) (sym (div-div-eq-div-mul a 2 (2 ^ j)))

pub bit-bit_or : (j a b : ℕ) → bit (bit_or a b) j ≡ max (bit a j) (bit b j)
bit-bit_or zero a b = omega (arith, bit-zero a, bit-zero b, bit-zero (bit_or a b), bit_or_low a b)
bit-bit_or (suc j) a b =
    let half : bit_or a b / 2 ≡ bit_or (a / 2) (b / 2) = omega (arith, bit_or_low a b) in
    rw (bit-suc a j, bit-suc b j, bit-suc (bit_or a b) j, half) (bit-bit_or j (a / 2) (b / 2))

pub bit-bit_and : (j a b : ℕ) → bit (bit_and a b) j ≡ min (bit a j) (bit b j)
bit-bit_and zero a b =
    omega (arith, bit-zero a, bit-zero b, bit-zero (bit_and a b), bit_and_low a b)
bit-bit_and (suc j) a b =
    let half : bit_and a b / 2 ≡ bit_and (a / 2) (b / 2) = omega (arith, bit_and_low a b) in
    rw (bit-suc a j, bit-suc b j, bit-suc (bit_and a b) j, half) (bit-bit_and j (a / 2) (b / 2))

bit_of_zero : (j : ℕ) → bit 0 j ≡ 0
bit_of_zero zero = refl
bit_of_zero (suc j) = bit-suc 0 j ∙ bit_of_zero j

pub bit-pow : (k j : ℕ) → bit (2 ^ k) j ≡ (if nat_beq k j then 1 else 0)
bit-pow zero zero = refl
bit-pow zero (suc j) = bit-suc 1 j ∙ ground (arith, bit_of_zero j)
bit-pow (suc k) zero = ground (arith, bit-zero (2 ^ suc k), pow-succ' 2 k)
bit-pow (suc k) (suc j) =
    let half : 2 ^ suc k / 2 ≡ 2 ^ k = omega (arith, pow-succ' 2 k) in
    bit-suc (2 ^ suc k) j ∙ rw half (ground (arith, bit-pow k j))

bit-ones : (n j : ℕ) → j < n → bit (2 ^ n - 1) j ≡ 1
bit-ones zero j h = absurd (omega arith)
bit-ones (suc n) zero h = omega (arith, bit-zero (2 ^ suc n - 1), pow-succ' 2 n, one-le-pow n 2)
bit-ones (suc n) (suc j) h =
    let half : (2 ^ suc n - 1) / 2 ≡ 2 ^ n - 1 = omega (arith, pow-succ' 2 n, one-le-pow n 2) in
    bit-suc (2 ^ suc n - 1) j ∙ rw half (bit-ones n j (omega arith))

pow-lt : (k n : ℕ) → k < n → 2 ^ k < 2 ^ n
pow-lt k zero h = absurd (omega arith)
pow-lt zero (suc n) h = omega (arith, pow-succ' 2 n, one-le-pow n 2)
pow-lt (suc k) (suc n) h = omega (arith, pow-succ' 2 n, pow-succ' 2 k, pow-lt k n (omega arith))

-- `!(1 << k)` in `n` bits.
pub bit-mask :
    (n k j : ℕ) → k < n → j < n → bit (2 ^ n - 1 - 2 ^ k) j ≡ (if nat_beq k j then 0 else 1)
bit-mask zero k j h p = absurd (omega arith)
bit-mask (suc n) zero zero h p =
    ground (arith, bit-zero (2 ^ suc n - 1 - 2 ^ 0), pow-succ' 2 n, one-le-pow n 2)
bit-mask (suc n) zero (suc j) h p =
    let half : (2 ^ suc n - 1 - 2 ^ 0) / 2 ≡ 2 ^ n - 1 =
      omega (arith, pow-succ' 2 n, one-le-pow n 2) in
    bit-suc (2 ^ suc n - 1 - 2 ^ 0) j ∙ rw half (ground (arith, bit-ones n j (omega arith)))
bit-mask (suc n) (suc k) zero h p = ground (
  arith,
  bit-zero (2 ^ suc n - 1 - 2 ^ suc k),
  pow-succ' 2 n,
  pow-succ' 2 k,
  pow-lt k n (omega arith),
)
bit-mask (suc n) (suc k) (suc j) h p =
    let half : (2 ^ suc n - 1 - 2 ^ suc k) / 2 ≡ 2 ^ n - 1 - 2 ^ k =
      omega (arith, pow-succ' 2 n, pow-succ' 2 k, pow-lt k n (omega arith)) in
    bit-suc (2 ^ suc n - 1 - 2 ^ suc k) j
    ∙ rw half (ground (arith, bit-mask n k j (omega arith) (omega arith)))
