-- ===== src/Buffer/Bitmap/Count.antt =====
-- `count_valid` against the rows counted one by one.
use native.Mathlib.Nat.{pow-succ', one-le-pow}
use native.Mathlib.Decide.{dec_lt}
use polars_metal.Base.Bits.{zero-bit_and, bit_and_mask, bit_and-one, mod_double}
use polars_metal.Base.{
  ℕ, zero, suc, ◌+◌, ◌-◌, ◌*◌, ◌/◌, ◌%◌, ◌^◌, ◌≤◌, ◌<◌, ◌≡◌, refl, ap, ap₂, sym, ◌∙◌, min, arith,
  false, none, some, List, [], ◌∷◌, bit_and, get_elem?, length, nat_eq, ◌==◌, if◌then◌else◌,
}
use polars_metal.Buffer.Bitmap.{get_valid, count_ones, sum_ones, count_valid}
use polars_metal.Buffer.Bitmap.Bits.{bit, bit-zero, bit-suc}

-- The rows below `row_count` that `get_valid` reports, as the source's own test counts them.
unfoldable pub naive_count_valid : List ℕ → ℕ → ℕ
naive_count_valid bitmap zero = 0
naive_count_valid bitmap (suc n) =
    naive_count_valid bitmap n + (if get_valid bitmap n then 1 else 0)

pub get_valid-here :
    (b : ℕ) (rest : List ℕ) (row : ℕ) → row < 8 → get_valid (b ∷ rest) row ≡ (bit b row == 1)
unfolding get_valid
get_valid-here b rest row h =
    let first : row / 8 ≡ 0 = omega arith in
    let same : row % 8 ≡ row = omega arith in
    rw (first, get_valid) (rw (same, bit_and-one (b / 2 ^ row)) refl)

pub get_valid-later :
    (b : ℕ) (rest : List ℕ) (row : ℕ) → get_valid (b ∷ rest) (8 + row) ≡ get_valid rest row
unfolding get_valid
get_valid-later b rest row =
    let next : (8 + row) / 8 ≡ suc (row / 8) = omega arith in
    let same : (8 + row) % 8 ≡ row % 8 = omega arith in
    ap₂
      (λ (at bit_idx : ℕ). elim (get_elem? (b ∷ rest) at) [
        | none ↦ false
        | some byte ↦ bit_and (byte / 2 ^ bit_idx) 1 == 1
      ])
      next same

count_ones-snoc : (n b : ℕ) → count_ones (suc n) b ≡ count_ones n b + bit b n
unfolding count_ones
count_ones-snoc zero b = omega (arith, bit-zero b)
count_ones-snoc (suc n) b = omega (arith, count_ones-snoc n (b / 2), bit-suc b n)

naive-first :
    (b : ℕ) (rest : List ℕ) (n : ℕ) → n ≤ 8 → naive_count_valid (b ∷ rest) n ≡ count_ones n b
unfolding naive_count_valid count_ones
naive-first b rest zero h = refl
naive-first b rest (suc n) h = ground (
  arith,
  get_valid-here b rest n (omega arith),
  naive-first b rest n (omega arith),
  count_ones-snoc n b,
)

naive-later :
    (b : ℕ) (rest : List ℕ) (n : ℕ)
    → naive_count_valid (b ∷ rest) (8 + n) ≡ count_ones 8 b + naive_count_valid rest n
unfolding naive_count_valid
naive-later b rest zero = omega (arith, naive-first b rest 8 (omega arith))
naive-later b rest (suc n) =
    let next : 8 + suc n ≡ suc (8 + n) = omega arith in
    rw (next, naive_count_valid)
      (rw (get_valid-later b rest n) (omega (arith, naive-later b rest n)))

no_ones : (n : ℕ) → count_ones n 0 ≡ 0
unfolding count_ones
no_ones zero = refl
no_ones (suc n) = omega (arith, no_ones n)

-- The bits kept by the mask of the last byte.
count_ones-mask : (m n b : ℕ) → n ≤ m → count_ones m (b % 2 ^ n) ≡ count_ones n b
unfolding count_ones
count_ones-mask m zero b h = let none_left : b % 2 ^ 0 ≡ 0 = omega arith in rw none_left (no_ones m)
count_ones-mask zero (suc n) b h = absurd (omega arith)
count_ones-mask (suc m) (suc n) b h =
    let positive : 0 < 2 ^ n = omega (arith, one-le-pow n 2) in
    let whole : b % 2 ^ suc n ≡ b / 2 % 2 ^ n * 2 + b % 2 =
      ap (λ (t : ℕ). b % t) (pow-succ' 2 n) ∙ mod_double b (2 ^ n) positive in
    let half : b % 2 ^ suc n / 2 ≡ b / 2 % 2 ^ n = omega arith in
    rw half (omega (arith, count_ones-mask m n (b / 2) (omega arith)))

count_valid-first :
    (b : ℕ) (rest : List ℕ) (n : ℕ) → n < 8 → count_valid (b ∷ rest) n ≡ count_ones n b
unfolding count_valid sum_ones count_ones
count_valid-first b rest n h =
    let none_full : n / 8 ≡ 0 = omega arith in
    let all_left : n % 8 ≡ n = omega arith in
    rw (none_full, all_left, count_valid)
      (ground (arith, bit_and_mask n b, count_ones-mask 8 n b (omega arith)))

count_valid-later :
    (b : ℕ) (rest : List ℕ) (n : ℕ)
    → count_valid (b ∷ rest) (8 + n) ≡ count_ones 8 b + count_valid rest n
unfolding count_valid sum_ones
count_valid-later b rest n =
    let full : (8 + n) / 8 ≡ suc (n / 8) = omega arith in
    let left : (8 + n) % 8 ≡ n % 8 = omega arith in
    let end : min (suc (n / 8)) (length (b ∷ rest)) ≡ suc (min (n / 8) (length rest)) =
      omega arith in
    rw (full, left, count_valid) (rw (end, count_valid) (ground arith))

count_valid-nil : (n : ℕ) → count_valid [] n ≡ 0
unfolding count_valid sum_ones
count_valid-nil n =
    let end : min (n / 8) 0 ≡ 0 = omega arith in
    rw (end, count_valid)
      (ground (
        arith,
        zero-bit_and (2 ^ (n % 8) - 1),
        ap (count_ones 8) (zero-bit_and (2 ^ (n % 8) - 1)),
        no_ones 8,
      ))

naive-nil : (n : ℕ) → naive_count_valid [] n ≡ 0
unfolding naive_count_valid get_valid
naive-nil zero = refl
naive-nil (suc n) = omega (arith, naive-nil n)

-- `count_valid` is the number of rows below `row_count` that `get_valid` reports as valid, also
-- where the bitmap is shorter than the rows.
pub count_valid-naive :
    (bitmap : List ℕ) (row_count : ℕ)
    → count_valid bitmap row_count ≡ naive_count_valid bitmap row_count
count_valid-naive [] n = count_valid-nil n ∙ sym (naive-nil n)
count_valid-naive (b ∷ rest) n = elim (dec_lt n 8) [
  | yes few ↦ count_valid-first b rest n few ∙ sym (naive-first b rest n (omega arith))
  | no many ↦
      let split : n ≡ 8 + (n - 8) = omega arith in
      rw split (
        count_valid-later b rest (n - 8)
        ∙ ap (λ (t : ℕ). count_ones 8 b + t) (count_valid-naive rest (n - 8))
        ∙ sym (naive-later b rest (n - 8)))
]
