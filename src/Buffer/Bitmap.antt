-- ===== src/Buffer/Bitmap.antt =====
-- null_bitmap.rs: Arrow validity bitmaps, one bit a row, the lowest first. A bitmap is its bytes.
pub mod Bits
pub mod Count
pub mod Set
use polars_metal.Base.{
  ℕ, zero, suc, ◌+◌, ◌-◌, ◌*◌, ◌/◌, ◌%◌, ◌^◌, min, bit_and, bit_or, Bool, true, false, Option, none,
  some, List, [], ◌∷◌, map, ◌==◌, if◌then◌else◌, get_elem?, get_or, set, take, length, ltb, nat_eq,
}

-- `row_count.div_ceil(8)`
unfoldable pub validity_bytes : ℕ → ℕ
validity_bytes row_count = if row_count % 8 == 0 then row_count / 8 else row_count / 8 + 1

unfoldable pub get_valid : List ℕ → ℕ → Bool
get_valid bitmap row = elim (get_elem? bitmap (row / 8)) [
  | none ↦ false
  | some b ↦ bit_and (b / 2 ^ (row % 8)) 1 == 1
]

-- `none` where the source panics on a row out of range. `!mask` is taken in 8 bits.
unfoldable pub set_valid : List ℕ → ℕ → Bool → Option (List ℕ)
set_valid bitmap row valid =
    let mask = 2 ^ (row % 8) in
    elim (get_elem? bitmap (row / 8)) [
      | none ↦ none
      | some byte ↦ some (
          set bitmap (row / 8)
            (if valid then bit_or byte mask else bit_and byte (2 ^ 8 - 1 - mask)))
    ]

-- `u8::count_ones`, on the `n` low bits.
unfoldable pub count_ones : ℕ → ℕ → ℕ
count_ones zero b = 0
count_ones (suc n) b = b % 2 + count_ones n (b / 2)

unfoldable pub sum_ones : List ℕ → ℕ
unfolding count_ones
sum_ones [] = 0
sum_ones (b ∷ bytes) = count_ones 8 b + sum_ones bytes

unfoldable pub count_valid : List ℕ → ℕ → ℕ
unfolding sum_ones count_ones
count_valid bitmap row_count =
    let full_bytes = row_count / 8 in
    let trailing_bits = row_count % 8 in
    let end = min full_bytes (length bitmap) in
    let sum = sum_ones (take end bitmap) in
    if ltb 0 trailing_bits
    then sum + count_ones 8 (bit_and (get_or bitmap full_bytes 0) (2 ^ trailing_bits - 1))
    else sum

unfoldable pub load_chunk_8 : List ℕ → ℕ → ℕ
load_chunk_8 bitmap row_start = get_or bitmap (row_start / 8) 0
