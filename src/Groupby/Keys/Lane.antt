-- ===== src/Groupby/Keys/Lane.antt =====
-- The lane of a row as a number in mixed radix: each column is one digit, its null flag lowest.
use native.Mathlib.Nat.{
  pow-suc, pow-succ', one-le-pow, mod-eq_of_lt, pow-le-pow_right, add-zero, add-suc, le_trans,
}
use polars_metal.Base.Bits.{bit_or_above, bit_and-one}
use polars_metal.Base.{
  ℕ, zero, suc, ◌+◌, ◌*◌, ◌/◌, ◌^◌, ◌≤◌, ◌<◌, bit_and, bit_or, ◌≡◌, refl, ap, ◌∙◌, Option, none,
  some, List, [], ◌∷◌, arith, ◌==◌, if◌then◌else◌, nat_eq, get_or, All, inl, inr, Bool-cases,
  to_unsigned-to_signed,
}
use polars_metal.Groupby.Keys.{
  KeyDtype, KeyColumn, KeyField, data_bits, bit_at, data_value, shl128, add_field, field_at,
  encode_lane, from_le_bytes,
}

abbrev pub IsBytes : List ℕ → Type 0
IsBytes bytes = All (λ b. b < 256) bytes

get_or-lt : (bytes : List ℕ) (i : ℕ) → IsBytes bytes → get_or bytes i 0 < 256
get_or-lt [] i h = omega arith
get_or-lt (b ∷ bytes) zero h = h.0
get_or-lt (b ∷ bytes) (suc i) h = get_or-lt bytes i h.1

from_le_bytes-lt :
    (n : ℕ) (bytes : List ℕ) (at : ℕ) → IsBytes bytes → from_le_bytes n bytes at < 256 ^ n
from_le_bytes-lt zero bytes at h = omega arith
from_le_bytes-lt (suc n) bytes at h =
    omega (arith, pow-succ' 256 n, get_or-lt bytes at h, from_le_bytes-lt n bytes (at + 1) h)

pub bit_at-lt : (buf : List ℕ) (row : ℕ) → bit_at buf row < 2
bit_at-lt buf row = omega (arith, bit_and-one (get_or buf (row / 2 ^ 3) 0 / 2 ^ bit_and row 7))

-- The bit pattern of a valid cell, read from the buffer with no cast.
abbrev pub raw_value : KeyDtype → List ℕ → ℕ → ℕ
raw_value KeyDtype.i64 bytes row = from_le_bytes 8 bytes (row * 8)
raw_value KeyDtype.f64 bytes row = from_le_bytes 8 bytes (row * 8)
raw_value KeyDtype.i32 bytes row = from_le_bytes 4 bytes (row * 4)
raw_value KeyDtype.f32 bytes row = from_le_bytes 4 bytes (row * 4)
raw_value KeyDtype.u32 bytes row = from_le_bytes 4 bytes (row * 4)
raw_value KeyDtype.utf8 bytes row = from_le_bytes 4 bytes (row * 4)
raw_value KeyDtype.i16 bytes row = from_le_bytes 2 bytes (row * 2)
raw_value KeyDtype.u16 bytes row = from_le_bytes 2 bytes (row * 2)
raw_value KeyDtype.i8 bytes row = get_or bytes row 0
raw_value KeyDtype.u8 bytes row = get_or bytes row 0
raw_value KeyDtype.bool bytes row = bit_at bytes row

pub raw_value-lt :
    (d : KeyDtype) (bytes : List ℕ) (row : ℕ)
    → IsBytes bytes
    → raw_value d bytes row < 2 ^ data_bits d
raw_value-lt KeyDtype.i64 bytes row h = from_le_bytes-lt 8 bytes (row * 8) h
raw_value-lt KeyDtype.f64 bytes row h = from_le_bytes-lt 8 bytes (row * 8) h
raw_value-lt KeyDtype.i32 bytes row h = from_le_bytes-lt 4 bytes (row * 4) h
raw_value-lt KeyDtype.f32 bytes row h = from_le_bytes-lt 4 bytes (row * 4) h
raw_value-lt KeyDtype.u32 bytes row h = from_le_bytes-lt 4 bytes (row * 4) h
raw_value-lt KeyDtype.utf8 bytes row h = from_le_bytes-lt 4 bytes (row * 4) h
raw_value-lt KeyDtype.i16 bytes row h = from_le_bytes-lt 2 bytes (row * 2) h
raw_value-lt KeyDtype.u16 bytes row h = from_le_bytes-lt 2 bytes (row * 2) h
raw_value-lt KeyDtype.i8 bytes row h = get_or-lt bytes row h
raw_value-lt KeyDtype.u8 bytes row h = get_or-lt bytes row h
raw_value-lt KeyDtype.bool bytes row h = bit_at-lt bytes row

-- The casts of the row loop keep the bit pattern.
pub data_value-eq :
    (d : KeyDtype) (bytes : List ℕ) (row : ℕ)
    → IsBytes bytes
    → data_value d bytes row ≡ raw_value d bytes row
data_value-eq KeyDtype.i64 bytes row h =
    to_unsigned-to_signed 64 _ (raw_value-lt KeyDtype.i64 bytes row h)
data_value-eq KeyDtype.i32 bytes row h =
    to_unsigned-to_signed 32 _ (raw_value-lt KeyDtype.i32 bytes row h)
data_value-eq KeyDtype.i16 bytes row h =
    to_unsigned-to_signed 16 _ (raw_value-lt KeyDtype.i16 bytes row h)
data_value-eq KeyDtype.i8 bytes row h =
    to_unsigned-to_signed 8 _ (raw_value-lt KeyDtype.i8 bytes row h)
data_value-eq _ bytes row h = refl

-- A cell as the buffers hold it: `none` for a null, else the bit pattern.
abbrev pub stored_cell : KeyColumn → ℕ → Option ℕ
stored_cell c row = if bit_at c.valid row == 0 then none else some (raw_value c.dtype c.bytes row)

abbrev pub cell_code : Option ℕ → ℕ
cell_code none = 1
cell_code (some v) = 2 * v

abbrev pub cell_width : KeyColumn → ℕ
cell_width c = 1 + data_bits c.dtype

abbrev pub lane_of : ℕ → List KeyColumn → ℕ
lane_of row [] = 0
lane_of row (c ∷ cols) = cell_code (stored_cell c row) + 2 ^ cell_width c * lane_of row cols

abbrev pub total_width : List KeyColumn → ℕ
total_width [] = 0
total_width (c ∷ cols) = cell_width c + total_width cols

abbrev pub fields_of : ℕ → List KeyColumn → List KeyField
fields_of offset [] = []
fields_of offset (c ∷ cols) = field_at offset c ∷ fields_of (offset + cell_width c) cols

abbrev pub HoldBytes : List KeyColumn → Type 0
HoldBytes cols = All (λ c. IsBytes c.bytes) cols

pub pow-add : (a b : ℕ) → 2 ^ (a + b) ≡ 2 ^ a * 2 ^ b
pow-add a zero = omega (arith, ap (λ (t : ℕ). 2 ^ t) (add-zero a))
pow-add a (suc b) = omega (
  arith,
  ap (λ (t : ℕ). 2 ^ t) (add-suc a b),
  pow-suc 2 (a + b),
  ap (λ (t : ℕ). 2 ^ a * t) (pow-suc 2 b),
  ap (λ (t : ℕ). t * 2) (pow-add a b),
)

-- A value of `w` bits, shifted by `k`, stays in a word of `w + k` bits.
pub shifted-lt : (x w k : ℕ) → x < 2 ^ w → x * 2 ^ k < 2 ^ (w + k)
shifted-lt x w k h = rw (pow-add w k) (grind (arith, one-le-pow k 2))

pub cell_code-lt :
    (c : KeyColumn) (row : ℕ) → IsBytes c.bytes → cell_code (stored_cell c row) < 2 ^ cell_width c
cell_code-lt c row h = ground (
  arith,
  raw_value-lt c.dtype c.bytes row h,
  pow-add 1 (data_bits c.dtype),
  one-le-pow (data_bits c.dtype) 2,
)

shl128-eq : (x w k : ℕ) → x < 2 ^ w → w + k ≤ 128 → shl128 x k ≡ x * 2 ^ k
shl128-eq x w k h fits =
    mod-eq_of_lt (le_trans (shifted-lt x w k h) (pow-le-pow_right (omega arith) fits))

-- The two writes of `add_field`, at a lane that is still free from bit `k` on.
or_shifted :
    (lane x w k : ℕ)
    → lane < 2 ^ k
    → x < 2 ^ w
    → w + k ≤ 128
    → bit_or lane (shl128 x k) ≡ lane + x * 2 ^ k
or_shifted lane x w k low h fits = rw (shl128-eq x w k h fits) (bit_or_above k lane x low)

pub add_field-eq :
    (row offset lane : ℕ) (c : KeyColumn)
    → IsBytes c.bytes
    → lane < 2 ^ offset
    → offset + cell_width c ≤ 128
    → add_field row c (field_at offset c) lane ≡ lane + cell_code (stored_cell c row) * 2 ^ offset
unfolding add_field
add_field-eq row offset lane c h low fits = elim (Bool-cases (bit_at c.valid row == 0)) [
  | inl null ↦ rw null (or_shifted lane 1 1 offset low (omega arith) (omega arith))
  | inr held ↦
      rw (held, data_value-eq c.dtype c.bytes row h)
        (or_shifted lane x w (offset + 1) (omega (arith, pow-add offset 1))
            (raw_value-lt c.dtype c.bytes row h) (omega arith)
          ∙ omega (arith, ap (λ (t : ℕ). x * t) (pow-add offset 1)))
]
  where
    x : ℕ
    x = raw_value c.dtype c.bytes row

    w : ℕ
    w = data_bits c.dtype

pub encode_lane-eq :
    (row offset lane : ℕ) (cols : List KeyColumn)
    → HoldBytes cols
    → lane < 2 ^ offset
    → offset + total_width cols ≤ 128
    → encode_lane row cols (fields_of offset cols) lane ≡ lane + 2 ^ offset * lane_of row cols
unfolding encode_lane
encode_lane-eq row offset lane [] h low fits = omega arith
encode_lane-eq row offset lane (c ∷ cols) h low fits =
    let code : ℕ = cell_code (stored_cell c row) in
    let width : ℕ = cell_width c in
    let small : code < 2 ^ width = cell_code-lt c row h.0 in
    let below : lane + code * 2 ^ offset < 2 ^ (offset + width) =
      rw (pow-add offset width) (grind arith) in
    rw (add_field-eq row offset lane c h.0 low (omega arith)) (
      encode_lane-eq row (offset + width) (lane + code * 2 ^ offset) cols h.1 below (omega arith)
      ∙ omega (arith, ap (λ (t : ℕ). t * lane_of row cols) (pow-add offset width)))
