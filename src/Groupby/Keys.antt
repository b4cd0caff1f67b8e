-- ===== src/Groupby/Keys.antt =====
-- groupby.rs, `encode_keys` and `decode_keys`: the key columns of a row are packed into one u128.
-- A column is its Arrow buffers as bytes; an `f64` or `f32` is its bit pattern.
pub mod Lane
pub mod Fields
pub mod Injective
use polars_metal.Base.{
  ℕ, zero, suc, ◌+◌, ◌-◌, ◌*◌, ◌/◌, ◌%◌, ◌^◌, ◌≤◌, min, bit_and, bit_or, String, Bool, true, false,
  ◌&&◌, Option, none, some, List, [], ◌∷◌, map, Result, ok, err, ◌>>=◌, ◌>>◌, fail_if, ltb, ◌==◌,
  if◌then◌else◌, length, get_or, get_elem?, tabulate, ℤ, pos, to_signed, to_unsigned, nat_eq,
}

pub data KeyDtype : Type 0 where
  i64 f64 bool i32 f32 i8 i16 u8 u16 u32 utf8 : KeyDtype

-- Width of the data payload, without the null flag.
abbrev pub data_bits : KeyDtype → ℕ
data_bits KeyDtype.i64 = 64
data_bits KeyDtype.f64 = 64
data_bits KeyDtype.bool = 1
data_bits KeyDtype.i32 = 32
data_bits KeyDtype.f32 = 32
data_bits KeyDtype.u32 = 32
data_bits KeyDtype.utf8 = 32
data_bits KeyDtype.i16 = 16
data_bits KeyDtype.u16 = 16
data_bits KeyDtype.i8 = 8
data_bits KeyDtype.u8 = 8

-- The source's field `data` is `bytes` here.
pub record KeyColumn : Type 0 where
  pub name : String
  pub dtype : KeyDtype
  pub bytes : List ℕ
  pub valid : List ℕ
  pub n_rows : ℕ
  pub dict : Option (List String)

pub record KeyField : Type 0 where
  pub name : String
  pub dtype : KeyDtype
  pub null_bit_offset : ℕ
  pub data_bit_offset : ℕ
  pub dict : Option (List String)

pub record KeySchema : Type 0 where
  pub fields : List KeyField
  pub total_bits : ℕ
  pub n_rows : ℕ

pub data KeyEncodeError : Type 0 where
  no_keys : KeyEncodeError
  too_wide : ℕ → KeyEncodeError
  row_count_mismatch : ℕ → ℕ → KeyEncodeError
  data_too_short : String → ℕ → ℕ → KeyEncodeError
  validity_too_short : String → ℕ → ℕ → KeyEncodeError
  utf8_missing_dict : String → KeyEncodeError

-- The check of the row counts, over `cols.iter().skip(1)`.
pub check_rows : ℕ → List KeyColumn → Result KeyEncodeError (Unit {0})
check_rows n_rows [] = ok tt
check_rows n_rows (c ∷ cols) =
    if c.n_rows == n_rows
    then check_rows n_rows cols
    else err (KeyEncodeError.row_count_mismatch n_rows c.n_rows)

abbrev pub min_valid_bytes : ℕ → ℕ
min_valid_bytes n_rows = (n_rows + 7) / 8

abbrev pub need_data : KeyDtype → ℕ → ℕ
need_data KeyDtype.i64 n_rows = n_rows * 8
need_data KeyDtype.f64 n_rows = n_rows * 8
need_data KeyDtype.i32 n_rows = n_rows * 4
need_data KeyDtype.f32 n_rows = n_rows * 4
need_data KeyDtype.u32 n_rows = n_rows * 4
need_data KeyDtype.utf8 n_rows = n_rows * 4
need_data KeyDtype.i16 n_rows = n_rows * 2
need_data KeyDtype.u16 n_rows = n_rows * 2
need_data KeyDtype.i8 n_rows = n_rows
need_data KeyDtype.u8 n_rows = n_rows
need_data KeyDtype.bool n_rows = min_valid_bytes n_rows

-- `c.dtype == KeyDtype::Utf8 && c.dict.is_none()`
abbrev pub lacks_dict : KeyDtype → Option (List String) → Bool
lacks_dict KeyDtype.utf8 none = true
lacks_dict _ _ = false

-- `u32::saturating_add`
abbrev pub saturating_add : ℕ → ℕ → ℕ
saturating_add a b = min (a + b) (2 ^ 32 - 1)

-- The checks of one column, before its field is placed.
pub check_column : ℕ → ℕ → KeyColumn → Result KeyEncodeError (Unit {0})
check_column n_rows offset c = do
  fail_if (lacks_dict c.dtype c.dict) (KeyEncodeError.utf8_missing_dict c.name)
  fail_if (ltb (length c.bytes) (need_data c.dtype n_rows))
      (KeyEncodeError.data_too_short c.name (length c.bytes) (need_data c.dtype n_rows))
  fail_if (ltb (length c.valid) (min_valid_bytes n_rows))
      (KeyEncodeError.validity_too_short c.name (length c.valid) (min_valid_bytes n_rows))
  fail_if (ltb 128 (saturating_add offset (1 + data_bits c.dtype)))
      (KeyEncodeError.too_wide (offset + (1 + data_bits c.dtype)))

abbrev pub field_at : ℕ → KeyColumn → KeyField
field_at offset c = record {
  name = c.name;
  dtype = c.dtype;
  null_bit_offset = offset;
  data_bit_offset = offset + 1;
  dict = c.dict;
}

-- The loop that places the fields, with the offset that it leaves.
pub place_fields : ℕ → ℕ → List KeyColumn → Result KeyEncodeError (List KeyField × ℕ)
place_fields n_rows offset [] = ok ([], offset)
place_fields n_rows offset (c ∷ cols) = do
  check_column n_rows offset c
  placed ← place_fields n_rows (offset + (1 + data_bits c.dtype)) cols
  ok (field_at offset c ∷ placed.0, placed.1)

-- `from_le_bytes` on `n` bytes that start at `at`.
abbrev pub from_le_bytes : ℕ → List ℕ → ℕ → ℕ
from_le_bytes zero bytes at = 0
from_le_bytes (suc n) bytes at = get_or bytes at 0 + 256 * from_le_bytes n bytes (at + 1)

-- Bit `row` of a bit-packed buffer: `(buf[row >> 3] >> (row & 7)) & 1`.
abbrev pub bit_at : List ℕ → ℕ → ℕ
bit_at buf row = bit_and (get_or buf (row / 2 ^ 3) 0 / 2 ^ bit_and row 7) 1

-- `data_value` of the row loop.
abbrev pub data_value : KeyDtype → List ℕ → ℕ → ℕ
data_value KeyDtype.i64 bytes row = to_unsigned 64 (to_signed 64 (from_le_bytes 8 bytes (row * 8)))
data_value KeyDtype.f64 bytes row = from_le_bytes 8 bytes (row * 8)
data_value KeyDtype.i32 bytes row = to_unsigned 32 (to_signed 32 (from_le_bytes 4 bytes (row * 4)))
data_value KeyDtype.f32 bytes row = from_le_bytes 4 bytes (row * 4)
data_value KeyDtype.u32 bytes row = from_le_bytes 4 bytes (row * 4)
data_value KeyDtype.utf8 bytes row = from_le_bytes 4 bytes (row * 4)
data_value KeyDtype.i16 bytes row = to_unsigned 16 (to_signed 16 (from_le_bytes 2 bytes (row * 2)))
data_value KeyDtype.u16 bytes row = from_le_bytes 2 bytes (row * 2)
data_value KeyDtype.i8 bytes row = to_unsigned 8 (to_signed 8 (get_or bytes row 0))
data_value KeyDtype.u8 bytes row = get_or bytes row 0
data_value KeyDtype.bool bytes row = bit_at bytes row

-- `x << k` on u128.
abbrev pub shl128 : ℕ → ℕ → ℕ
shl128 x k = x * 2 ^ k % 2 ^ 128

-- One column's bits are or-ed into the lane.
pub add_field : ℕ → KeyColumn → KeyField → ℕ → ℕ
add_field row c field lane =
    if bit_at c.valid row == 0
    then bit_or lane (shl128 1 field.null_bit_offset)
    else bit_or lane (shl128 (data_value c.dtype c.bytes row) field.data_bit_offset)

pub encode_lane : ℕ → List KeyColumn → List KeyField → ℕ → ℕ
encode_lane row [] fields lane = lane
encode_lane row (c ∷ cols) [] lane = lane
encode_lane row (c ∷ cols) (field ∷ fields) lane =
    encode_lane row cols fields (add_field row c field lane)

unfoldable pub encode_keys : List KeyColumn → Result KeyEncodeError (List ℕ × KeySchema)
unfolding check_rows place_fields check_column encode_lane add_field to_signed to_unsigned
encode_keys [] = err KeyEncodeError.no_keys
encode_keys (c ∷ cols) = do
  check_rows c.n_rows cols
  placed ← place_fields c.n_rows 0 (c ∷ cols)
  ok (
    tabulate 0 c.n_rows (λ row. encode_lane row (c ∷ cols) placed.0 0),
    record { fields = placed.0; total_bits = placed.1; n_rows = c.n_rows },
  )
