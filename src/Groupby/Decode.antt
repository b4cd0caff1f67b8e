-- ===== src/Groupby/Decode.antt =====
-- groupby.rs, `decode_keys`: from lanes back to typed columns. `none` is the `unreachable!` arm.
pub mod Columns
pub mod RoundTrip
use polars_metal.Base.{
  ℕ, zero, suc, ◌+◌, ◌-◌, ◌/◌, ◌^◌, bit_and, String, Bool, true, false, Option, none, some, List,
  [], ◌∷◌, ◌++◌, map, ◌==◌, if◌then◌else◌, get_elem?, ℤ, pos, to_signed, nat_eq,
}
use mathlib.Core.Option
use polars_metal.Groupby.Keys.{KeyDtype, KeyField, KeySchema}

-- The vectors `values` and `valid` of each variant; floats are bit patterns.
pub data DecodedColumn : Type 0 where
  i64 : List ℤ → List Bool → DecodedColumn
  f64 : List ℕ → List Bool → DecodedColumn
  bool : List Bool → List Bool → DecodedColumn
  i32 : List ℤ → List Bool → DecodedColumn
  f32 : List ℕ → List Bool → DecodedColumn
  i8 : List ℤ → List Bool → DecodedColumn
  i16 : List ℤ → List Bool → DecodedColumn
  u8 : List ℕ → List Bool → DecodedColumn
  u16 : List ℕ → List Bool → DecodedColumn
  u32 : List ℕ → List Bool → DecodedColumn
  utf8 : List String → List Bool → DecodedColumn

abbrev pub empty_column : KeyDtype → DecodedColumn
empty_column KeyDtype.i64 = DecodedColumn.i64 [] []
empty_column KeyDtype.f64 = DecodedColumn.f64 [] []
empty_column KeyDtype.bool = DecodedColumn.bool [] []
empty_column KeyDtype.i32 = DecodedColumn.i32 [] []
empty_column KeyDtype.f32 = DecodedColumn.f32 [] []
empty_column KeyDtype.i8 = DecodedColumn.i8 [] []
empty_column KeyDtype.i16 = DecodedColumn.i16 [] []
empty_column KeyDtype.u8 = DecodedColumn.u8 [] []
empty_column KeyDtype.u16 = DecodedColumn.u16 [] []
empty_column KeyDtype.u32 = DecodedColumn.u32 [] []
empty_column KeyDtype.utf8 = DecodedColumn.utf8 [] []

-- `values.push(v)`
abbrev pub push {ℓ} : {A : Type ℓ} → List A → A → List A
push xs x = xs ++ x ∷ []

-- `field.dict.as_ref().and_then(|d| d.get(code).cloned()).unwrap_or_default()`
abbrev pub dict_entry : Option (List String) → ℕ → String
dict_entry none code = ""
dict_entry (some d) code = Option.get_or (get_elem? d code) ""

-- `(lane >> field.data_bit_offset) & ((1u128 << w) - 1)`
abbrev pub payload : ℕ → ℕ → KeyField → ℕ
payload w lane field = bit_and (lane / 2 ^ field.data_bit_offset) (2 ^ w - 1)

abbrev pub is_valid : ℕ → KeyField → Bool
is_valid lane field = bit_and (lane / 2 ^ field.null_bit_offset) 1 == 0

-- One arm of the inner `match`, on the column built so far and the field's dtype.
pub push_cell : ℕ → KeyField → DecodedColumn → KeyDtype → Option DecodedColumn
push_cell lane field (DecodedColumn.i64 vs ok) KeyDtype.i64 =
    let v = if is_valid lane field then to_signed 64 (payload 64 lane field) else pos 0 in
    some (DecodedColumn.i64 (push vs v) (push ok (is_valid lane field)))
push_cell lane field (DecodedColumn.f64 vs ok) KeyDtype.f64 =
    let v = if is_valid lane field then payload 64 lane field else 0 in
    some (DecodedColumn.f64 (push vs v) (push ok (is_valid lane field)))
push_cell lane field (DecodedColumn.bool vs ok) KeyDtype.bool =
    let v = if is_valid lane field then payload 1 lane field == 1 else false in
    some (DecodedColumn.bool (push vs v) (push ok (is_valid lane field)))
push_cell lane field (DecodedColumn.i32 vs ok) KeyDtype.i32 =
    let v = if is_valid lane field then to_signed 32 (payload 32 lane field) else pos 0 in
    some (DecodedColumn.i32 (push vs v) (push ok (is_valid lane field)))
push_cell lane field (DecodedColumn.f32 vs ok) KeyDtype.f32 =
    let v = if is_valid lane field then payload 32 lane field else 0 in
    some (DecodedColumn.f32 (push vs v) (push ok (is_valid lane field)))
push_cell lane field (DecodedColumn.u32 vs ok) KeyDtype.u32 =
    let v = if is_valid lane field then payload 32 lane field else 0 in
    some (DecodedColumn.u32 (push vs v) (push ok (is_valid lane field)))
push_cell lane field (DecodedColumn.i16 vs ok) KeyDtype.i16 =
    let v = if is_valid lane field then to_signed 16 (payload 16 lane field) else pos 0 in
    some (DecodedColumn.i16 (push vs v) (push ok (is_valid lane field)))
push_cell lane field (DecodedColumn.u16 vs ok) KeyDtype.u16 =
    let v = if is_valid lane field then payload 16 lane field else 0 in
    some (DecodedColumn.u16 (push vs v) (push ok (is_valid lane field)))
push_cell lane field (DecodedColumn.i8 vs ok) KeyDtype.i8 =
    let v = if is_valid lane field then to_signed 8 (payload 8 lane field) else pos 0 in
    some (DecodedColumn.i8 (push vs v) (push ok (is_valid lane field)))
push_cell lane field (DecodedColumn.u8 vs ok) KeyDtype.u8 =
    let v = if is_valid lane field then payload 8 lane field else 0 in
    some (DecodedColumn.u8 (push vs v) (push ok (is_valid lane field)))
push_cell lane field (DecodedColumn.utf8 vs ok) KeyDtype.utf8 =
    let v = if is_valid lane field then dict_entry field.dict (payload 32 lane field) else "" in
    some (DecodedColumn.utf8 (push vs v) (push ok (is_valid lane field)))
push_cell lane field column dtype = none

infixl 5 ◌>>=◌
abbrev ◌>>=◌ : {A B : Type 0} → Option A → (A → Option B) → Option B
none >>= f = none
some a >>= f = f a

-- The inner loop, over the fields with their columns.
pub push_lane : ℕ → List KeyField → List DecodedColumn → Option (List DecodedColumn)
push_lane lane [] out = some out
push_lane lane (field ∷ fields) [] = none
push_lane lane (field ∷ fields) (column ∷ out) = do
  column' ← push_cell lane field column field.dtype
  out' ← push_lane lane fields out
  some (column' ∷ out')

pub push_lanes : List ℕ → List KeyField → List DecodedColumn → Option (List DecodedColumn)
push_lanes [] fields out = some out
push_lanes (lane ∷ lanes) fields out = do
  out' ← push_lane lane fields out
  push_lanes lanes fields out'

unfoldable pub decode_keys : List ℕ → KeySchema → Option (List DecodedColumn)
unfolding push_lanes push_lane push_cell to_signed
decode_keys encoded schema =
    push_lanes encoded schema.fields (map (λ f. empty_column f.dtype) schema.fields)
