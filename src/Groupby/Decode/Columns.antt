-- ===== src/Groupby/Decode/Columns.antt =====
-- The columns that lanes decode to, as a function of what each field reads.
use mathlib.Core.List.{map-append, append_assoc, append-nil}
use polars_metal.Base.{
  ℕ, ◌≡◌, refl, ap, ap₂, ◌∙◌, Bool, true, false, String, Option, none, some, List, [], ◌∷◌, ◌++◌,
  map, Bool-cases, inl, inr, ◌==◌, if◌then◌else◌, nat_eq, ℤ, pos, to_signed,
}
use polars_metal.Groupby.Keys.{KeyDtype, KeyField, KeySchema, data_bits}
use polars_metal.Groupby.Decode.{
  DecodedColumn, empty_column, push_cell, push_lane, push_lanes, decode_keys, payload, is_valid,
  dict_entry, push,
}

abbrev pub is_held : Option ℕ → Bool
is_held none = false
is_held (some v) = true

abbrev pub unsigned_cell : Option ℕ → ℕ
unsigned_cell none = 0
unsigned_cell (some v) = v

abbrev pub signed_cell : ℕ → Option ℕ → ℤ
signed_cell w none = pos 0
signed_cell w (some v) = to_signed w v

abbrev pub bool_cell : Option ℕ → Bool
bool_cell none = false
bool_cell (some v) = v == 1

abbrev pub text_cell : Option (List String) → Option ℕ → String
text_cell dict none = ""
text_cell dict (some v) = dict_entry dict v

-- A typed column from its cells: `none` for a null, else a bit pattern.
abbrev pub column_of : KeyDtype → Option (List String) → List (Option ℕ) → DecodedColumn
column_of KeyDtype.i64 dict cells =
    DecodedColumn.i64 (map (signed_cell 64) cells) (map is_held cells)
column_of KeyDtype.f64 dict cells = DecodedColumn.f64 (map unsigned_cell cells) (map is_held cells)
column_of KeyDtype.bool dict cells = DecodedColumn.bool (map bool_cell cells) (map is_held cells)
column_of KeyDtype.i32 dict cells =
    DecodedColumn.i32 (map (signed_cell 32) cells) (map is_held cells)
column_of KeyDtype.f32 dict cells = DecodedColumn.f32 (map unsigned_cell cells) (map is_held cells)
column_of KeyDtype.i8 dict cells = DecodedColumn.i8 (map (signed_cell 8) cells) (map is_held cells)
column_of KeyDtype.i16 dict cells =
    DecodedColumn.i16 (map (signed_cell 16) cells) (map is_held cells)
column_of KeyDtype.u8 dict cells = DecodedColumn.u8 (map unsigned_cell cells) (map is_held cells)
column_of KeyDtype.u16 dict cells = DecodedColumn.u16 (map unsigned_cell cells) (map is_held cells)
column_of KeyDtype.u32 dict cells = DecodedColumn.u32 (map unsigned_cell cells) (map is_held cells)
column_of KeyDtype.utf8 dict cells =
    DecodedColumn.utf8 (map (text_cell dict) cells) (map is_held cells)

-- The cell that a field reads from a lane.
abbrev pub read_cell : ℕ → KeyField → Option ℕ
read_cell lane field =
    if is_valid lane field then some (payload (data_bits field.dtype) lane field) else none

push_cell-column_of :
    (lane : ℕ) (field : KeyField) (d : KeyDtype) (cells : List (Option ℕ))
    → push_cell lane field (column_of d field.dict cells) d
      ≡ some (
          column_of d field.dict (
            push cells
              (if is_valid lane field then some (payload (data_bits d) lane field) else none)))
unfolding push_cell
push_cell-column_of lane field KeyDtype.i64 cells = elim (Bool-cases (is_valid lane field)) [
  | inl e ↦ rw e (simp map-append)
  | inr e ↦ rw e (simp map-append)
]
push_cell-column_of lane field d cells = elim (Bool-cases (is_valid lane field)) [
  | inl e ↦ rw e (simp map-append)
  | inr e ↦ rw e (simp map-append)
]

-- The columns that a list of lanes decodes to.
abbrev pub columns : List ℕ → List KeyField → List DecodedColumn
columns lanes [] = []
columns lanes (f ∷ fields) =
    column_of f.dtype f.dict (map (λ l. read_cell l f) lanes) ∷ columns lanes fields

push_lane-columns :
    (lane : ℕ) (done : List ℕ) (fields : List KeyField)
    → push_lane lane fields (columns done fields) ≡ some (columns (push done lane) fields)
unfolding push_lane
push_lane-columns lane done [] = refl
push_lane-columns lane done (f ∷ fields) =
    rw
      (
        push_cell-column_of lane f f.dtype (map (λ l. read_cell l f) done),
        push_lane-columns lane done fields,
      )
      (simp map-append)

push_lanes-columns :
    (lanes done : List ℕ) (fields : List KeyField)
    → push_lanes lanes fields (columns done fields) ≡ some (columns (done ++ lanes) fields)
unfolding push_lanes
push_lanes-columns [] done fields = simp append-nil
push_lanes-columns (lane ∷ lanes) done fields = rw (push_lane-columns lane done fields) (
    push_lanes-columns lanes (push done lane) fields
    ∙ ap (λ l. some (columns l fields)) (append_assoc done (lane ∷ []) lanes))

column_of-nil : (d : KeyDtype) (dict : Option (List String)) → empty_column d ≡ column_of d dict []
column_of-nil KeyDtype.i64 dict = refl
column_of-nil d dict = refl

columns-nil : (fields : List KeyField) → map (λ f. empty_column f.dtype) fields ≡ columns [] fields
columns-nil [] = refl
columns-nil (f ∷ fields) = ap₂ ◌∷◌ (column_of-nil f.dtype f.dict) (columns-nil fields)

pub decode_keys-columns :
    (lanes : List ℕ) (schema : KeySchema)
    → decode_keys lanes schema ≡ some (columns lanes schema.fields)
unfolding decode_keys
decode_keys-columns lanes schema =
    rw (columns-nil schema.fields) (push_lanes-columns lanes [] schema.fields)
