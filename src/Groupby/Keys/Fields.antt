-- ===== src/Groupby/Keys/Fields.antt =====
-- Which key columns `encode_keys` accepts, and the schema and lanes that it then returns.
use polars_metal.Base.{
  ℕ, ◌+◌, ◌≤◌, ◌≡◌, refl, sym, ok-injective, ap, ◌∙◌, ◌↔◌, false, List, [], ◌∷◌, arith, ok,
  >>=-eq-ok, All, length, tabulate, nat_eq,
}
use mathlib.Core.Path.{fun_ext}
use native.Mathlib.Nat.{zero-add}
use polars_metal.Groupby.Keys.{
  KeyDtype, data_bits, KeyColumn, KeyField, KeySchema, check_rows, check_column, place_fields,
  encode_keys, field_at, lacks_dict, need_data, min_valid_bytes, encode_lane,
}
use polars_metal.Groupby.Keys.Lane.{
  HoldBytes, lane_of, total_width, cell_width, fields_of, encode_lane-eq,
}

-- The buffers of a column serve `n_rows` rows, and a string column has its dictionary.
abbrev pub Serves : ℕ → KeyColumn → Type 0
Serves n_rows c =
    (lacks_dict c.dtype c.dict ≡ false)
    × (need_data c.dtype n_rows ≤ length c.bytes)
    × (min_valid_bytes n_rows ≤ length c.valid)

abbrev pub SameRows : ℕ → List KeyColumn → Type 0
SameRows n_rows cols = All (λ d. d.n_rows ≡ n_rows) cols

-- What `encode_keys` asks of its columns.
abbrev pub IsAccepted : List KeyColumn → Type 0
IsAccepted [] = ⊥
IsAccepted (c ∷ cols) =
    SameRows c.n_rows cols × All (Serves c.n_rows) (c ∷ cols) × (total_width (c ∷ cols) ≤ 128)

abbrev pub schema_of : KeyColumn → List KeyColumn → KeySchema
schema_of c cols = record {
  fields = fields_of 0 (c ∷ cols);
  total_bits = total_width (c ∷ cols);
  n_rows = c.n_rows;
}

data_bits-le : (d : KeyDtype) → data_bits d ≤ 64
data_bits-le KeyDtype.bool = omega arith
data_bits-le _ = omega arith

check_rows_iff :
    (n_rows : ℕ) (cols : List KeyColumn) → (check_rows n_rows cols ≡ ok tt) ↔ SameRows n_rows cols
unfolding check_rows
check_rows_iff n_rows [] = (λ _. tt, λ _. refl)
check_rows_iff n_rows (c ∷ cols) = ground (arith, check_rows_iff n_rows cols)

check_column_iff :
    (n_rows offset : ℕ) (c : KeyColumn)
    → offset ≤ 128
    → (check_column n_rows offset c ≡ ok tt) ↔ (Serves n_rows c × (offset + cell_width c ≤ 128))
unfolding check_column
check_column_iff n_rows offset c h = ground (arith, data_bits-le c.dtype)

place_fields-ok :
    (n_rows offset : ℕ) (cols : List KeyColumn)
    → All (Serves n_rows) cols
    → offset + total_width cols ≤ 128
    → place_fields n_rows offset cols ≡ ok (fields_of offset cols, offset + total_width cols)
unfolding place_fields
place_fields-ok n_rows offset [] h fits = ap (λ t. ok ([], t)) (omega arith)
place_fields-ok n_rows offset (c ∷ cols) h fits =
    rw
      (
        (check_column_iff n_rows offset c (omega arith)).1 (h.0, omega arith),
        place_fields-ok n_rows (offset + cell_width c) cols h.1 (omega arith),
      )
      (ap (λ t. ok (field_at offset c ∷ fields_of (offset + cell_width c) cols, t)) (omega arith))

place_fields-accepts :
    (n_rows offset : ℕ) (cols : List KeyColumn) {placed : List KeyField × ℕ}
    → offset ≤ 128
    → place_fields n_rows offset cols ≡ ok placed
    → All (Serves n_rows) cols × (offset + total_width cols ≤ 128)
unfolding place_fields
place_fields-accepts n_rows offset [] h e = (tt, omega arith)
place_fields-accepts n_rows offset (c ∷ cols) h e =
    let (done, checked, rest) = >>=-eq-ok (check_column n_rows offset c) _ e in
    let (placed, inner, last) =
      >>=-eq-ok (place_fields n_rows (offset + cell_width c) cols) _ rest in
    let here = (check_column_iff n_rows offset c h).0 checked in
    let there = place_fields-accepts n_rows (offset + cell_width c) cols here.1 inner in
    ((here.0, there.0), omega arith)

encode_keys-lanes :
    (c : KeyColumn) (cols : List KeyColumn)
    → IsAccepted (c ∷ cols)
    → encode_keys (c ∷ cols)
      ≡ ok (
        tabulate 0 c.n_rows (λ row. encode_lane row (c ∷ cols) (fields_of 0 (c ∷ cols)) 0),
        schema_of c cols,
      )
unfolding encode_keys
encode_keys-lanes c cols (same, serves, fits) =
    rw
      (
        (check_rows_iff c.n_rows cols).1 same,
        place_fields-ok c.n_rows 0 (c ∷ cols) serves (omega arith),
      )
      (ap
        (λ t. ok (
          tabulate 0 c.n_rows (λ row. encode_lane row (c ∷ cols) (fields_of 0 (c ∷ cols)) 0),
          record { fields = fields_of 0 (c ∷ cols); total_bits = t; n_rows = c.n_rows },
        ))
        (zero-add _))

-- The lanes and the schema that accepted columns are encoded to.
pub encode_keys-ok :
    (c : KeyColumn) (cols : List KeyColumn)
    → HoldBytes (c ∷ cols)
    → IsAccepted (c ∷ cols)
    → encode_keys (c ∷ cols)
      ≡ ok (tabulate 0 c.n_rows (λ row. lane_of row (c ∷ cols)), schema_of c cols)
encode_keys-ok c cols h ok_cols =
    encode_keys-lanes c cols ok_cols
    ∙ ap (λ f. ok (tabulate 0 c.n_rows f, schema_of c cols))
        (fun_ext λ row.
          encode_lane-eq row 0 0 (c ∷ cols) h (omega arith) (omega (arith, ok_cols.2))
          ∙ omega arith)

pub encode_keys_iff :
    (cols : List KeyColumn)
    → ((out : List ℕ × KeySchema) × (encode_keys cols ≡ ok out)) ↔ IsAccepted cols
unfolding encode_keys
encode_keys_iff [] = (λ p. cc (p.1), λ h. absurd h)
encode_keys_iff (c ∷ cols) = (accepts, succeeds)
  where
    accepts : (out : List ℕ × KeySchema) × (encode_keys (c ∷ cols) ≡ ok out) → IsAccepted (c ∷ cols)
    accepts (out, e) =
        let (done, checked, rest) = >>=-eq-ok (check_rows c.n_rows cols) _ e in
        let (placed, inner, last) = >>=-eq-ok (place_fields c.n_rows 0 (c ∷ cols)) _ rest in
        let all = place_fields-accepts c.n_rows 0 (c ∷ cols) (omega arith) inner in
        ((check_rows_iff c.n_rows cols).0 checked, all.0, omega arith)

    succeeds :
        IsAccepted (c ∷ cols) → (out : List ℕ × KeySchema) × (encode_keys (c ∷ cols) ≡ ok out)
    succeeds h = (_, encode_keys-lanes c cols h)

pub encode_keys-fields :
    (cols : List KeyColumn) {encoded : List ℕ} {schema : KeySchema}
    → HoldBytes cols
    → encode_keys cols ≡ ok (encoded, schema)
    → schema.fields ≡ fields_of 0 cols
encode_keys-fields [] h e = absurd ((encode_keys_iff []).0 (_, e))
encode_keys-fields (c ∷ cols) h e =
    ap (λ r. r.1.fields)
      (sym
        (ok-injective (sym (encode_keys-ok c cols h ((encode_keys_iff (c ∷ cols)).0 (_, e))) ∙ e)))
