-- ===== src/Groupby/Decode/RoundTrip.antt =====
-- Decoding gives back what the key columns hold.
use native.Mathlib.Nat.{
  add-mul-div_left, add-mul-mod_self_left, div-eq_of_lt, mod-eq_of_lt, div-div-eq-div-mul,
  one-le-pow,
}
use polars_metal.Base.Bits.{bit_and-one, bit_and_mask}
use polars_metal.Base.{
  ℕ, ◌+◌, ◌-◌, ◌*◌, ◌/◌, ◌%◌, ◌^◌, ◌<◌, ◌≡◌, refl, ap, ap₂, sym, ◌∙◌, bit_and, Option, none, some,
  List, [], ◌∷◌, map, map_through, map_ext, arith, All, ok, get_or, nat_eq,
}
use polars_metal.Groupby.Keys.{KeyColumn, KeySchema, encode_keys, data_bits, field_at}
use polars_metal.Groupby.Keys.Fields.{encode_keys-fields}
use polars_metal.Groupby.Keys.Injective.{get_or-encoded}
use polars_metal.Groupby.Keys.Lane.{
  HoldBytes, IsBytes, lane_of, cell_width, cell_code, cell_code-lt, stored_cell, pow-add, fields_of,
}
use polars_metal.Groupby.Decode.{DecodedColumn, decode_keys}
use polars_metal.Groupby.Decode.Columns.{column_of, read_cell, columns, decode_keys-columns}

-- A field reads its own digit of the lane, whatever stands below and above it.
module _ (w offset low code rest : ℕ) (below : low < 2 ^ offset) where
  abbrev whole : ℕ
  whole = low + 2 ^ offset * (code + 2 ^ (1 + w) * rest)

  above : whole / 2 ^ offset ≡ code + 2 ^ (1 + w) * rest
  above =
      add-mul-div_left low (code + 2 ^ (1 + w) * rest) (one-le-pow offset 2 (omega arith))
      ∙ omega (arith, div-eq_of_lt below)

  double : code + 2 ^ (1 + w) * rest ≡ code + 2 * (2 ^ w * rest)
  double = omega (arith, ap (λ (t : ℕ). t * rest) (pow-add 1 w))

  flag_digit : bit_and (whole / 2 ^ offset) 1 ≡ code % 2
  flag_digit = bit_and-one (whole / 2 ^ offset) ∙ omega (arith, above, double)

  payload_digit : code < 2 ^ (1 + w) → bit_and (whole / 2 ^ (offset + 1)) (2 ^ w - 1) ≡ code / 2
  payload_digit small =
      let half : whole / 2 ^ (offset + 1) ≡ code / 2 + 2 ^ w * rest =
        ap (λ (t : ℕ). whole / t) (pow-add offset 1)
        ∙ sym (div-div-eq-div-mul whole (2 ^ offset) 2)
        ∙ omega (arith, above, double) in
      bit_and_mask w (whole / 2 ^ (offset + 1))
      ∙ ap (λ (t : ℕ). t % 2 ^ w) half
      ∙ add-mul-mod_self_left (code / 2) (2 ^ w) rest
      ∙ mod-eq_of_lt (omega (arith, pow-add 1 w))

-- The cell that was written is the cell that is read.
read_cell-field_at :
    (c : KeyColumn) (row offset low rest : ℕ)
    → IsBytes c.bytes
    → low < 2 ^ offset
    → read_cell
        (low + 2 ^ offset * (cell_code (stored_cell c row) + 2 ^ cell_width c * rest))
        (field_at offset c)
      ≡ stored_cell c row
read_cell-field_at c row offset low rest h below =
    read_digit (stored_cell c row) (cell_code-lt c row h)
  where
    read_digit :
        (cell : Option ℕ)
        → cell_code cell < 2 ^ cell_width c
        → read_cell
            (low + 2 ^ offset * (cell_code cell + 2 ^ cell_width c * rest))
            (field_at offset c)
          ≡ cell
    read_digit none small = rw (flag_digit (data_bits c.dtype) offset low 1 rest below)
    read_digit (some v) small = ground (
      arith,
      flag_digit (data_bits c.dtype) offset low (2 * v) rest below,
      payload_digit (data_bits c.dtype) offset low (2 * v) rest below small,
    )

-- The columns that the key buffers hold at the given rows.
abbrev pub stored_columns : List KeyColumn → List ℕ → List DecodedColumn
stored_columns cols rows = map (λ c. column_of c.dtype c.dict (map (stored_cell c) rows)) cols

columns-stored :
    (cols : List KeyColumn) (offset : ℕ) (rows : List ℕ) (lane low : ℕ → ℕ)
    → HoldBytes cols
    → ((r : ℕ) → low r < 2 ^ offset)
    → ((r : ℕ) → lane r ≡ low r + 2 ^ offset * lane_of r cols)
    → columns (map lane rows) (fields_of offset cols) ≡ stored_columns cols rows
columns-stored [] offset rows lane low h below e = refl
columns-stored (c ∷ cols) offset rows lane low h below e =
    ap₂ ◌∷◌
      (ap (column_of c.dtype c.dict) (
        map_through (λ l. read_cell l (field_at offset c)) lane (stored_cell c) rows
          λ r.
            ap (λ l. read_cell l (field_at offset c)) (e r)
            ∙ read_cell-field_at c r offset (low r) (lane_of r cols) h.0 (below r)))
      (columns-stored cols (offset + cell_width c) rows lane
        (λ r. low r + 2 ^ offset * cell_code (stored_cell c r)) h.1
        (λ r.
          let small : cell_code (stored_cell c r) < 2 ^ cell_width c = cell_code-lt c r h.0 in
          let under : low r < 2 ^ offset = below r in
          rw (pow-add offset (cell_width c)) (grind arith))
        (λ r.
          omega (arith, e r, ap (λ (t : ℕ). t * lane_of r cols) (pow-add offset (cell_width c)))))

-- Encode and decode is a round trip: at any rows of accepted key columns, decoding their lanes
-- never meets the unreachable arm and gives, for each column, the values and null flags that its
-- buffers hold at those rows (a null decodes to the type's default).
pub decode_keys-encode_keys :
    (cols : List KeyColumn) {encoded : List ℕ} {schema : KeySchema} (rows : List ℕ)
    → HoldBytes cols
    → encode_keys cols ≡ ok (encoded, schema)
    → All (λ r. r < schema.n_rows) rows
    → decode_keys (map (λ r. get_or encoded r 0) rows) schema ≡ some (stored_columns cols rows)
decode_keys-encode_keys cols {encoded} {schema} rows h e inside =
    ap (λ l. decode_keys l schema)
      (map_ext (λ r. get_or encoded r 0) (λ r. lane_of r cols) (λ r. r < schema.n_rows) rows
        (λ r p. get_or-encoded cols r h e p) inside)
    ∙ decode_keys-columns (map (λ r. lane_of r cols) rows) schema
    ∙ ap (λ f. some (columns (map (λ r. lane_of r cols) rows) f)) (encode_keys-fields cols h e)
    ∙ ap some (
        columns-stored cols 0 rows (λ r. lane_of r cols) (λ _. 0) h (λ r. omega arith)
          (λ r. omega arith))
