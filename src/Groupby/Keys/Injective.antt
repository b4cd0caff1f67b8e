-- ===== src/Groupby/Keys/Injective.antt =====
-- Two rows get one lane exactly when their keys are the same.
use native.Mathlib.Nat.{add-mul-mod_self_left, zero-add, mod-eq_of_lt, mul-div_cancel_left}
use polars_metal.Base.{
  ℕ, ◌+◌, ◌*◌, ◌/◌, ◌%◌, ◌^◌, ◌<◌, ◌≡◌, refl, ap, ap₂, sym, ◌∙◌, ◌↔◌, Option, none, some, List, [],
  ◌∷◌, arith, All, ok, ok-injective, subst, get_or, get_or-tabulate,
}
use polars_metal.Groupby.Keys.{KeyColumn, KeySchema, encode_keys}
use polars_metal.Groupby.Keys.Fields.{IsAccepted, encode_keys-ok, encode_keys_iff}
use polars_metal.Groupby.Keys.Lane.{
  HoldBytes, lane_of, cell_width, cell_code, cell_code-lt, stored_cell,
}

-- The rows are null in the same key columns, and hold the same bits in the others.
abbrev pub SameKey : List KeyColumn → ℕ → ℕ → Type 0
SameKey cols i j = All (λ c. stored_cell c i ≡ stored_cell c j) cols

cell_code-injective : (a b : Option ℕ) → cell_code a ≡ cell_code b → a ≡ b
cell_code-injective none none h = refl
cell_code-injective none (some v) h = absurd (omega arith)
cell_code-injective (some v) none h = absurd (omega arith)
cell_code-injective (some v) (some w) h = ap some (omega arith)

-- The lowest digit of a mixed-radix number, and what stands above it.
digit_injective : (m a x b y : ℕ) → a < m → b < m → a + m * x ≡ b + m * y → (a ≡ b) × (x ≡ y)
digit_injective m a x b y p q h =
    let low : a ≡ b =
      sym (mod-eq_of_lt p)
      ∙ sym (add-mul-mod_self_left a m x)
      ∙ ap (λ (t : ℕ). t % m) h
      ∙ add-mul-mod_self_left b m y
      ∙ mod-eq_of_lt q in
    let scaled : m * x ≡ m * y = omega arith in
    let pos : 0 < m = omega arith in
    (
      low,
      sym (mul-div_cancel_left x pos) ∙ ap (λ (t : ℕ). t / m) scaled ∙ mul-div_cancel_left y pos,
    )

pub lane_of-injective :
    (cols : List KeyColumn) (i j : ℕ)
    → HoldBytes cols
    → lane_of i cols ≡ lane_of j cols
    → SameKey cols i j
lane_of-injective [] i j h e = tt
lane_of-injective (c ∷ cols) i j h e =
    let parts =
      digit_injective (2 ^ cell_width c) (cell_code (stored_cell c i)) (lane_of i cols)
        (cell_code (stored_cell c j)) (lane_of j cols) (cell_code-lt c i h.0) (cell_code-lt c j h.0)
        e in
    (cell_code-injective _ _ parts.0, lane_of-injective cols i j h.1 parts.1)

pub SameKey-lane_of :
    (cols : List KeyColumn) (i j : ℕ) → SameKey cols i j → lane_of i cols ≡ lane_of j cols
SameKey-lane_of [] i j h = refl
SameKey-lane_of (c ∷ cols) i j h =
    ap₂ (λ (a : Option ℕ) (x : ℕ). cell_code a + 2 ^ cell_width c * x) h.0
      (SameKey-lane_of cols i j h.1)

-- Columns that were encoded, with the lane of each row.
pub get_or-encoded :
    (cols : List KeyColumn) {encoded : List ℕ} {schema : KeySchema} (i : ℕ)
    → HoldBytes cols
    → encode_keys cols ≡ ok (encoded, schema)
    → i < schema.n_rows
    → get_or encoded i 0 ≡ lane_of i cols
get_or-encoded [] i h e p = absurd ((encode_keys_iff []).0 (_, e))
get_or-encoded (c ∷ cols) {encoded} i h e p =
    let accepted : IsAccepted (c ∷ cols) = (encode_keys_iff (c ∷ cols)).0 (_, e) in
    let same = ok-injective (sym (encode_keys-ok c cols h accepted) ∙ e) in
    let rows : i < c.n_rows = subst (λ (n : ℕ). i < n) (sym (ap (λ r. r.1.n_rows) same)) p in
    ap (λ r. get_or r.0 i 0) (sym same)
    ∙ get_or-tabulate 0 c.n_rows (λ row. lane_of row (c ∷ cols)) i 0 rows
    ∙ ap (λ t. lane_of t (c ∷ cols)) (zero-add i)

-- Of columns that `encode_keys` accepts, two rows get one lane exactly when their keys are the
-- same: null in the same columns, and equal bit patterns in the others.
pub encode_keys-injective :
    (cols : List KeyColumn) {encoded : List ℕ} {schema : KeySchema} (i j : ℕ)
    → HoldBytes cols
    → encode_keys cols ≡ ok (encoded, schema)
    → i < schema.n_rows
    → j < schema.n_rows
    → (get_or encoded i 0 ≡ get_or encoded j 0) ↔ SameKey cols i j
encode_keys-injective cols i j h e p q =
    rw (get_or-encoded cols i h e p, get_or-encoded cols j h e q)
      (lane_of-injective cols i j h, SameKey-lane_of cols i j)
