-- ===== src/Predicates/Entries.antt =====
-- What Python gets from a comparison and from a connective, row by row.
use polars_metal.Base.{
  ℕ, ◌*◌, ◌^◌, ◌≤◌, ◌<◌, ◌≡◌, refl, ◌∙◌, inl, inr, Bool, true, false, String, Option, none, some,
  List, if◌then◌else◌, nat_eq, nat_beq_iff, length, take, get_or, ltb, leb, Bool-cases, ok, arith,
}
use polars_metal.Buffer.Bitmap.{get_valid}
use polars_metal.Filter.{min_bitmap_bytes}
use polars_metal.Compaction.{words}
use polars_metal.Compaction.Words.{length-words}
use polars_metal.Compaction.Passes.{get_valid-take, room_for}
use polars_metal.Plan.{CompareOp}
use polars_metal.Predicates.Grids.{IsRunning, cell, Answers, into_outputs-Answers}
use polars_metal.Predicates.{
  Grid, cmp_row, cmp_scalar_row, dispatch_cmp, dispatch_cmp_scalar, outputs, and_bits, or_bits,
  logical_row, dispatch_logical, parse_compare_op, cmp_col_col, cmp_col_scalar,
}

-- `n` rows in a column of 64-bit values and its validity, and in a bit-packed one.
abbrev pub Holds : ℕ → List ℕ → List ℕ → Type 0
Holds n bytes valid = (n * 8 ≤ length bytes) × (min_bitmap_bytes n ≤ length valid)

abbrev pub HoldsBits : ℕ → List ℕ → List ℕ → Type 0
HoldsBits n data_bytes valid =
    (min_bitmap_bytes n ≤ length data_bytes) × (min_bitmap_bytes n ≤ length valid)

-- A row of a column of 64-bit values.
abbrev pub value : ℕ → List ℕ → List ℕ → ℕ → Option ℕ
value n bytes valid i = if get_valid valid i then some (get_or (words n bytes) i 0) else none

-- A test of two values that is null where one of them is.
abbrev pub both : (ℕ → ℕ → Bool) → Option ℕ → Option ℕ → Option Bool
both op none y = none
both op (some a) none = none
both op (some a) (some b) = some (op a b)

-- Kleene's connectives.
abbrev pub kleene_and : Option Bool → Option Bool → Option Bool
kleene_and (some false) y = some false
kleene_and (some true) y = y
kleene_and none (some false) = some false
kleene_and none (some true) = none
kleene_and none none = none

abbrev pub kleene_or : Option Bool → Option Bool → Option Bool
kleene_or (some true) y = some true
kleene_or (some false) y = y
kleene_or none (some true) = some true
kleene_or none (some false) = none
kleene_or none none = none

pub long_enough : (xs : List ℕ) (n : ℕ) → n ≤ length xs → ltb (length xs) n ≡ false
long_enough xs n h = ground (arith, h)

-- A row of a comparison is a test of the values of the row.
cmp_row-both :
    (op : ℕ → ℕ → Bool) (n : ℕ) (lhs lhs_valid rhs rhs_valid : List ℕ) (i : ℕ)
    → i < n
    → cmp_row op
        (words n lhs)
        (take (min_bitmap_bytes n) lhs_valid)
        (words n rhs)
        (take (min_bitmap_bytes n) rhs_valid)
        n
        i
      ≡ both op (value n lhs lhs_valid i) (value n rhs rhs_valid i)
cmp_row-both op n lhs lhs_valid rhs rhs_valid i below =
    let inside : leb n i ≡ false = ground (arith, below) in
    let left = get_valid-take lhs_valid n i below in
    let right = get_valid-take rhs_valid n i below in
    elim (Bool-cases (get_valid lhs_valid i)) [
      | inl l ↦ elim (Bool-cases (get_valid rhs_valid i)) [
        | inl r ↦ rw (inside, left, right, l, r) refl
        | inr r ↦ rw (inside, left, right, l, r) refl
      ]
      | inr l ↦ rw (inside, left, right, l) refl
    ]

cmp_scalar_row-both :
    (op : ℕ → ℕ → Bool) (n : ℕ) (lhs lhs_valid : List ℕ) (rhs i : ℕ)
    → i < n
    → cmp_scalar_row op (words n lhs) (take (min_bitmap_bytes n) lhs_valid) rhs n i
      ≡ both op (value n lhs lhs_valid i) (some rhs)
cmp_scalar_row-both op n lhs lhs_valid rhs i below =
    let inside : leb n i ≡ false = ground (arith, below) in
    let left = get_valid-take lhs_valid n i below in
    elim (Bool-cases (get_valid lhs_valid i)) [
      | inl l ↦ rw (inside, left, l) refl
      | inr l ↦ rw (inside, left, l) refl
    ]

pub and_bits-kleene :
    (ld lv rd rv : Bool)
    → and_bits ld lv rd rv
      ≡ kleene_and (if lv then some ld else none) (if rv then some rd else none)
unfolding and_bits
and_bits-kleene true true true true = refl
and_bits-kleene true true false true = refl
and_bits-kleene true true true false = refl
and_bits-kleene true true false false = refl
and_bits-kleene false true rd rv = refl
and_bits-kleene true false true true = refl
and_bits-kleene true false false true = refl
and_bits-kleene true false true false = refl
and_bits-kleene true false false false = refl
and_bits-kleene false false true true = refl
and_bits-kleene false false false true = refl
and_bits-kleene false false true false = refl
and_bits-kleene false false false false = refl

pub or_bits-kleene :
    (ld lv rd rv : Bool)
    → or_bits ld lv rd rv ≡ kleene_or (if lv then some ld else none) (if rv then some rd else none)
unfolding or_bits
or_bits-kleene false true true true = refl
or_bits-kleene false true false true = refl
or_bits-kleene false true true false = refl
or_bits-kleene false true false false = refl
or_bits-kleene true true rd rv = refl
or_bits-kleene true false true true = refl
or_bits-kleene true false false true = refl
or_bits-kleene true false true false = refl
or_bits-kleene true false false false = refl
or_bits-kleene false false true true = refl
or_bits-kleene false false false true = refl
or_bits-kleene false false true false = refl
or_bits-kleene false false false false = refl

-- A predicate of `n` rows in two bitmaps.
pub record IsPredicate (n : ℕ) (row : ℕ → Option Bool) (out : List ℕ × List ℕ) : Type 0 where
  pub holds : HoldsBits n out.0 out.1
  pub cells : (i : ℕ) → i < n → cell out.0 out.1 i ≡ row i

answered :
    (n : ℕ) (row spec : ℕ → Option Bool) (out : List ℕ × List ℕ)
    → n < 2 ^ 32
    → Answers row n out
    → ((i : ℕ) → i < n → row i ≡ spec i)
    → IsPredicate n spec out
answered n row spec out small a same = record {
  holds =
      let room = room_for n small in
      (omega (arith, a.size, room), omega (arith, a.valid_size, room));
  cells = λ i below. a.cells i below ∙ same i below;
}

module _ (grid : Grid) (running : IsRunning grid) (n : ℕ) (small : n < 2 ^ 32) where
  pub cmp_col_col-IsPredicate :
      (op_of : CompareOp → ℕ → ℕ → Bool) (lhs lhs_valid rhs rhs_valid : List ℕ) (op : String)
      {op_enum : CompareOp}
      → parse_compare_op op ≡ ok op_enum
      → Holds n lhs lhs_valid
      → Holds n rhs rhs_valid
      → (out : List ℕ × List ℕ) × (cmp_col_col
            (λ o. dispatch_cmp (op_of o))
            grid
            lhs
            lhs_valid
            rhs
            rhs_valid
            op
            n
          ≡ ok out)
        × IsPredicate n
            (λ i. both (op_of op_enum) (value n lhs lhs_valid i) (value n rhs rhs_valid i))
            out
  cmp_col_col-IsPredicate op_of lhs lhs_valid rhs rhs_valid op {op_enum} parsed (a, b) (c, d) =
      let row =
        cmp_row (op_of op_enum) (words n lhs) (take (min_bitmap_bytes n) lhs_valid) (words n rhs)
          (take (min_bitmap_bytes n) rhs_valid) n in
      let (out, runs, answers) = into_outputs-Answers grid running row n small in
      let left = (nat_beq_iff (length (words n lhs)) n).1 (length-words n lhs) in
      let right = (nat_beq_iff (length (words n rhs)) n).1 (length-words n rhs) in
      let e1 = long_enough lhs (n * 8) a in
      let e2 = long_enough lhs_valid (min_bitmap_bytes n) b in
      let e3 = long_enough rhs (n * 8) c in
      let e4 = long_enough rhs_valid (min_bitmap_bytes n) d in
      (
        out,
        rw (parsed, e1, e2, e3, e4, left, right, runs) refl,
        answered n row _ out small answers
            (λ i below. cmp_row-both (op_of op_enum) n lhs lhs_valid rhs rhs_valid i below),
      )

  pub cmp_col_scalar-IsPredicate :
      (op_of : CompareOp → ℕ → ℕ → Bool) (lhs lhs_valid : List ℕ) (rhs : ℕ) (op : String)
      {op_enum : CompareOp}
      → parse_compare_op op ≡ ok op_enum
      → Holds n lhs lhs_valid
      → (out : List ℕ × List ℕ) × (cmp_col_scalar
            (λ o. dispatch_cmp_scalar (op_of o))
            grid
            lhs
            lhs_valid
            rhs
            op
            n
          ≡ ok out)
        × IsPredicate n (λ i. both (op_of op_enum) (value n lhs lhs_valid i) (some rhs)) out
  cmp_col_scalar-IsPredicate op_of lhs lhs_valid rhs op {op_enum} parsed (a, b) =
      let row =
        cmp_scalar_row (op_of op_enum) (words n lhs) (take (min_bitmap_bytes n) lhs_valid) rhs n in
      let (out, runs, answers) = into_outputs-Answers grid running row n small in
      let left = (nat_beq_iff (length (words n lhs)) n).1 (length-words n lhs) in
      let e1 = long_enough lhs (n * 8) a in
      let e2 = long_enough lhs_valid (min_bitmap_bytes n) b in
      (
        out,
        rw (parsed, e1, e2, left, runs) refl,
        answered n row _ out small answers
            (λ i below. cmp_scalar_row-both (op_of op_enum) n lhs lhs_valid rhs i below),
      )

  pub bits-IsPredicate :
      (bits : Bool → Bool → Bool → Bool → Option Bool)
      (spec : Option Bool → Option Bool → Option Bool) (lhs lhs_valid rhs rhs_valid : List ℕ)
      → ((ld lv rd rv : Bool)
          → bits ld lv rd rv ≡ spec (if lv then some ld else none) (if rv then some rd else none))
      → HoldsBits n lhs lhs_valid
      → HoldsBits n rhs rhs_valid
      → (out : List ℕ × List ℕ) × (dispatch_logical bits grid lhs lhs_valid rhs rhs_valid n
            (outputs n)
            (outputs n)
          ≡ ok out)
        × IsPredicate n (λ i. spec (cell lhs lhs_valid i) (cell rhs rhs_valid i)) out
  bits-IsPredicate bits spec lhs lhs_valid rhs rhs_valid same (a, b) (c, d) =
      let m = min_bitmap_bytes n in
      let row =
        logical_row bits (take m lhs) (take m lhs_valid) (take m rhs) (take m rhs_valid) n in
      let (out, runs, answers) = into_outputs-Answers grid running row n small in
      let e1 = long_enough lhs m a in
      let e2 = long_enough lhs_valid m b in
      let e3 = long_enough rhs m c in
      let e4 = long_enough rhs_valid m d in
      (
        out,
        rw (e1, e2, e3, e4, runs) refl,
        answered n row _ out small answers (λ i below.
            let inside : leb n i ≡ false = ground (arith, below) in
            let p = get_valid-take lhs n i below in
            let q = get_valid-take lhs_valid n i below in
            let r = get_valid-take rhs n i below in
            let s = get_valid-take rhs_valid n i below in
            rw (inside, p, q, r, s)
              (same (get_valid lhs i) (get_valid lhs_valid i) (get_valid rhs i)
                (get_valid rhs_valid i))),
      )
