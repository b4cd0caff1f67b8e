-- ===== src/Predicates/Tests.antt =====
-- Predicates of three rows on a grid that runs its threads one after the other, the last first.
use polars_metal.Base.{ℕ, ◌≡◌, refl, true, some, String, List, [], ◌∷◌, Both, Result, ok, arith}
use polars_metal.Filter.{Device}
use polars_metal.Filter.Ranks.{prefix_sums}
use polars_metal.Filter.Sequential.{last_first, last_first-IsSchedule}
use polars_metal.Compaction.{Column, execute_filter_compact}
use polars_metal.Compaction.Words.{AreBytes}
use polars_metal.Compaction.Passes.{IsUp, IsInclusive}
use polars_metal.Compaction.Columns.{IsFiltered}
use polars_metal.Plan.{CompareOp, MetalDtype, dtype_from_wire}
use polars_metal.Predicates.Signed.{signed}
use polars_metal.Predicates.Ieee.{ieee}
use polars_metal.Predicates.Grids.{IsRunning, cell}
use polars_metal.Predicates.Entries.{value, both, kleene_and, IsPredicate}
use polars_metal.Predicates.Whole.{
  true_rows, cmp_f64_col_col-ieee, dispatch_logical_py-kleene, execute_filter_compact-compared,
}
use polars_metal.Predicates.{
  Grid, parse_compare_op, cmp_i64_col_scalar, cmp_f64_col_col, dispatch_logical_py,
}

abbrev one_by_one : Grid
one_by_one n bit mark = ok (last_first n bit, last_first n mark)

one_by_one-IsRunning : IsRunning one_by_one
one_by_one-IsRunning n bit mark = (
  last_first n bit,
  last_first n mark,
  refl,
  last_first-IsSchedule n bit,
  last_first-IsSchedule n mark,
)

-- The high bytes of three doubles: 2.0, -2.0 and NaN; 2.0, 2.0 and 2.0.
abbrev lhs : List ℕ
lhs =
    0 ∷ 0 ∷ 0 ∷ 0 ∷ 0 ∷ 0 ∷ 0 ∷ 64 ∷ 0 ∷ 0 ∷ 0 ∷ 0 ∷ 0 ∷ 0 ∷ 0 ∷ 192 ∷ 0 ∷ 0 ∷ 0 ∷ 0 ∷ 0 ∷ 0 ∷ 248
    ∷ 127 ∷ []

abbrev rhs : List ℕ
rhs =
    0 ∷ 0 ∷ 0 ∷ 0 ∷ 0 ∷ 0 ∷ 0 ∷ 64 ∷ 0 ∷ 0 ∷ 0 ∷ 0 ∷ 0 ∷ 0 ∷ 0 ∷ 64 ∷ 0 ∷ 0 ∷ 0 ∷ 0 ∷ 0 ∷ 0 ∷ 0 ∷ 64
    ∷ []

lower_rows :
    cmp_f64_col_col one_by_one lhs (7 ∷ []) rhs (7 ∷ []) "Lt" 3
    ≡ ok (2 ∷ 0 ∷ 0 ∷ 0 ∷ [], 7 ∷ 0 ∷ 0 ∷ 0 ∷ [])
unfolding cmp_f64_col_col
lower_rows = refl

unequal_rows :
    cmp_f64_col_col one_by_one lhs (6 ∷ []) rhs (7 ∷ []) "Ne" 3
    ≡ ok (6 ∷ 0 ∷ 0 ∷ 0 ∷ [], 6 ∷ 0 ∷ 0 ∷ 0 ∷ [])
unfolding cmp_f64_col_col
unequal_rows = refl

lhs_bytes : AreBytes lhs
lhs_bytes = ground arith

rhs_bytes : AreBytes rhs
rhs_bytes = ground arith

cmp_f64_col_col-ieee_example :
    (out : List ℕ × List ℕ) × (cmp_f64_col_col one_by_one lhs (6 ∷ []) rhs (7 ∷ []) "Ne" 3 ≡ ok out)
    × IsPredicate 3
        (λ i. both (ieee CompareOp.ne) (value 3 lhs (6 ∷ []) i) (value 3 rhs (7 ∷ []) i))
        out
unfolding parse_compare_op
cmp_f64_col_col-ieee_example =
    cmp_f64_col_col-ieee one_by_one 3 lhs (6 ∷ []) rhs (7 ∷ []) "Ne" one_by_one-IsRunning
      (omega arith) refl (omega arith, omega arith) (omega arith, omega arith) lhs_bytes rhs_bytes

-- true, null and null with null, false and true
dispatch_logical_py-kleene_example :
    (out : List ℕ × List ℕ) × (dispatch_logical_py true one_by_one
        (1 ∷ [])
        (1 ∷ [])
        (4 ∷ [])
        (6 ∷ [])
        3
      ≡ ok out)
    × IsPredicate 3 (λ i. kleene_and (cell (1 ∷ []) (1 ∷ []) i) (cell (4 ∷ []) (6 ∷ []) i)) out
dispatch_logical_py-kleene_example =
    dispatch_logical_py-kleene one_by_one 3 true (1 ∷ []) (1 ∷ []) (4 ∷ []) (6 ∷ [])
      one_by_one-IsRunning (omega arith) (omega arith, omega arith) (omega arith, omega arith)

conjunction :
    dispatch_logical_py true one_by_one (1 ∷ []) (1 ∷ []) (4 ∷ []) (6 ∷ []) 3
    ≡ ok (0 ∷ 0 ∷ 0 ∷ 0 ∷ [], 2 ∷ 0 ∷ 0 ∷ 0 ∷ [])
unfolding dispatch_logical_py
conjunction = refl

abbrev worker : Device
worker = record {
  run_bytes = λ n. ok tt;
  run_slots = λ n store mark. ok (last_first n store, last_first n mark);
  run_bits = λ n bit mark. ok (last_first n bit, last_first n mark);
}

worker-IsUp : IsUp worker
worker-IsUp = record {
  bytes = λ n. refl;
  slots = λ n store mark. (
    last_first n store,
    last_first n mark,
    refl,
    last_first-IsSchedule n store,
    last_first-IsSchedule n mark,
  );
  bits = λ n bit mark. (
    last_first n bit,
    last_first n mark,
    refl,
    last_first-IsSchedule n bit,
    last_first-IsSchedule n mark,
  );
}

abbrev scan : List ℕ → Result String (List ℕ)
scan keep = ok (prefix_sums 0 keep)

scan-IsInclusive : IsInclusive scan
scan-IsInclusive keep flags small = refl

-- The i64 key of a row, 5, -1 or 7, with the last null.
abbrev key : List ℕ
key =
    5 ∷ 0 ∷ 0 ∷ 0 ∷ 0 ∷ 0 ∷ 0 ∷ 0 ∷ 255 ∷ 255 ∷ 255 ∷ 255 ∷ 255 ∷ 255 ∷ 255 ∷ 255 ∷ 7 ∷ 0 ∷ 0 ∷ 0
    ∷ 0 ∷ 0 ∷ 0 ∷ 0 ∷ []

key_bytes : AreBytes key
key_bytes = ground arith

abbrev column : Column
column = record { name = "x"; dtype = "F64"; bytes = lhs; valid = 7 ∷ [] }

-- Of the rows with a key below 3, those whose two doubles differ.
execute_filter_compact-compared_example :
    (p q r : List ℕ × List ℕ) × (outs : List (List ℕ × List ℕ × ℕ)) × (cmp_i64_col_scalar one_by_one
        key
        (3 ∷ [])
        3
        "Lt"
        3
      ≡ ok p)
    × (cmp_f64_col_col one_by_one lhs (7 ∷ []) rhs (7 ∷ []) "Ne" 3 ≡ ok q)
    × (dispatch_logical_py true one_by_one p.0 p.1 q.0 q.1 3 ≡ ok r)
    × (execute_filter_compact worker scan r.0 r.1 3 (column ∷ []) ≡ ok outs)
    × Both
        (IsFiltered (
          true_rows 3 (λ i.
            kleene_and
              (both (signed CompareOp.lt) (value 3 key (3 ∷ []) i) (some 3))
              (both (ieee CompareOp.ne) (value 3 lhs (7 ∷ []) i) (value 3 rhs (7 ∷ []) i)))))
        (column ∷ [])
        outs
unfolding parse_compare_op dtype_from_wire
execute_filter_compact-compared_example =
    execute_filter_compact-compared worker one_by_one scan 3 (column ∷ []) key (3 ∷ []) lhs (7 ∷ [])
      rhs (7 ∷ []) 3 "Lt" "Ne" worker-IsUp one_by_one-IsRunning scan-IsInclusive (omega arith) refl
      refl (omega arith, omega arith) (omega arith, omega arith) (omega arith, omega arith)
      (omega arith) (key_bytes, lhs_bytes, rhs_bytes)
      (
        record {
          dtype = MetalDtype.f64;
          known = refl;
          values = (omega arith, lhs_bytes);
          validity = omega arith;
        },
        tt,
      )
