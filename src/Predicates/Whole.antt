-- ===== src/Predicates/Whole.antt =====
-- The entry points of Python, and a filter by what they answer.
use native.Mathlib.Nat.{pow-suc}
use polars_metal.Base.{
  ℕ, zero, suc, ◌^◌, ◌<◌, ◌≡◌, refl, ap, ap₂, ◌∙◌, subst, inl, inr, Bool, true, false, ◌&&◌, String,
  Option, none, some, List, [], ◌∷◌, All, Both, if◌then◌else◌, drop, get_or, tabulate, Bool-cases,
  Result, ok, arith,
}
use polars_metal.Buffer.Bitmap.{get_valid}
use polars_metal.Filter.{Device, min_bitmap_bytes}
use polars_metal.Compaction.{word, words, Column, execute_filter_compact}
use polars_metal.Compaction.Words.{AreBytes, drop-AreBytes}
use polars_metal.Compaction.Passes.{IsUp, IsInclusive, keep_flags, tabulate-ext}
use polars_metal.Compaction.Columns.{IsGiven, IsFiltered, execute_filter_compact-IsFiltered}
use polars_metal.Plan.{CompareOp}
use polars_metal.Predicates.Floats.{i64_op, f64_op}
use polars_metal.Predicates.Signed.{signed, i64_op-signed}
use polars_metal.Predicates.Ieee.{ieee, f64_op-ieee}
use polars_metal.Predicates.Grids.{IsRunning, cell}
use polars_metal.Predicates.Entries.{
  Holds, HoldsBits, value, both, kleene_and, kleene_or, and_bits-kleene, or_bits-kleene,
  IsPredicate, cmp_col_col-IsPredicate, cmp_col_scalar-IsPredicate, bits-IsPredicate, long_enough,
}
use polars_metal.Predicates.{
  Grid, parse_compare_op, cmp_i64_col_scalar, cmp_f64_col_col, dispatch_logical_py, and_bits,
  or_bits, dispatched,
}

word_bound : (k : ℕ) (bytes : List ℕ) → AreBytes bytes → word k bytes < 256 ^ k
word_bound zero bytes small = omega arith
word_bound (suc k) [] small = let later = word_bound k [] tt in omega (arith, later, pow-suc 256 k)
word_bound (suc k) (b ∷ bytes) small =
    let later = word_bound k bytes small.1 in omega (arith, later, small.0, pow-suc 256 k)

words_bound :
    (n : ℕ) (bytes : List ℕ) (i : ℕ) → AreBytes bytes → get_or (words n bytes) i 0 < 2 ^ 64
unfolding words
words_bound zero bytes i small = omega arith
words_bound (suc n) bytes zero small = word_bound 8 bytes small
words_bound (suc n) bytes (suc i) small =
    words_bound n (drop 8 bytes) i (drop-AreBytes 8 bytes small)

both-ieee :
    (op : CompareOp) (n : ℕ) (lhs lhs_valid rhs rhs_valid : List ℕ) (i : ℕ)
    → AreBytes lhs
    → AreBytes rhs
    → both (f64_op op) (value n lhs lhs_valid i) (value n rhs rhs_valid i)
      ≡ both (ieee op) (value n lhs lhs_valid i) (value n rhs rhs_valid i)
both-ieee op n lhs lhs_valid rhs rhs_valid i p q = elim (Bool-cases (get_valid lhs_valid i)) [
  | inl l ↦ elim (Bool-cases (get_valid rhs_valid i)) [
    | inl r ↦
        rw (l, r)
          (ap some (
            f64_op-ieee op (get_or (words n lhs) i 0) (get_or (words n rhs) i 0)
              (words_bound n lhs i p) (words_bound n rhs i q)))
    | inr r ↦ rw (l, r) refl
  ]
  | inr l ↦ rw l refl
]

both-signed :
    (op : CompareOp) (n : ℕ) (lhs lhs_valid : List ℕ) (constant i : ℕ)
    → AreBytes lhs
    → constant < 2 ^ 64
    → both (i64_op op) (value n lhs lhs_valid i) (some constant)
      ≡ both (signed op) (value n lhs lhs_valid i) (some constant)
both-signed op n lhs lhs_valid constant i p q = elim (Bool-cases (get_valid lhs_valid i)) [
  | inl l ↦
      rw l
        (ap some (i64_op-signed op (get_or (words n lhs) i 0) constant (words_bound n lhs i p) q))
  | inr l ↦ rw l refl
]

respelled :
    (n : ℕ) (row spec : ℕ → Option Bool) (out : List ℕ × List ℕ)
    → IsPredicate n row out
    → ((i : ℕ) → row i ≡ spec i)
    → IsPredicate n spec out
respelled n row spec out p same = record {
  holds = p.holds;
  cells = λ i below. p.cells i below ∙ same i;
}

-- A comparison of two f64 columns of fewer than 2^32 rows succeeds on a device that works, and
-- answers each row, in whatever order the threads write, with the IEEE comparison of its two
-- values, or null where one of them is null.
pub cmp_f64_col_col-ieee :
    (grid : Grid) (n : ℕ) (lhs lhs_valid rhs rhs_valid : List ℕ) (op : String) {op_enum : CompareOp}
    → IsRunning grid
    → n < 2 ^ 32
    → parse_compare_op op ≡ ok op_enum
    → Holds n lhs lhs_valid
    → Holds n rhs rhs_valid
    → AreBytes lhs
    → AreBytes rhs
    → (out : List ℕ × List ℕ) × (cmp_f64_col_col grid lhs lhs_valid rhs rhs_valid op n ≡ ok out)
      × IsPredicate n
          (λ i. both (ieee op_enum) (value n lhs lhs_valid i) (value n rhs rhs_valid i))
          out
unfolding cmp_f64_col_col
cmp_f64_col_col-ieee grid n lhs lhs_valid rhs rhs_valid op {op_enum} running small parsed h k p q =
    let (out, runs, right) =
      cmp_col_col-IsPredicate grid running n small f64_op lhs lhs_valid rhs rhs_valid op parsed h
        k in
    (
      out,
      runs,
      respelled n _ _ out right (λ i. both-ieee op_enum n lhs lhs_valid rhs rhs_valid i p q),
    )

-- The two connectives of nullable bit-packed columns of fewer than 2^32 rows are Kleene's on every
-- row: a false side makes a conjunction false and a true side a disjunction true, whether the other
-- is null or not.
pub dispatch_logical_py-kleene :
    (grid : Grid) (n : ℕ) (is_and : Bool) (lhs lhs_valid rhs rhs_valid : List ℕ)
    → IsRunning grid
    → n < 2 ^ 32
    → HoldsBits n lhs lhs_valid
    → HoldsBits n rhs rhs_valid
    → (out : List ℕ × List ℕ) × (dispatch_logical_py is_and grid lhs lhs_valid rhs rhs_valid n
        ≡ ok out)
      × IsPredicate n
          (λ i.
            (if is_and then kleene_and else kleene_or)
              (cell lhs lhs_valid i)
              (cell rhs rhs_valid i))
          out
unfolding dispatch_logical_py
dispatch_logical_py-kleene grid n true lhs lhs_valid rhs rhs_valid running small (a, b) (c, d) =
    let (out, runs, right) =
      bits-IsPredicate grid running n small and_bits kleene_and lhs lhs_valid rhs rhs_valid
        and_bits-kleene (a, b) (c, d) in
    let e1 = long_enough lhs (min_bitmap_bytes n) a in
    let e2 = long_enough lhs_valid (min_bitmap_bytes n) b in
    let e3 = long_enough rhs (min_bitmap_bytes n) c in
    let e4 = long_enough rhs_valid (min_bitmap_bytes n) d in
    (out, rw (e1, e2, e3, e4) (rw (e1, e2, e3, e4) at (ap dispatched runs)), right)
dispatch_logical_py-kleene grid n false lhs lhs_valid rhs rhs_valid running small (a, b) (c, d) =
    let (out, runs, right) =
      bits-IsPredicate grid running n small or_bits kleene_or lhs lhs_valid rhs rhs_valid
        or_bits-kleene (a, b) (c, d) in
    let e1 = long_enough lhs (min_bitmap_bytes n) a in
    let e2 = long_enough lhs_valid (min_bitmap_bytes n) b in
    let e3 = long_enough rhs (min_bitmap_bytes n) c in
    let e4 = long_enough rhs_valid (min_bitmap_bytes n) d in
    (out, rw (e1, e2, e3, e4) (rw (e1, e2, e3, e4) at (ap dispatched runs)), right)

-- The rows of a predicate that are true, as flags.
abbrev pub true_rows : ℕ → (ℕ → Option Bool) → List ℕ
true_rows n row = tabulate 0 n (λ i. elim (row i) [ none ↦ 0 | some b ↦ if b then 1 else 0 ])

keep_flags-true_rows :
    (n : ℕ) (row : ℕ → Option Bool) (out : List ℕ × List ℕ)
    → IsPredicate n row out
    → keep_flags out.0 out.1 n ≡ true_rows n row
keep_flags-true_rows n row out p = tabulate-ext _ _ 0 n (λ i below.
    elim (Bool-cases (get_valid out.1 i)) [
      | inl v ↦ rw (← p.cells i (omega (arith, below)), v) (one (get_valid out.0 i))
      | inr v ↦ rw (← p.cells i (omega (arith, below)), v) (none_kept (get_valid out.0 i))
    ])
  where
    one : (d : Bool) → ◌≡◌ {A = ℕ} (if d && true then 1 else 0) (if d then 1 else 0)
    one true = refl
    one false = refl

    none_kept : (d : Bool) → ◌≡◌ {A = ℕ} (if d && false then 1 else 0) 0
    none_kept true = refl
    none_kept false = refl

-- A filter by a comparison of an i64 column with a constant, one of two f64 columns, and their
-- conjunction, of fewer than 2^32 rows on a device that works: it succeeds, and keeps exactly the
-- rows, of every column of the frame, where the signed integers and the doubles of IEEE 754 compare
-- so and no side is null; a row whose double is NaN is kept by `ne` alone.
pub execute_filter_compact-compared :
    (device : Device) (grid : Grid) (cumsum : List ℕ → Result String (List ℕ)) (n : ℕ)
    (columns : List Column) (key key_valid lhs lhs_valid rhs rhs_valid : List ℕ) (constant : ℕ)
    (op op' : String) {op_enum op_enum' : CompareOp}
    → IsUp device
    → IsRunning grid
    → IsInclusive cumsum
    → n < 2 ^ 32
    → parse_compare_op op ≡ ok op_enum
    → parse_compare_op op' ≡ ok op_enum'
    → Holds n key key_valid
    → Holds n lhs lhs_valid
    → Holds n rhs rhs_valid
    → constant < 2 ^ 64
    → AreBytes key × AreBytes lhs × AreBytes rhs
    → All (IsGiven n) columns
    → (p q r : List ℕ × List ℕ) × (outs : List (List ℕ × List ℕ × ℕ)) × (cmp_i64_col_scalar grid key
          key_valid constant op n
        ≡ ok p)
      × (cmp_f64_col_col grid lhs lhs_valid rhs rhs_valid op' n ≡ ok q)
      × (dispatch_logical_py true grid p.0 p.1 q.0 q.1 n ≡ ok r)
      × (execute_filter_compact device cumsum r.0 r.1 n columns ≡ ok outs)
      × Both
          (IsFiltered (
            true_rows n (λ i.
              kleene_and
                (both (signed op_enum) (value n key key_valid i) (some constant))
                (both (ieee op_enum') (value n lhs lhs_valid i) (value n rhs rhs_valid i)))))
          columns
          outs
unfolding cmp_i64_col_scalar
execute_filter_compact-compared device grid cumsum n columns key key_valid lhs lhs_valid rhs
      rhs_valid constant op op' {op_enum} {op_enum'} up running sums small known known' h k l bound
      (w, x, y) given =
    let (p, first, is_first) =
      cmp_col_scalar-IsPredicate grid running n small i64_op key key_valid constant op known h in
    let (q, second, is_second) =
      cmp_f64_col_col-ieee grid n lhs lhs_valid rhs rhs_valid op' running small known' k l x y in
    let (r, third, is_third) =
      dispatch_logical_py-kleene grid n true p.0 p.1 q.0 q.1 running small is_first.holds
        is_second.holds in
    let spec : ℕ → Option Bool = λ i.
      kleene_and (both (signed op_enum) (value n key key_valid i) (some constant))
        (both (ieee op_enum') (value n lhs lhs_valid i) (value n rhs rhs_valid i)) in
    let is_all : IsPredicate n spec r = record {
      holds = is_third.holds;
      cells = λ i below.
          is_third.cells i below
          ∙ ap₂ kleene_and
              (is_first.cells i below ∙ both-signed op_enum n key key_valid constant i w bound)
              (is_second.cells i below);
    } in
    let (outs, done, filtered) =
      execute_filter_compact-IsFiltered device cumsum r.0 r.1 n columns up sums small
        is_third.holds.0 is_third.holds.1 given in
    (
      p,
      q,
      r,
      outs,
      first,
      second,
      third,
      done,
      subst (λ keep. Both (IsFiltered keep) columns outs) (keep_flags-true_rows n spec r is_all)
          filtered,
    )
