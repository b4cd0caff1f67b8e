-- ===== src/Groupby/PipelineTests.antt =====
-- `dispatch_groupby` on three rows, and the theorems on it and on its aggregations applied to them.
use polars_metal.Base.{
  ℕ, ◌+◌, ◌/◌, ◌≡◌, refl, Bool, true, false, not, Option, none, List, [], ◌∷◌, ok, ltb, nat_beq,
  if◌then◌else◌, get_or, arith, pos, nat_eq,
}
use polars_metal.Groupby.Parallel.{chunk}
use polars_metal.Groupby.Keys.{KeyDtype, KeyColumn}
use polars_metal.Groupby.Decode.{DecodedColumn}
use polars_metal.Groupby.Build.{BuildOutput}
use polars_metal.Groupby.Floats.{Floats}
use polars_metal.Groupby.Requests.{AggKind, AggRequest, ValueColumn, AggOutput, GroupByResult}
use polars_metal.Groupby.RunOne.{Gpu, Machine, run_one_agg}
use polars_metal.Groupby.RunOne.Means.{rows_of, sum_of, run_one_agg-mean_of}
use polars_metal.Groupby.Dispatch.{Spec, dispatch_groupby}
use polars_metal.Groupby.Dispatch.Grouped.{GivesGroupings, Answers, IsGroupBy}
use polars_metal.Groupby.Dispatch.Whole.{dispatch_groupby-IsGroupBy}

-- Whole numbers in place of floats.
abbrev whole_numbers : Floats
whole_numbers = record {
  add = λ a b. a + b;
  div = λ a b. a / b;
  less = ltb;
  is_nan = λ a. false;
  nan = 7;
  infinity = 1000;
  neg_infinity = 0;
  of_signed = λ a. a;
  of_count = λ c. c;
}

-- A GPU that returns the seeded outputs.
abbrev idle : Gpu
idle = record {
  sum_i32 = λ values valid groups n out. ok out;
  sum_f32 = λ values valid groups n out. ok out;
  min_i32 = λ values valid groups n out. ok out;
  max_i32 = λ values valid groups n out. ok out;
  min_f32 = λ values valid groups n out. ok out;
  max_f32 = λ values valid groups n out. ok out;
  count_u32 = λ valid groups n out. ok out;
}

abbrev machine : Machine
machine = record { split = chunk; f64 = whole_numbers; f32 = whole_numbers; gpu = idle }

-- The keys 5, null, 5.
abbrev kc : KeyColumn
kc = record {
  name = "k";
  dtype = KeyDtype.i8;
  bytes = 5 ∷ 0 ∷ 5 ∷ [];
  valid = 5 ∷ [];
  n_rows = 3;
  dict = none;
}

abbrev amounts : ValueColumn
amounts = ValueColumn.i64 (10 ∷ 20 ∷ 30 ∷ []) (7 ∷ [])

abbrev mean : AggRequest
mean = record { kind = AggKind.mean_i64; input_col_idx = 0 }

abbrev specs : List Spec
specs = (mean, amounts) ∷ []

abbrev never : List ℕ → Option BuildOutput
never keys = none

three_rows :
    dispatch_groupby never (run_one_agg machine) (kc ∷ []) specs 3
    ≡ ok (record {
      decoded_keys = DecodedColumn.i8 (pos 5 ∷ pos 0 ∷ []) (true ∷ false ∷ []) ∷ [];
      agg_outputs = AggOutput.f64 (20 ∷ 20 ∷ []) (true ∷ true ∷ []) ∷ [];
      n_groups = 2;
    })
unfolding dispatch_groupby run_one_agg
three_rows = refl

never-GivesGroupings : GivesGroupings never
never-GivesGroupings keys out h = cc

specs-Answers :
    (row_to_group : List ℕ) (n_groups : ℕ)
    → Answers (run_one_agg machine) row_to_group n_groups specs
unfolding run_one_agg
specs-Answers row_to_group n_groups = ((_, refl), tt)

dispatch_groupby-IsGroupBy_example :
    (result : GroupByResult) × (dispatch_groupby never (run_one_agg machine) (kc ∷ []) specs 3
      ≡ ok result)
    × IsGroupBy (run_one_agg machine) (kc ∷ []) specs 3 result
dispatch_groupby-IsGroupBy_example =
    dispatch_groupby-IsGroupBy never (run_one_agg machine) never-GivesGroupings specs specs-Answers
      kc [] (omega arith) (tt, ((refl, omega arith, omega arith), tt), omega arith) (omega arith)
      (omega arith)

run_one_agg-mean_of_example :
    (out : List ℕ) × (flags : List Bool) × (run_one_agg machine (0 ∷ 1 ∷ 0 ∷ []) 2 mean amounts
      ≡ ok (AggOutput.f64 out flags))
    × (get_or flags 0 false
        ≡ not (nat_beq (rows_of machine (0 ∷ 1 ∷ 0 ∷ []) 2 (10 ∷ 20 ∷ 30 ∷ []) (7 ∷ []) 0) 0))
    × (get_or out 0 0 ≡ (
        if nat_beq (rows_of machine (0 ∷ 1 ∷ 0 ∷ []) 2 (10 ∷ 20 ∷ 30 ∷ []) (7 ∷ []) 0) 0
        then 0
        else sum_of machine (0 ∷ 1 ∷ 0 ∷ []) 2 (10 ∷ 20 ∷ 30 ∷ []) (7 ∷ []) 0
          / rows_of machine (0 ∷ 1 ∷ 0 ∷ []) 2 (10 ∷ 20 ∷ 30 ∷ []) (7 ∷ []) 0))
run_one_agg-mean_of_example =
    run_one_agg-mean_of machine (0 ∷ 1 ∷ 0 ∷ []) 2 (10 ∷ 20 ∷ 30 ∷ []) (7 ∷ []) (λ n. refl) refl 0 0
      (omega arith)
