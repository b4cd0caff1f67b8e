-- ===== src/Groupby/Requests.antt =====
-- groupby.rs: what `dispatch_groupby` is asked for and what it returns. Integers and floats of a
-- value column are bit patterns.
use polars_metal.Base.{ℕ, String, Bool, List, [], map, ltb}
use polars_metal.Groupby.Keys.{KeyEncodeError}
use polars_metal.Groupby.Decode.{DecodedColumn}

pub data AggKind : Type 0 where
  sum_i64 sum_f64 mean_i64 mean_f64 min_i64 max_i64 min_f64 max_f64 count len : AggKind
  sum_i32 sum_f32 mean_i32 mean_f32 min_i32 max_i32 min_f32 max_f32 : AggKind

-- The texts of the errors from Metal are arguments; a kind stands for its name.
pub data GroupByError : Type 0 where
  key_encode : KeyEncodeError → GroupByError
  shader dispatch buffer : String → GroupByError
  output_too_short : ℕ → ℕ → GroupByError
  row_count_overflow : ℕ → GroupByError
  agg_type_mismatch : AggKind → String → GroupByError

pub record AggRequest : Type 0 where
  pub kind : AggKind
  pub input_col_idx : ℕ

-- Each with `data` and `valid`.
pub data ValueColumn : Type 0 where
  i64 f64 i32 f32 : List ℕ → List ℕ → ValueColumn

-- Each with `values` and, but for `u64`, `valid`.
pub data AggOutput : Type 0 where
  i64 f64 i32 f32 : List ℕ → List Bool → AggOutput
  u64 : List ℕ → AggOutput

pub record GroupByResult : Type 0 where
  pub decoded_keys : List DecodedColumn
  pub agg_outputs : List AggOutput
  pub n_groups : ℕ

unfoldable pub empty_output_for : AggKind → AggOutput
empty_output_for AggKind.sum_i64 = AggOutput.i64 [] []
empty_output_for AggKind.min_i64 = AggOutput.i64 [] []
empty_output_for AggKind.max_i64 = AggOutput.i64 [] []
empty_output_for AggKind.sum_f64 = AggOutput.f64 [] []
empty_output_for AggKind.mean_i64 = AggOutput.f64 [] []
empty_output_for AggKind.mean_f64 = AggOutput.f64 [] []
empty_output_for AggKind.min_f64 = AggOutput.f64 [] []
empty_output_for AggKind.max_f64 = AggOutput.f64 [] []
empty_output_for AggKind.count = AggOutput.u64 []
empty_output_for AggKind.len = AggOutput.u64 []
empty_output_for AggKind.sum_i32 = AggOutput.i32 [] []
empty_output_for AggKind.min_i32 = AggOutput.i32 [] []
empty_output_for AggKind.max_i32 = AggOutput.i32 [] []
empty_output_for AggKind.sum_f32 = AggOutput.f32 [] []
empty_output_for AggKind.mean_i32 = AggOutput.f32 [] []
empty_output_for AggKind.mean_f32 = AggOutput.f32 [] []
empty_output_for AggKind.min_f32 = AggOutput.f32 [] []
empty_output_for AggKind.max_f32 = AggOutput.f32 [] []

abbrev pub count_to_valid : List ℕ → List Bool
count_to_valid counts = map (λ c. ltb 0 c) counts
