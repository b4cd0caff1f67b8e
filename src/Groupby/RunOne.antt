-- ===== src/Groupby/RunOne.antt =====
-- groupby.rs, `run_one_agg`: one request, run on its value column. The kernels that run on the GPU
-- are arguments: each takes the column, the groups and the seeded output, and returns the output.
pub mod Means
use polars_metal.Base.{
  ℕ, ◌^◌, ◌-◌, min, String, Bool, true, List, map, replicate, Result, ok, err, ◌>>=◌, length,
}
use polars_metal.Groupby.Parallel.{Schedule}
use polars_metal.Groupby.Aggregate.{
  aggregate_sum_i64_cpu, aggregate_min_i64_cpu, aggregate_max_i64_cpu, aggregate_count_cpu,
  aggregate_len_cpu,
}
use polars_metal.Groupby.Floats.{
  Floats, aggregate_sum_f64_cpu, aggregate_min_f64_cpu, aggregate_max_f64_cpu, compute_mean_float,
  compute_mean_int, mean_value, mean_present,
}
use polars_metal.Groupby.Requests.{
  AggKind, AggRequest, GroupByError, ValueColumn, AggOutput, count_to_valid,
}

-- `data`, `valid`, `row_to_group`, `n_groups`, `out`; `dispatch_count_u32` has no `data`.
pub record Gpu : Type 0 where
  pub sum_i32 : List ℕ → List ℕ → List ℕ → ℕ → List ℕ → Result GroupByError (List ℕ)
  pub sum_f32 : List ℕ → List ℕ → List ℕ → ℕ → List ℕ → Result GroupByError (List ℕ)
  pub min_i32 : List ℕ → List ℕ → List ℕ → ℕ → List ℕ → Result GroupByError (List ℕ)
  pub max_i32 : List ℕ → List ℕ → List ℕ → ℕ → List ℕ → Result GroupByError (List ℕ)
  pub min_f32 : List ℕ → List ℕ → List ℕ → ℕ → List ℕ → Result GroupByError (List ℕ)
  pub max_f32 : List ℕ → List ℕ → List ℕ → ℕ → List ℕ → Result GroupByError (List ℕ)
  pub count_u32 : List ℕ → List ℕ → ℕ → List ℕ → Result GroupByError (List ℕ)

-- What the aggregations need of their surroundings: how the thread pool splits a number of rows,
-- the float arithmetic of both widths, and the GPU.
pub record Machine : Type 0 where
  pub split : ℕ → Schedule
  pub f64 : Floats
  pub f32 : Floats
  pub gpu : Gpu

abbrev pub dtype_name : ValueColumn → String
dtype_name (ValueColumn.i64 input valid) = "I64"
dtype_name (ValueColumn.f64 input valid) = "F64"
dtype_name (ValueColumn.i32 input valid) = "I32"
dtype_name (ValueColumn.f32 input valid) = "F32"

module _ (mc : Machine) (row_to_group : List ℕ) (n_groups : ℕ) where
  -- The rows that a closure over `data` walks: `data.len().min(row_to_group.len())`.
  abbrev pub over : List ℕ → Schedule
  over input = mc.split (min (length input) (length row_to_group))

  abbrev pub all_rows : Schedule
  all_rows = mc.split (length row_to_group)

  abbrev pub all_valid : List Bool
  all_valid = replicate n_groups true

  -- A GPU kernel, then `dispatch_count_u32` for the groups without a valid row.
  pub with_counts : Result GroupByError (List ℕ) → List ℕ → Result GroupByError (List ℕ × List ℕ)
  with_counts run valid = do
    out ← run
    counts ← mc.gpu.count_u32 valid row_to_group n_groups (replicate n_groups 0)
    ok (out, counts)

  pub count_of : List ℕ → AggOutput
  unfolding aggregate_count_cpu
  count_of valid = AggOutput.u64 (aggregate_count_cpu all_rows valid row_to_group n_groups)

  -- The `match` on the kind and the column.
  pub run_kind : AggKind → ValueColumn → Result GroupByError AggOutput
  unfolding with_counts count_of compute_mean_int compute_mean_float aggregate_sum_i64_cpu
      aggregate_min_i64_cpu aggregate_max_i64_cpu aggregate_len_cpu aggregate_sum_f64_cpu
      aggregate_min_f64_cpu aggregate_max_f64_cpu
  run_kind AggKind.sum_i64 (ValueColumn.i64 input valid) = ok (
      AggOutput.i64 (aggregate_sum_i64_cpu (over input) valid row_to_group n_groups input)
        all_valid)
  run_kind AggKind.sum_f64 (ValueColumn.f64 input valid) = ok (
      AggOutput.f64 (aggregate_sum_f64_cpu mc.f64 (over input) valid row_to_group n_groups input)
        all_valid)
  run_kind AggKind.min_i64 (ValueColumn.i64 input valid) =
      let (values, valid_out) =
        aggregate_min_i64_cpu (over input) valid row_to_group n_groups input in
      ok (AggOutput.i64 values valid_out)
  run_kind AggKind.max_i64 (ValueColumn.i64 input valid) =
      let (values, valid_out) =
        aggregate_max_i64_cpu (over input) valid row_to_group n_groups input in
      ok (AggOutput.i64 values valid_out)
  run_kind AggKind.min_f64 (ValueColumn.f64 input valid) =
      let (values, valid_out) =
        aggregate_min_f64_cpu mc.f64 (over input) valid row_to_group n_groups input in
      ok (AggOutput.f64 values valid_out)
  run_kind AggKind.max_f64 (ValueColumn.f64 input valid) =
      let (values, valid_out) =
        aggregate_max_f64_cpu mc.f64 (over input) valid row_to_group n_groups input in
      ok (AggOutput.f64 values valid_out)
  run_kind AggKind.count (ValueColumn.i64 input valid) = ok (count_of valid)
  run_kind AggKind.count (ValueColumn.f64 input valid) = ok (count_of valid)
  run_kind AggKind.count (ValueColumn.i32 input valid) = ok (count_of valid)
  run_kind AggKind.count (ValueColumn.f32 input valid) = ok (count_of valid)
  run_kind AggKind.len column =
      ok (AggOutput.u64 (aggregate_len_cpu all_rows row_to_group n_groups))
  run_kind AggKind.mean_i64 (ValueColumn.i64 input valid) =
      let means =
        compute_mean_int mc.f64
          (aggregate_sum_i64_cpu (over input) valid row_to_group n_groups input)
          (aggregate_count_cpu all_rows valid row_to_group n_groups) in
      ok (AggOutput.f64 (map mean_value means) (map mean_present means))
  run_kind AggKind.mean_f64 (ValueColumn.f64 input valid) =
      let means =
        compute_mean_float mc.f64
          (aggregate_sum_f64_cpu mc.f64 (over input) valid row_to_group n_groups input)
          (aggregate_count_cpu all_rows valid row_to_group n_groups) in
      ok (AggOutput.f64 (map mean_value means) (map mean_present means))
  run_kind AggKind.sum_i32 (ValueColumn.i32 input valid) = do
    out ← mc.gpu.sum_i32 input valid row_to_group n_groups (replicate n_groups 0)
    ok (AggOutput.i32 out all_valid)
  run_kind AggKind.sum_f32 (ValueColumn.f32 input valid) = do
    out ← mc.gpu.sum_f32 input valid row_to_group n_groups (replicate n_groups 0)
    ok (AggOutput.f32 out all_valid)
  run_kind AggKind.min_i32 (ValueColumn.i32 input valid) = do
    r ←
        with_counts
          (mc.gpu.min_i32 input valid row_to_group n_groups (replicate n_groups (2 ^ 31 - 1))) valid
    ok (AggOutput.i32 r.0 (count_to_valid r.1))
  run_kind AggKind.max_i32 (ValueColumn.i32 input valid) = do
    r ←
        with_counts (mc.gpu.max_i32 input valid row_to_group n_groups (replicate n_groups (2 ^ 31)))
          valid
    ok (AggOutput.i32 r.0 (count_to_valid r.1))
  run_kind AggKind.min_f32 (ValueColumn.f32 input valid) = do
    r ←
        with_counts
          (mc.gpu.min_f32 input valid row_to_group n_groups (replicate n_groups mc.f32.infinity))
          valid
    ok (AggOutput.f32 r.0 (count_to_valid r.1))
  run_kind AggKind.max_f32 (ValueColumn.f32 input valid) = do
    r ←
        with_counts
          (mc.gpu.max_f32 input valid row_to_group n_groups
            (replicate n_groups mc.f32.neg_infinity))
          valid
    ok (AggOutput.f32 r.0 (count_to_valid r.1))
  run_kind AggKind.mean_i32 (ValueColumn.i32 input valid) = do
    r ← with_counts (mc.gpu.sum_i32 input valid row_to_group n_groups (replicate n_groups 0)) valid
    let means = compute_mean_int mc.f32 r.0 r.1
    ok (AggOutput.f32 (map mean_value means) (map mean_present means))
  run_kind AggKind.mean_f32 (ValueColumn.f32 input valid) = do
    r ← with_counts (mc.gpu.sum_f32 input valid row_to_group n_groups (replicate n_groups 0)) valid
    let means = compute_mean_float mc.f32 r.0 r.1
    ok (AggOutput.f32 (map mean_value means) (map mean_present means))
  run_kind kind vcol = err (GroupByError.agg_type_mismatch kind (dtype_name vcol))

  unfoldable pub run_one_agg : AggRequest → ValueColumn → Result GroupByError AggOutput
  unfolding run_kind
  run_one_agg req vcol = run_kind req.kind vcol
