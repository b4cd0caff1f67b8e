-- ===== src/Groupby/RunOne/Means.antt =====
-- The mean of an i64 column.
use polars_metal.Base.{
  ℕ, zero, suc, ◌%◌, ◌^◌, ◌<◌, ◌≡◌, refl, ap, ap₂, ◌∙◌, Bool, false, not, Option, none, some, List,
  [], ◌∷◌, map, ok, ◌==◌, if◌then◌else◌, nat_eq, length, get_or, arith, min,
}
use polars_metal.Groupby.Parallel.{rows}
use polars_metal.Groupby.Aggregate.{aggregate_sum_i64_cpu, aggregate_count_cpu}
use polars_metal.Groupby.Aggregate.Totals.{
  aggregate_sum_i64_cpu-eq-total, aggregate_count_cpu-eq-total, length-aggregate_sum_i64_cpu,
  length-aggregate_count_cpu,
}
use polars_metal.Groupby.Aggregate.Members.{is_member, total}
use polars_metal.Groupby.Floats.{Floats, compute_mean, compute_mean_int, mean_value, mean_present}
use polars_metal.Groupby.Requests.{AggKind, ValueColumn, AggOutput}
use polars_metal.Groupby.RunOne.{Machine, run_one_agg, over, all_rows}

-- One group's entry of the means.
abbrev pub mean_of : Floats → (ℕ → ℕ) → ℕ → ℕ → Option ℕ
mean_of fl read s c = if c == 0 then none else some (fl.div (read s) (fl.of_count c))

get_or-compute_mean :
    (fl : Floats) (read : ℕ → ℕ) (sums counts : List ℕ) (g : ℕ)
    → g < length sums
    → g < length counts
    → get_or (compute_mean fl read sums counts) g none
      ≡ mean_of fl read (get_or sums g 0) (get_or counts g 0)
unfolding compute_mean
get_or-compute_mean fl read [] counts g h p = absurd (omega arith)
get_or-compute_mean fl read (s ∷ sums) [] g h p = absurd (omega arith)
get_or-compute_mean fl read (s ∷ sums) (c ∷ counts) zero h p = refl
get_or-compute_mean fl read (s ∷ sums) (c ∷ counts) (suc g) h p =
    get_or-compute_mean fl read sums counts g (omega arith) (omega arith)

get_or-map_value :
    (means : List (Option ℕ)) (g : ℕ)
    → get_or (map mean_value means) g 0 ≡ mean_value (get_or means g none)
get_or-map_value [] g = refl
get_or-map_value (m ∷ means) zero = refl
get_or-map_value (m ∷ means) (suc g) = get_or-map_value means g

get_or-map_present :
    (means : List (Option ℕ)) (g : ℕ)
    → get_or (map mean_present means) g false ≡ mean_present (get_or means g none)
get_or-map_present [] g = refl
get_or-map_present (m ∷ means) zero = refl
get_or-map_present (m ∷ means) (suc g) = get_or-map_present means g

module _ (mc : Machine) (row_to_group : List ℕ) (n_groups : ℕ) (values valid : List ℕ) where
  -- The valid rows of a group: their number, and their sum in 64 bits.
  abbrev pub rows_of : ℕ → ℕ
  rows_of g = total (is_member valid row_to_group g) (λ _. 1) 0 (length row_to_group)

  abbrev pub sum_of : ℕ → ℕ
  sum_of g =
      total (is_member valid row_to_group g) (λ i. get_or values i 0) 0 (length values) % 2 ^ 64

  abbrev means : List (Option ℕ)
  means =
      compute_mean mc.f64 mc.f64.of_signed
        (aggregate_sum_i64_cpu (over mc row_to_group n_groups values) valid row_to_group n_groups
          values)
        (aggregate_count_cpu (all_rows mc row_to_group n_groups) valid row_to_group n_groups)

  mean-mean_of :
      ((n : ℕ) → rows (mc.split n) ≡ n)
      → length values ≡ length row_to_group
      → (g : ℕ) → g < n_groups
      → get_or means g none ≡ mean_of mc.f64 mc.f64.of_signed (sum_of g) (rows_of g)
  mean-mean_of split same g h =
      let over_all : min (length values) (length row_to_group) ≡ length values = omega arith in
      let sums =
        aggregate_sum_i64_cpu-eq-total (over mc row_to_group n_groups values) valid row_to_group
          n_groups values g (split _) h in
      let counts =
        aggregate_count_cpu-eq-total (all_rows mc row_to_group n_groups) valid row_to_group n_groups
          g (split _) h in
      get_or-compute_mean mc.f64 mc.f64.of_signed _ _ g
        (omega (
          arith,
          length-aggregate_sum_i64_cpu (over mc row_to_group n_groups values) valid row_to_group
              n_groups values,
        ))
        (omega (
          arith,
          length-aggregate_count_cpu (all_rows mc row_to_group n_groups) valid row_to_group
              n_groups,
        ))
      ∙ ap₂ (mean_of mc.f64 mc.f64.of_signed)
          (sums
            ∙ ap (λ k. total (is_member valid row_to_group g) (λ i. get_or values i 0) 0 k % 2 ^ 64)
                over_all)
          counts

  -- However the rows are split, the mean of an i64 column is, for each group with a valid row, the
  -- quotient of the 64-bit sum of its valid rows by their number, both read as f64; a group without
  -- one is flagged as null and holds 0.
  pub run_one_agg-mean_of :
      ((n : ℕ) → rows (mc.split n) ≡ n)
      → length values ≡ length row_to_group
      → (input_col_idx g : ℕ) → g < n_groups
      → (out : List ℕ) × (flags : List Bool) × (run_one_agg mc row_to_group n_groups
            (record { kind = AggKind.mean_i64; input_col_idx = input_col_idx })
            (ValueColumn.i64 values valid)
          ≡ ok (AggOutput.f64 out flags))
        × (get_or flags g false ≡ not (rows_of g == 0))
        × (get_or out g 0 ≡ (
            if rows_of g == 0
            then 0
            else mc.f64.div (mc.f64.of_signed (sum_of g)) (mc.f64.of_count (rows_of g))))
  unfolding run_one_agg compute_mean_int
  run_one_agg-mean_of split same input_col_idx g h =
      let mean = mean-mean_of split same g h in
      (
        map mean_value means,
        map mean_present means,
        refl,
        get_or-map_present means g ∙ ap mean_present mean ∙ ground arith,
        get_or-map_value means g ∙ ap mean_value mean ∙ ground arith,
      )
