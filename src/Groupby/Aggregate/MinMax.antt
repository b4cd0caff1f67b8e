-- ===== src/Groupby/Aggregate/MinMax.antt =====
-- `aggregate_min_i64_cpu` and `aggregate_max_i64_cpu`: the extreme of each group's valid rows.
use polars_metal.Base.{
  ℕ, zero, suc, ◌^◌, ◌<◌, ◌≡◌, min, Bool, true, false, ◌||◌, Option, List, [], ◌∷◌, arith, length,
  get_or, All, replicate,
}
use polars_metal.Groupby.Parallel.{Schedule, rows, par_fold-pair}
use polars_metal.Groupby.Aggregate.{
  row_group, lower, higher, lt_i64, i64_max, i64_min, aggregate_min_i64_cpu, aggregate_max_i64_cpu,
  at_group, merge_into,
}
use polars_metal.Groupby.Aggregate.Members.{is_member, row_group-is_member}
use polars_metal.Groupby.Aggregate.Extremes.{
  Order, IsExtreme, best-IsExtreme, pick_accumulator, or_accumulator,
}
use polars_metal.Groupby.Aggregate.Slots.{get_or-par_fold}

lower-Order : Order lt_i64 i64_max
lower-Order = record {
  irrefl = λ a. ground arith;
  split = λ a b c p q. ground arith;
  asym = λ a b p. ground arith;
  worst_loses = λ a. ground arith;
  only_worst = λ a p q. ground arith;
  worst_small = omega arith;
}

higher-Order : Order (λ b a. lt_i64 a b) i64_min
higher-Order = record {
  irrefl = λ a. ground arith;
  split = λ a b c p q. ground arith;
  asym = λ a b p. ground arith;
  worst_loses = λ a. ground arith;
  only_worst = λ a p q. ground arith;
  worst_small = omega arith;
}

-- i64 patterns.
abbrev pub IsWords : List ℕ → Type 0
IsWords values = All (λ v. v < 2 ^ 64) values

get_or-word : (values : List ℕ) (i : ℕ) → IsWords values → get_or values i 0 < 2 ^ 64
get_or-word [] i h = omega arith
get_or-word (v ∷ values) zero h = h.0
get_or-word (v ∷ values) (suc i) h = get_or-word values i h.1

module _ (s : Schedule) (valid row_to_group : List ℕ) (n_groups : ℕ) (values : List ℕ) where
  abbrev n : ℕ
  n = min (length values) (length row_to_group)

  abbrev group : ℕ → Option ℕ
  group = row_group valid row_to_group n_groups

  abbrev value : ℕ → ℕ
  value i = get_or values i 0

  abbrev seen_step : List Bool → ℕ → List Bool
  seen_step local i = at_group false (group i) (λ x. true) local

  small : IsWords values → (i : ℕ) → value i < 2 ^ 64
  small words i = get_or-word values i words

  -- However the rows are split, `aggregate_min_i64_cpu` gives for each group the least of its
  -- valid values as signed integers (one of them, and none less), with a flag that says
  -- whether the group has a valid row.
  pub aggregate_min_i64_cpu-IsExtreme :
      (g : ℕ)
      → IsWords values
      → rows s ≡ n
      → g < n_groups
      → IsExtreme lt_i64
          (is_member valid row_to_group g)
          value
          n
          (get_or (aggregate_min_i64_cpu s valid row_to_group n_groups values).0 g i64_max)
          (get_or (aggregate_min_i64_cpu s valid row_to_group n_groups values).1 g false)
  unfolding aggregate_min_i64_cpu
  aggregate_min_i64_cpu-IsExtreme g words e h =
      rw
        (
          par_fold-pair (λ local i. at_group i64_max (group i) (λ x. lower x (value i)) local)
              seen_step (merge_into lower) (merge_into ◌||◌) (replicate n_groups i64_max)
              (replicate n_groups false) s 0,
          get_or-par_fold (pick_accumulator lower-Order value (small words) group n_groups) group
              n_groups s 0 g h,
          get_or-par_fold (or_accumulator lower-Order value (small words) group n_groups) group
              n_groups s 0 g h,
          e,
        )
        (best-IsExtreme lower-Order value (small words) group n_groups g n
          (is_member valid row_to_group g) (row_group-is_member valid row_to_group n_groups g h))

  -- However the rows are split, `aggregate_max_i64_cpu` gives for each group the greatest of its
  -- valid values as signed integers (one of them, and none greater), with a flag that says
  -- whether the group has a valid row.
  pub aggregate_max_i64_cpu-IsExtreme :
      (g : ℕ)
      → IsWords values
      → rows s ≡ n
      → g < n_groups
      → IsExtreme
          (λ b a. lt_i64 a b)
          (is_member valid row_to_group g)
          value
          n
          (get_or (aggregate_max_i64_cpu s valid row_to_group n_groups values).0 g i64_min)
          (get_or (aggregate_max_i64_cpu s valid row_to_group n_groups values).1 g false)
  unfolding aggregate_max_i64_cpu
  aggregate_max_i64_cpu-IsExtreme g words e h =
      rw
        (
          par_fold-pair (λ local i. at_group i64_min (group i) (λ x. higher x (value i)) local)
              seen_step (merge_into higher) (merge_into ◌||◌) (replicate n_groups i64_min)
              (replicate n_groups false) s 0,
          get_or-par_fold (pick_accumulator higher-Order value (small words) group n_groups) group
              n_groups s 0 g h,
          get_or-par_fold (or_accumulator higher-Order value (small words) group n_groups) group
              n_groups s 0 g h,
          e,
        )
        (best-IsExtreme higher-Order value (small words) group n_groups g n
          (is_member valid row_to_group g) (row_group-is_member valid row_to_group n_groups g h))
