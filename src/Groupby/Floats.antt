-- ===== src/Groupby/Floats.antt =====
-- groupby.rs, the aggregations of floats and the means. The arithmetic of the machine's floats is
-- an argument, on bit patterns, one record for each width.
use polars_metal.Base.{
  ℕ, Bool, true, false, ◌||◌, Option, none, some, List, [], ◌∷◌, ◌==◌, if◌then◌else◌, get_or,
  replicate, nat_eq,
}
use polars_metal.Groupby.Parallel.{Schedule, par_fold}
use polars_metal.Groupby.Aggregate.{row_group, at_group, merge_into}

pub record Floats : Type 0 where
  pub add : ℕ → ℕ → ℕ
  pub div : ℕ → ℕ → ℕ
  pub less : ℕ → ℕ → Bool
  pub is_nan : ℕ → Bool
  pub nan : ℕ
  pub infinity : ℕ
  pub neg_infinity : ℕ
  -- From a signed integer's pattern, and from a counter.
  pub of_signed : ℕ → ℕ
  pub of_count : ℕ → ℕ

module _ (fl : Floats) where
  -- The two branches on NaN and on `<`, in the closures and in `reduce`.
  abbrev pub poison_lower : ℕ → ℕ → ℕ
  poison_lower a v = if fl.is_nan v || fl.is_nan a then fl.nan else (if fl.less v a then v else a)

  abbrev pub poison_higher : ℕ → ℕ → ℕ
  poison_higher a v = if fl.is_nan v || fl.is_nan a then fl.nan else (if fl.less a v then v else a)

  module _ (s : Schedule) (valid row_to_group : List ℕ) (n_groups : ℕ) (values : List ℕ) where
    unfoldable pub aggregate_sum_f64_cpu : List ℕ
    aggregate_sum_f64_cpu =
        par_fold (replicate n_groups 0)
          (λ local i.
            at_group 0 (row_group valid row_to_group n_groups i) (λ x. fl.add x (get_or values i 0))
              local)
          (merge_into fl.add) s 0

    unfoldable pub aggregate_min_f64_cpu : List ℕ × List Bool
    aggregate_min_f64_cpu =
        par_fold (replicate n_groups fl.infinity, replicate n_groups false)
          (λ p i. (
            at_group fl.infinity (row_group valid row_to_group n_groups i)
                (λ x. poison_lower x (get_or values i 0)) p.0,
            at_group false (row_group valid row_to_group n_groups i) (λ x. true) p.1,
          ))
          (λ p q. (merge_into poison_lower p.0 q.0, merge_into ◌||◌ p.1 q.1)) s 0

    unfoldable pub aggregate_max_f64_cpu : List ℕ × List Bool
    aggregate_max_f64_cpu =
        par_fold (replicate n_groups fl.neg_infinity, replicate n_groups false)
          (λ p i. (
            at_group fl.neg_infinity (row_group valid row_to_group n_groups i)
                (λ x. poison_higher x (get_or values i 0)) p.0,
            at_group false (row_group valid row_to_group n_groups i) (λ x. true) p.1,
          ))
          (λ p q. (merge_into poison_higher p.0 q.0, merge_into ◌||◌ p.1 q.1)) s 0

  -- `sums.iter().zip(counts.iter())`, with the sum read as a float by `read`.
  unfoldable pub compute_mean : (ℕ → ℕ) → List ℕ → List ℕ → List (Option ℕ)
  compute_mean read [] counts = []
  compute_mean read (s ∷ sums) [] = []
  compute_mean read (s ∷ sums) (c ∷ counts) =
      (if c == 0 then none else some (fl.div (read s) (fl.of_count c)))
      ∷ compute_mean read sums counts

  unfoldable pub compute_mean_float : List ℕ → List ℕ → List (Option ℕ)
  unfolding compute_mean
  compute_mean_float sums counts = compute_mean (λ s. s) sums counts

  unfoldable pub compute_mean_int : List ℕ → List ℕ → List (Option ℕ)
  unfolding compute_mean
  compute_mean_int sums counts = compute_mean fl.of_signed sums counts

-- `m.unwrap_or(0.0)` and `m.is_some()`
abbrev pub mean_value : Option ℕ → ℕ
mean_value none = 0
mean_value (some v) = v

abbrev pub mean_present : Option ℕ → Bool
mean_present none = false
mean_present (some v) = true
