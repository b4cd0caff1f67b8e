-- ===== src/Groupby/Aggregate.antt =====
-- groupby.rs, the per-group aggregations on the CPU: `aggregate_*_cpu`.
-- An i64 is its 64-bit pattern. The rows of the parallel iterator are 0 .. n.
pub mod Slots
pub mod Members
pub mod Totals
pub mod Extremes
pub mod MinMax
use polars_metal.Base.{
  ℕ, zero, suc, ◌+◌, ◌-◌, ◌*◌, ◌/◌, ◌%◌, ◌^◌, min, Bool, true, false, ◌||◌, Option, none, some,
  List, [], ◌∷◌, ltb, ◌==◌, if◌then◌else◌, length, get_or, set, replicate, nat_eq,
}
use polars_metal.Groupby.Keys.{bit_at}
use polars_metal.Groupby.Parallel.{Schedule, par_fold}

-- The two guards of every closure: the row is valid, and its group is in range.
abbrev pub row_group : List ℕ → List ℕ → ℕ → ℕ → Option ℕ
row_group valid row_to_group n_groups i =
    if bit_at valid i == 0
    then none
    else (let g = get_or row_to_group i 0 in if ltb g n_groups then some g else none)

-- `aggregate_len_cpu` reads no validity.
abbrev pub any_group : List ℕ → ℕ → ℕ → Option ℕ
any_group row_to_group n_groups i =
    let g = get_or row_to_group i 0 in if ltb g n_groups then some g else none

-- `local[g] = f(local[g])`, where the guards let the row through.
abbrev pub at_group {ℓ} : {A : Type ℓ} → A → Option ℕ → (A → A) → List A → List A
at_group d none f local = local
at_group d (some g) f local = set local g (f (get_or local g d))

-- `for (x, y) in a.iter_mut().zip(b.iter()) { *x = f(*x, *y) }`
abbrev pub merge_into {ℓ} : {A : Type ℓ} → (A → A → A) → List A → List A → List A
merge_into f [] b = []
merge_into f (x ∷ a) [] = x ∷ a
merge_into f (x ∷ a) (y ∷ b) = f x y ∷ merge_into f a b

abbrev pub wrapping_add : ℕ → ℕ → ℕ
wrapping_add a b = (a + b) % 2 ^ 64

-- `<` of i64 on patterns.
abbrev pub lt_i64 : ℕ → ℕ → Bool
lt_i64 a b = ltb ((a + 2 ^ 63) % 2 ^ 64) ((b + 2 ^ 63) % 2 ^ 64)

abbrev pub i64_max : ℕ
i64_max = 2 ^ 63 - 1

abbrev pub i64_min : ℕ
i64_min = 2 ^ 63

-- `if b < *a { *a = b; }`
abbrev pub lower : ℕ → ℕ → ℕ
lower a b = if lt_i64 b a then b else a

-- `if b > *a { *a = b; }`
abbrev pub higher : ℕ → ℕ → ℕ
higher a b = if lt_i64 a b then b else a

module _ (s : Schedule) (valid row_to_group : List ℕ) (n_groups : ℕ) where
  unfoldable pub aggregate_sum_i64_cpu : List ℕ → List ℕ
  aggregate_sum_i64_cpu values =
      par_fold (replicate n_groups 0)
        (λ local i.
          at_group 0 (row_group valid row_to_group n_groups i)
            (λ x. wrapping_add x (get_or values i 0)) local)
        (merge_into wrapping_add) s 0

  unfoldable pub aggregate_min_i64_cpu : List ℕ → List ℕ × List Bool
  aggregate_min_i64_cpu values =
      par_fold (replicate n_groups i64_max, replicate n_groups false)
        (λ p i. (
          at_group i64_max (row_group valid row_to_group n_groups i)
              (λ x. lower x (get_or values i 0)) p.0,
          at_group false (row_group valid row_to_group n_groups i) (λ x. true) p.1,
        ))
        (λ p q. (merge_into lower p.0 q.0, merge_into ◌||◌ p.1 q.1)) s 0

  unfoldable pub aggregate_max_i64_cpu : List ℕ → List ℕ × List Bool
  aggregate_max_i64_cpu values =
      par_fold (replicate n_groups i64_min, replicate n_groups false)
        (λ p i. (
          at_group i64_min (row_group valid row_to_group n_groups i)
              (λ x. higher x (get_or values i 0)) p.0,
          at_group false (row_group valid row_to_group n_groups i) (λ x. true) p.1,
        ))
        (λ p q. (merge_into higher p.0 q.0, merge_into ◌||◌ p.1 q.1)) s 0

  -- The u64 counters cannot overflow: a slice has fewer than 2^64 rows.
  unfoldable pub aggregate_count_cpu : List ℕ
  aggregate_count_cpu =
      par_fold (replicate n_groups 0)
        (λ local i. at_group 0 (row_group valid row_to_group n_groups i) (λ x. x + 1) local)
        (merge_into ◌+◌) s 0

module _ (s : Schedule) (row_to_group : List ℕ) (n_groups : ℕ) where
  unfoldable pub aggregate_len_cpu : List ℕ
  aggregate_len_cpu =
      par_fold (replicate n_groups 0)
        (λ local i. at_group 0 (any_group row_to_group n_groups i) (λ x. x + 1) local)
        (merge_into ◌+◌) s 0
