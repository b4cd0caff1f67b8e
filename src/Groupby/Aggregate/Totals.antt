-- ===== src/Groupby/Aggregate/Totals.antt =====
-- The sum, the count and the row count of each group.
use native.Mathlib.Nat.{zero-add}
use polars_metal.Base.{
  ℕ, zero, suc, ◌+◌, ◌%◌, ◌^◌, ◌<◌, ◌≡◌, ◌∙◌, min, Option, List, arith, length, get_or, some, refl,
  Bool, true, ◌↔◌, ◌==◌, nat_eq, Option-cases, Bool-cases, inl, inr, nat_beq,
}
use polars_metal.Groupby.Parallel.{Schedule, rows}
use polars_metal.Groupby.Aggregate.Members.{is_member, total, row_group-is_member, any_group_iff}
use polars_metal.Groupby.Aggregate.{
  row_group, any_group, wrapping_add, aggregate_sum_i64_cpu, aggregate_count_cpu, aggregate_len_cpu,
}
use polars_metal.Groupby.Aggregate.Slots.{
  Accumulator, slot, at_slot, get_or-par_fold, length-par_fold,
}

-- What the rows `at .. at + k` add up to that the closures put in slot `g`.
abbrev slot_total : (ℕ → Option ℕ) → (ℕ → ℕ) → ℕ → ℕ → ℕ → ℕ
slot_total group value g at zero = 0
slot_total group value g at (suc k) =
    at_slot g (group at) (λ _. value at) 0 + slot_total group value g (at + 1) k

slot_total-total :
    (group : ℕ → Option ℕ) (member : ℕ → Bool) (value : ℕ → ℕ) (g : ℕ)
    → ((i : ℕ) → (group i ≡ some g) ↔ (member i ≡ true))
    → (at k : ℕ) → slot_total group value g at k ≡ total member value at k
slot_total-total group member value g same at zero = refl
slot_total-total group member value g same at (suc k) =
    ground (arith, same at, slot_total-total group member value g same (at + 1) k)

add_counter : (value : ℕ → ℕ) → Accumulator 0 (λ i x. x + value i) ◌+◌
add_counter value = record {
  Good = λ _. Unit;
  good_start = tt;
  good_upd = λ i a h. tt;
  op_start = λ a h. omega arith;
  start_op = λ a h. omega arith;
  op_upd = λ i a b p q. omega arith;
}

wrapping_sum :
    (values : List ℕ) → Accumulator 0 (λ i x. wrapping_add x (get_or values i 0)) wrapping_add
wrapping_sum values = record {
  Good = λ a. a < 2 ^ 64;
  good_start = omega arith;
  good_upd = λ i a h. omega arith;
  op_start = λ a h. omega arith;
  start_op = λ a h. omega arith;
  op_upd = λ i a b p q. omega arith;
}

slot-sum :
    (values : List ℕ) (group : ℕ → Option ℕ) (n g a at k : ℕ)
    → a < 2 ^ 64
    → slot (wrapping_sum values) group n g a at k
      ≡ (a + slot_total group (λ i. get_or values i 0) g at k) % 2 ^ 64
slot-sum values group n g a at zero h = omega arith
slot-sum values group n g a at (suc k) h = elim (Option-cases (group at)) [
  | inl p ↦ rw p (slot-sum values group n g a (at + 1) k h ∙ omega arith)
  | inr (j, p) ↦ elim (Bool-cases (nat_beq j g)) [
    | inl q ↦
        rw (p, q)
          (slot-sum values group n g (wrapping_add a (get_or values at 0)) (at + 1) k (omega arith)
            ∙ omega arith)
    | inr q ↦ rw (p, q) (slot-sum values group n g a (at + 1) k h ∙ omega arith)
  ]
]

slot-count :
    (group : ℕ → Option ℕ) (n g a at k : ℕ)
    → slot (add_counter (λ _. 1)) group n g a at k ≡ a + slot_total group (λ _. 1) g at k
slot-count group n g a at zero = omega arith
slot-count group n g a at (suc k) = elim (Option-cases (group at)) [
  | inl p ↦ rw p (slot-count group n g a (at + 1) k ∙ omega arith)
  | inr (j, p) ↦ elim (Bool-cases (nat_beq j g)) [
    | inl q ↦ rw (p, q) (slot-count group n g (a + 1) (at + 1) k ∙ omega arith)
    | inr q ↦ rw (p, q) (slot-count group n g a (at + 1) k ∙ omega arith)
  ]
]

module _ (s : Schedule) (valid row_to_group : List ℕ) (n_groups : ℕ) where
  -- However the rows are split among threads, `aggregate_sum_i64_cpu` gives each group the sum of
  -- its valid rows modulo 2^64, and 0 to a group without one.
  pub aggregate_sum_i64_cpu-eq-total :
      (values : List ℕ) (g : ℕ)
      → rows s ≡ min (length values) (length row_to_group)
      → g < n_groups
      → get_or (aggregate_sum_i64_cpu s valid row_to_group n_groups values) g 0
        ≡ total
            (is_member valid row_to_group g)
            (λ i. get_or values i 0)
            0
            (min (length values) (length row_to_group))
          % 2 ^ 64
  unfolding aggregate_sum_i64_cpu
  aggregate_sum_i64_cpu-eq-total values g e h =
      get_or-par_fold (wrapping_sum values) (row_group valid row_to_group n_groups) n_groups s 0 g h
      ∙ slot-sum values (row_group valid row_to_group n_groups) n_groups g 0 0 (rows s)
          (omega arith)
      ∙ rw
          (
            e,
            zero-add,
            slot_total-total (row_group valid row_to_group n_groups)
                (is_member valid row_to_group g) (λ i. get_or values i 0) g
                (row_group-is_member valid row_to_group n_groups g h),
          )
          refl

  pub length-aggregate_sum_i64_cpu :
      (values : List ℕ)
      → length (aggregate_sum_i64_cpu s valid row_to_group n_groups values) ≡ n_groups
  unfolding aggregate_sum_i64_cpu
  length-aggregate_sum_i64_cpu values =
      length-par_fold (wrapping_sum values) (row_group valid row_to_group n_groups) n_groups s 0

  pub length-aggregate_count_cpu :
      length (aggregate_count_cpu s valid row_to_group n_groups) ≡ n_groups
  unfolding aggregate_count_cpu
  length-aggregate_count_cpu =
      length-par_fold (add_counter (λ _. 1)) (row_group valid row_to_group n_groups) n_groups s 0

  -- However the rows are split, `aggregate_count_cpu` counts each group's valid rows.
  pub aggregate_count_cpu-eq-total :
      (g : ℕ)
      → rows s ≡ length row_to_group
      → g < n_groups
      → get_or (aggregate_count_cpu s valid row_to_group n_groups) g 0
        ≡ total (is_member valid row_to_group g) (λ _. 1) 0 (length row_to_group)
  unfolding aggregate_count_cpu
  aggregate_count_cpu-eq-total g e h =
      get_or-par_fold (add_counter (λ _. 1)) (row_group valid row_to_group n_groups) n_groups s 0 g
        h
      ∙ slot-count (row_group valid row_to_group n_groups) n_groups g 0 0 (rows s)
      ∙ rw
          (
            e,
            zero-add,
            slot_total-total (row_group valid row_to_group n_groups)
                (is_member valid row_to_group g) (λ _. 1) g
                (row_group-is_member valid row_to_group n_groups g h),
          )
          refl

-- However the rows are split, `aggregate_len_cpu` counts each group's rows, nulls included.
pub aggregate_len_cpu-eq-total :
    (s : Schedule) (row_to_group : List ℕ) (n_groups g : ℕ)
    → rows s ≡ length row_to_group
    → g < n_groups
    → get_or (aggregate_len_cpu s row_to_group n_groups) g 0
      ≡ total (λ i. get_or row_to_group i 0 == g) (λ _. 1) 0 (length row_to_group)
unfolding aggregate_len_cpu
aggregate_len_cpu-eq-total s row_to_group n_groups g e h =
    get_or-par_fold (add_counter (λ _. 1)) (any_group row_to_group n_groups) n_groups s 0 g h
    ∙ slot-count (any_group row_to_group n_groups) n_groups g 0 0 (rows s)
    ∙ rw
        (
          e,
          zero-add,
          slot_total-total (any_group row_to_group n_groups) (λ i. get_or row_to_group i 0 == g)
              (λ _. 1) g (any_group_iff row_to_group n_groups g h),
        )
        refl
