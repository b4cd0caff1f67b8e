-- ===== src/Groupby/Aggregate/Extremes.antt =====
-- The least and the greatest value of each group, and whether the group has one.
use native.Mathlib.Decide.{ℕ_discrete}
use polars_metal.Base.{
  ℕ, zero, suc, ◌+◌, ◌^◌, ◌≤◌, ◌<◌, ◌≡◌, refl, ap, sym, ◌∙◌, Bool, true, false, ◌||◌, Option, some,
  arith, subst, ◌↔◌, Option-cases, Bool-cases, inl, inr, ◌⊎◌, if◌then◌else◌,
}
use polars_metal.Groupby.Aggregate.Slots.{Accumulator, slot, slot_step}

-- `r` is the extreme value of the rows below `n` that count, where `has` says that there is one: no
-- value beats it, and it is one of them.
pub record IsExtreme (beats : ℕ → ℕ → Bool) (member : ℕ → Bool) (value : ℕ → ℕ) (n r : ℕ)
    (has : Bool) : Type 0 where
  pub none_beats : (i : ℕ) → i < n → member i ≡ true → beats (value i) r ≡ false
  pub seen : (i : ℕ) → i < n → member i ≡ true → has ≡ true
  pub attained : has ≡ true → (i : ℕ) × (i < n) × (member i ≡ true) × (value i ≡ r)

-- A strict order on i64 patterns with a worst value.
pub record Order (beats : ℕ → ℕ → Bool) (worst : ℕ) : Type 0 where
  pub irrefl : (a : ℕ) → beats a a ≡ false
  pub split : (a b c : ℕ) → beats a c ≡ true → beats a b ≡ false → beats b c ≡ true
  pub asym : (a b : ℕ) → beats a b ≡ true → beats b a ≡ false
  pub worst_loses : (a : ℕ) → beats worst a ≡ false
  pub only_worst : (a : ℕ) → a < 2 ^ 64 → beats a worst ≡ false → a ≡ worst
  pub worst_small : worst < 2 ^ 64

module _ {beats : ℕ → ℕ → Bool} {worst : ℕ} (order : Order beats worst) (value : ℕ → ℕ)
    (small : (i : ℕ) → value i < 2 ^ 64) (group : ℕ → Option ℕ) (n_groups : ℕ) where
  abbrev pub pick : ℕ → ℕ → ℕ
  pick a b = if beats b a then b else a

  pub pick_accumulator : Accumulator worst (λ i x. pick x (value i)) pick
  pick_accumulator = record {
    Good = λ a. a < 2 ^ 64;
    good_start = order.worst_small;
    good_upd = λ i a h. ground (arith, small i);
    op_start = λ a h. rw (order.worst_loses a);
    start_op = λ a h. ground (arith, order.only_worst a);
    op_upd = λ i a b p q. ground (
      arith,
      order.split (value i) a b,
      order.split (value i) b a,
      order.split b (value i) a,
      order.split b a (value i),
      order.split a b (value i),
      order.split a (value i) b,
      order.asym (value i) a,
      order.asym (value i) b,
      order.asym b a,
    );
  }

  pub or_accumulator : Accumulator false (λ (i : ℕ) (x : Bool). true) ◌||◌
  or_accumulator = record {
    Good = λ _. Unit;
    good_start = tt;
    good_upd = λ i a h. tt;
    op_start = λ a h. ground arith;
    start_op = λ a h. refl;
    op_upd = λ i a b p q. ground arith;
  }

  abbrev pub best : ℕ → ℕ → ℕ → ℕ → ℕ
  best g a at k = slot pick_accumulator group n_groups g a at k

  abbrev pub found : ℕ → Bool → ℕ → ℕ → Bool
  found g a at k = slot or_accumulator group n_groups g a at k

  abbrev best_step : ℕ → ℕ → ℕ → ℕ
  best_step g a i = slot_step group (λ i x. pick x (value i)) g a i

  step_keeps : (x g a i : ℕ) → beats x a ≡ false → beats x (best_step g a i) ≡ false
  step_keeps x g a i h = elim (Option-cases (group i)) [
    | inl p ↦ rw p h
    | inr (j, p) ↦ rw p (ground (arith, order.split x a (value i), order.asym (value i) a))
  ]

  best_keeps : (x g a at k : ℕ) → beats x a ≡ false → beats x (best g a at k) ≡ false
  best_keeps x g a at zero h = h
  best_keeps x g a at (suc k) h =
      best_keeps x g (best_step g a at) (at + 1) k (step_keeps x g a at h)

  step_unbeaten : (g a i : ℕ) → group i ≡ some g → beats (value i) (best_step g a i) ≡ false
  step_unbeaten g a i e = rw e (ground (arith, order.irrefl (value i)))

  best_unbeaten :
      (g a at k i : ℕ)
      → at ≤ i
      → i < at + k
      → group i ≡ some g
      → beats (value i) (best g a at k) ≡ false
  best_unbeaten g a at zero i p q e = absurd (omega arith)
  best_unbeaten g a at (suc k) i p q e = elim (ℕ_discrete i at) [
    | yes here ↦
        best_keeps (value i) g (best_step g a at) (at + 1) k
          (rw here (step_unbeaten g a at (ap group (sym here) ∙ e)))
    | no later ↦ best_unbeaten g (best_step g a at) (at + 1) k i (omega arith) (omega arith) e
  ]

  -- The first value that a slot starts with, or that of one of the group's rows.
  abbrev Source : ℕ → ℕ → ℕ → ℕ → Type 0
  Source g a n r = (r ≡ a) ⊎ ((i : ℕ) × (i < n) × (group i ≡ some g) × (value i ≡ r))

  step-Source : (g a i n : ℕ) → i < n → Source g a n (best_step g a i)
  step-Source g a i n h = elim (Option-cases (group i)) [
    | inl p ↦ rw p (inl refl)
    | inr (j, p) ↦ elim (ℕ_discrete j g) [
      | yes same ↦ elim (Bool-cases (beats (value i) a)) [
        | inl b ↦ inr (i, h, p ∙ ap some same, ground arith)
        | inr b ↦ inl (ground arith)
      ]
      | no other ↦ inl (ground arith)
    ]
  ]

  best-Source : (g a at k n : ℕ) → at + k ≤ n → Source g a n (best g a at k)
  best-Source g a at zero n h = inl refl
  best-Source g a at (suc k) n h =
      elim (best-Source g (best_step g a at) (at + 1) k n (omega arith)) [
        | inr row ↦ inr row
        | inl same ↦ elim (step-Source g a at n (omega arith)) [
          | inl start ↦ inl (same ∙ start)
          | inr (i, p, q, r) ↦ inr (i, p, q, r ∙ sym same)
        ]
      ]

  abbrev found_step : ℕ → Bool → ℕ → Bool
  found_step g a i = slot_step group (λ (i : ℕ) (x : Bool). true) g a i

  found-true : (g at k : ℕ) → found g true at k ≡ true
  found-true g at zero = refl
  found-true g at (suc k) =
      let keeps : found_step g true at ≡ true = ground arith in
      ap (λ b. found g b (at + 1) k) keeps ∙ found-true g (at + 1) k

  found_seen :
      (g : ℕ) (a : Bool) (at k i : ℕ)
      → at ≤ i
      → i < at + k
      → group i ≡ some g
      → found g a at k ≡ true
  found_seen g a at zero i p q e = absurd (omega arith)
  found_seen g a at (suc k) i p q e = elim (ℕ_discrete i at) [
    | yes here ↦
        let sets : found_step g a at ≡ true = ground (arith, ap group here) in
        ap (λ b. found g b (at + 1) k) sets ∙ found-true g (at + 1) k
    | no later ↦ found_seen g (found_step g a at) (at + 1) k i (omega arith) (omega arith) e
  ]

  found-some :
      (g at k n : ℕ)
      → at + k ≤ n
      → found g false at k ≡ true
      → (i : ℕ) × (i < n) × (group i ≡ some g)
  found-some g at zero n h e = cc
  found-some g at (suc k) n h e = elim (Option-cases (group at)) [
    | inl p ↦
        let stays : found_step g false at ≡ false = rw p in
        found-some g (at + 1) k n (omega arith) (ap (λ b. found g b (at + 1) k) (sym stays) ∙ e)
    | inr (j, p) ↦ elim (ℕ_discrete j g) [
      | yes same ↦ (at, omega arith, p ∙ ap some same)
      | no other ↦
          let stays : found_step g false at ≡ false = ground arith in
          found-some g (at + 1) k n (omega arith) (ap (λ b. found g b (at + 1) k) (sym stays) ∙ e)
    ]
  ]

  pub best-IsExtreme :
      (g n : ℕ) (member : ℕ → Bool)
      → ((i : ℕ) → (group i ≡ some g) ↔ (member i ≡ true))
      → IsExtreme beats member value n (best g worst 0 n) (found g false 0 n)
  best-IsExtreme g n member same = record {
    none_beats = λ i p e. best_unbeaten g worst 0 n i (omega arith) (omega arith) ((same i).1 e);
    seen = λ i p e. found_seen g false 0 n i (omega arith) (omega arith) ((same i).1 e);
    attained = λ e.
        let (i, p, q) = found-some g 0 n n (omega arith) e in
        elim (best-Source g worst 0 n n (omega arith)) [
          | inr (j, below, there, is_best) ↦ (j, below, (same j).0 there, is_best)
          | inl start ↦
              let unbeaten : beats (value i) worst ≡ false =
                subst (λ r. beats (value i) r ≡ false) start
                  (best_unbeaten g worst 0 n i (omega arith) (omega arith) q) in
              (i, p, (same i).0 q, order.only_worst (value i) (small i) unbeaten ∙ sym start)
        ];
  }
