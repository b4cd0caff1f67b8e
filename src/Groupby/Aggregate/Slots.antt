-- ===== src/Groupby/Aggregate/Slots.antt =====
-- However the rows are split, each group's slot ends as one pass over its rows in order.
use native.Mathlib.Nat.{add-zero, zero-add, suc-add}
use native.Mathlib.Decide.{ℕ_discrete}
use polars_metal.Base.{
  ℕ, zero, suc, ◌+◌, ◌<◌, ◌≡◌, refl, ap, ap₂, sym, ◌∙◌, Option, none, some, List, [], ◌∷◌, arith,
  length, get_or, replicate, length-set, length-replicate, get_or-set, get_or-replicate,
  get_or-set_ne, nat_beq, Option-cases, Bool-cases, inl, inr, if◌then◌else◌,
}
use polars_metal.Groupby.Parallel.{Schedule, chunk, join, pad, rows, fold_range, par_fold}
use polars_metal.Groupby.Aggregate.{at_group, merge_into}

-- What a group's slot holds, and how a row and a merge change it.
pub record Accumulator {A : Type 0} (start : A) (upd : ℕ → A → A) (op : A → A → A) : Type 1 where
  pub Good : A → Type 0
  pub good_start : Good start
  pub good_upd : (i : ℕ) (a : A) → Good a → Good (upd i a)
  pub op_start : (a : A) → Good a → op a start ≡ a
  pub start_op : (a : A) → Good a → op start a ≡ a
  pub op_upd : (i : ℕ) (a b : A) → Good a → Good b → op a (upd i b) ≡ upd i (op a b)

-- A change of the slot of one group.
abbrev pub at_slot {ℓ} : {A : Type ℓ} → ℕ → Option ℕ → (A → A) → A → A
at_slot g none f a = a
at_slot g (some h) f a = if nat_beq h g then f a else a

module _ {A : Type 0} (group : ℕ → Option ℕ) (upd : ℕ → A → A) where
  -- The change of group `g`'s slot by row `i`.
  abbrev pub slot_step : ℕ → A → ℕ → A
  slot_step g a i = at_slot g (group i) (upd i) a

length-merge_into :
    {A : Type 0} (f : A → A → A) (a b : List A) → length (merge_into f a b) ≡ length a
length-merge_into f [] b = refl
length-merge_into f (x ∷ a) [] = refl
length-merge_into f (x ∷ a) (y ∷ b) = ap suc (length-merge_into f a b)

get_or-merge_into :
    {A : Type 0} (f : A → A → A) (d : A) (a b : List A) (g : ℕ)
    → g < length a
    → length a ≡ length b
    → get_or (merge_into f a b) g d ≡ f (get_or a g d) (get_or b g d)
get_or-merge_into f d [] b g h e = absurd (omega arith)
get_or-merge_into f d (x ∷ a) [] g h e = absurd (omega arith)
get_or-merge_into f d (x ∷ a) (y ∷ b) zero h e = refl
get_or-merge_into f d (x ∷ a) (y ∷ b) (suc g) h e =
    get_or-merge_into f d a b g (omega arith) (omega arith)

module _ {A : Type 0} {start : A} {upd : ℕ → A → A} {op : A → A → A}
    (acc : Accumulator start upd op) (group : ℕ → Option ℕ) (n : ℕ) where
  open acc use {Good, good_start, good_upd, op_start, start_op, op_upd}

  abbrev step : List A → ℕ → List A
  step local i = at_group start (group i) (upd i) local

  abbrev pub slot : ℕ → A → ℕ → ℕ → A
  slot g a at k = fold_range (slot_step group upd g) a at k

  length-step : (local : List A) (i : ℕ) → length (step local i) ≡ length local
  length-step local i = elim (Option-cases (group i)) [
    | inl e ↦ rw e
    | inr (h, e) ↦ rw e (length-set local h _)
  ]

  get_or-step :
      (local : List A) (i g : ℕ)
      → length local ≡ n
      → g < n
      → get_or (step local i) g start ≡ slot_step group upd g (get_or local g start) i
  get_or-step local i g e h = elim (Option-cases (group i)) [
    | inl p ↦ rw p
    | inr (k, p) ↦ elim (ℕ_discrete k g) [
      | yes same ↦
          rw (p, same, get_or-set local g g (upd i (get_or local g start)) start (omega arith))
            (ground arith)
      | no other ↦
          rw (p, get_or-set_ne local k g (upd i (get_or local k start)) start other) (ground arith)
    ]
  ]

  length-fold : (local : List A) (at k : ℕ) → length (fold_range step local at k) ≡ length local
  length-fold local at zero = refl
  length-fold local at (suc k) = length-fold (step local at) (at + 1) k ∙ length-step local at

  get_or-fold :
      (local : List A) (at k g : ℕ)
      → length local ≡ n
      → g < n
      → get_or (fold_range step local at k) g start ≡ slot g (get_or local g start) at k
  get_or-fold local at zero g e h = refl
  get_or-fold local at (suc k) g e h =
      get_or-fold (step local at) (at + 1) k g (length-step local at ∙ e) h
      ∙ ap (λ a. slot g a (at + 1) k) (get_or-step local at g e h)

  -- One group's slot: the values stay good, and an earlier part may be merged in before or after.
  good_slot_step : (g i : ℕ) (a : A) → Good a → Good (slot_step group upd g a i)
  good_slot_step g i a h = elim (Option-cases (group i)) [
    | inl p ↦ rw p h
    | inr (k, p) ↦ elim (Bool-cases (nat_beq k g)) [
      | inl q ↦ rw (p, q) (good_upd i a h)
      | inr q ↦ rw (p, q) h
    ]
  ]

  good_slot : (g : ℕ) (a : A) (at k : ℕ) → Good a → Good (slot g a at k)
  good_slot g a at zero h = h
  good_slot g a at (suc k) h =
      good_slot g (slot_step group upd g a at) (at + 1) k (good_slot_step g at a h)

  op-slot_step :
      (g i : ℕ) (a b : A)
      → Good a
      → Good b
      → op a (slot_step group upd g b i) ≡ slot_step group upd g (op a b) i
  op-slot_step g i a b ga gb = elim (Option-cases (group i)) [
    | inl p ↦ rw p
    | inr (k, p) ↦ elim (Bool-cases (nat_beq k g)) [
      | inl q ↦ rw (p, q) (op_upd i a b ga gb)
      | inr q ↦ rw (p, q)
    ]
  ]

  op-slot :
      (g : ℕ) (a b : A) (at k : ℕ) → Good a → Good b → op a (slot g b at k) ≡ slot g (op a b) at k
  op-slot g a b at zero ga gb = refl
  op-slot g a b at (suc k) ga gb =
      op-slot g a (slot_step group upd g b at) (at + 1) k ga (good_slot_step g at b gb)
      ∙ ap (λ c. slot g c (at + 1) k) (op-slot_step g at a b ga gb)

  slot-append :
      (g : ℕ) (a : A) (at k l : ℕ) → slot g a at (k + l) ≡ slot g (slot g a at k) (at + k) l
  slot-append g a at zero l = ap₂ (λ p q. slot g a p q) (sym (add-zero at)) (zero-add l)
  slot-append g a at (suc k) l =
      ap (slot g a at) (suc-add k l)
      ∙ slot-append g (slot_step group upd g a at) (at + 1) k l
      ∙ ap (λ p. slot g (slot g a at (suc k)) p l) (omega arith)

  abbrev result : Schedule → ℕ → List A
  result s at = par_fold (replicate n start) step (merge_into op) s at

  pub length-par_fold : (s : Schedule) (at : ℕ) → length (result s at) ≡ n
  length-par_fold (chunk k) at = length-fold (replicate n start) at k ∙ length-replicate n start
  length-par_fold (join s t) at = length-merge_into op _ _ ∙ length-par_fold s at
  length-par_fold (pad s) at = length-merge_into op _ _ ∙ length-replicate n start

  -- The schedule does not show: each slot is one pass over the rows in order.
  pub get_or-par_fold :
      (s : Schedule) (at g : ℕ) → g < n → get_or (result s at) g start ≡ slot g start at (rows s)
  get_or-par_fold (chunk k) at g h =
      get_or-fold (replicate n start) at k g (length-replicate n start) h
      ∙ ap (λ a. slot g a at k) (get_or-replicate n g start)
  get_or-par_fold (join s t) at g h =
      get_or-merge_into op start (result s at) (result t (at + rows s)) g
        (omega (arith, length-par_fold s at))
        (length-par_fold s at ∙ sym (length-par_fold t (at + rows s)))
      ∙ ap₂ op (get_or-par_fold s at g h) (get_or-par_fold t (at + rows s) g h)
      ∙ op-slot g (slot g start at (rows s)) start (at + rows s) (rows t)
          (good_slot g start at (rows s) good_start) good_start
      ∙ ap (λ a. slot g a (at + rows s) (rows t))
          (op_start _ (good_slot g start at (rows s) good_start))
      ∙ sym (slot-append g start at (rows s) (rows t))
  get_or-par_fold (pad s) at g h =
      get_or-merge_into op start (replicate n start) (result s at) g
        (omega (arith, length-replicate {0} n start))
        (length-replicate n start ∙ sym (length-par_fold s at))
      ∙ ap₂ op (get_or-replicate n g start) (get_or-par_fold s at g h)
      ∙ start_op _ (good_slot g start at (rows s) good_start)
