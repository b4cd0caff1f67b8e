-- ===== src/Groupby/Parallel.antt =====
-- `into_par_iter().fold(identity, step).reduce(identity, merge)` over a range of rows.
-- How the thread pool splits the range is not fixed: it is an argument, a schedule.
use polars_metal.Base.{ℕ, zero, suc, ◌+◌, ◌≡◌, refl, ap₂}

-- A chunk of consecutive rows folded from the identity; two neighbouring parts merged; a part
-- merged with the identity, which `reduce` may insert anywhere.
pub data Schedule : Type 0 where
  chunk : ℕ → Schedule
  join : Schedule → Schedule → Schedule
  pad : Schedule → Schedule

abbrev pub rows : Schedule → ℕ
rows (chunk n) = n
rows (join s t) = rows s + rows t
rows (pad s) = rows s

module _ {ℓ} {A : Type ℓ} where
  abbrev pub fold_range : (A → ℕ → A) → A → ℕ → ℕ → A
  fold_range step acc at zero = acc
  fold_range step acc at (suc n) = fold_range step (step acc at) (at + 1) n

  abbrev pub par_fold : A → (A → ℕ → A) → (A → A → A) → Schedule → ℕ → A
  par_fold identity step merge (chunk n) at = fold_range step identity at n
  par_fold identity step merge (join s t) at =
      merge (par_fold identity step merge s at) (par_fold identity step merge t (at + rows s))
  par_fold identity step merge (pad s) at = merge identity (par_fold identity step merge s at)

-- A fold of pairs, each half on its own, is the pair of the folds.
module _ {A B : Type 0} (f : A → ℕ → A) (g : B → ℕ → B) (m : A → A → A) (n : B → B → B) where
  fold_range-pair :
      (a : A) (b : B) (at k : ℕ)
      → fold_range {A = A × B} (λ p i. (f p.0 i, g p.1 i)) (a, b) at k
        ≡ (fold_range f a at k, fold_range g b at k)
  fold_range-pair a b at zero = refl
  fold_range-pair a b at (suc k) = fold_range-pair (f a at) (g b at) (at + 1) k

  pub par_fold-pair :
      (a : A) (b : B) (s : Schedule) (at : ℕ)
      → par_fold {A = A × B} (a, b) (λ p i. (f p.0 i, g p.1 i)) (λ p q. (m p.0 q.0, n p.1 q.1)) s at
        ≡ (par_fold a f m s at, par_fold b g n s at)
  par_fold-pair a b (chunk k) at = fold_range-pair a b at k
  par_fold-pair a b (join s t) at =
      ap₂ (λ (p q : A × B). (m p.0 q.0, n p.1 q.1)) (par_fold-pair a b s at)
        (par_fold-pair a b t (at + rows s))
  par_fold-pair a b (pad s) at =
      ap₂ (λ (p q : A × B). (m p.0 q.0, n p.1 q.1)) refl (par_fold-pair a b s at)
