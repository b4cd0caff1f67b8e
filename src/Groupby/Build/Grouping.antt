-- ===== src/Groupby/Build/Grouping.antt =====
-- What a build has to deliver, whichever way it is computed.
use polars_metal.Base.{ℕ, ◌≤◌, ◌<◌, ◌≡◌, ◌↔◌, some, List, length, get_elem?}
use polars_metal.Groupby.Build.{BuildOutput}

-- Rows are in one group exactly when their keys are equal, and each group has a row that stands
-- for it.
pub record IsGrouping (keys : List ℕ) (out : BuildOutput) : Type 0 where
  pub assigned : length out.row_to_group ≡ length keys
  pub in_range : (i g : ℕ) → get_elem? out.row_to_group i ≡ some g → g < out.n_groups
  pub same_group :
      (i j a b k l : ℕ)
      → get_elem? out.row_to_group i ≡ some a
      → get_elem? out.row_to_group j ≡ some b
      → get_elem? keys i ≡ some k
      → get_elem? keys j ≡ some l
      → (a ≡ b) ↔ (k ≡ l)
  pub one_each : length out.first_row_per_group ≡ out.n_groups
  pub stands_for :
      (g r : ℕ)
      → get_elem? out.first_row_per_group g ≡ some r
      → get_elem? out.row_to_group r ≡ some g

-- The row that stands for a group is the first of the group.
pub record IsFirstSeen (keys : List ℕ) (out : BuildOutput) : Type 0 where
  pub grouping : IsGrouping keys out
  pub earliest :
      (i g r : ℕ)
      → get_elem? out.row_to_group i ≡ some g
      → get_elem? out.first_row_per_group g ≡ some r
      → r ≤ i
