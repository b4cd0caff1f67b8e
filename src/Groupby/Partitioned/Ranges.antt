-- ===== src/Groupby/Partitioned/Ranges.antt =====
-- The indices of the last loop of the partitioned build are in range.
use native.Mathlib.Nat.{add-zero}
use polars_metal.Base.{
  ℕ, suc, ◌+◌, ◌%◌, ◌^◌, ◌≤◌, ◌<◌, ◌≡◌, refl, ap, subst, true, some, List, [], ◌∷◌, length,
  get_elem?, arith,
}
use polars_metal.Groupby.Partitioned.{partition_id, offsets, global_group, indices_fit}

pub length-offsets : (acc : ℕ) (sizes : List ℕ) → length (offsets acc sizes) ≡ suc (length sizes)
unfolding offsets
length-offsets acc [] = refl
length-offsets acc (size ∷ sizes) = ap suc (length-offsets ((acc + size % 2 ^ 32) % 2 ^ 32) sizes)

pub indices_fit-true :
    (n : ℕ) (starts local : List ℕ) (n_groups r : ℕ) (keys : List ℕ)
    → ((i k : ℕ) → get_elem? keys i ≡ some k → partition_id k n < length starts)
    → r + length keys ≤ length local
    → ((i k : ℕ) → get_elem? keys i ≡ some k → global_group n starts local (r + i) k < n_groups)
    → indices_fit n starts local n_groups r keys ≡ true
unfolding indices_fit
indices_fit-true n starts local n_groups r [] parts rows groups = refl
indices_fit-true n starts local n_groups r (k ∷ keys) parts rows groups =
    let part = parts 0 k refl in
    let group =
      subst (λ j. global_group n starts local j k < n_groups) (add-zero r) (groups 0 k refl) in
    let later =
      indices_fit-true n starts local n_groups (r + 1) keys (λ i j at. parts (suc i) j at)
        (omega (arith, rows))
        (λ i j at.
          subst (λ x. global_group n starts local x j < n_groups) (omega arith)
            (groups (suc i) j at)) in
    ground (arith, part, group, later, rows)
