-- ===== src/Groupby/Aggregate/Members.antt =====
-- The rows of a group, as the aggregations are specified: by the bitmap and the groups alone.
use native.Mathlib.Nat.{one-le-pow}
use polars_metal.Base.Bits.{bit_and_mask}
use polars_metal.Base.{
  ℕ, zero, suc, ◌+◌, ◌/◌, ◌%◌, ◌^◌, ◌<◌, ◌≡◌, refl, bit_and, ◌∙◌, ◌↔◌, Bool, true, false, not, ◌&&◌,
  Option, none, some, List, [], ◌∷◌, ◌==◌, nat_eq, if◌then◌else◌, get_or, get_elem?, arith,
}
use polars_metal.Buffer.Bitmap.{get_valid}
use polars_metal.Groupby.Keys.{bit_at}
use polars_metal.Groupby.Aggregate.{row_group, any_group}

-- A row counts for a group that it was put in, when the bitmap says that it is valid.
abbrev pub is_member : List ℕ → List ℕ → ℕ → ℕ → Bool
is_member valid row_to_group g i = get_valid valid i && (get_or row_to_group i 0 == g)

-- What the rows `at .. at + k` that count add up to.
abbrev pub total : (ℕ → Bool) → (ℕ → ℕ) → ℕ → ℕ → ℕ
total member value at zero = 0
total member value at (suc k) = (if member at then value at else 0) + total member value (at + 1) k

get_elem?-get_or :
    (xs : List ℕ) (i : ℕ) → get_or xs i 0 ≡ elim (get_elem? xs i) [ none ↦ 0 | some x ↦ x ]
get_elem?-get_or [] i = refl
get_elem?-get_or (x ∷ xs) zero = refl
get_elem?-get_or (x ∷ xs) (suc i) = get_elem?-get_or xs i

read_bit :
    (o : Option ℕ) (k : ℕ)
    → elim o [ none ↦ false | some b ↦ bit_and (b / 2 ^ k) 1 == 1 ]
      ≡ (bit_and (elim o [ none ↦ 0 | some x ↦ x ] / 2 ^ k) 1 == 1)
read_bit none k =
    let zeros : 0 / 2 ^ k ≡ 0 = omega (arith, one-le-pow k 2 (omega arith)) in rw zeros refl
read_bit (some b) k = refl

bit_at-get_valid : (valid : List ℕ) (i : ℕ) → (bit_at valid i == 0) ≡ not (get_valid valid i)
unfolding get_valid
bit_at-get_valid valid i =
    let byte = get_elem?-get_or valid (i / 8) in
    let k = bit_and_mask 3 i in
    let bit : ℕ = get_or valid (i / 8) 0 / 2 ^ (i % 8) in
    let same : bit_at valid i ≡ bit_and bit 1 = rw k refl in
    let read : get_valid valid i ≡ (bit_and bit 1 == 1) = read_bit _ (i % 8) ∙ rw byte refl in
    rw (same, read) (ground (arith, bit_and_mask 1 bit))

pub row_group-is_member :
    (valid row_to_group : List ℕ) (n_groups g : ℕ)
    → g < n_groups
    → (i : ℕ)
    → (row_group valid row_to_group n_groups i ≡ some g) ↔ (is_member valid row_to_group g i ≡ true)
row_group-is_member valid row_to_group n_groups g h i = ground (arith, h, bit_at-get_valid valid i)

pub any_group_iff :
    (row_to_group : List ℕ) (n_groups g : ℕ)
    → g < n_groups
    → (i : ℕ)
    → (any_group row_to_group n_groups i ≡ some g) ↔ ((get_or row_to_group i 0 == g) ≡ true)
any_group_iff row_to_group n_groups g h i = ground (arith, h)
