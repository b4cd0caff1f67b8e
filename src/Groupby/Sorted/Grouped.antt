-- ===== src/Groupby/Sorted/Grouped.antt =====
-- `cpu_sort_segment` with any sort delivers a grouping.
use mathlib.Core.List.Permᴰ
use mathlib.Core.List.{Permᴰ}
use native.Mathlib.Nat.{mod-eq_of_lt, zero-add}
use polars_metal.Base.{
  ℕ, suc, ◌+◌, ◌%◌, ◌^◌, ◌<◌, ◌≡◌, refl, ap, sym, ◌∙◌, subst, some, List, [], ◌∷◌, length,
  get_elem?, nat_eq, arith, All, get_elem?-lt, get_elem?-some,
}
use polars_metal.Groupby.Build.Grouping.{IsGrouping}
use polars_metal.Groupby.Sorted.{Pair, enumerate, Segments, segment_rows, segment, cpu_sort_segment}
use polars_metal.Groupby.Sorted.Runs.{IsCoded}
use polars_metal.Groupby.Sorted.Permuted.{
  Sorted, IsSort, Perm-All, onto, All-onto, Holds, IsFinished, segment_rows-IsFinished,
  enumerate-Holds, enumerate-at, first_segment, first-IsRun,
}

-- A finished loop, read as a grouping.
module _ {keys : List ℕ} {all : List Pair} {st : Segments} (small : length keys < 2 ^ 32)
    (done : IsFinished keys all st)
    (coded : All (IsCoded done.table st.row_to_group) (enumerate 0 keys)) where
  open done use {table, run}

  row-IsCoded : (i : ℕ) {k : ℕ} → get_elem? keys i ≡ some k → IsCoded table st.row_to_group (k, i)
  row-IsCoded i {k} h =
      let at : (0 + i) % 2 ^ 32 ≡ i =
        ap (λ (t : ℕ). t % 2 ^ 32) (zero-add i)
        ∙ mod-eq_of_lt (let below : i < 2 ^ 32 = omega (arith, get_elem?-lt keys i h) in below) in
      subst (λ t. IsCoded table st.row_to_group (k, t)) at
        (enumerate-at (IsCoded table st.row_to_group) keys 0 i coded h)

  stands_row :
      (i a : ℕ) {k : ℕ}
      → get_elem? st.row_to_group i ≡ some a
      → get_elem? keys i ≡ some k
      → get_elem? table a ≡ some k
  stands_row i a p q = let c = row-IsCoded i q in cc (c.written, c.stands, p)

  key_row : (i a : ℕ) → get_elem? st.row_to_group i ≡ some a → (k : ℕ) × (get_elem? keys i ≡ some k)
  key_row i a p = get_elem?-some keys i (omega (arith, run.rows, get_elem?-lt st.row_to_group i p))

  finished-IsGrouping :
      {n : ℕ}
      → n ≡ suc st.cur_group
      → IsGrouping keys (record {
        row_to_group = st.row_to_group;
        first_row_per_group = st.first_row_per_group;
        n_groups = n;
      })
  finished-IsGrouping e = record {
    assigned = run.rows;
    in_range = λ i g p.
        let (k, q) = key_row i g p in
        omega (arith, run.groups, e, get_elem?-lt table g (stands_row i g p q));
    same_group = λ i j a b k l p q r s.
        let left = stands_row i a p r in
        let right = stands_row j b q s in
        (λ same. cc (left, right, same), λ same. run.distinct a b k left (rw same right));
    one_each = run.firsts_length ∙ sym e;
    stands_for = λ g r p.
        let first = run.firsts g r p in
        let c = row-IsCoded r first.holds in
        let same : c.group ≡ g = run.distinct c.group g first.key c.stands first.stands in
        rw (← same) c.written;
  }

length-onto : (pairs done : List Pair) → length (onto pairs done) ≡ length pairs + length done
length-onto [] done = sym (zero-add (length done))
length-onto (p ∷ pairs) done = length-onto pairs (p ∷ done) ∙ omega arith

Perm-length : {xs ys : List Pair} → Permᴰ xs ys → length xs ≡ length ys
Perm-length Permᴰ.nil = refl
Perm-length (Permᴰ.cons e d) = ap suc (Perm-length d)
Perm-length (Permᴰ.swap e f) = refl
Perm-length (Permᴰ.trans d f) = Perm-length d ∙ Perm-length f

length-enumerate : (i : ℕ) (keys : List ℕ) → length (enumerate i keys) ≡ length keys
length-enumerate i [] = refl
length-enumerate i (k ∷ keys) = ap suc (length-enumerate (suc i) keys)

segment-IsGrouping :
    (keys : List ℕ) (sorted : List Pair)
    → 0 < length keys
    → length keys < 2 ^ 32
    → Permᴰ (enumerate 0 keys) sorted
    → Sorted sorted
    → IsGrouping keys (segment (length keys) sorted)
unfolding segment
segment-IsGrouping keys [] filled small perm up =
    absurd (omega (arith, Perm-length perm, length-enumerate 0 keys))
segment-IsGrouping keys (p ∷ pairs) filled small perm up =
    let size : suc (length pairs) ≡ length keys =
      sym (Perm-length perm) ∙ length-enumerate 0 keys in
    let held = Perm-All (Holds keys) perm (enumerate-Holds keys [] keys refl small) in
    let done =
      segment_rows-IsFinished keys pairs (p ∷ []) p.0 (p.0 ∷ []) (first_segment (length keys) p)
        (omega arith) up held.1 (first-IsRun keys p held.0) in
    let st : Segments = segment_rows p.0 pairs (first_segment (length keys) p) in
    let split = All-onto (IsCoded done.table st.row_to_group) pairs (p ∷ []) done.run.coded in
    let coded =
      Perm-All (IsCoded done.table st.row_to_group) (Permᴰ.symm perm) (split.1.0, split.0) in
    let few : st.cur_group + 1 < 2 ^ 32 = omega (arith, done.run.few, length-onto pairs (p ∷ [])) in
    finished-IsGrouping small done coded (mod-eq_of_lt few ∙ omega arith)

-- The sorted build too delivers a grouping of fewer than 2^32 rows, whatever order the sort gives
-- to rows of one key: rows are in one group exactly when their keys are equal, and each group has
-- a row of its own that stands for it, which need not be its first.
pub cpu_sort_segment-IsGrouping :
    (sort_unstable_by_key : List Pair → List Pair)
    → IsSort sort_unstable_by_key
    → (keys : List ℕ) → length keys < 2 ^ 32
    → IsGrouping keys (cpu_sort_segment sort_unstable_by_key keys)
unfolding cpu_sort_segment
cpu_sort_segment-IsGrouping sort sorts [] small = record {
  assigned = refl;
  in_range = λ i g p. cc;
  same_group = λ i j a b k l p q r s. cc;
  one_each = refl;
  stands_for = λ g r p. cc;
}
cpu_sort_segment-IsGrouping sort sorts (k ∷ keys) small =
    segment-IsGrouping (k ∷ keys) (sort (enumerate 0 (k ∷ keys))) (omega arith) small
      (sorts.same_pairs (enumerate 0 (k ∷ keys))) (sorts.ascending (enumerate 0 (k ∷ keys)))
