-- ===== src/Groupby/Sorted/Tests.antt =====
-- A sort that turns rows of one key around, and the sorted build with it.
use mathlib.Core.List.{Permᴰ}
use mathlib.Core.List.Permᴰ
use polars_metal.Base.{
  ℕ, ◌≤◌, ◌≡◌, refl, List, [], ◌∷◌, ltb, if◌then◌else◌, arith, Bool-cases, inl, inr,
}
use polars_metal.Groupby.Build.Grouping.{IsGrouping}
use polars_metal.Groupby.Sorted.{Pair, cpu_sort_segment}
use polars_metal.Groupby.Sorted.Permuted.{Sorted, IsSort}
use polars_metal.Groupby.Sorted.Runs.{Ascending}
use polars_metal.Groupby.Sorted.Grouped.{cpu_sort_segment-IsGrouping}

abbrev put_in : Pair → List Pair → List Pair
put_in p [] = p ∷ []
put_in p (q ∷ pairs) = if ltb p.0 q.0 then p ∷ q ∷ pairs else q ∷ put_in p pairs

abbrev turned_sort : List Pair → List Pair
turned_sort [] = []
turned_sort (p ∷ pairs) = put_in p (turned_sort pairs)

put_in-Perm : (p : Pair) (pairs : List Pair) → Permᴰ (p ∷ pairs) (put_in p pairs)
put_in-Perm p [] = Permᴰ.refl (p ∷ [])
put_in-Perm p (q ∷ pairs) = elim (Bool-cases (ltb p.0 q.0)) [
  | inl less ↦ rw less (Permᴰ.refl (p ∷ q ∷ pairs))
  | inr more ↦ rw more (Permᴰ.trans (Permᴰ.swap refl refl) (Permᴰ.cons refl (put_in-Perm p pairs)))
]

turned_sort-Perm : (pairs : List Pair) → Permᴰ pairs (turned_sort pairs)
turned_sort-Perm [] = Permᴰ.nil
turned_sort-Perm (p ∷ pairs) =
    Permᴰ.trans (Permᴰ.cons refl (turned_sort-Perm pairs)) (put_in-Perm p (turned_sort pairs))

put_in-Ascending :
    (k : ℕ) (p : Pair) (pairs : List Pair)
    → k ≤ p.0
    → Ascending k pairs
    → Ascending k (put_in p pairs)
put_in-Ascending k p [] h up = (h, tt)
put_in-Ascending k p (q ∷ pairs) h up = elim (Bool-cases (ltb p.0 q.0)) [
  | inl less ↦ rw less (h, (ground (arith, less), up.1))
  | inr more ↦ rw more (up.0, put_in-Ascending q.0 p pairs (ground (arith, more)) up.1)
]

Sorted-Ascending : (pairs : List Pair) → Sorted pairs → Ascending 0 pairs
Sorted-Ascending [] h = tt
Sorted-Ascending (p ∷ pairs) h = (omega arith, h)

Ascending-Sorted : (pairs : List Pair) → Ascending 0 pairs → Sorted pairs
Ascending-Sorted [] h = tt
Ascending-Sorted (p ∷ pairs) h = h.1

turned_sort-Ascending : (pairs : List Pair) → Ascending 0 (turned_sort pairs)
turned_sort-Ascending [] = tt
turned_sort-Ascending (p ∷ pairs) =
    put_in-Ascending 0 p (turned_sort pairs) (omega arith) (turned_sort-Ascending pairs)

turned_sort-IsSort : IsSort turned_sort
turned_sort-IsSort = record {
  same_pairs = turned_sort-Perm;
  ascending = λ pairs. Ascending-Sorted (turned_sort pairs) (turned_sort-Ascending pairs);
}

-- The group of the key 4 is noted with its row 2, although its first row is 0.
later_row_noted :
    cpu_sort_segment turned_sort (4 ∷ 9 ∷ 4 ∷ [])
    ≡ record { row_to_group = 0 ∷ 1 ∷ 0 ∷ []; first_row_per_group = 2 ∷ 1 ∷ []; n_groups = 2 }
unfolding cpu_sort_segment
later_row_noted = refl

cpu_sort_segment-IsGrouping_example :
    IsGrouping (4 ∷ 9 ∷ 4 ∷ []) (cpu_sort_segment turned_sort (4 ∷ 9 ∷ 4 ∷ []))
cpu_sort_segment-IsGrouping_example =
    cpu_sort_segment-IsGrouping turned_sort turned_sort-IsSort (4 ∷ 9 ∷ 4 ∷ []) (omega arith)
