-- ===== src/Groupby/Partitioned/Numbers.antt =====
-- The numbers of the groups: those of a partition follow those of the partitions before it.
use native.Mathlib.Nat.{add-zero, zero-add}
use polars_metal.Base.{
  ℕ, zero, suc, ◌+◌, ◌%◌, ◌^◌, ◌<◌, ◌≡◌, refl, ap, sym, ◌∙◌, inl, inr, ◌⊎◌, some, List, [], ◌∷◌,
  ◌++◌, map, concat, length, length-append, get_elem?, get_elem?-append_left, get_or, arith,
}
use polars_metal.Groupby.Partitioned.{offsets}
use polars_metal.Groupby.Partitioned.Partitions.{Distinct}

get_elem?-append_right :
    (xs ys : List ℕ) (i : ℕ) → get_elem? (xs ++ ys) (length xs + i) ≡ get_elem? ys i
get_elem?-append_right [] ys i = ap (get_elem? ys) (zero-add i)
get_elem?-append_right (x ∷ xs) ys i =
    let e : suc (length xs) + i ≡ suc (length xs + i) = omega arith in
    rw e (get_elem?-append_right xs ys i)

-- A number of the whole is one of the left or one of the right.
append_split :
    (xs ys : List ℕ) (i : ℕ) {k : ℕ}
    → get_elem? (xs ++ ys) i ≡ some k
    → (get_elem? xs i ≡ some k) ⊎ ((j : ℕ) × (i ≡ length xs + j) × (get_elem? ys j ≡ some k))
append_split [] ys i h = inr (i, sym (zero-add i), h)
append_split (x ∷ xs) ys zero h = inl h
append_split (x ∷ xs) ys (suc i) h = elim (append_split xs ys i h) [
  | inl left ↦ inl left
  | inr (j, e, right) ↦ inr (j, omega (arith, e), right)
]

next_offset :
    (acc : ℕ) (xs : List ℕ) (names : List (List ℕ))
    → acc + length (concat (xs ∷ names)) < 2 ^ 32
    → (acc + length xs % 2 ^ 32) % 2 ^ 32 ≡ acc + length xs
next_offset acc xs names room = omega (arith, room, length-append {0} xs (concat names))

-- The offset of partition `q`, and a number in it.
pub offsets-concat :
    (acc : ℕ) (names : List (List ℕ)) (q l : ℕ) {k : ℕ}
    → acc + length (concat names) < 2 ^ 32
    → get_elem? (get_or names q []) l ≡ some k
    → (s : ℕ) × (get_or (offsets acc (map length names)) q 0 ≡ acc + s)
      × (get_elem? (concat names) (s + l) ≡ some k)
unfolding offsets
offsets-concat acc [] q l room h = cc
offsets-concat acc (xs ∷ names) zero l room h =
    (0, sym (add-zero acc), rw (zero-add l) (get_elem?-append_left xs (concat names) l h))
offsets-concat acc (xs ∷ names) (suc q) l room h =
    let fits : acc + length xs + length (concat names) < 2 ^ 32 =
      omega (arith, room, length-append {0} xs (concat names)) in
    let next = next_offset acc xs names room in
    let (s, at, held) = offsets-concat (acc + length xs) names q l fits h in
    let e : length xs + s + l ≡ length xs + (s + l) = omega arith in
    (
      length xs + s,
      rw next (at ∙ omega arith),
      rw e (get_elem?-append_right xs (concat names) (s + l) ∙ held),
    )

-- The last offset is the number of groups.
pub offsets-last :
    (acc : ℕ) (names : List (List ℕ)) {n : ℕ}
    → acc + length (concat names) < 2 ^ 32
    → length names ≡ n
    → get_or (offsets acc (map length names)) n 0 ≡ acc + length (concat names)
unfolding offsets
offsets-last acc [] {n} room e = rw (← e) (sym (add-zero acc))
offsets-last acc (xs ∷ names) {n} room e =
    let fits : acc + length xs + length (concat names) < 2 ^ 32 =
      omega (arith, room, length-append {0} xs (concat names)) in
    rw (← e, next_offset acc xs names room)
      (offsets-last (acc + length xs) names fits refl
        ∙ omega (arith, length-append {0} xs (concat names)))

-- A number of the whole is a number in a partition.
pub concat-part :
    (names : List (List ℕ)) (g : ℕ) {k : ℕ}
    → get_elem? (concat names) g ≡ some k
    → (q l : ℕ) × (get_elem? (get_or names q []) l ≡ some k)
concat-part [] g h = cc
concat-part (xs ∷ names) g h = elim (append_split xs (concat names) g h) [
  | inl left ↦ (0, g, left)
  | inr (j, e, right) ↦ let (q, l, at) = concat-part names j right in (suc q, l, at)
]

-- Keys of different partitions differ, so that a key has one number in the whole.
pub concat-Distinct :
    (owner : ℕ → ℕ) (base : ℕ) (names : List (List ℕ))
    → ((q : ℕ) → Distinct (get_or names q []))
    → ((q l k : ℕ) → get_elem? (get_or names q []) l ≡ some k → owner k ≡ base + q)
    → Distinct (concat names)
concat-Distinct owner base [] each owned a b k p q = cc
concat-Distinct owner base (xs ∷ names) each owned a b k p q =
    let later : Distinct (concat names) =
      concat-Distinct owner (suc base) names (λ i. each (suc i))
        (λ i l j at. owned (suc i) l j at ∙ omega arith) in
    elim (append_split xs (concat names) a p) [
      | inl left ↦ elim (append_split xs (concat names) b q) [
        | inl left' ↦ each 0 a b k left left'
        | inr (j, e, right) ↦
            let (i, l, at) = concat-part names j right in
            absurd (omega (arith, owned 0 a k left, owned (suc i) l k at))
      ]
      | inr (j, e, right) ↦ elim (append_split xs (concat names) b q) [
        | inl left ↦
            let (i, l, at) = concat-part names j right in
            absurd (omega (arith, owned 0 b k left, owned (suc i) l k at))
        | inr (j', e', right') ↦ omega (arith, e, e', later j j' k right right')
      ]
    ]
