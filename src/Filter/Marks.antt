-- ===== src/Filter/Marks.antt =====
-- What a buffer holds when the writes of a grid have arrived, in whatever order.
use polars_metal.Base.{
  In, ℕ, ◌/◌, ◌<◌, ◌≡◌, refl, ap, ◌∙◌, ◌⊎◌, inl, inr, Bool, true, false, List, [], ◌∷◌, get_or, set,
  length, length-set, get_or-set, get_or-set_ne, nat_beq, nat_beq_iff, if◌then◌else◌, Bool-cases,
  Option-cases, arith,
}
use polars_metal.Buffer.Bitmap.{get_valid, set_valid}
use polars_metal.Buffer.Bitmap.Set.{get_valid-set_valid, set_valid-length}
use polars_metal.Filter.{store_all, mark, mark_all}

nat_beq_self : (i : ℕ) → nat_beq i i ≡ true
nat_beq_self i = (nat_beq_iff i i).1 refl

get_or-set_other :
    (dst : List ℕ) (j i u : ℕ) → nat_beq j i ≡ false → get_or (set dst j u) i 0 ≡ get_or dst i 0
get_or-set_other dst j i u other = get_or-set_ne dst j i u 0 (λ e. ground (arith, nat_beq_iff j i))

pub length-store_all :
    (order : List (ℕ × ℕ)) (dst : List ℕ) → length (store_all order dst) ≡ length dst
unfolding store_all
length-store_all [] dst = refl
length-store_all ((i, v) ∷ order) dst = length-store_all order (set dst i v) ∙ length-set dst i v

-- A slot to which only `v` is written holds `v`, if it held it before or `v` is written.
pub store_all-settled :
    (order : List (ℕ × ℕ)) (dst : List ℕ) (i v : ℕ)
    → i < length dst
    → ((u : ℕ) → In (i, u) order → u ≡ v)
    → (get_or dst i 0 ≡ v) ⊎ In (i, v) order
    → get_or (store_all order dst) i 0 ≡ v
unfolding store_all
store_all-settled [] dst i v h only (inl held) = held
store_all-settled [] dst i v h only (inr at) = absurd at
store_all-settled ((j, u) ∷ order) dst i v h only start = elim (Bool-cases (nat_beq j i)) [
  | inl same ↦
      let e : j ≡ i = (nat_beq_iff j i).0 same in
      store_all-settled order (set dst j u) i v (omega (arith, length-set dst j u))
        (λ w later. only w (inr later))
        (inl (
          rw (get_or-set dst j i u 0 (omega arith), same)
            (only u (inl (ap (λ (k : ℕ). (k, u)) e)))))
  | inr other ↦
      let kept : get_or (set dst j u) i 0 ≡ get_or dst i 0 = get_or-set_other dst j i u other in
      store_all-settled order (set dst j u) i v (omega (arith, length-set dst j u))
        (λ w later. only w (inr later))
        (elim start [
          | inl held ↦ inl (kept ∙ held)
          | inr (inl e) ↦ cc (nat_beq_self i, ap (λ (p : ℕ × ℕ). p.0) e, other)
          | inr (inr later) ↦ inr later
        ])
]

get_valid-mark :
    (bitmap : List ℕ) (row other : ℕ)
    → row / 8 < length bitmap
    → get_valid (mark bitmap row) other
      ≡ (if nat_beq row other then true else get_valid bitmap other)
unfolding mark
get_valid-mark bitmap row other h =
    let (after, done, reads) = get_valid-set_valid bitmap row other true h in rw (done, mark) reads

length-mark : (bitmap : List ℕ) (row : ℕ) → length (mark bitmap row) ≡ length bitmap
unfolding mark
length-mark bitmap row = elim (Option-cases (set_valid bitmap row true)) [
  | inl refused ↦ rw (refused, mark) refl
  | inr (after, done) ↦ rw (done, mark) (set_valid-length bitmap row true done)
]

pub length-mark_all : (order bitmap : List ℕ) → length (mark_all order bitmap) ≡ length bitmap
unfolding mark_all
length-mark_all [] bitmap = refl
length-mark_all (row ∷ order) bitmap =
    length-mark_all order (mark bitmap row) ∙ length-mark bitmap row

-- A bit is set if it was or is marked, and keeps its value if it is not marked.
pub mark_all-settled :
    (order bitmap : List ℕ) (i : ℕ) (v : Bool)
    → ((row : ℕ) → In row order → row / 8 < length bitmap)
    → (In i order → true ≡ v)
    → (get_valid bitmap i ≡ v) ⊎ In i order
    → get_valid (mark_all order bitmap) i ≡ v
unfolding mark_all
mark_all-settled [] bitmap i v inside only (inl held) = held
mark_all-settled [] bitmap i v inside only (inr at) = absurd at
mark_all-settled (row ∷ order) bitmap i v inside only start =
    let here = get_valid-mark bitmap row i (inside row (inl refl)) in
    let size = length-mark bitmap row in
    let later =
      mark_all-settled order (mark bitmap row) i v (λ r at. rw size (inside r (inr at)))
        (λ at. only (inr at)) in
    elim (Bool-cases (nat_beq row i)) [
      | inl same ↦
          let e : row ≡ i = (nat_beq_iff row i).0 same in
          later (inl (here ∙ rw same (only (inl e))))
      | inr other ↦ later (elim start [
        | inl held ↦ inl (here ∙ rw other held)
        | inr (inl e) ↦ cc (nat_beq_self i, e, other)
        | inr (inr at) ↦ inr at
      ])
    ]
