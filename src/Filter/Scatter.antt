-- ===== src/Filter/Scatter.antt =====
-- The scatter kernels: which row writes where, and what their buffers hold afterwards.
use native.Mathlib.Nat.{zero-add, zero-div}
use mathlib.Core.Option.{some-injective}
use polars_metal.Base.{
  In, ℕ, suc, ◌+◌, ◌-◌, ◌*◌, ◌/◌, ◌%◌, ◌^◌, ◌≤◌, ◌<◌, ◌≡◌, ◌≢◌, refl, ap, sym, ◌∙◌, inl, inr, Bool,
  true, false, Option, some, List, get_or, get_or-replicate, get_elem?, get_elem?-replicate,
  replicate, length, length-replicate, tabulate, length-tabulate, get_or-tabulate, nat_eq,
  Bool-cases, Option-cases, arith,
}
use polars_metal.Buffer.Bitmap.{get_valid}
use polars_metal.Filter.{out_idx, slot_write, bit_write, store_all, mark_all}
use polars_metal.Filter.Schedules.{IsSchedule}
use polars_metal.Filter.Marks.{store_all-settled, mark_all-settled}
use polars_metal.Filter.Ranks.{
  prefix_sums, survivors, AreFlags, rank-IsRanked, place-row, length-survivors,
  length-survivors-ext,
}

abbrev pub kept : List ℕ → ℕ
kept keep = length (survivors keep keep)

-- The bits of a bitmap as a list.
abbrev pub row_flags : List ℕ → ℕ → List Bool
row_flags bitmap n = tabulate 0 n (get_valid bitmap)

pub get_valid-blank : (room i : ℕ) → get_valid (replicate room 0) i ≡ false
unfolding get_valid
get_valid-blank room i = elim (Option-cases (get_elem? (replicate {A = ℕ} room 0) (i / 8))) [
  | inl outside ↦ rw (outside, get_valid) refl
  | inr (b, at) ↦
      let nought : b ≡ 0 = get_elem?-replicate room (i / 8) 0 at in
      let none_set : b / 2 ^ (i % 8) ≡ 0 = rw nought (zero-div (2 ^ (i % 8))) in
      rw (at, get_valid, none_set) refl
]

module _ (keep : List ℕ) (flags : AreFlags keep) (small : length keep < 2 ^ 32) where
  abbrev pub aim : ℕ → Option ℕ
  aim gid = out_idx keep (prefix_sums 0 keep) (length keep) gid

  aim-some :
      (gid out : ℕ)
      → aim gid ≡ some out
      → (gid < length keep)
        × (get_or keep gid 0 ≢ 0)
        × (out ≡ (get_or (prefix_sums 0 keep) gid 0 + 2 ^ 32 - 1) % 2 ^ 32)
  aim-some gid out h = (ground arith, ground arith, ground arith)

  aim-kept :
      (gid p : ℕ)
      → gid < length keep
      → get_or keep gid 0 ≢ 0
      → get_or (prefix_sums 0 keep) gid 0 ≡ suc p
      → p < 2 ^ 32
      → aim gid ≡ some p
  aim-kept gid p h k e below = ground arith

  -- A row that writes, writes to its place among the survivors.
  pub aim-place {ℓ} :
      {A : Type ℓ} (d : A) (xs : List A) (gid out : ℕ)
      → length keep ≡ length xs
      → aim gid ≡ some out
      → (out < kept keep) × (get_or (survivors keep xs) out d ≡ get_or xs gid d)
  aim-place d xs gid out same h =
      let (inside, taken, at) = aim-some gid out h in
      let r = rank-IsRanked d 0 keep xs gid flags same inside taken in
      let size = length-survivors-ext keep xs keep (sym same) in
      let most = length-survivors 0 keep keep in
      let e : get_or (prefix_sums 0 keep) gid 0 - 1 - 0 ≡ out =
        omega (arith, r.above, r.below, size, most, small, at) in
      (omega (arith, r.above, r.below, size, most, small, at), rw (← e) r.stands)

  -- Every place has a row that writes to it.
  pub place-aim : (i : ℕ) → i < kept keep → (gid : ℕ) × (gid < length keep) × (aim gid ≡ some i)
  place-aim i h =
      let (gid, inside, taken, at) = place-row 0 0 keep keep i flags h in
      let most = length-survivors 0 keep keep in
      (gid, inside, aim-kept gid i inside taken (omega (arith, at)) (omega (arith, most, small)))

  slot_writes :
      (sentinel : ℕ) (src : List ℕ) (gid out : ℕ)
      → aim gid ≡ some out
      → out < kept keep
      → slot_write sentinel src (aim gid) (kept keep) gid ≡ some (out, get_or src gid 0)
  slot_writes sentinel src gid out aims h = rw aims (ground arith)

  slot_written :
      (sentinel : ℕ) (src : List ℕ) (gid j u : ℕ)
      → length keep ≡ length src
      → slot_write sentinel src (aim gid) (kept keep) gid ≡ some (j, u)
      → (j < kept keep) × (u ≡ get_or (survivors keep src) j 0)
  slot_written sentinel src gid j u same writes = elim (Option-cases (aim gid)) [
    | inl idle ↦ cc (rw idle at writes)
    | inr (out, aims) ↦
        let (below, value) = aim-place 0 src gid out same aims in
        let here : (out, get_or src gid 0) ≡ (j, u) =
          some-injective _ _ (sym (slot_writes sentinel src gid out aims below) ∙ writes) in
        let at : out ≡ j = ap (λ (p : ℕ × ℕ). p.0) here in
        let wrote : get_or src gid 0 ≡ u = ap (λ (p : ℕ × ℕ). p.1) here in
        (rw (← at) below, sym wrote ∙ sym value ∙ ap (λ k. get_or (survivors keep src) k 0) at)
  ]

  -- The slots hold the survivors, and the slot behind them is untouched.
  pub slots-survivors :
      (sentinel : ℕ) (src : List ℕ) (order : List (ℕ × ℕ))
      → length keep ≡ length src
      → IsSchedule (length keep) (λ gid. slot_write sentinel src (aim gid) (kept keep) gid) order
      → ((i : ℕ)
          → i < kept keep
          → get_or (store_all order (replicate (kept keep + 1) 0)) i 0
            ≡ get_or (survivors keep src) i 0)
        × (get_or (store_all order (replicate (kept keep + 1) 0)) (kept keep) 0 ≡ 0)
  slots-survivors sentinel src order same schedule =
      let blank : List ℕ = replicate (kept keep + 1) 0 in
      let size : length blank ≡ kept keep + 1 = length-replicate (kept keep + 1) 0 in
      let written = λ (j u : ℕ) (at : In (j, u) order).
        let (gid, inside, writes) = schedule.sound (j, u) at in
        slot_written sentinel src gid j u same writes in
      (
        λ i h.
            let (gid, inside, aims) = place-aim i h in
            let (below, value) = aim-place 0 src gid i same aims in
            store_all-settled order blank i (get_or (survivors keep src) i 0) (omega (arith, size))
              (λ u at. (written i u at).1)
              (inr (
                schedule.complete gid (i, get_or (survivors keep src) i 0) inside
                  (rw value (slot_writes sentinel src gid i aims below)))),
        store_all-settled order blank (kept keep) 0 (omega (arith, size))
            (λ u at. absurd (omega (arith, (written (kept keep) u at).0)))
            (inl (get_or-replicate (kept keep + 1) (kept keep) 0)),
      )

  bit_writes :
      (bitmap : List ℕ) (gid out : ℕ)
      → aim gid ≡ some out
      → out < kept keep
      → get_valid bitmap gid ≡ true
      → bit_write bitmap (aim gid) (kept keep) gid ≡ some out
  bit_writes bitmap gid out aims h isset = rw aims (ground arith)

  -- A row's bit among the survivors.
  bit-survivor :
      (bitmap : List ℕ) (gid out : ℕ)
      → gid < length keep
      → aim gid ≡ some out
      → (out < kept keep)
        × (get_or (survivors keep (row_flags bitmap (length keep))) out false
            ≡ get_valid bitmap gid)
  bit-survivor bitmap gid out inside aims =
      let size = length-tabulate 0 (length keep) (get_valid bitmap) in
      let (below, value) =
        aim-place false (row_flags bitmap (length keep)) gid out (sym size) aims in
      (
        below,
        value
            ∙ get_or-tabulate 0 (length keep) (get_valid bitmap) gid false inside
            ∙ ap (get_valid bitmap) (zero-add gid),
      )

  bit_written :
      (bitmap : List ℕ) (gid j : ℕ)
      → gid < length keep
      → bit_write bitmap (aim gid) (kept keep) gid ≡ some j
      → (j < kept keep) × (get_or (survivors keep (row_flags bitmap (length keep))) j false ≡ true)
  bit_written bitmap gid j inside writes = elim (Option-cases (aim gid)) [
    | inl idle ↦ cc (rw idle at writes)
    | inr (out, aims) ↦
        let (below, value) = bit-survivor bitmap gid out inside aims in
        elim (Bool-cases (get_valid bitmap gid)) [
          | inl isset ↦
              let at : out ≡ j =
                some-injective _ _ (sym (bit_writes bitmap gid out aims below isset) ∙ writes) in
              (rw (← at) below, rw (← at) (value ∙ isset))
          | inr clear ↦
              let moved : bit_write bitmap (some out) (kept keep) gid ≡ some j =
                rw aims at writes in
              absurd (ground (arith, moved, clear))
        ]
  ]

  -- The marked bits are the survivors of the source's bits.
  pub bits-survivors :
      (bitmap order : List ℕ) (room i : ℕ)
      → IsSchedule (length keep) (λ gid. bit_write bitmap (aim gid) (kept keep) gid) order
      → kept keep ≤ room * 8
      → i < kept keep
      → get_valid (mark_all order (replicate room 0)) i
        ≡ get_or (survivors keep (row_flags bitmap (length keep))) i false
  bits-survivors bitmap order room i schedule fits h =
      let (gid, inside, aims) = place-aim i h in
      let (below, value) = bit-survivor bitmap gid i inside aims in
      let size : length (replicate {A = ℕ} room 0) ≡ room = length-replicate room 0 in
      let written = λ (j : ℕ) (at : In j order).
        let (g, within, writes) = schedule.sound j at in bit_written bitmap g j within writes in
      mark_all-settled order (replicate room 0) i
        (get_or (survivors keep (row_flags bitmap (length keep))) i false)
        (λ row at. omega (arith, (written row at).0, size)) (λ at. sym (written i at).1)
        (elim (Bool-cases (get_valid bitmap gid)) [
          | inl isset ↦
              inr (schedule.complete gid i inside (bit_writes bitmap gid i aims below isset))
          | inr clear ↦ inl (get_valid-blank room i ∙ sym (value ∙ clear))
        ])
