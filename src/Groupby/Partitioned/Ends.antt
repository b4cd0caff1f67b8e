-- ===== src/Groupby/Partitioned/Ends.antt =====
-- A probe of a table with an empty slot ends within as many rounds as there are slots.
use native.Mathlib.Nat.{mod-eq_of_lt, mod_self}
use native.Mathlib.Decide.{dec_lt}
use polars_metal.Base.Bits.{bit_and_mask}
use polars_metal.Base.{
  ℕ, zero, suc, ◌+◌, ◌-◌, ◌%◌, ◌^◌, ◌≤◌, ◌<◌, ◌≡◌, ◌≢◌, ap, ◌∙◌, inl, inr, ◌⊎◌, none, some, length,
  get_elem?, get_elem?-some, arith,
}
use polars_metal.Groupby.Partitioned.{Slots, Probed, probe}
use polars_metal.Groupby.Partitioned.Probe.{
  step, Round-of, probe-empty, probe-other, outside, vacancy, match, other,
}

module _ (c cap : ℕ) (power : cap ≡ 2 ^ c) where
  -- The masked step is the step round the table.
  step-mod : (idx : ℕ) → step cap idx ≡ (idx + 1) % cap
  step-mod idx = rw power (bit_and_mask c (idx + 1))

  step-inside : (idx : ℕ) → idx + 1 < cap → step cap idx ≡ idx + 1
  step-inside idx h = step-mod idx ∙ mod-eq_of_lt h

  step-round : (idx : ℕ) → idx + 1 ≡ cap → step cap idx ≡ 0
  step-round idx h = step-mod idx ∙ ap (λ (n : ℕ). n % cap) h ∙ mod_self cap

  -- The slot `e` is less than `fuel` rounds away.
  abbrev Ahead : ℕ → ℕ → ℕ → Type 0
  Ahead fuel idx e = ((idx ≤ e) × (e - idx < fuel)) ⊎ ((e < idx) × (e + cap - idx < fuel))

  step-Ahead :
      (fuel idx e : ℕ)
      → idx < cap
      → e < cap
      → idx ≢ e
      → Ahead (suc fuel) idx e
      → Ahead fuel (step cap idx) e × (step cap idx < cap)
  step-Ahead fuel idx e inside room apart ahead = elim (dec_lt (idx + 1) cap) [
    | yes within ↦ rw (step-inside idx within) (elim ahead [
      | inl before ↦ (inl (omega (arith, before.0, before.1)), within)
      | inr after ↦ (inr (omega (arith, after.0, after.1)), within)
    ])
    | no last ↦ rw (step-round idx (omega arith)) (elim ahead [
      | inl before ↦ absurd (omega (arith, before.0))
      | inr after ↦ (inl (omega (arith, after.0, after.1)), omega arith)
    ])
  ]

  pub probe-ends :
      (fuel : ℕ) (slots : Slots) (k idx e : ℕ)
      → length slots ≡ cap
      → ((i g : ℕ) → get_elem? slots i ≢ some (some (k, g)))
      → idx < cap
      → e < cap
      → get_elem? slots e ≡ some none
      → Ahead fuel idx e
      → (i : ℕ) × (probe fuel slots cap k idx ≡ some (Probed.empty i))
  probe-ends zero slots k idx e size absent inside room free (inl before) =
      absurd (omega (arith, before.1))
  probe-ends zero slots k idx e size absent inside room free (inr after) =
      absurd (omega (arith, after.1))
  probe-ends (suc fuel) slots k idx e size absent inside room free ahead =
      elim (Round-of cap slots k idx) [
        | outside at ↦ let (entry, there) = get_elem?-some slots idx (omega (arith, size)) in cc
        | vacancy at ↦ (idx, probe-empty cap fuel slots k idx at)
        | match g at ↦ absurd (absent idx g at)
        | other j g at differs ↦
            let apart : idx ≢ e = λ same. cc (ap (get_elem? slots) same, at, free) in
            let (nearer, within) = step-Ahead fuel idx e inside room apart ahead in
            let (i, done) =
              probe-ends fuel slots k (step cap idx) e size absent within room free nearer in
            (i, probe-other cap fuel slots k idx j g at differs ∙ done)
      ]
