-- ===== src/Groupby/Partitioned/Probe.antt =====
-- Open addressing: the probes of a table find what was entered, and end.
use polars_metal.Base.{
  ℕ, zero, suc, ◌+◌, ◌-◌, ◌<◌, ◌≡◌, refl, ap, sym, ◌∙◌, inl, inr, true, false, Option, none, some,
  [], ◌∷◌, bit_and, get_elem?, get_elem?-set, get_elem?-lt, set, replicate, nat_eq, nat_beq,
  nat_beq_iff, Bool-cases, Option-cases, arith,
}
use polars_metal.Groupby.Partitioned.{Slots, Probed, probe}

-- The empty slots.
abbrev pub vacant : Slots → ℕ
vacant [] = 0
vacant (none ∷ slots) = suc (vacant slots)
vacant (some entry ∷ slots) = vacant slots

pub vacant-replicate : (n : ℕ) → vacant (replicate n none) ≡ n
vacant-replicate zero = refl
vacant-replicate (suc n) = ap suc (vacant-replicate n)

pub vacant-set :
    (slots : Slots) (i : ℕ) (entry : ℕ × ℕ)
    → get_elem? slots i ≡ some none
    → suc (vacant (set slots i (some entry))) ≡ vacant slots
vacant-set [] i entry h = cc
vacant-set (none ∷ slots) zero entry h = refl
vacant-set (some e ∷ slots) zero entry h = cc
vacant-set (none ∷ slots) (suc i) entry h = ap suc (vacant-set slots i entry h)
vacant-set (some e ∷ slots) (suc i) entry h = vacant-set slots i entry h

pub vacant-some : (slots : Slots) → 0 < vacant slots → (i : ℕ) × (get_elem? slots i ≡ some none)
vacant-some [] h = absurd (omega arith)
vacant-some (none ∷ slots) h = (0, refl)
vacant-some (some e ∷ slots) h = let (i, at) = vacant-some slots h in (suc i, at)

-- Two probes that end at a vacancy end at one.
slot_of_end : Option Probed → ℕ
slot_of_end (some (Probed.empty i)) = i
slot_of_end other = 0

ended_at : {i j : ℕ} → some (Probed.empty i) ≡ some (Probed.empty j) → i ≡ j
unfolding slot_of_end
ended_at e = ap slot_of_end e

module _ (cap : ℕ) where
  abbrev pub step : ℕ → ℕ
  step idx = bit_and (idx + 1) (cap - 1)

  -- What one round of a probe does.
  pub probe-empty :
      (fuel : ℕ) (slots : Slots) (k idx : ℕ)
      → get_elem? slots idx ≡ some none
      → probe (suc fuel) slots cap k idx ≡ some (Probed.empty idx)
  unfolding probe
  probe-empty fuel slots k idx at = rw (at, probe) refl

  probe-found :
      (fuel : ℕ) (slots : Slots) (k idx g : ℕ)
      → get_elem? slots idx ≡ some (some (k, g))
      → probe (suc fuel) slots cap k idx ≡ some (Probed.found g)
  unfolding probe
  probe-found fuel slots k idx g at =
      let same : nat_beq k k ≡ true = (nat_beq_iff k k).1 refl in rw (at, same, probe) refl

  pub probe-other :
      (fuel : ℕ) (slots : Slots) (k idx j g : ℕ)
      → get_elem? slots idx ≡ some (some (j, g))
      → nat_beq j k ≡ false
      → probe (suc fuel) slots cap k idx ≡ probe fuel slots cap k (step idx)
  unfolding probe
  probe-other fuel slots k idx j g at other = rw (at, other, probe) refl

  -- The cases of a round.
  pub data Round (slots : Slots) (k idx : ℕ) : Type 0 where
    outside : get_elem? slots idx ≡ none → Round slots k idx
    vacancy : get_elem? slots idx ≡ some none → Round slots k idx
    match : (g : ℕ) → get_elem? slots idx ≡ some (some (k, g)) → Round slots k idx
    other :
        (j g : ℕ)
        → get_elem? slots idx ≡ some (some (j, g))
        → nat_beq j k ≡ false
        → Round slots k idx

  pub Round-of : (slots : Slots) (k idx : ℕ) → Round slots k idx
  Round-of slots k idx = elim (Option-cases (get_elem? slots idx)) [
    | inl none_there ↦ outside none_there
    | inr (entry, at) ↦ elim (Option-cases entry) [
      | inl blank ↦ vacancy (at ∙ ap some blank)
      | inr ((j, g), taken) ↦ elim (Bool-cases (nat_beq j k)) [
        | inl same ↦
            let e : j ≡ k = (nat_beq_iff j k).0 same in
            match g (at ∙ ap some (taken ∙ ap (λ (x : ℕ). some (x, g)) e))
        | inr differs ↦ other j g (at ∙ ap some taken) differs
      ]
    ]
  ]

  probe-outside :
      (fuel : ℕ) (slots : Slots) (k idx : ℕ)
      → get_elem? slots idx ≡ none
      → probe (suc fuel) slots cap k idx ≡ none
  unfolding probe
  probe-outside fuel slots k idx at = rw (at, probe) refl

  module _ (slots : Slots) (i : ℕ) (entry : ℕ × ℕ) (free : get_elem? slots i ≡ some none) where
    kept_slot :
        (j : ℕ) (e : ℕ × ℕ)
        → get_elem? slots j ≡ some (some e)
        → get_elem? (set slots i (some entry)) j ≡ some (some e)
    kept_slot j e at =
        ground
          (arith, get_elem?-set slots i j (some entry) (get_elem?-lt slots i free), nat_beq_iff i j)

    filled_slot : get_elem? (set slots i (some entry)) i ≡ some (some entry)
    filled_slot =
        ground
          (arith, get_elem?-set slots i i (some entry) (get_elem?-lt slots i free), nat_beq_iff i i)

    -- A probe that finds its key still finds it when an empty slot has been filled.
    pub probe-found-set :
        (fuel k idx g : ℕ)
        → probe fuel slots cap k idx ≡ some (Probed.found g)
        → probe fuel (set slots i (some entry)) cap k idx ≡ some (Probed.found g)
    unfolding probe
    probe-found-set zero k idx g h = cc
    probe-found-set (suc fuel) k idx g h = elim (Round-of slots k idx) [
      | outside at ↦ cc (probe-outside fuel slots k idx at, h)
      | vacancy at ↦ cc (probe-empty fuel slots k idx at, h)
      | match g' at ↦
          let moved =
            probe-found fuel (set slots i (some entry)) k idx g' (kept_slot idx (k, g') at) in
          moved ∙ sym (probe-found fuel slots k idx g' at) ∙ h
      | other j g' at differs ↦
          let moved =
            probe-other fuel (set slots i (some entry)) k idx j g' (kept_slot idx (j, g') at)
              differs in
          moved
          ∙ probe-found-set fuel k (step idx) g
              (sym (probe-other fuel slots k idx j g' at differs) ∙ h)
    ]

  -- A probe that ended at an empty slot finds the key that is entered there.
  pub probe-entered :
      (fuel : ℕ) (slots : Slots) (k idx i g : ℕ)
      → get_elem? slots i ≡ some none
      → probe fuel slots cap k idx ≡ some (Probed.empty i)
      → probe fuel (set slots i (some (k, g))) cap k idx ≡ some (Probed.found g)
  unfolding probe
  probe-entered zero slots k idx i g free h = cc
  probe-entered (suc fuel) slots k idx i g free h = elim (Round-of slots k idx) [
    | outside at ↦ cc (probe-outside fuel slots k idx at, h)
    | vacancy at ↦
        let same : idx ≡ i = ended_at (sym (probe-empty fuel slots k idx at) ∙ h) in
        rw same
          (probe-found fuel (set slots i (some (k, g))) k i g (filled_slot slots i (k, g) free))
    | match g' at ↦ cc (probe-found fuel slots k idx g' at, h)
    | other j g' at differs ↦
        probe-other fuel (set slots i (some (k, g))) k idx j g'
          (kept_slot slots i (k, g) free idx (j, g') at) differs
        ∙ probe-entered fuel slots k (step idx) i g free
            (sym (probe-other fuel slots k idx j g' at differs) ∙ h)
  ]

  -- Where a probe ended is empty.
  pub probe-vacancy :
      (fuel : ℕ) (slots : Slots) (k idx i : ℕ)
      → probe fuel slots cap k idx ≡ some (Probed.empty i)
      → get_elem? slots i ≡ some none
  unfolding probe
  probe-vacancy zero slots k idx i h = cc
  probe-vacancy (suc fuel) slots k idx i h = elim (Round-of slots k idx) [
    | outside at ↦ cc (probe-outside fuel slots k idx at, h)
    | vacancy at ↦
        let same : idx ≡ i = ended_at (sym (probe-empty fuel slots k idx at) ∙ h) in rw (← same) at
    | match g' at ↦ cc (probe-found fuel slots k idx g' at, h)
    | other j g' at differs ↦
        probe-vacancy fuel slots k (step idx) i
          (sym (probe-other fuel slots k idx j g' at differs) ∙ h)
  ]
