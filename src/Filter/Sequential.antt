-- ===== src/Filter/Sequential.antt =====
-- A grid that runs its threads one after the other, the last first.
use native.Mathlib.Decide.{dec_lt}
use mathlib.Core.Option.{some-injective}
use polars_metal.Base.{
  In, ℕ, zero, suc, ◌<◌, ◌≡◌, ◌≢◌, sym, ◌∙◌, subst, inl, inr, Option, none, some, List, [], ◌∷◌,
  Option-cases, arith,
}
use polars_metal.Filter.Schedules.{IsSchedule}

abbrev pub last_first : {A : Type 0} → ℕ → (ℕ → Option A) → List A
last_first zero write = []
last_first (suc n) write = elim (write n) [
  | none ↦ last_first n write
  | some w ↦ w ∷ last_first n write
]

before_last : (n gid : ℕ) → gid < suc n → gid ≢ n → gid < n
before_last n gid h far = omega arith

last_first_complete :
    {A : Type 0} (n : ℕ) (write : ℕ → Option A) (gid : ℕ) (w : A)
    → gid < n
    → write gid ≡ some w
    → In w (last_first n write)
last_first_complete zero write gid w h e = absurd (omega arith)
last_first_complete (suc n) write gid w h e = elim (Option-cases (write n)) [
  | inl idle ↦
      rw (idle, last_first)
        (last_first_complete n write gid w
          (before_last n gid h (λ same. cc (subst (λ k. write k ≡ some w) same e, idle))) e)
  | inr (u, wrote) ↦
      rw (wrote, last_first)
        (elim (dec_lt gid n) [
          | yes before ↦ inr (last_first_complete n write gid w before e)
          | no last ↦
              let same : gid ≡ n = omega arith in
              inl (some-injective _ _ (sym wrote ∙ subst (λ k. write k ≡ some w) same e))
        ])
]

last_first_sound :
    {A : Type 0} (n : ℕ) (write : ℕ → Option A) (w : A)
    → In w (last_first n write)
    → (gid : ℕ) × (gid < n) × (write gid ≡ some w)
last_first_sound zero write w at = absurd at
last_first_sound (suc n) write w at = elim (Option-cases (write n)) [
  | inl idle ↦
      let (gid, h, e) = last_first_sound n write w (rw (idle, last_first) at at) in
      (gid, omega arith, e)
  | inr (u, wrote) ↦
      let here : In w (u ∷ last_first n write) = rw (wrote, last_first) at at in
      elim here [
        | inl same ↦ (n, omega arith, rw (← same) wrote)
        | inr later ↦ let (gid, h, e) = last_first_sound n write w later in (gid, omega arith, e)
      ]
]

pub last_first-IsSchedule :
    {A : Type 0} (n : ℕ) (write : ℕ → Option A) → IsSchedule n write (last_first n write)
last_first-IsSchedule n write = record {
  complete = last_first_complete n write;
  sound = last_first_sound n write;
}
