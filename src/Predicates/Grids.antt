-- ===== src/Predicates/Grids.antt =====
-- What the outputs of a dispatch hold: the values of its rows, whatever the order of its threads.
use mathlib.Core.List.{append-nil}
use polars_metal.Base.{
  In, ℕ, ◌*◌, ◌/◌, ◌^◌, ◌≤◌, ◌<◌, ◌≡◌, refl, ap, sym, ◌∙◌, subst, inl, inr, Bool, true, false,
  Option, none, some, List, [], ◌++◌, ◌==◌, if◌then◌else◌, nat_eq, nat_beq_iff, length,
  length-replicate, replicate, drop, drop-all, ltb, Bool-cases, Option-cases, ok, arith,
}
use polars_metal.Buffer.Bitmap.{get_valid}
use polars_metal.Filter.{mark_all, copy_into, try_u32}
use polars_metal.Filter.Schedules.{IsSchedule}
use polars_metal.Filter.Marks.{mark_all-settled, length-mark_all}
use polars_metal.Filter.Scatter.{get_valid-blank}
use polars_metal.Compaction.Passes.{room_for}
use polars_metal.Predicates.{
  Grid, out_min_bytes, data_bit, valid_bit, cleared, run_rows, into_outputs, outputs,
}

-- A grid that works.
abbrev pub IsRunning : Grid → Type 0
IsRunning grid =
    (n : ℕ) (bit mark : ℕ → Option ℕ)
    → (bits : List ℕ) × (marks : List ℕ) × (grid n bit mark ≡ ok (bits, marks))
      × IsSchedule n bit bits
      × IsSchedule n mark marks

-- The value of a row of a bit-packed nullable column.
abbrev pub cell : List ℕ → List ℕ → ℕ → Option Bool
cell data_bytes valid i = if get_valid valid i then some (get_valid data_bytes i) else none

pub record Answers (row : ℕ → Option Bool) (n : ℕ) (out : List ℕ × List ℕ) : Type 0 where
  pub size : length out.0 ≡ out_min_bytes n
  pub valid_size : length out.1 ≡ out_min_bytes n
  pub cells : (i : ℕ) → i < n → cell out.0 out.1 i ≡ row i

data_bit-some :
    (row : ℕ → Option Bool) (gid j : ℕ)
    → data_bit row gid ≡ some j
    → (gid ≡ j) × (row gid ≡ some true)
data_bit-some row gid j h = elim (Option-cases (row gid)) [
  | inl blank ↦ cc (rw (blank, data_bit) at h)
  | inr (b, known) ↦ elim (Bool-cases b) [
    | inl set ↦ (
      ap (λ o. elim o [ none ↦ gid | some k ↦ k ]) (rw (known, data_bit, set) at h),
      known ∙ ap some set,
    )
    | inr clear ↦ cc (rw (known, data_bit, clear) at h)
  ]
]

valid_bit-some :
    (row : ℕ → Option Bool) (gid j : ℕ)
    → valid_bit row gid ≡ some j
    → (gid ≡ j) × ((b : Bool) × (row gid ≡ some b))
valid_bit-some row gid j h = elim (Option-cases (row gid)) [
  | inl blank ↦ cc (rw (blank, valid_bit) at h)
  | inr (b, known) ↦
      (ap (λ o. elim o [ none ↦ gid | some k ↦ k ]) (rw (known, valid_bit) at h), (b, known))
]

module _ (row : ℕ → Option Bool) (n m : ℕ) (room : n ≤ m * 8) where
  abbrev blank : List ℕ
  blank = replicate m 0

  inside :
      (write : ℕ → Option ℕ) (order : List ℕ)
      → IsSchedule n write order
      → ((gid j : ℕ) → write gid ≡ some j → gid ≡ j)
      → (i : ℕ) → In i order
      → i / 8 < length blank
  inside write order schedule own i at =
      let (gid, below, wrote) = schedule.sound i at in
      omega (arith, length-replicate {A = ℕ} m 0, room, below, own gid i wrote)

  data_settled :
      (order : List ℕ)
      → IsSchedule n (data_bit row) order
      → (i : ℕ) (b : Bool) → i < n
      → row i ≡ some b
      → get_valid (mark_all order blank) i ≡ b
  data_settled order schedule i b below known =
      mark_all-settled order blank i b
        (inside (data_bit row) order schedule (λ gid j h. (data_bit-some row gid j h).0))
        (λ at.
          let (gid, less, wrote) = schedule.sound i at in
          let (e, is_true) = data_bit-some row gid i wrote in
          ap (λ o. elim o [ none ↦ true | some c ↦ c ]) (sym is_true ∙ ap row e ∙ known))
        (elim (Bool-cases b) [
          | inl set ↦ inr (schedule.complete i i below (rw (known, data_bit, set) refl))
          | inr clear ↦ inl (get_valid-blank m i ∙ sym clear)
        ])

  valid_settled :
      (order : List ℕ)
      → IsSchedule n (valid_bit row) order
      → (i : ℕ) → i < n
      → get_valid (mark_all order blank) i ≡ elim (row i) [ none ↦ false | some b ↦ true ]
  valid_settled order schedule i below = elim (Option-cases (row i)) [
    | inl null ↦ rw null (
        mark_all-settled order blank i false
          (inside (valid_bit row) order schedule (λ gid j h. (valid_bit-some row gid j h).0))
          (λ at.
            let (gid, less, wrote) = schedule.sound i at in
            let (e, (b, known)) = valid_bit-some row gid i wrote in
            cc (sym known ∙ ap row e ∙ null))
          (inl (get_valid-blank m i)))
    | inr (b, known) ↦ rw known (
        mark_all-settled order blank i true
          (inside (valid_bit row) order schedule (λ gid j h. (valid_bit-some row gid j h).0))
          (λ at. refl) (inr (schedule.complete i i below (rw (known, valid_bit) refl))))
  ]

  cells_settled :
      (bits marks : List ℕ)
      → IsSchedule n (data_bit row) bits
      → IsSchedule n (valid_bit row) marks
      → (i : ℕ) → i < n
      → cell (mark_all bits blank) (mark_all marks blank) i ≡ row i
  cells_settled bits marks bit_schedule mark_schedule i below =
      let valid = valid_settled marks mark_schedule i below in
      elim (Option-cases (row i)) [
        | inl null ↦ rw (valid, null) refl
        | inr (b, known) ↦ rw (valid, known, data_settled bits bit_schedule i b below known) refl
      ]

copied : (new dst : List ℕ) → length new ≡ length dst → copy_into new dst ≡ new
copied new dst same =
    let rest : drop (length new) dst ≡ [] = rw same (drop-all dst) in rw rest (append-nil new)

module _ (grid : Grid) (running : IsRunning grid) (row : ℕ → Option Bool) (n : ℕ)
    (small : n < 2 ^ 32) where
  run_rows-Answers :
      (out : List ℕ × List ℕ) × (run_rows grid row n (outputs n) (outputs n) ≡ ok out)
      × Answers row n out
  unfolding run_rows
  run_rows-Answers =
      let (bits, marks, runs, bit_schedule, mark_schedule) =
        running n (data_bit row) (valid_bit row) in
      let fits : try_u32 n ≡ some n = ground (arith, small) in
      let size = length-mark_all bits (outputs n) in
      let valid_size = length-mark_all marks (outputs n) in
      let data_out = copied (mark_all bits (outputs n)) (outputs n) size in
      let valid_out = copied (mark_all marks (outputs n)) (outputs n) valid_size in
      let blank_size : length (outputs n) ≡ out_min_bytes n =
        length-replicate {A = ℕ} (out_min_bytes n) 0 in
      (
        (mark_all bits (outputs n), mark_all marks (outputs n)),
        rw (fits, runs, run_rows, data_out, valid_out) refl,
        record {
          size = size ∙ blank_size;
          valid_size = valid_size ∙ blank_size;
          cells =
              cells_settled row n (out_min_bytes n) (room_for n small) bits marks bit_schedule
                mark_schedule;
        },
      )

  -- Into fresh outputs a dispatch puts the values of its rows.
  pub into_outputs-Answers :
      (out : List ℕ × List ℕ) × (into_outputs grid row n (outputs n) (outputs n) ≡ ok out)
      × Answers row n out
  into_outputs-Answers =
      let size : length (outputs n) ≡ out_min_bytes n =
        length-replicate {A = ℕ} (out_min_bytes n) 0 in
      let enough : ltb (length (outputs n)) (out_min_bytes n) ≡ false = ground (arith, size) in
      elim (Bool-cases (n == 0)) [
        | inl nothing ↦
            let zeroth : n ≡ 0 = (nat_beq_iff n 0).0 nothing in
            let whole : cleared (out_min_bytes n) (outputs n) ≡ outputs n =
              subst (λ k. outputs n ++ drop k (outputs n) ≡ outputs n) size
                (copied (outputs n) (outputs n) refl) in
            (
              (outputs n, outputs n),
              rw (enough, nothing, whole) refl,
              record {
                size = size;
                valid_size = size;
                cells = λ i below. absurd (omega (arith, zeroth, below));
              },
            )
        | inr some_rows ↦
            let (out, runs, answers) = run_rows-Answers in
            (out, rw (enough, some_rows) runs, answers)
      ]
