-- ===== src/Arena/Alloc.antt =====
-- One request to the arena.
use native.Mathlib.Nat.{mod-eq_of_lt}
use polars_metal.Base.Bits.{bit_and_mask, bit_and_above}
use polars_metal.Base.{
  ℕ, ◌+◌, ◌-◌, ◌*◌, ◌/◌, ◌^◌, ◌≤◌, ◌<◌, ◌≡◌, ◌≢◌, ap, ◌∙◌, Bool, true, false, Result, ok, err,
  nat_eq, arith, Bool-cases, inl, inr, Result-cases,
}
use polars_metal.Buffer.Errors.{BufferError}
use polars_metal.Arena.{BumpArena, View, mask_down, view_into, alloc_at, alloc}

-- The first multiple of 16 at or above the cursor.
abbrev pub round_up : ℕ → ℕ
round_up cursor = (cursor + 15) / 16 * 16

mask_down-16 : (a : ℕ) → a < 2 ^ 64 → mask_down a 16 ≡ a / 16 * 16
mask_down-16 a h =
    let small : a / 16 < 2 ^ 60 = omega arith in
    bit_and_above 4 a (2 ^ 60 - 1)
    ∙ ap (λ (t : ℕ). t * 16) (bit_and_mask 60 (a / 16) ∙ mod-eq_of_lt small)

-- A request that is granted, and what the source checks for it.
pub record Fits (arena : BumpArena) (bytes : ℕ) : Type 0 where
  pub asked : bytes ≢ 0
  pub room : round_up arena.cursor + bytes ≤ arena.capacity

module _ (makes_view : ℕ → ℕ → Bool) (arena : BumpArena) (bytes : ℕ)
    (machine : arena.capacity < 2 ^ 64) where
  alloc_at-Fits :
      Fits arena bytes
      → makes_view (round_up arena.cursor) bytes ≡ true
      → alloc_at makes_view arena bytes
        ≡ ok
            (record { offset = round_up arena.cursor; size = bytes }, round_up arena.cursor + bytes)
  unfolding alloc_at view_into
  alloc_at-Fits fits granted =
      let below : arena.cursor + 15 < 2 ^ 64 = omega (arith, fits.room, fits.asked, machine) in
      let down = mask_down-16 (arena.cursor + 15) below in
      ground (arith, down, granted, fits.asked, fits.room, below, machine)

  alloc_at-refused :
      {e : BufferError}
      → alloc_at makes_view arena bytes ≡ err e
      → Fits arena bytes
      → makes_view (round_up arena.cursor) bytes ≡ false
  alloc_at-refused failed fits = elim (Bool-cases (makes_view (round_up arena.cursor) bytes)) [
    | inl granted ↦ cc (alloc_at-Fits fits granted, failed)
    | inr refused ↦ refused
  ]

  -- What a granted request returns.
  pub record IsPlaced (v : View) (end : ℕ) : Type 0 where
    pub fits : Fits arena bytes
    pub start : v.offset ≡ round_up arena.cursor
    pub whole : v.size ≡ bytes
    pub next : end ≡ round_up arena.cursor + bytes

  pub alloc_at-IsPlaced :
      {v : View} {end : ℕ} → alloc_at makes_view arena bytes ≡ ok (v, end) → IsPlaced v end
  unfolding alloc_at view_into
  alloc_at-IsPlaced h = record {
    fits = record {
      asked = ground (arith, h);
      room = ground (arith, h, mask_down-16 (arena.cursor + 15));
    };
    start = ground (arith, h, mask_down-16 (arena.cursor + 15));
    whole = ground (arith, h);
    next = ground (arith, h, mask_down-16 (arena.cursor + 15));
  }

  alloc_at-withheld :
      {v : View} {end : ℕ}
      → alloc_at makes_view arena bytes ≡ ok (v, end)
      → makes_view (round_up arena.cursor) bytes ≡ false
      → ⊥
  unfolding alloc_at view_into
  alloc_at-withheld h withheld = ground (arith, h, withheld, mask_down-16 (arena.cursor + 15))

-- What `alloc` does to the arena, and what it returns.
pub data Outcome (makes_view : ℕ → ℕ → Bool) (arena : BumpArena) (bytes : ℕ)
    : BumpArena → Result BufferError View → Type 0 where
  granted :
      Fits arena bytes
      → makes_view (round_up arena.cursor) bytes ≡ true
      → Outcome makes_view arena bytes
          (record arena { cursor = round_up arena.cursor + bytes })
          (ok (record { offset = round_up arena.cursor; size = bytes }))
  refused :
      (e : BufferError)
      → (Fits arena bytes → makes_view (round_up arena.cursor) bytes ≡ false)
      → Outcome makes_view arena bytes arena (err e)

-- On a 64-bit machine `alloc` has two outcomes. It hands out the bytes from the first multiple
-- of 16 at or above the cursor, and moves the cursor behind them: this needs a request for at
-- least one byte, room in the arena and a view from Metal. Or it fails, which happens only where
-- one of the three is missing, and leaves the arena as it was.
pub alloc-Outcome :
    (makes_view : ℕ → ℕ → Bool) (arena : BumpArena) (bytes : ℕ)
    → arena.capacity < 2 ^ 64
    → Outcome makes_view arena bytes
        (alloc makes_view arena bytes).0
        (alloc makes_view arena bytes).1
unfolding alloc
alloc-Outcome makes_view arena bytes machine =
    elim (Result-cases (alloc_at makes_view arena bytes)) [
      | inl (e, failed) ↦
          rw (failed, alloc) (refused e (alloc_at-refused makes_view arena bytes machine failed))
      | inr ((v, end), done) ↦
          let placed = alloc_at-IsPlaced makes_view arena bytes machine done in
          elim (Bool-cases (makes_view (round_up arena.cursor) bytes)) [
            | inl given ↦
                rw (alloc_at-Fits makes_view arena bytes machine placed.fits given, alloc)
                  (granted placed.fits given)
            | inr withheld ↦ absurd (alloc_at-withheld makes_view arena bytes machine done withheld)
          ]
    ]
