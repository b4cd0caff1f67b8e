-- ===== src/Arena/Disjoint.antt =====
-- Every sequence of requests to one arena.
use polars_metal.Base.{
  ℕ, ◌+◌, ◌%◌, ◌^◌, ◌≤◌, ◌<◌, ◌≡◌, ◌≢◌, refl, Bool, Result, ok, err, List, [], ◌∷◌, All, arith,
}
use polars_metal.Buffer.Errors.{BufferError}
use polars_metal.Arena.{BumpArena, View, alloc}
use polars_metal.Arena.Alloc.{Outcome, granted, refused, round_up, alloc-Outcome}

-- The views handed out, the newest first.
abbrev pub handed_out : Result BufferError View → List View → List View
handed_out (ok v) views = v ∷ views
handed_out (err e) views = views

-- The arenas that requests, granted or refused, lead to, with the views handed out on the way.
pub data Reachable (makes_view : ℕ → ℕ → Bool) (capacity : ℕ) : BumpArena → List View → Type 0 where
  fresh : Reachable makes_view capacity (record { capacity = capacity; cursor = 0 }) []
  request :
      {arena : BumpArena} {views : List View} (bytes : ℕ)
      → Reachable makes_view capacity arena views
      → Reachable makes_view capacity
          (alloc makes_view arena bytes).0
          (handed_out (alloc makes_view arena bytes).1 views)

-- A view lies in the used part of the arena, starts at a multiple of 16 and is not empty.
pub record IsInside (cursor : ℕ) (v : View) : Type 0 where
  pub inside : v.offset + v.size ≤ cursor
  pub aligned : v.offset % 16 ≡ 0
  pub inhabited : v.size ≢ 0

-- Each view starts behind the ends of all the older ones.
abbrev pub Apart : List View → Type 0
Apart [] = Unit
Apart (v ∷ views) = All (λ w. w.offset + w.size ≤ v.offset) views × Apart views

pub record IsArena (capacity : ℕ) (arena : BumpArena) (views : List View) : Type 0 where
  pub same_capacity : arena.capacity ≡ capacity
  pub within : arena.cursor ≤ capacity
  pub all_inside : All (IsInside arena.cursor) views
  pub apart : Apart views

IsInside-later :
    (views : List View) {a b : ℕ} → a ≤ b → All (IsInside a) views → All (IsInside b) views
IsInside-later [] h p = tt
IsInside-later (v ∷ views) h p = (
  record { inside = omega (arith, p.0.inside); aligned = p.0.aligned; inhabited = p.0.inhabited },
  IsInside-later views h p.1,
)

behind :
    (views : List View) {a b : ℕ}
    → a ≤ b
    → All (IsInside a) views
    → All (λ w. w.offset + w.size ≤ b) views
behind [] h p = tt
behind (v ∷ views) h p = (omega (arith, p.0.inside), behind views h p.1)

Outcome-IsArena :
    {makes_view : ℕ → ℕ → Bool} {capacity bytes : ℕ} {arena after : BumpArena} {views : List View}
    {result : Result BufferError View}
    → IsArena capacity arena views
    → Outcome makes_view arena bytes after result
    → IsArena capacity after (handed_out result views)
Outcome-IsArena {arena = arena} {views = views} h (granted fits given) =
    let up : arena.cursor ≤ round_up arena.cursor = omega arith in
    record {
      same_capacity = h.same_capacity;
      within = omega (arith, fits.room, h.same_capacity);
      all_inside = (
        record { inside = omega arith; aligned = omega arith; inhabited = fits.asked },
        IsInside-later views (omega arith) h.all_inside,
      );
      apart = (behind views up h.all_inside, h.apart);
    }
Outcome-IsArena h (refused e no_room) = h

-- Whatever is asked of an arena of less than 2^64 bytes, in whatever order, and whichever views
-- Metal refuses: its capacity stays, the cursor stays within it, every view handed out is not
-- empty, starts at a multiple of 16 and lies below the cursor, and no two views overlap.
pub Reachable-IsArena :
    {makes_view : ℕ → ℕ → Bool} {capacity : ℕ} {arena : BumpArena} {views : List View}
    → capacity < 2 ^ 64
    → Reachable makes_view capacity arena views
    → IsArena capacity arena views
Reachable-IsArena machine fresh = record {
  same_capacity = refl;
  within = omega arith;
  all_inside = tt;
  apart = tt;
}
Reachable-IsArena {makes_view} {capacity} machine (request {arena} {views} bytes reached) =
    let h = Reachable-IsArena machine reached in
    let bound : arena.capacity < 2 ^ 64 = omega (arith, h.same_capacity) in
    Outcome-IsArena h (alloc-Outcome makes_view arena bytes bound)
