-- ===== src/Filter/Schedules.antt =====
-- A grid of GPU threads: each thread writes at most once to a buffer, and a buffer sees the
-- writes in any order.
use polars_metal.Base.{ℕ, ◌<◌, ◌≡◌, Option, some, List, In}

-- `order` holds the writes of the threads `0 .. n`, and no others.
pub record IsSchedule {A : Type 0} (n : ℕ) (write : ℕ → Option A) (order : List A) : Type 0 where
  pub complete : (gid : ℕ) (w : A) → gid < n → write gid ≡ some w → In w order
  pub sound : (w : A) → In w order → (gid : ℕ) × (gid < n) × (write gid ≡ some w)
