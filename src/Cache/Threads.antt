-- ===== src/Cache/Threads.antt =====
-- Threads that call `get_or_compile` at the same time. Between its two critical sections a call
-- holds no lock, so that others may take any of their steps.
use polars_metal.Base.{ℕ, none, some, List, [], ◌∷◌, Result, ok, err, nat_beq, if◌then◌else◌}
use polars_metal.Cache.{FusedCacheError, ByHash, cached, or_insert}

-- Where a call stands.
pub data Pc : Type 0 where
  called compiling : Pc
  compiled : ℕ → Pc
  returned : Result FusedCacheError ℕ → Pc

-- The next step of a call with this key; `outcome` is what the compiler answers, if it is asked.
unfoldable pub next : Pc → ℕ → Result FusedCacheError ℕ → ByHash → ByHash × Pc
unfolding or_insert
next Pc.called key outcome by_hash = elim (cached by_hash key) [
  | some pso ↦ (by_hash, Pc.returned (ok pso))
  | none ↦ (by_hash, Pc.compiling)
]
next Pc.compiling key outcome by_hash = elim outcome [
  | ok pso ↦ (by_hash, Pc.compiled pso)
  | err e ↦ (by_hash, Pc.returned (err e))
]
next (Pc.compiled pso) key outcome by_hash =
    let (after, entry) = or_insert key pso by_hash in (after, Pc.returned (ok entry))
next (Pc.returned result) key outcome by_hash = (by_hash, Pc.returned result)

pub record System : Type 0 where
  pub by_hash : ByHash
  pub pc : ℕ → Pc

abbrev pub update : (ℕ → Pc) → ℕ → Pc → ℕ → Pc
update pc i p j = if nat_beq i j then p else pc j

-- The calls' keys; a thread makes one call.
module _ (key : ℕ → ℕ) where
  abbrev pub turn : ℕ → Result FusedCacheError ℕ → System → System
  turn i outcome s =
      let (after, p) = next (s.pc i) (key i) outcome s.by_hash in
      record { by_hash = after; pc = update s.pc i p }

  -- The threads take turns in the order of a schedule.
  unfoldable pub run : List (ℕ × Result FusedCacheError ℕ) → System → System
  unfolding next
  run [] s = s
  run ((i, outcome) ∷ schedule) s = run schedule (turn i outcome s)

-- A cache that no call has used.
abbrev pub unused : ByHash → System
unused by_hash = record { by_hash = by_hash; pc = λ i. Pc.called }
