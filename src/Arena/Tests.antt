-- ===== src/Arena/Tests.antt =====
-- An arena of 64 bytes serves some requests, and the theorems applied to it.
use polars_metal.Base.{ℕ, ◌≡◌, refl, Bool, true, [], ◌∷◌, ok, err, arith}
use polars_metal.Buffer.Errors.{BufferError}
use polars_metal.Arena.{BumpArena, with_capacity, alloc}
use polars_metal.Arena.Alloc.{Outcome, alloc-Outcome}
use polars_metal.Arena.Disjoint.{Reachable, fresh, request, IsArena, Reachable-IsArena}

abbrev always : ℕ → ℕ → Bool
always offset size = true

abbrev arena_64 : BumpArena
arena_64 = record { capacity = 64; cursor = 0 }

arena_made : with_capacity true 64 ≡ ok arena_64
unfolding with_capacity
arena_made = refl

abbrev arena_5 : BumpArena
arena_5 = record { capacity = 64; cursor = 5 }

second_view :
    alloc always arena_5 40
    ≡ (record { capacity = 64; cursor = 56 }, ok (record { offset = 16; size = 40 }))
unfolding alloc
second_view = refl

too_much : alloc always arena_5 49 ≡ (arena_5, err (BufferError.allocation_failed 49))
unfolding alloc
too_much = refl

alloc-Outcome_example :
    Outcome always arena_5 40 (alloc always arena_5 40).0 (alloc always arena_5 40).1
alloc-Outcome_example = alloc-Outcome always arena_5 40 (omega arith)

abbrev two_requests :
    Reachable always 64
      (record { capacity = 64; cursor = 56 })
      (record { offset = 16; size = 40 } ∷ record { offset = 0; size = 5 } ∷ [])
unfolding alloc
two_requests = request 40 (request 5 fresh)

Reachable-IsArena_example :
    IsArena 64
      (record { capacity = 64; cursor = 56 })
      (record { offset = 16; size = 40 } ∷ record { offset = 0; size = 5 } ∷ [])
Reachable-IsArena_example = Reachable-IsArena (omega arith) two_requests
