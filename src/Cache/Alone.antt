-- ===== src/Cache/Alone.antt =====
-- A thread that is alone runs `get_or_compile`.
use polars_metal.Base.{ℕ, ◌≡◌, String, List, [], ◌∷◌, arith}
use polars_metal.Plan.{MetalDtype, AggSpec}
use polars_metal.Signature.{AggSignature, CanonicalAgg}
use polars_metal.Cache.{ByHash, Compiler, hash64, compile_pipeline, get_or_compile}
use polars_metal.Cache.Threads.{Pc, next, run, unused}

-- Three turns of one thread are a call: they leave the same cache and return the same result.
pub run-get_or_compile :
    (hasher : List MetalDtype → List CanonicalAgg → ℕ)
    (emit_msl : AggSignature → List AggSpec → String) (metal : Compiler) (by_hash : ByHash)
    (sig : AggSignature) (specs : List AggSpec)
    → let outcome = compile_pipeline metal (emit_msl sig specs) in
      let s =
        run
          (λ k. hash64 hasher sig)
          ((0, outcome) ∷ (0, outcome) ∷ (0, outcome) ∷ [])
          (unused by_hash) in
      (s.by_hash ≡ (get_or_compile hasher emit_msl metal by_hash sig specs).0)
      × (s.pc 0 ≡ Pc.returned (get_or_compile hasher emit_msl metal by_hash sig specs).1)
unfolding run get_or_compile next
run-get_or_compile hasher emit_msl metal by_hash sig specs = (ground arith, ground arith)
