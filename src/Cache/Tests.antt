-- ===== src/Cache/Tests.antt =====
-- Two threads that ask for pipelines of one shape, and the theorems applied to them.
use polars_metal.Base.{
  ℕ, zero, suc, ◌+◌, ◌≡◌, refl, some, String, List, [], ◌∷◌, Result, ok, err, length,
}
use polars_metal.Plan.{MetalDtype, AggOp}
use polars_metal.Signature.{AggSignature, CanonicalAgg}
use polars_metal.Cache.{FusedCacheError, Compiler, hash64, warmup, common_signatures, common_specs}
use polars_metal.Cache.Threads.{Pc, System, run, unused}
use polars_metal.Cache.Sharing.{run-one_pipeline}

-- The sum of one f32 column.
abbrev sum_of : String → AggSignature
sum_of name = record {
  column_order = name ∷ [];
  column_dtypes = MetalDtype.f32 ∷ [];
  aggs = CanonicalAgg.simple 0 AggOp.sum MetalDtype.f32 ∷ [];
}

abbrev shapes : ℕ → AggSignature
shapes zero = sum_of "a"
shapes (suc k) = sum_of "b"

abbrev sizes : List MetalDtype → List CanonicalAgg → ℕ
sizes dtypes aggs = length dtypes + length aggs

-- Both miss; thread 1 compiles first, thread 0 is the first to come back.
abbrev race : List (ℕ × Result FusedCacheError ℕ)
race = (0, ok 70) ∷ (1, ok 71) ∷ (1, ok 71) ∷ (0, ok 70) ∷ (0, ok 70) ∷ (1, ok 71) ∷ []

abbrev raced : System
raced = run (λ k. hash64 sizes (shapes k)) race (unused [])

first_returns : raced.pc 0 ≡ Pc.returned (ok 70)
unfolding run
first_returns = refl

second_shares : raced.pc 1 ≡ Pc.returned (ok 70)
unfolding run
second_shares = refl

all_built : Result (Unit {0}) ℕ
unfolding common_signatures
all_built = elim (common_signatures common_specs) [ ok l ↦ ok (length l) | err e ↦ err tt ]

five_signatures : all_built ≡ ok 5
unfolding all_built
five_signatures = refl

-- Metal makes a pipeline for every source.
abbrev obliging : Compiler
obliging = record {
  library = λ src. ok 5;
  function = λ library name. some library;
  pipeline = λ function. ok (suc function);
}

warm :
    warmup sizes (λ sig specs. "") obliging [] ((sum_of "a", []) ∷ (sum_of "b", []) ∷ [])
    ≡ (2, 6) ∷ []
unfolding warmup
warm = refl

run-one_pipeline_example : ◌≡◌ {A = ℕ} 70 70
run-one_pipeline_example =
    run-one_pipeline sizes shapes [] race 0 1 refl refl first_returns second_shares
