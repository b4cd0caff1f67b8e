-- ===== src/Cache/Sharing.antt =====
-- One pipeline for a key, however the calls interleave.
use mathlib.Core.Option.{some-injective}
use polars_metal.Base.{
  ℕ, ◌≡◌, ap, ap₂, sym, ◌∙◌, inl, inr, some, List, [], ◌∷◌, Result, ok, lookup, lookup-insert,
  nat_beq, nat_beq_iff, nat_eq, Bool-cases, arith,
}
use polars_metal.Plan.{MetalDtype}
use polars_metal.Signature.{AggSignature, CanonicalAgg}
use polars_metal.Cache.{FusedCacheError, ByHash, hash64, or_insert}
use polars_metal.Cache.Threads.{Pc, next, System, turn, run, unused}

-- An entry is never replaced.
next-keeps :
    (p : Pc) (key asked : ℕ) (outcome : Result FusedCacheError ℕ) (by_hash : ByHash) {pso : ℕ}
    → lookup asked by_hash ≡ some pso
    → lookup asked (next p key outcome by_hash).0 ≡ some pso
unfolding next or_insert
next-keeps Pc.called key asked outcome by_hash h = ground arith
next-keeps Pc.compiling key asked outcome by_hash h = ground arith
next-keeps (Pc.compiled pso) key asked outcome by_hash h =
    ground (arith, lookup-insert key asked pso by_hash, nat_beq_iff key asked)
next-keeps (Pc.returned r) key asked outcome by_hash h = h

-- A pipeline that a step returns stands in the cache.
next-stands :
    (p : Pc) (key : ℕ) (outcome : Result FusedCacheError ℕ) (by_hash : ByHash) {pso : ℕ}
    → (p ≡ Pc.returned (ok pso) → lookup key by_hash ≡ some pso)
    → (next p key outcome by_hash).1 ≡ Pc.returned (ok pso)
    → lookup key (next p key outcome by_hash).0 ≡ some pso
unfolding next or_insert
next-stands Pc.called key outcome by_hash before h = ground arith
next-stands Pc.compiling key outcome by_hash before h = ground arith
next-stands (Pc.compiled new) key outcome by_hash before h =
    ground (arith, lookup-insert key key new by_hash, nat_beq_iff key key)
next-stands (Pc.returned r) key outcome by_hash before h = before h

-- What a call has returned is the entry of its key.
abbrev IsShared : (ℕ → ℕ) → System → Type 0
IsShared key s = (i pso : ℕ) → s.pc i ≡ Pc.returned (ok pso) → lookup (key i) s.by_hash ≡ some pso

turn-IsShared :
    (key : ℕ → ℕ) (i : ℕ) (outcome : Result FusedCacheError ℕ) (s : System)
    → IsShared key s
    → IsShared key (turn key i outcome s)
turn-IsShared key i outcome s shared j pso h = elim (Bool-cases (nat_beq i j)) [
  | inl same ↦
      let e : i ≡ j = (nat_beq_iff i j).0 same in
      let moved : (next (s.pc i) (key i) outcome s.by_hash).1 ≡ Pc.returned (ok pso) =
        rw same at h in
      rw (← e) (next-stands (s.pc i) (key i) outcome s.by_hash (shared i pso) moved)
  | inr other ↦
      let kept : s.pc j ≡ Pc.returned (ok pso) = rw other at h in
      next-keeps (s.pc i) (key i) (key j) outcome s.by_hash (shared j pso kept)
]

run-IsShared :
    (key : ℕ → ℕ) (schedule : List (ℕ × Result FusedCacheError ℕ)) (s : System)
    → IsShared key s
    → IsShared key (run key schedule s)
unfolding run
run-IsShared key [] s shared = shared
run-IsShared key ((i, outcome) ∷ schedule) s shared =
    run-IsShared key schedule (turn key i outcome s) (turn-IsShared key i outcome s shared)

-- Calls of one shape share one pipeline: let threads call `get_or_compile` on a cache, take their
-- steps in any order, and let the compiler answer as it likes. Two calls whose signatures have the
-- same column types and aggregations, whatever the columns are called, and that both return a
-- pipeline, return the same one.
pub run-one_pipeline :
    (hasher : List MetalDtype → List CanonicalAgg → ℕ) (sigs : ℕ → AggSignature) (by_hash : ByHash)
    (schedule : List (ℕ × Result FusedCacheError ℕ)) (i j : ℕ) {p q : ℕ}
    → (sigs i).column_dtypes ≡ (sigs j).column_dtypes
    → (sigs i).aggs ≡ (sigs j).aggs
    → (run (λ k. hash64 hasher (sigs k)) schedule (unused by_hash)).pc i ≡ Pc.returned (ok p)
    → (run (λ k. hash64 hasher (sigs k)) schedule (unused by_hash)).pc j ≡ Pc.returned (ok q)
    → p ≡ q
run-one_pipeline hasher sigs by_hash schedule i j {p} {q} same_dtypes same_aggs first second =
    let key = λ (k : ℕ). hash64 hasher (sigs k) in
    let shared = run-IsShared key schedule (unused by_hash) (λ k pso h. cc) in
    let e : key i ≡ key j = ap₂ hasher same_dtypes same_aggs in
    some-injective _ _ (
      sym (shared i p first)
      ∙ ap (λ k. lookup k (run key schedule (unused by_hash)).by_hash) e
      ∙ shared j q second)
