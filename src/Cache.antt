-- ===== src/Cache.antt =====
-- aggregate_fused/cache.rs of polars-metal-kernels: `FusedLibraryCache`. A pipeline state is a
-- number that tells the objects apart; the hasher, the emitter and Metal are arguments.
pub mod Threads
pub mod Sharing
mod Alone
mod Tests
use polars_metal.Base.{
  ℕ, String, Option, none, some, List, [], ◌∷◌, ◌++◌, map, Result, ok, err, ◌>>=◌, ok_or, lookup,
  insert, nat_eq,
}
use polars_metal.Plan.{MetalDtype, AggOp, BinaryOp, AggExpr, AggSpec}
use polars_metal.Signature.{AggSignature, AggSignatureError, CanonicalAgg, Dtypes, from_specs}

pub data FusedCacheError : Type 0 where
  compile_failed : String → String → FusedCacheError
  entry_point_missing : FusedCacheError
  pipeline_state_failed : String → FusedCacheError

abbrev pub fused_entry_point : String
fused_entry_point = "aggregate_fused"

-- `by_hash`
abbrev pub ByHash : Type 0
ByHash = List (ℕ × ℕ)

-- `AggSignature::hash64`: it feeds the hasher all but the column order.
abbrev pub hash64 : (List MetalDtype → List CanonicalAgg → ℕ) → AggSignature → ℕ
hash64 hasher sig = hasher sig.column_dtypes sig.aggs

-- What Metal answers to `compile_pipeline`: a library for a source, a function of a library by
-- its name, and a pipeline for a function.
pub record Compiler : Type 0 where
  pub library : String → Result String ℕ
  pub function : ℕ → String → Option ℕ
  pub pipeline : ℕ → Result String ℕ

abbrev pub map_err : {E F A : Type 0} → (E → F) → Result E A → Result F A
map_err f (ok a) = ok a
map_err f (err e) = err (f e)

pub compile_pipeline : Compiler → String → Result FusedCacheError ℕ
compile_pipeline metal src = do
  library ← map_err (λ message. FusedCacheError.compile_failed message src) (metal.library src)
  function ← ok_or (metal.function library fused_entry_point) FusedCacheError.entry_point_missing
  map_err (λ message. FusedCacheError.pipeline_state_failed message) (metal.pipeline function)

-- The first critical section of `get_or_compile`.
abbrev pub cached : ByHash → ℕ → Option ℕ
cached by_hash key = lookup key by_hash

-- The second: `entry(key).or_insert_with(..)`, and the entry's pipeline.
pub or_insert : ℕ → ℕ → ByHash → ByHash × ℕ
unfolding lookup insert
or_insert key pso by_hash = elim (lookup key by_hash) [
  | some earlier ↦ (by_hash, earlier)
  | none ↦ (insert key pso by_hash, pso)
]

module _ (hasher : List MetalDtype → List CanonicalAgg → ℕ)
    (emit_msl : AggSignature → List AggSpec → String) (metal : Compiler) where
  -- A call with nothing in between.
  unfoldable pub get_or_compile :
      ByHash → AggSignature → List AggSpec → ByHash × Result FusedCacheError ℕ
  unfolding compile_pipeline or_insert
  get_or_compile by_hash sig specs = elim (cached by_hash (hash64 hasher sig)) [
    | some pso ↦ (by_hash, ok pso)
    | none ↦ elim (compile_pipeline metal (emit_msl sig specs)) [
      | err e ↦ (by_hash, err e)
      | ok pso ↦ let (after, entry) = or_insert (hash64 hasher sig) pso by_hash in (after, ok entry)
    ]
  ]

  unfoldable pub warmup : ByHash → List (AggSignature × List AggSpec) → ByHash
  unfolding get_or_compile
  warmup by_hash [] = by_hash
  warmup by_hash ((sig, specs) ∷ signatures) =
      warmup (get_or_compile by_hash sig specs).0 signatures

-- `common_signatures`: the specifications and types of each entry, before `from_specs`.
abbrev pub q1_specs : List AggSpec
q1_specs =
    AggSpec.simple "a" AggOp.sum "a_sum"
    ∷ AggSpec.simple "a" AggOp.mean "a_mean"
    ∷ AggSpec.simple "b" AggOp.sum "b_sum"
    ∷ AggSpec.simple "b" AggOp.mean "b_mean"
    ∷ AggSpec.simple "c" AggOp.sum "c_sum"
    ∷ AggSpec.simple "c" AggOp.mean "c_mean"
    ∷ AggSpec.simple "d" AggOp.sum "d_sum"
    ∷ AggSpec.simple "d" AggOp.mean "d_mean"
    ∷ AggSpec.simple "a" AggOp.count "a_count"
    ∷ AggSpec.length "len"
    ∷ []

-- The bit pattern of 1.0.
abbrev pub one_f64 : ℕ
one_f64 = 0x3FF0000000000000

abbrev pub f32_columns : List String → Dtypes
f32_columns names = map (λ (c : String). (c, MetalDtype.f32)) names

abbrev pub common_specs : List (List AggSpec × Dtypes)
common_specs =
    (AggSpec.simple "v" AggOp.sum "v_sum" ∷ [], f32_columns ("v" ∷ []))
    ∷ (AggSpec.simple "v" AggOp.mean "v_mean" ∷ [], f32_columns ("v" ∷ []))
    ∷ (q1_specs, f32_columns ("a" ∷ "b" ∷ "c" ∷ "d" ∷ []))
    ∷ (
      AggSpec.expression (AggExpr.binary BinaryOp.mul (AggExpr.column "a") (AggExpr.column "b"))
            AggOp.sum "ab_sum"
          ∷ [],
      f32_columns ("a" ∷ "b" ∷ []),
    )
    ∷ (
      AggSpec.expression
            (AggExpr.binary BinaryOp.mul (AggExpr.column "a")
              (AggExpr.binary BinaryOp.sub (AggExpr.literal_f64 one_f64) (AggExpr.column "b")))
            AggOp.sum "disc_price_sum"
          ∷ [],
      f32_columns ("a" ∷ "b" ∷ []),
    )
    ∷ []

-- `err` stands for a panic of `expect`.
unfoldable pub common_signatures :
    List (List AggSpec × Dtypes) → Result AggSignatureError (List (AggSignature × List AggSpec))
unfolding from_specs
common_signatures [] = ok []
common_signatures ((specs, dtypes) ∷ more) = do
  sig ← from_specs specs dtypes
  rest ← common_signatures more
  ok ((sig, specs) ∷ rest)
