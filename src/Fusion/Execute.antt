-- ===== src/Fusion/Execute.antt =====
-- The evaluation of a graph, of fusion/subgraph.rs, and udf/fused_expr.rs of polars-metal-core. A
-- function that writes to the caller's array returns its result and the array.
use polars_metal.Base.{
  ℕ, suc, ◌*◌, ◌%◌, ◌^◌, String, Bool, true, false, List, [], ◌∷◌, ◌++◌, Result, ok, err, ◌>>=◌,
  ◌>>◌, collect, ltb, ◌==◌, if◌then◌else◌, length, drop, nat_eq,
}
use polars_metal.Fusion.Scope.{FusionScope}
use polars_metal.Fusion.Mlx.{MlxDtype, element_size, tag, from_tag, Mlx}
use polars_metal.Fusion.Subgraph.{
  BuildError, Failure, Built, ffi, MlxSubgraph, build_ops, from_fusion_scope_buffers,
}

-- `shape.iter().product()`
abbrev pub product : List ℕ → ℕ
product [] = 1
product (n ∷ shape) = n * product shape

-- The dtypes that have an arm in the two matches on the output's dtype.
abbrev pub has_arm : MlxDtype → Bool
has_arm MlxDtype.bool = false
has_arm MlxDtype.f64 = false
has_arm d = true

abbrev pub fail : {A : Type 0} → BuildError → Built A
fail e = err (Failure.error e)

module _ {H B : Type 0} (mlx : Mlx H B) where
  -- `eval`
  abbrev pub eval : MlxSubgraph H → Built (List (List ℕ))
  eval sub = do
    ffi (mlx.mlx_array_eval sub.outputs)
    collect (λ h. ffi (mlx.to_vec MlxDtype.f32 h)) sub.outputs

  -- `write_back!`, for an array of `n` elements; `copy_from_slice` panics on another length.
  unfoldable pub write_back : H → ℕ → List ℕ → MlxDtype → Built ℕ × List ℕ
  write_back h n dst out_dtype = elim (ffi (mlx.to_vec out_dtype h)) [
    | err e ↦ (err e, dst)
    | ok data_of ↦
        if length data_of == n then (ok n, data_of ++ drop n dst) else (err Failure.panic, dst)
  ]

  abbrev pub write_typed : H → ℕ → List ℕ → MlxDtype → Built ℕ × List ℕ
  write_typed h n dst out_dtype =
      if n == 0
      then (ok 0, dst)
      else if has_arm out_dtype
      then write_back h n dst out_dtype
      else (fail BuildError.unsupported_input_dtype, dst)

  -- `self.outputs[0]`, where it is the only one.
  abbrev pub only_output : List H → Built H
  only_output [] = fail (BuildError.input_count_mismatch 1 0)
  only_output (h ∷ []) = ok h
  only_output (h ∷ h' ∷ outputs) =
      fail (BuildError.input_count_mismatch 1 (suc (suc (length outputs))))

  -- The checks of `eval_into_typed`, with the output and its size.
  unfoldable pub eval_checked : MlxSubgraph H → ℕ → MlxDtype → Built (H × ℕ)
  eval_checked sub out_cap out_dtype = do
    h ← only_output sub.outputs
    ffi (mlx.mlx_array_eval sub.outputs)
    got ← ffi (mlx.dtype h)
    (if tag got == tag out_dtype
        then ok tt
        else fail (BuildError.mlx_error "output dtype mismatch"))
    (if ltb out_cap (product (mlx.shape h))
        then fail (BuildError.mlx_error "output too large")
        else ok (h, product (mlx.shape h)))

  -- On `dst`, the `out_cap` elements at `out_ptr`.
  unfoldable pub eval_into_typed : MlxSubgraph H → List ℕ → MlxDtype → Built ℕ × List ℕ
  unfolding eval_checked write_back
  eval_into_typed sub dst out_dtype = elim (eval_checked sub (length dst) out_dtype) [
    | err e ↦ (err e, dst)
    | ok (h, n) ↦ write_typed h n dst out_dtype
  ]

  -- `eval_to_metal_buffers`, with what makes a buffer of values.
  abbrev pub to_buffer : (MlxDtype → List ℕ → Result String B) → H → Built B
  to_buffer from_slice h = do
    dtype ← ffi (mlx.dtype h)
    (if has_arm dtype
        then (ffi (mlx.to_vec dtype h) >>= λ data_of. ffi (from_slice dtype data_of))
        else fail BuildError.unsupported_input_dtype)

  abbrev pub eval_to_metal_buffers :
      (MlxDtype → List ℕ → Result String B) → MlxSubgraph H → Built (List B)
  eval_to_metal_buffers from_slice sub = do
    ffi (mlx.mlx_array_eval sub.outputs)
    collect (to_buffer from_slice) sub.outputs

-- What Python sees.
pub data Raised : Type 0 where
  value_error runtime_error panic_exception : Raised

-- `map_err` with one of the exceptions; a panic stays one.
abbrev pub raise : {A : Type 0} → Raised → Built A → Result Raised A
raise kind (ok a) = ok a
raise kind (err (Failure.error e)) = err kind
raise kind (err Failure.panic) = err Raised.panic_exception

abbrev pub raise_text : {A : Type 0} → Raised → Result String A → Result Raised A
raise_text kind (ok a) = ok a
raise_text kind (err e) = err kind

-- `borrow` is `MetalBuffer::from_borrowed_bytes` on the system's device.
module _ {H B : Type 0} (mlx : Mlx H B) (borrow : ℕ → ℕ → Result String B) where
  -- The multiplication wraps, as it does in a release build.
  abbrev pub stage_input : ℕ × ℕ × ℕ → Result Raised (ℕ × B)
  stage_input (ptr, n, dtype_tag) = do
    dtype ← raise_text Raised.value_error (from_tag dtype_tag)
    let bytes = n * element_size dtype % 2 ^ 64
    buf ← raise_text Raised.runtime_error (borrow ptr bytes)
    ok (bytes, buf)

  abbrev pub prepare : FusionScope → List (ℕ × ℕ × ℕ) → ℕ → Result Raised (MlxSubgraph H × MlxDtype)
  prepare scope inputs out_tag = do
    metal_buffers ← collect stage_input inputs
    subgraph ← raise Raised.value_error (from_fusion_scope_buffers mlx scope metal_buffers)
    out_dtype ← raise_text Raised.value_error (from_tag out_tag)
    ok (subgraph, out_dtype)

  -- `device` is whether the system has one; `dst` the elements at `out`'s pointer.
  unfoldable pub execute_fused_expr :
      Bool → FusionScope → List (ℕ × ℕ × ℕ) → List ℕ → ℕ → Result Raised ℕ × List ℕ
  unfolding eval_into_typed from_tag collect build_ops
  execute_fused_expr false scope inputs dst out_tag = (err Raised.runtime_error, dst)
  execute_fused_expr true scope inputs dst out_tag = elim (prepare scope inputs out_tag) [
    | err e ↦ (err e, dst)
    | ok (subgraph, out_dtype) ↦
        let out = eval_into_typed mlx subgraph dst out_dtype in
        (raise Raised.runtime_error out.0, out.1)
  ]
