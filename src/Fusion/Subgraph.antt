-- ===== src/Fusion/Subgraph.antt =====
-- fusion/subgraph.rs of polars-metal-core: the MLX graph of a scope. The text of an error keeps none
-- of its values.
use polars_metal.Base.{
  ℕ, ◌/◌, String, Option, none, List, [], ◌∷◌, ◌++◌, Result, ok, err, ◌>>=◌, ◌>>◌, ok_or, collect,
  ℤ, ◌==◌, if◌then◌else◌, length, get_elem?, nat_eq,
}
use polars_metal.Fusion.Ops.{OpId}
use polars_metal.Fusion.Scope.{InputDtype, InputRef, OpNode, FusionScope}
use polars_metal.Fusion.Mlx.{MlxDtype, element_size, Unary, Binary, Scan, Mlx}

pub data BuildError : Type 0 where
  input_count_mismatch : ℕ → ℕ → BuildError
  undefined_node : ℕ → BuildError
  mlx_error : String → BuildError
  unsupported_op : OpId → BuildError
  arg_count_mismatch : OpId → ℕ → ℕ → BuildError
  unsupported_input_dtype : BuildError

-- An index out of range is a panic.
pub data Failure : Type 0 where
  error : BuildError → Failure
  panic : Failure

abbrev pub Built : Type 0 → Type 0
Built = Result Failure

abbrev pub input_dtype_to_mlx : InputDtype → Built MlxDtype
input_dtype_to_mlx InputDtype.f32 = ok MlxDtype.f32
input_dtype_to_mlx InputDtype.i32 = ok MlxDtype.i32
input_dtype_to_mlx InputDtype.bool = ok MlxDtype.bool
input_dtype_to_mlx InputDtype.i8 = ok MlxDtype.i8
input_dtype_to_mlx InputDtype.i16 = ok MlxDtype.i16
input_dtype_to_mlx InputDtype.i64 = ok MlxDtype.i64
input_dtype_to_mlx InputDtype.u8 = ok MlxDtype.u8
input_dtype_to_mlx InputDtype.u16 = ok MlxDtype.u16
input_dtype_to_mlx InputDtype.u32 = ok MlxDtype.u32
input_dtype_to_mlx InputDtype.u64 = ok MlxDtype.u64
input_dtype_to_mlx InputDtype.f64 = err (Failure.error BuildError.unsupported_input_dtype)
input_dtype_to_mlx (InputDtype.array_f32 d) = err (Failure.error BuildError.unsupported_input_dtype)
input_dtype_to_mlx InputDtype.list_f32 = err (Failure.error BuildError.unsupported_input_dtype)

abbrev pub ffi : {A : Type 0} → Result String A → Built A
ffi (ok a) = ok a
ffi (err e) = err (Failure.error (BuildError.mlx_error e))

abbrev pub unsupported : {A : Type 0} → OpId → Built A
unsupported op = err (Failure.error (BuildError.unsupported_op op))

-- `MlxSubgraph`, without the handles it only keeps alive.
pub record MlxSubgraph (H : Type 0) : Type 0 where
  pub handles : List H
  pub outputs : List H

module _ {H B : Type 0} (mlx : Mlx H B) where
  abbrev pub arg_count : OpId → ℕ → List H → Built (Unit {0})
  arg_count op expected args =
      if length args == expected
      then ok tt
      else err (Failure.error (BuildError.arg_count_mismatch op expected (length args)))

  -- `args[i]`
  abbrev pub arg : List H → ℕ → Built H
  arg args i = ok_or (get_elem? args i) Failure.panic

  abbrev pub call1 : Unary → List H → Built H
  call1 f args = arg args 0 >>= λ a. ffi (mlx.unary f a)

  abbrev pub call2 : Binary → List H → Built H
  call2 f args = arg args 0 >>= λ a. arg args 1 >>= λ b. ffi (mlx.binary f a b)

  abbrev pub call_scan : Scan → List H → Built H
  call_scan f args = arg args 0 >>= λ a. ffi (mlx.scan f a 0)

  abbrev pub cast : MlxDtype → List H → Built H
  cast d args = arg args 0 >>= λ a. ffi (mlx.mlx_cast a d)

  -- `handles.first().and_then(|h| h.shape().first().copied())`
  abbrev pub first_extent : List H → Option ℕ
  first_extent [] = none
  first_extent (h ∷ handles) = get_elem? (mlx.shape h) 0

  -- The `match` of `build_op`, on the operation, its parameter, all handles and the arguments.
  unfoldable pub apply_op : OpId → Option ℤ → List H → List H → Built H
  apply_op OpId.add param handles args = arg_count OpId.add 2 args >> call2 Binary.mlx_add args
  apply_op OpId.sub param handles args = arg_count OpId.sub 2 args >> call2 Binary.mlx_sub args
  apply_op OpId.mul param handles args = arg_count OpId.mul 2 args >> call2 Binary.mlx_mul args
  apply_op OpId.div param handles args = arg_count OpId.div 2 args >> call2 Binary.mlx_div args
  apply_op OpId.mod_op param handles args =
      arg_count OpId.mod_op 2 args >> call2 Binary.mlx_mod args
  apply_op OpId.pow param handles args = arg_count OpId.pow 2 args >> call2 Binary.mlx_pow args
  apply_op OpId.neg param handles args = arg_count OpId.neg 1 args >> call1 Unary.mlx_neg args
  apply_op OpId.abs param handles args = arg_count OpId.abs 1 args >> call1 Unary.mlx_abs args
  apply_op OpId.square param handles args =
      arg_count OpId.square 1 args >> call1 Unary.mlx_square args
  apply_op OpId.eq param handles args = call2 Binary.mlx_eq args
  apply_op OpId.ne param handles args = call2 Binary.mlx_ne args
  apply_op OpId.lt param handles args = call2 Binary.mlx_lt args
  apply_op OpId.le param handles args = call2 Binary.mlx_le args
  apply_op OpId.gt param handles args = call2 Binary.mlx_gt args
  apply_op OpId.ge param handles args = call2 Binary.mlx_ge args
  apply_op OpId.logical_and param handles args = call2 Binary.mlx_logical_and args
  apply_op OpId.logical_or param handles args = call2 Binary.mlx_logical_or args
  apply_op OpId.logical_not param handles args = call1 Unary.mlx_logical_not args
  apply_op OpId.where_op param handles args = do
    arg_count OpId.where_op 3 args
    c ← arg args 0
    t ← arg args 1
    f ← arg args 2
    ffi (mlx.mlx_where c t f)
  apply_op OpId.sin param handles args = call1 Unary.mlx_sin args
  apply_op OpId.cos param handles args = call1 Unary.mlx_cos args
  apply_op OpId.tan param handles args = call1 Unary.mlx_tan args
  apply_op OpId.sinh param handles args = call1 Unary.mlx_sinh args
  apply_op OpId.cosh param handles args = call1 Unary.mlx_cosh args
  apply_op OpId.tanh param handles args = call1 Unary.mlx_tanh args
  apply_op OpId.asin param handles args = call1 Unary.mlx_asin args
  apply_op OpId.acos param handles args = call1 Unary.mlx_acos args
  apply_op OpId.atan param handles args = call1 Unary.mlx_atan args
  apply_op OpId.atan2 param handles args = call2 Binary.mlx_atan2 args
  apply_op OpId.log param handles args = call1 Unary.mlx_log args
  apply_op OpId.log2 param handles args = call1 Unary.mlx_log2 args
  apply_op OpId.log10 param handles args = call1 Unary.mlx_log10 args
  apply_op OpId.log1p param handles args = call1 Unary.mlx_log1p args
  apply_op OpId.exp param handles args = call1 Unary.mlx_exp args
  apply_op OpId.exp2 param handles args = call1 Unary.mlx_exp2 args
  apply_op OpId.sqrt param handles args = call1 Unary.mlx_sqrt args
  apply_op OpId.cbrt param handles args = call1 Unary.mlx_cbrt args
  apply_op OpId.floor param handles args = call1 Unary.mlx_floor args
  apply_op OpId.ceil param handles args = call1 Unary.mlx_ceil args
  apply_op OpId.round param handles args = call1 Unary.mlx_round args
  apply_op OpId.cast_f32 param handles args = cast MlxDtype.f32 args
  apply_op OpId.cast_f64 param handles args = cast MlxDtype.f64 args
  apply_op OpId.cast_i32 param handles args = cast MlxDtype.i32 args
  apply_op OpId.cast_bool param handles args = cast MlxDtype.bool args
  apply_op OpId.sum param handles args = call1 Unary.mlx_sum args
  apply_op OpId.mean param handles args = call1 Unary.mlx_mean args
  apply_op OpId.min param handles args = call1 Unary.mlx_min args
  apply_op OpId.max param handles args = call1 Unary.mlx_max args
  apply_op OpId.std param handles args = call1 Unary.mlx_std args
  apply_op OpId.var param handles args = call1 Unary.mlx_var args
  apply_op OpId.arg_min param handles args = call1 Unary.mlx_argmin args
  apply_op OpId.arg_max param handles args = call1 Unary.mlx_argmax args
  apply_op OpId.sort param handles args = call1 Unary.mlx_sort args
  apply_op OpId.arg_partition param handles args = unsupported OpId.arg_partition
  apply_op OpId.cum_sum param handles args = call_scan Scan.mlx_cumsum args
  apply_op OpId.cum_prod param handles args = call_scan Scan.mlx_cumprod args
  apply_op OpId.cum_max param handles args = call_scan Scan.mlx_cummax args
  apply_op OpId.cum_min param handles args = call_scan Scan.mlx_cummin args
  apply_op OpId.mat_mul param handles args = call2 Binary.mlx_matmul args
  apply_op OpId.fft param handles args = unsupported OpId.fft
  apply_op OpId.ifft param handles args = unsupported OpId.ifft
  apply_op OpId.shift param handles args = do
    arg_count OpId.shift 1 args
    w ← ok_or param (Failure.error (BuildError.unsupported_op OpId.shift))
    a ← arg args 0
    ffi (mlx.mlx_shift a w)
  apply_op OpId.row_index param handles args = do
    arg_count OpId.row_index 0 args
    n_rows ← ok_or (first_extent handles) (Failure.error (BuildError.unsupported_op OpId.row_index))
    ffi (mlx.mlx_iota_f32 n_rows)
  apply_op OpId.take param handles args = do
    arg_count OpId.take 2 args
    index ← arg args 1
    idx ← ffi (mlx.mlx_cast index MlxDtype.i32)
    source ← arg args 0
    ffi (mlx.mlx_take source idx)

  -- `handles.get(idx.0 as usize).ok_or(BuildError::UndefinedNode(idx.0))`
  abbrev pub node_handle : List H → ℕ → Built H
  node_handle handles idx =
      ok_or (get_elem? handles idx) (Failure.error (BuildError.undefined_node idx))

  abbrev pub build_op : OpNode → List H → Built H
  build_op node handles =
      collect (node_handle handles) node.args >>= λ args. apply_op node.op node.param handles args

  unfoldable pub build_ops : List OpNode → List H → Built (List H)
  unfolding apply_op
  build_ops [] handles = ok handles
  build_ops (node ∷ ops) handles =
      build_op node handles >>= λ handle. build_ops ops (handles ++ handle ∷ [])

  -- The common end of the two constructors.
  abbrev pub build_graph : FusionScope → List H → Built (MlxSubgraph H)
  build_graph scope inputs = do
    handles ← build_ops scope.ops inputs
    outputs ← collect (node_handle handles) scope.outputs
    ok (record { handles = handles; outputs = outputs })

  abbrev pub check_inputs : FusionScope → ℕ → Built (Unit {0})
  check_inputs scope actual =
      if actual == length scope.inputs
      then ok tt
      else err (Failure.error (BuildError.input_count_mismatch (length scope.inputs) actual))

  -- An input is the bits of its floats.
  abbrev pub from_fusion_scope : FusionScope → List (List ℕ) → Built (MlxSubgraph H)
  from_fusion_scope scope inputs = do
    check_inputs scope (length inputs)
    handles ← collect (λ data_of. ffi (mlx.from_f32_slice data_of)) inputs
    build_graph scope handles

  -- A `MetalBuffer` is its length in bytes and what holds them.
  abbrev pub view_input : (ℕ × B) × InputRef → Built H
  view_input ((len, buf), input_ref) = do
    mlx_dtype ← input_dtype_to_mlx input_ref.dtype
    ffi (mlx.view_metal_buffer buf (len / element_size mlx_dtype ∷ []) mlx_dtype)

  abbrev pub zip : {X Y : Type 0} → List X → List Y → List (X × Y)
  zip [] ys = []
  zip (x ∷ xs) [] = []
  zip (x ∷ xs) (y ∷ ys) = (x, y) ∷ zip xs ys

  abbrev pub from_fusion_scope_buffers : FusionScope → List (ℕ × B) → Built (MlxSubgraph H)
  from_fusion_scope_buffers scope inputs = do
    check_inputs scope (length inputs)
    handles ← collect view_input (zip inputs scope.inputs)
    build_graph scope handles
