-- ===== src/Fusion/Scope.antt =====
-- fusion/scope.rs of polars-metal-core, and the calls of fusion/py.rs that build a scope. A `NodeIdx`
-- is its number; a dtype comes to `add_input` parsed.
use polars_metal.Base.{
  ℕ, ◌+◌, ◌*◌, ◌%◌, ◌^◌, String, Bool, true, false, ◌||◌, Option, none, List, [], ◌∷◌, ◌++◌, Result,
  ok, err, ◌>>=◌, ok_or, ℤ, ◌==◌, if◌then◌else◌, length, nat_eq,
}
use polars_metal.Fusion.Ops.{OpId, op_spec, op_id_from_str}

pub data InputDtype : Type 0 where
  f32 f64 bool i32 i8 i16 i64 u8 u16 u32 u64 : InputDtype
  array_f32 : ℕ → InputDtype
  list_f32 : InputDtype

unfoldable pub element_size : InputDtype → ℕ
element_size InputDtype.bool = 1
element_size InputDtype.i8 = 1
element_size InputDtype.u8 = 1
element_size InputDtype.i16 = 2
element_size InputDtype.u16 = 2
element_size InputDtype.f32 = 4
element_size InputDtype.i32 = 4
element_size InputDtype.u32 = 4
element_size InputDtype.list_f32 = 4
element_size InputDtype.f64 = 8
element_size InputDtype.i64 = 8
element_size InputDtype.u64 = 8
element_size (InputDtype.array_f32 d) = d * 4

pub record InputRef : Type 0 where
  pub column_name : String
  pub dtype : InputDtype

pub record OpNode : Type 0 where
  pub op : OpId
  pub args : List ℕ
  pub param : Option ℤ

pub record FusionScope : Type 0 where
  pub inputs : List InputRef
  pub ops : List OpNode
  pub outputs : List ℕ

-- `FusionScope::new`
abbrev pub empty_scope : FusionScope
empty_scope = record { inputs = []; ops = []; outputs = [] }

abbrev pub add_input : FusionScope → String → InputDtype → FusionScope × ℕ
add_input scope name dtype = (
  record scope { inputs = scope.inputs ++ record { column_name = name; dtype = dtype } ∷ [] },
  length scope.inputs % 2 ^ 32,
)

abbrev pub push_op_param : FusionScope → OpId → List ℕ → Option ℤ → FusionScope × ℕ
push_op_param scope op args param = (
  record scope { ops = scope.ops ++ record { op = op; args = args; param = param } ∷ [] },
  (length scope.inputs % 2 ^ 32 + length scope.ops % 2 ^ 32) % 2 ^ 32,
)

abbrev pub push_op : FusionScope → OpId → List ℕ → FusionScope × ℕ
push_op scope op args = push_op_param scope op args none

abbrev pub mark_output : FusionScope → ℕ → FusionScope
mark_output scope idx = record scope { outputs = scope.outputs ++ idx ∷ [] }

-- The loop of `est_flops_for`, in 64 bits.
unfoldable pub flops_from : ℕ → ℕ → List OpNode → ℕ
flops_from n_rows total [] = total
flops_from n_rows total (node ∷ ops) =
    let spec = op_spec node.op in
    flops_from n_rows
      (if spec.dynamic_flops
        then total
        else (total + spec.flops_per_row * n_rows % 2 ^ 64) % 2 ^ 64)
      ops

abbrev pub est_flops_for : FusionScope → ℕ → ℕ
est_flops_for scope n_rows = flops_from n_rows 0 scope.ops

unfoldable pub is_terminator : OpId → Bool
is_terminator OpId.sum = true
is_terminator OpId.mean = true
is_terminator OpId.min = true
is_terminator OpId.max = true
is_terminator OpId.std = true
is_terminator OpId.var = true
is_terminator OpId.arg_min = true
is_terminator OpId.arg_max = true
is_terminator OpId.sort = true
is_terminator OpId.arg_partition = true
is_terminator OpId.mat_mul = true
is_terminator OpId.fft = true
is_terminator OpId.ifft = true
is_terminator op = false

unfoldable pub any_terminator : List OpNode → Bool
any_terminator [] = false
any_terminator (node ∷ ops) = is_terminator node.op || any_terminator ops

abbrev pub has_terminator : FusionScope → Bool
has_terminator scope = any_terminator scope.ops

pub data PushError : Type 0 where
  unknown_op : String → PushError
  arg_count : String → ℕ → ℕ → PushError

-- `PyFusionScope::push_op`
unfoldable pub py_push_op :
    FusionScope → String → List ℕ → Option ℤ → Result PushError (FusionScope × ℕ)
unfolding op_id_from_str
py_push_op scope op_str args param = do
  op ← ok_or (op_id_from_str op_str) (PushError.unknown_op op_str)
  let expected = (op_spec op).n_args
  (if length args % 2 ^ 32 == expected
      then ok (push_op_param scope op args param)
      else err (PushError.arg_count op_str expected (length args)))

-- The calls of the Python analyzer. One that raises leaves the scope as it is.
pub data Call : Type 0 where
  add : String → InputDtype → Call
  push : String → List ℕ → Option ℤ → Call
  mark : ℕ → Call

abbrev pub pushed : FusionScope → Result PushError (FusionScope × ℕ) → FusionScope
pushed scope (ok out) = out.0
pushed scope (err e) = scope

unfoldable pub do_call : FusionScope → Call → FusionScope
unfolding py_push_op
do_call scope (Call.add name dtype) = (add_input scope name dtype).0
do_call scope (Call.push op_str args param) = pushed scope (py_push_op scope op_str args param)
do_call scope (Call.mark idx) = mark_output scope idx

unfoldable pub do_calls : FusionScope → List Call → FusionScope
unfolding do_call
do_calls scope [] = scope
do_calls scope (call ∷ calls) = do_calls (do_call scope call) calls
