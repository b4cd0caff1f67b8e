-- ===== src/Fusion/Ops.antt =====
-- fusion/supported_ops.rs and `op_id_from_str` of fusion/py.rs of polars-metal-core: the operations
-- that a fused expression can have. `where_op` and `mod_op` are `Where` and `Mod`.
use polars_metal.Base.{ℕ, String, Bool, true, false, Option, List, [], ◌∷◌, lookup, string_eq}

pub data OpId : Type 0 where
  add sub mul div mod_op pow neg abs square : OpId
  eq ne lt le gt ge logical_and logical_or logical_not : OpId
  where_op sin cos tan sinh cosh tanh asin acos : OpId
  atan atan2 log log2 log10 log1p exp exp2 sqrt : OpId
  cbrt floor ceil round cast_f32 cast_f64 cast_i32 cast_bool sum : OpId
  mean min max std var arg_min arg_max sort arg_partition : OpId
  cum_sum cum_prod cum_max cum_min mat_mul fft ifft shift row_index : OpId
  take : OpId

pub data DtypeReq : Type 0 where
  f32 f32_or_f64 bool numeric list_or_array_f32 : DtypeReq

pub data DtypeOut : Type 0 where
  same_as_input bool f32 scalar_f32 complex_f32 sorted_same_as_input i32 : DtypeOut

pub record OpSpec : Type 0 where
  pub n_args : ℕ
  pub flops_per_row : ℕ
  pub input_dtype : DtypeReq
  pub output_dtype : DtypeOut
  pub dynamic_flops : Bool
  pub allows_null : Bool

-- The rows of the table with and without `dynamic_flops`; `allows_null` is false in all.
abbrev pub fixed : ℕ → ℕ → DtypeReq → DtypeOut → OpSpec
fixed n_args flops input output = record {
  n_args = n_args;
  flops_per_row = flops;
  input_dtype = input;
  output_dtype = output;
  dynamic_flops = false;
  allows_null = false;
}

abbrev pub dynamic : ℕ → DtypeReq → DtypeOut → OpSpec
dynamic n_args input output = record {
  n_args = n_args;
  flops_per_row = 0;
  input_dtype = input;
  output_dtype = output;
  dynamic_flops = true;
  allows_null = false;
}

abbrev pub op_spec : OpId → OpSpec
op_spec OpId.add = fixed 2 1 DtypeReq.numeric DtypeOut.same_as_input
op_spec OpId.sub = fixed 2 1 DtypeReq.numeric DtypeOut.same_as_input
op_spec OpId.mul = fixed 2 1 DtypeReq.numeric DtypeOut.same_as_input
op_spec OpId.div = fixed 2 4 DtypeReq.numeric DtypeOut.same_as_input
op_spec OpId.mod_op = fixed 2 4 DtypeReq.f32_or_f64 DtypeOut.same_as_input
op_spec OpId.pow = fixed 2 12 DtypeReq.f32_or_f64 DtypeOut.same_as_input
op_spec OpId.neg = fixed 1 1 DtypeReq.numeric DtypeOut.same_as_input
op_spec OpId.abs = fixed 1 1 DtypeReq.numeric DtypeOut.same_as_input
op_spec OpId.square = fixed 1 1 DtypeReq.numeric DtypeOut.same_as_input
op_spec OpId.eq = fixed 2 1 DtypeReq.numeric DtypeOut.bool
op_spec OpId.ne = fixed 2 1 DtypeReq.numeric DtypeOut.bool
op_spec OpId.lt = fixed 2 1 DtypeReq.numeric DtypeOut.bool
op_spec OpId.le = fixed 2 1 DtypeReq.numeric DtypeOut.bool
op_spec OpId.gt = fixed 2 1 DtypeReq.numeric DtypeOut.bool
op_spec OpId.ge = fixed 2 1 DtypeReq.numeric DtypeOut.bool
op_spec OpId.logical_and = fixed 2 1 DtypeReq.bool DtypeOut.bool
op_spec OpId.logical_or = fixed 2 1 DtypeReq.bool DtypeOut.bool
op_spec OpId.logical_not = fixed 1 1 DtypeReq.bool DtypeOut.bool
op_spec OpId.where_op = fixed 3 1 DtypeReq.numeric DtypeOut.same_as_input
op_spec OpId.sin = fixed 1 10 DtypeReq.f32_or_f64 DtypeOut.same_as_input
op_spec OpId.cos = fixed 1 10 DtypeReq.f32_or_f64 DtypeOut.same_as_input
op_spec OpId.tan = fixed 1 10 DtypeReq.f32_or_f64 DtypeOut.same_as_input
op_spec OpId.sinh = fixed 1 10 DtypeReq.f32_or_f64 DtypeOut.same_as_input
op_spec OpId.cosh = fixed 1 10 DtypeReq.f32_or_f64 DtypeOut.same_as_input
op_spec OpId.tanh = fixed 1 10 DtypeReq.f32_or_f64 DtypeOut.same_as_input
op_spec OpId.asin = fixed 1 10 DtypeReq.f32_or_f64 DtypeOut.same_as_input
op_spec OpId.acos = fixed 1 10 DtypeReq.f32_or_f64 DtypeOut.same_as_input
op_spec OpId.atan = fixed 1 10 DtypeReq.f32_or_f64 DtypeOut.same_as_input
op_spec OpId.atan2 = fixed 2 12 DtypeReq.f32_or_f64 DtypeOut.same_as_input
op_spec OpId.log = fixed 1 10 DtypeReq.f32_or_f64 DtypeOut.same_as_input
op_spec OpId.log2 = fixed 1 10 DtypeReq.f32_or_f64 DtypeOut.same_as_input
op_spec OpId.log10 = fixed 1 10 DtypeReq.f32_or_f64 DtypeOut.same_as_input
op_spec OpId.log1p = fixed 1 10 DtypeReq.f32_or_f64 DtypeOut.same_as_input
op_spec OpId.exp = fixed 1 10 DtypeReq.f32_or_f64 DtypeOut.same_as_input
op_spec OpId.exp2 = fixed 1 10 DtypeReq.f32_or_f64 DtypeOut.same_as_input
op_spec OpId.sqrt = fixed 1 4 DtypeReq.f32_or_f64 DtypeOut.same_as_input
op_spec OpId.cbrt = fixed 1 4 DtypeReq.f32_or_f64 DtypeOut.same_as_input
op_spec OpId.floor = fixed 1 1 DtypeReq.f32_or_f64 DtypeOut.same_as_input
op_spec OpId.ceil = fixed 1 1 DtypeReq.f32_or_f64 DtypeOut.same_as_input
op_spec OpId.round = fixed 1 1 DtypeReq.f32_or_f64 DtypeOut.same_as_input
op_spec OpId.cast_f32 = fixed 1 1 DtypeReq.numeric DtypeOut.f32
op_spec OpId.cast_f64 = fixed 1 1 DtypeReq.numeric DtypeOut.f32
op_spec OpId.cast_i32 = fixed 1 1 DtypeReq.numeric DtypeOut.f32
op_spec OpId.cast_bool = fixed 1 1 DtypeReq.numeric DtypeOut.bool
op_spec OpId.sum = fixed 1 1 DtypeReq.numeric DtypeOut.scalar_f32
op_spec OpId.mean = fixed 1 1 DtypeReq.numeric DtypeOut.scalar_f32
op_spec OpId.min = fixed 1 1 DtypeReq.numeric DtypeOut.scalar_f32
op_spec OpId.max = fixed 1 1 DtypeReq.numeric DtypeOut.scalar_f32
op_spec OpId.std = fixed 1 3 DtypeReq.numeric DtypeOut.scalar_f32
op_spec OpId.var = fixed 1 3 DtypeReq.numeric DtypeOut.scalar_f32
op_spec OpId.arg_min = fixed 1 1 DtypeReq.numeric DtypeOut.i32
op_spec OpId.arg_max = fixed 1 1 DtypeReq.numeric DtypeOut.i32
op_spec OpId.sort = dynamic 1 DtypeReq.numeric DtypeOut.sorted_same_as_input
op_spec OpId.arg_partition = dynamic 1 DtypeReq.numeric DtypeOut.i32
op_spec OpId.cum_sum = fixed 1 2 DtypeReq.numeric DtypeOut.same_as_input
op_spec OpId.cum_prod = fixed 1 2 DtypeReq.numeric DtypeOut.same_as_input
op_spec OpId.cum_max = fixed 1 2 DtypeReq.numeric DtypeOut.same_as_input
op_spec OpId.cum_min = fixed 1 2 DtypeReq.numeric DtypeOut.same_as_input
op_spec OpId.mat_mul = dynamic 2 DtypeReq.list_or_array_f32 DtypeOut.f32
op_spec OpId.fft = dynamic 1 DtypeReq.f32 DtypeOut.complex_f32
op_spec OpId.ifft = dynamic 1 DtypeReq.f32 DtypeOut.complex_f32
op_spec OpId.shift = fixed 1 1 DtypeReq.f32_or_f64 DtypeOut.same_as_input
op_spec OpId.row_index = fixed 0 0 DtypeReq.f32 DtypeOut.f32
op_spec OpId.take = fixed 2 1 DtypeReq.numeric DtypeOut.same_as_input

abbrev pub all_op_ids : List OpId
all_op_ids =
    OpId.add ∷ OpId.sub ∷ OpId.mul ∷ OpId.div ∷ OpId.mod_op ∷ OpId.pow ∷ OpId.neg ∷ OpId.abs
    ∷ OpId.square ∷ OpId.eq ∷ OpId.ne ∷ OpId.lt ∷ OpId.le ∷ OpId.gt ∷ OpId.ge ∷ OpId.logical_and
    ∷ OpId.logical_or ∷ OpId.logical_not ∷ OpId.where_op ∷ OpId.sin ∷ OpId.cos ∷ OpId.tan
    ∷ OpId.sinh ∷ OpId.cosh ∷ OpId.tanh ∷ OpId.asin ∷ OpId.acos ∷ OpId.atan ∷ OpId.atan2 ∷ OpId.log
    ∷ OpId.log2 ∷ OpId.log10 ∷ OpId.log1p ∷ OpId.exp ∷ OpId.exp2 ∷ OpId.sqrt ∷ OpId.cbrt
    ∷ OpId.floor ∷ OpId.ceil ∷ OpId.round ∷ OpId.cast_f32 ∷ OpId.cast_f64 ∷ OpId.cast_i32
    ∷ OpId.cast_bool ∷ OpId.sum ∷ OpId.mean ∷ OpId.min ∷ OpId.max ∷ OpId.std ∷ OpId.var
    ∷ OpId.arg_min ∷ OpId.arg_max ∷ OpId.sort ∷ OpId.arg_partition ∷ OpId.cum_sum ∷ OpId.cum_prod
    ∷ OpId.cum_max ∷ OpId.cum_min ∷ OpId.mat_mul ∷ OpId.fft ∷ OpId.ifft ∷ OpId.shift
    ∷ OpId.row_index ∷ OpId.take ∷ []

abbrev pub op_names : List (String × OpId)
op_names =
    ("Add", OpId.add)
    ∷ ("Sub", OpId.sub)
    ∷ ("Mul", OpId.mul)
    ∷ ("Div", OpId.div)
    ∷ ("Mod", OpId.mod_op)
    ∷ ("Pow", OpId.pow)
    ∷ ("Neg", OpId.neg)
    ∷ ("Abs", OpId.abs)
    ∷ ("Square", OpId.square)
    ∷ ("Eq", OpId.eq)
    ∷ ("Ne", OpId.ne)
    ∷ ("Lt", OpId.lt)
    ∷ ("Le", OpId.le)
    ∷ ("Gt", OpId.gt)
    ∷ ("Ge", OpId.ge)
    ∷ ("LogicalAnd", OpId.logical_and)
    ∷ ("LogicalOr", OpId.logical_or)
    ∷ ("LogicalNot", OpId.logical_not)
    ∷ ("Where", OpId.where_op)
    ∷ ("Sin", OpId.sin)
    ∷ ("Cos", OpId.cos)
    ∷ ("Tan", OpId.tan)
    ∷ ("Sinh", OpId.sinh)
    ∷ ("Cosh", OpId.cosh)
    ∷ ("Tanh", OpId.tanh)
    ∷ ("Asin", OpId.asin)
    ∷ ("Acos", OpId.acos)
    ∷ ("Atan", OpId.atan)
    ∷ ("Atan2", OpId.atan2)
    ∷ ("Log", OpId.log)
    ∷ ("Log2", OpId.log2)
    ∷ ("Log10", OpId.log10)
    ∷ ("Log1p", OpId.log1p)
    ∷ ("Exp", OpId.exp)
    ∷ ("Exp2", OpId.exp2)
    ∷ ("Sqrt", OpId.sqrt)
    ∷ ("Cbrt", OpId.cbrt)
    ∷ ("Floor", OpId.floor)
    ∷ ("Ceil", OpId.ceil)
    ∷ ("Round", OpId.round)
    ∷ ("CastF32", OpId.cast_f32)
    ∷ ("CastF64", OpId.cast_f64)
    ∷ ("CastI32", OpId.cast_i32)
    ∷ ("CastBool", OpId.cast_bool)
    ∷ ("Sum", OpId.sum)
    ∷ ("Mean", OpId.mean)
    ∷ ("Min", OpId.min)
    ∷ ("Max", OpId.max)
    ∷ ("Std", OpId.std)
    ∷ ("Var", OpId.var)
    ∷ ("ArgMin", OpId.arg_min)
    ∷ ("ArgMax", OpId.arg_max)
    ∷ ("Sort", OpId.sort)
    ∷ ("ArgPartition", OpId.arg_partition)
    ∷ ("CumSum", OpId.cum_sum)
    ∷ ("CumProd", OpId.cum_prod)
    ∷ ("CumMax", OpId.cum_max)
    ∷ ("CumMin", OpId.cum_min)
    ∷ ("MatMul", OpId.mat_mul)
    ∷ ("Fft", OpId.fft)
    ∷ ("Ifft", OpId.ifft)
    ∷ ("Shift", OpId.shift)
    ∷ ("RowIndex", OpId.row_index)
    ∷ ("Take", OpId.take)
    ∷ []

unfoldable pub op_id_from_str : String → Option OpId
unfolding lookup
op_id_from_str s = lookup s op_names
