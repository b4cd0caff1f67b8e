-- ===== src/Predicates.antt =====
-- cmp.rs and logical.rs of polars-metal-kernels, with the kernels of cmp_i64.metal, cmp_f64.metal and
-- logical_bool.metal that they run, and the entry points of polars-metal-core's udf/compare.rs and
-- udf/logical.rs. 64-bit values are their bit patterns, and Python hands bytes over.
pub mod Floats
pub mod Ieee
pub mod Signed
pub mod Grids
pub mod Entries
pub mod Whole
mod Tests
use polars_metal.Base.{
  ℕ, zero, suc, ◌+◌, ◌*◌, ◌/◌, ◌%◌, ◌^◌, max, bit_and, Bool, true, false, not, ◌&&◌, ◌||◌, String,
  Option, none, some, List, [], ◌∷◌, ◌++◌, ◌==◌, if◌then◌else◌, get_or, take, drop, replicate,
  lookup, string_eq, length, ltb, leb, nat_eq, Result, ok, err, ◌>>=◌, ◌>>◌, fail_if, ok_or,
}
use polars_metal.Buffer.Bitmap.{get_valid}
use polars_metal.Filter.{min_bitmap_bytes, dst_valid_min_bytes, try_u32, mark_all, copy_into}
use polars_metal.Compaction.{words}
use polars_metal.Plan.{CompareOp}
use polars_metal.Predicates.Floats.{f64_op, i64_op}

-- `CmpError`, and `LogicalError` but that it has no length mismatch; `input_too_short` stands for
-- both `ValidityTooShort` and `InputTooShort`.
pub data KernelError : Type 0 where
  device : String → KernelError
  input_length_mismatch : ℕ → ℕ → ℕ → KernelError
  input_too_short : ℕ → ℕ → ℕ → KernelError
  output_too_short : ℕ → ℕ → KernelError
  row_count_overflow : ℕ → KernelError

-- A dispatch over so many threads, given the bits that each sets in the two outputs: it fails, or
-- gives the orders in which the bits arrive.
abbrev pub Grid : Type 0
Grid = ℕ → (ℕ → Option ℕ) → (ℕ → Option ℕ) → Result KernelError (List ℕ × List ℕ)

-- `out_min_bytes`, as in filter.rs.
abbrev pub out_min_bytes : ℕ → ℕ
out_min_bytes n_rows = dst_valid_min_bytes n_rows

-- The bits that a thread sets whose row has a value, or none.
abbrev pub data_bit : (ℕ → Option Bool) → ℕ → Option ℕ
data_bit row gid = elim (row gid) [ none ↦ none | some b ↦ if b then some gid else none ]

abbrev pub valid_bit : (ℕ → Option Bool) → ℕ → Option ℕ
valid_bit row gid = elim (row gid) [ none ↦ none | some b ↦ some gid ]

-- `for b in &mut dst[..n] { *b = 0; }`
abbrev pub cleared : ℕ → List ℕ → List ℕ
cleared n dst = replicate n 0 ++ drop n dst

-- The end of the dispatchers, for rows that there are.
unfoldable pub run_rows :
    Grid → (ℕ → Option Bool) → ℕ → List ℕ → List ℕ → Result KernelError (List ℕ × List ℕ)
unfolding dst_valid_min_bytes mark_all
run_rows grid row n_rows out_data out_valid = do
  n_rows_u32 ← ok_or (try_u32 n_rows) (KernelError.row_count_overflow n_rows)
  orders ← grid n_rows (data_bit row) (valid_bit row)
  let blank = replicate (out_min_bytes n_rows) 0
  ok (copy_into (mark_all orders.0 blank) out_data, copy_into (mark_all orders.1 blank) out_valid)

-- The checks of the outputs, and what is done for no rows and for some.
abbrev pub into_outputs :
    Grid → (ℕ → Option Bool) → ℕ → List ℕ → List ℕ → Result KernelError (List ℕ × List ℕ)
into_outputs grid row n_rows out_data out_valid = do
  let min_out = out_min_bytes n_rows
  fail_if (ltb (length out_data) min_out) (KernelError.output_too_short (length out_data) min_out)
  fail_if (ltb (length out_valid) min_out) (KernelError.output_too_short (length out_valid) min_out)
  (if n_rows == 0
      then ok (cleared min_out out_data, cleared min_out out_valid)
      else run_rows grid row n_rows out_data out_valid)

-- `CMP_KERNEL_CC` and `CMP_F64_KERNEL_CC`
abbrev pub cmp_row : (ℕ → ℕ → Bool) → List ℕ → List ℕ → List ℕ → List ℕ → ℕ → ℕ → Option Bool
cmp_row op lhs_data lhs_valid rhs_data rhs_valid n_rows gid =
    if leb n_rows gid
    then none
    else if not (get_valid lhs_valid gid) || not (get_valid rhs_valid gid)
    then none
    else some (op (get_or lhs_data gid 0) (get_or rhs_data gid 0))

-- `CMP_KERNEL_CS` and `CMP_F64_KERNEL_CS`
abbrev pub cmp_scalar_row : (ℕ → ℕ → Bool) → List ℕ → List ℕ → ℕ → ℕ → ℕ → Option Bool
cmp_scalar_row op lhs_data lhs_valid rhs n_rows gid =
    if leb n_rows gid
    then none
    else if not (get_valid lhs_valid gid)
    then none
    else some (op (get_or lhs_data gid 0) rhs)

abbrev pub check_valid : ℕ → List ℕ → Result KernelError (Unit {0})
check_valid n_rows valid =
    let min_valid = min_bitmap_bytes n_rows in
    fail_if (ltb (length valid) min_valid)
      (KernelError.input_too_short (length valid) min_valid n_rows)

-- `dispatch_cmp_i64` and `dispatch_cmp_f64` but for the operation.
abbrev pub dispatch_cmp :
    (ℕ → ℕ → Bool)
    → Grid
    → List ℕ
    → List ℕ
    → List ℕ
    → List ℕ
    → ℕ
    → List ℕ
    → List ℕ
    → Result KernelError (List ℕ × List ℕ)
dispatch_cmp op grid lhs_data lhs_valid rhs_data rhs_valid n_rows out_data out_valid = do
  fail_if (not (length lhs_data == n_rows) || not (length rhs_data == n_rows))
      (KernelError.input_length_mismatch (length lhs_data) (length rhs_data) n_rows)
  check_valid n_rows lhs_valid
  check_valid n_rows rhs_valid
  let min_valid = min_bitmap_bytes n_rows
  into_outputs grid
      (cmp_row op lhs_data (take min_valid lhs_valid) rhs_data (take min_valid rhs_valid) n_rows)
      n_rows out_data out_valid

-- `dispatch_cmp_i64_scalar` and `dispatch_cmp_f64_scalar` but for the operation.
abbrev pub dispatch_cmp_scalar :
    (ℕ → ℕ → Bool)
    → Grid
    → List ℕ
    → List ℕ
    → ℕ
    → ℕ
    → List ℕ
    → List ℕ
    → Result KernelError (List ℕ × List ℕ)
dispatch_cmp_scalar op grid lhs_data lhs_valid rhs n_rows out_data out_valid = do
  fail_if (not (length lhs_data == n_rows))
      (KernelError.input_length_mismatch (length lhs_data) 0 n_rows)
  check_valid n_rows lhs_valid
  let min_valid = min_bitmap_bytes n_rows
  into_outputs grid (cmp_scalar_row op lhs_data (take min_valid lhs_valid) rhs n_rows) n_rows
      out_data out_valid

abbrev pub dispatch_cmp_i64 :
    CompareOp
    → Grid
    → List ℕ
    → List ℕ
    → List ℕ
    → List ℕ
    → ℕ
    → List ℕ
    → List ℕ
    → Result KernelError (List ℕ × List ℕ)
dispatch_cmp_i64 op = dispatch_cmp (i64_op op)

abbrev pub dispatch_cmp_f64 :
    CompareOp
    → Grid
    → List ℕ
    → List ℕ
    → List ℕ
    → List ℕ
    → ℕ
    → List ℕ
    → List ℕ
    → Result KernelError (List ℕ × List ℕ)
dispatch_cmp_f64 op = dispatch_cmp (f64_op op)

abbrev pub dispatch_cmp_i64_scalar :
    CompareOp
    → Grid
    → List ℕ
    → List ℕ
    → ℕ
    → ℕ
    → List ℕ
    → List ℕ
    → Result KernelError (List ℕ × List ℕ)
dispatch_cmp_i64_scalar op = dispatch_cmp_scalar (i64_op op)

abbrev pub dispatch_cmp_f64_scalar :
    CompareOp
    → Grid
    → List ℕ
    → List ℕ
    → ℕ
    → ℕ
    → List ℕ
    → List ℕ
    → Result KernelError (List ℕ × List ℕ)
dispatch_cmp_f64_scalar op = dispatch_cmp_scalar (f64_op op)

-- The bits of `bool_and` and of `bool_or`, of the data and the validity bits of both sides.
unfoldable pub and_bits : Bool → Bool → Bool → Bool → Option Bool
and_bits ld lv rd rv =
    if lv && not ld
    then some false
    else if rv && not rd
    then some false
    else if ((lv && ld) && rv) && rd
    then some true
    else none

unfoldable pub or_bits : Bool → Bool → Bool → Bool → Option Bool
or_bits ld lv rd rv =
    if lv && ld
    then some true
    else if rv && rd
    then some true
    else if ((lv && not ld) && rv) && not rd
    then some false
    else none

abbrev pub logical_row :
    (Bool → Bool → Bool → Bool → Option Bool)
    → List ℕ
    → List ℕ
    → List ℕ
    → List ℕ
    → ℕ
    → ℕ
    → Option Bool
logical_row bits lhs_data lhs_valid rhs_data rhs_valid n_rows gid =
    if leb n_rows gid
    then none
    else bits (get_valid lhs_data gid) (get_valid lhs_valid gid) (get_valid rhs_data gid)
        (get_valid rhs_valid gid)

abbrev pub dispatch_logical :
    (Bool → Bool → Bool → Bool → Option Bool)
    → Grid
    → List ℕ
    → List ℕ
    → List ℕ
    → List ℕ
    → ℕ
    → List ℕ
    → List ℕ
    → Result KernelError (List ℕ × List ℕ)
dispatch_logical bits grid lhs_data lhs_valid rhs_data rhs_valid n_rows out_data out_valid = do
  check_valid n_rows lhs_data
  check_valid n_rows lhs_valid
  check_valid n_rows rhs_data
  check_valid n_rows rhs_valid
  let min_in = min_bitmap_bytes n_rows
  into_outputs grid
      (logical_row bits (take min_in lhs_data) (take min_in lhs_valid) (take min_in rhs_data)
        (take min_in rhs_valid) n_rows)
      n_rows out_data out_valid

-- What Python sees.
pub data PredicateError : Type 0 where
  value_error : PredicateError
  runtime_error : KernelError → PredicateError

abbrev pub compare_ops : List (String × CompareOp)
compare_ops =
    ("Eq", CompareOp.eq)
    ∷ ("Ne", CompareOp.ne)
    ∷ ("Lt", CompareOp.lt)
    ∷ ("Le", CompareOp.le)
    ∷ ("Gt", CompareOp.gt)
    ∷ ("Ge", CompareOp.ge)
    ∷ []

unfoldable pub parse_compare_op : String → Result PredicateError CompareOp
unfolding lookup
parse_compare_op s = ok_or (lookup s compare_ops) PredicateError.value_error

abbrev pub check_bitpacked_buffer : ℕ → List ℕ → Result PredicateError (Unit {0})
check_bitpacked_buffer n_rows buf =
    fail_if (ltb (length buf) (min_bitmap_bytes n_rows)) PredicateError.value_error

abbrev pub check_numeric_buffers : List ℕ → List ℕ → ℕ → Result PredicateError (Unit {0})
check_numeric_buffers bytes valid n_rows = do
  fail_if (ltb (length bytes) (n_rows * 8)) PredicateError.value_error
  check_bitpacked_buffer n_rows valid

abbrev pub dispatched : {A : Type 0} → Result KernelError A → Result PredicateError A
dispatched (ok a) = ok a
dispatched (err e) = err (PredicateError.runtime_error e)

abbrev pub outputs : ℕ → List ℕ
outputs n_rows = replicate (out_min_bytes n_rows) 0

-- `cmp_col_col_pyfn!`: `cmp_i64_col_col` and `cmp_f64_col_col`.
abbrev pub cmp_col_col :
    (CompareOp
      → Grid
      → List ℕ
      → List ℕ
      → List ℕ
      → List ℕ
      → ℕ
      → List ℕ
      → List ℕ
      → Result KernelError (List ℕ × List ℕ))
    → Grid
    → List ℕ
    → List ℕ
    → List ℕ
    → List ℕ
    → String
    → ℕ
    → Result PredicateError (List ℕ × List ℕ)
cmp_col_col dispatch grid lhs_data lhs_valid rhs_data rhs_valid op n_rows = do
  op_enum ← parse_compare_op op
  check_numeric_buffers lhs_data lhs_valid n_rows
  check_numeric_buffers rhs_data rhs_valid n_rows
  dispatched (
      dispatch op_enum grid (words n_rows lhs_data) lhs_valid (words n_rows rhs_data) rhs_valid
        n_rows (outputs n_rows) (outputs n_rows))

unfoldable pub cmp_i64_col_col :
    Grid → List ℕ → List ℕ → List ℕ → List ℕ → String → ℕ → Result PredicateError (List ℕ × List ℕ)
unfolding run_rows words i64_op parse_compare_op get_valid dst_valid_min_bytes
cmp_i64_col_col grid lhs_data lhs_valid rhs_data rhs_valid op n_rows =
    cmp_col_col dispatch_cmp_i64 grid lhs_data lhs_valid rhs_data rhs_valid op n_rows

unfoldable pub cmp_f64_col_col :
    Grid → List ℕ → List ℕ → List ℕ → List ℕ → String → ℕ → Result PredicateError (List ℕ × List ℕ)
unfolding run_rows words f64_op parse_compare_op get_valid dst_valid_min_bytes
cmp_f64_col_col grid lhs_data lhs_valid rhs_data rhs_valid op n_rows =
    cmp_col_col dispatch_cmp_f64 grid lhs_data lhs_valid rhs_data rhs_valid op n_rows

-- `cmp_col_scalar_pyfn!`: `cmp_i64_col_scalar` and `cmp_f64_col_scalar`.
abbrev pub cmp_col_scalar :
    (CompareOp
      → Grid
      → List ℕ
      → List ℕ
      → ℕ
      → ℕ
      → List ℕ
      → List ℕ
      → Result KernelError (List ℕ × List ℕ))
    → Grid
    → List ℕ
    → List ℕ
    → ℕ
    → String
    → ℕ
    → Result PredicateError (List ℕ × List ℕ)
cmp_col_scalar dispatch grid lhs_data lhs_valid rhs op n_rows = do
  op_enum ← parse_compare_op op
  check_numeric_buffers lhs_data lhs_valid n_rows
  dispatched (
      dispatch op_enum grid (words n_rows lhs_data) lhs_valid rhs n_rows (outputs n_rows)
        (outputs n_rows))

unfoldable pub cmp_i64_col_scalar :
    Grid → List ℕ → List ℕ → ℕ → String → ℕ → Result PredicateError (List ℕ × List ℕ)
unfolding run_rows words i64_op parse_compare_op get_valid dst_valid_min_bytes
cmp_i64_col_scalar grid lhs_data lhs_valid rhs op n_rows =
    cmp_col_scalar dispatch_cmp_i64_scalar grid lhs_data lhs_valid rhs op n_rows

unfoldable pub cmp_f64_col_scalar :
    Grid → List ℕ → List ℕ → ℕ → String → ℕ → Result PredicateError (List ℕ × List ℕ)
unfolding run_rows words f64_op parse_compare_op get_valid dst_valid_min_bytes
cmp_f64_col_scalar grid lhs_data lhs_valid rhs op n_rows =
    cmp_col_scalar dispatch_cmp_f64_scalar grid lhs_data lhs_valid rhs op n_rows

-- `dispatch_logical_py`: `bool_and_dispatch` and `bool_or_dispatch`.
unfoldable pub dispatch_logical_py :
    Bool → Grid → List ℕ → List ℕ → List ℕ → List ℕ → ℕ → Result PredicateError (List ℕ × List ℕ)
unfolding run_rows and_bits or_bits get_valid dst_valid_min_bytes
dispatch_logical_py is_and grid lhs_data lhs_valid rhs_data rhs_valid n_rows = do
  check_bitpacked_buffer n_rows lhs_data
  check_bitpacked_buffer n_rows lhs_valid
  check_bitpacked_buffer n_rows rhs_data
  check_bitpacked_buffer n_rows rhs_valid
  dispatched (
      dispatch_logical (if is_and then and_bits else or_bits) grid lhs_data lhs_valid rhs_data
        rhs_valid n_rows (outputs n_rows) (outputs n_rows))
