-- ===== src/Plan.antt =====
-- plan/mod.rs of polars-metal-core: the plan that the Python walker hands over. A literal f64 is
-- its bit pattern.
pub mod Expressions
mod Tests
use polars_metal.Base.{
  ℕ, ◌+◌, ◌<◌, max as larger, String, Bool, true, false, ◌||◌, Option, none, some, List, [], ◌∷◌,
  ◌++◌, Result, ok, err, ℤ, ltb, ◌==◌, if◌then◌else◌, string_eq,
}

pub data MetalDtype : Type 0 where
  i64 f64 bool i32 f32 i8 i16 u8 u16 u32 u64 utf8 : MetalDtype

pub data CompareOp : Type 0 where
  eq ne lt le gt ge : CompareOp

pub data PredicateAst : Type 0 where
  column : String → MetalDtype → PredicateAst
  literal_i64 : ℤ → PredicateAst
  literal_f64 : ℕ → PredicateAst
  literal_bool : Bool → PredicateAst
  compare : CompareOp → PredicateAst → PredicateAst → PredicateAst
  and_also or_else : PredicateAst → PredicateAst → PredicateAst

pub data AggOp : Type 0 where
  sum mean count min max len : AggOp

pub data BinaryOp : Type 0 where
  add sub mul div : BinaryOp

pub data AggExpr : Type 0 where
  column : String → AggExpr
  literal_f64 : ℕ → AggExpr
  literal_i64 : ℤ → AggExpr
  binary : BinaryOp → AggExpr → AggExpr → AggExpr

pub data AggSpec : Type 0 where
  simple : String → AggOp → String → AggSpec
  expression : AggExpr → AggOp → String → AggSpec
  length : String → AggSpec

pub data MetalPlanNode : Type 0 where
  scan : ℕ → List (String × MetalDtype) → MetalPlanNode
  project : MetalPlanNode → List String → MetalPlanNode
  filter : MetalPlanNode → PredicateAst → MetalPlanNode
  group_by : MetalPlanNode → List (String × MetalDtype) → List AggSpec → MetalPlanNode

-- `AggExpr::walk`: a closure that changes a state is a function of the node and the state.
module _ {S : Type 0} where
  unfoldable pub walk : (AggExpr → S → S) → AggExpr → S → S
  walk f (AggExpr.column name) s = f (AggExpr.column name) s
  walk f (AggExpr.literal_f64 v) s = f (AggExpr.literal_f64 v) s
  walk f (AggExpr.literal_i64 v) s = f (AggExpr.literal_i64 v) s
  walk f (AggExpr.binary op lhs rhs) s = walk f rhs (walk f lhs (f (AggExpr.binary op lhs rhs) s))

-- `out.iter().any(|n| n == name)`
unfoldable pub contains : List String → String → Bool
contains [] name = false
contains (n ∷ out) name = n == name || contains out name

-- The closure of `referenced_columns`.
unfoldable pub note_column : AggExpr → List String → List String
unfolding contains
note_column (AggExpr.column name) out = if contains out name then out else out ++ name ∷ []
note_column (AggExpr.literal_f64 v) out = out
note_column (AggExpr.literal_i64 v) out = out
note_column (AggExpr.binary op lhs rhs) out = out

unfoldable pub referenced_columns : AggExpr → List String
unfolding walk note_column contains
referenced_columns expr = walk note_column expr []

unfoldable pub depth : AggExpr → ℕ
depth (AggExpr.column name) = 0
depth (AggExpr.literal_f64 v) = 0
depth (AggExpr.literal_i64 v) = 0
depth (AggExpr.binary op lhs rhs) = 1 + larger (depth lhs) (depth rhs)

-- The text of the error holds the depth.
unfoldable pub validate : AggExpr → Result ℕ (Unit {0})
unfolding depth
validate expr = if ltb 4 (depth expr) then err (depth expr) else ok tt

-- `MetalDtype::from_wire`
unfoldable pub dtype_from_wire : String → Option MetalDtype
dtype_from_wire s =
    if s == "I64"
    then some MetalDtype.i64
    else if s == "F64"
    then some MetalDtype.f64
    else if s == "Bool"
    then some MetalDtype.bool
    else if s == "I32"
    then some MetalDtype.i32
    else if s == "F32"
    then some MetalDtype.f32
    else if s == "I8"
    then some MetalDtype.i8
    else if s == "I16"
    then some MetalDtype.i16
    else if s == "U8"
    then some MetalDtype.u8
    else if s == "U16"
    then some MetalDtype.u16
    else if s == "U32"
    then some MetalDtype.u32
    else if s == "U64"
    then some MetalDtype.u64
    else if s == "Utf8" || s == "String"
    then some MetalDtype.utf8
    else if s == "Date"
    then some MetalDtype.i32
    else none

-- `AggOp::from_wire`
unfoldable pub op_from_wire : String → Option AggOp
op_from_wire s =
    if s == "Sum"
    then some AggOp.sum
    else if s == "Mean"
    then some AggOp.mean
    else if s == "Count"
    then some AggOp.count
    else if s == "Min"
    then some AggOp.min
    else if s == "Max"
    then some AggOp.max
    else if s == "Len"
    then some AggOp.len
    else none
