-- ===== src/Signature.antt =====
-- aggregate_fused/signature.rs of polars-metal-kernels: the key under which a fused kernel is
-- cached. Its mirrors of the plan's types are the plan's types here.
pub mod Slots
pub mod Restore
pub mod Aliases
pub mod Renaming
mod Tests
use polars_metal.Base.{
  ℕ, ◌≡◌, ◌+◌, ◌%◌, ◌^◌, String, Bool, Option, none, some, List, [], ◌∷◌, ◌++◌, Result, ok, err,
  ◌>>=◌, ◌>>◌, ok_or, length as extent, lookup, insert, string_eq, ℤ,
}
use polars_metal.Plan.{MetalDtype, AggOp, BinaryOp, AggExpr, AggSpec, referenced_columns}

pub data AggSignatureError : Type 0 where
  unknown_column : String → AggSignatureError

pub data CanonicalExpr : Type 0 where
  column : ℕ → CanonicalExpr
  literal_f64_bits : ℕ → CanonicalExpr
  literal_i64 : ℤ → CanonicalExpr
  binary : BinaryOp → CanonicalExpr → CanonicalExpr → CanonicalExpr

pub data CanonicalAgg : Type 0 where
  simple : ℕ → AggOp → MetalDtype → CanonicalAgg
  expression : CanonicalExpr → AggOp → MetalDtype → CanonicalAgg
  length : CanonicalAgg

pub record AggSignature : Type 0 where
  pub column_order : List String
  pub column_dtypes : List MetalDtype
  pub aggs : List CanonicalAgg

-- `PartialEq` of `AggSignature`, which leaves the column order out.
abbrev pub CompareEqual : AggSignature → AggSignature → Type 0
CompareEqual a b = (a.column_dtypes ≡ b.column_dtypes) × (a.aggs ≡ b.aggs)

abbrev pub Dtypes : Type 0
Dtypes = List (String × MetalDtype)

-- The locals `slots`, `order` and `dtypes` of `from_specs`.
pub record SlotTable : Type 0 where
  pub slots : List (String × ℕ)
  pub order : List String
  pub dtypes : List MetalDtype

pub lookup_dtype : String → Dtypes → Result AggSignatureError MetalDtype
unfolding lookup
lookup_dtype col col_dtypes = ok_or (lookup col col_dtypes) (AggSignatureError.unknown_column col)

pub intern : String → MetalDtype → SlotTable → SlotTable × ℕ
intern name dtype t = elim (lookup name t.slots) [
  | some slot ↦ (t, slot)
  | none ↦
      let slot = extent t.order % 2 ^ 16 in
      (
        record {
          slots = insert name slot t.slots;
          order = t.order ++ name ∷ [];
          dtypes = t.dtypes ++ dtype ∷ [];
        },
        slot,
      )
]

-- `slots.get(name).copied().unwrap_or(0)`
abbrev pub slot_of : String → List (String × ℕ) → ℕ
slot_of name slots = elim (lookup name slots) [ none ↦ 0 | some slot ↦ slot ]

pub canon_expr : AggExpr → List (String × ℕ) → CanonicalExpr
canon_expr (AggExpr.column name) slots = CanonicalExpr.column (slot_of name slots)
canon_expr (AggExpr.literal_f64 v) slots = CanonicalExpr.literal_f64_bits v
canon_expr (AggExpr.literal_i64 v) slots = CanonicalExpr.literal_i64 v
canon_expr (AggExpr.binary op lhs rhs) slots =
    CanonicalExpr.binary op (canon_expr lhs slots) (canon_expr rhs slots)

-- The loop over an expression's columns.
pub intern_all : Dtypes → List String → SlotTable → Result AggSignatureError SlotTable
unfolding lookup_dtype intern
intern_all col_dtypes [] t = ok t
intern_all col_dtypes (col ∷ columns) t = do
  dt ← lookup_dtype col col_dtypes
  intern_all col_dtypes columns (intern col dt t).0

-- `match referenced.first()`
pub output_dtype : Dtypes → List String → Result AggSignatureError MetalDtype
unfolding lookup_dtype
output_dtype col_dtypes [] = ok MetalDtype.f64
output_dtype col_dtypes (c ∷ columns) = lookup_dtype c col_dtypes

pub canon_spec : Dtypes → AggSpec → SlotTable → Result AggSignatureError (SlotTable × CanonicalAgg)
unfolding intern_all output_dtype canon_expr lookup_dtype intern referenced_columns
canon_spec col_dtypes (AggSpec.simple input_col op alias) t = do
  dt ← lookup_dtype input_col col_dtypes
  let (t', slot) = intern input_col dt t
  ok (t', CanonicalAgg.simple slot op dt)
canon_spec col_dtypes (AggSpec.expression expr op alias) t = do
  t' ← intern_all col_dtypes (referenced_columns expr) t
  dt ← output_dtype col_dtypes (referenced_columns expr)
  ok (t', CanonicalAgg.expression (canon_expr expr t'.slots) op dt)
canon_spec col_dtypes (AggSpec.length alias) t = ok (t, CanonicalAgg.length)

pub canon_specs :
    Dtypes → List AggSpec → SlotTable → Result AggSignatureError (SlotTable × List CanonicalAgg)
unfolding canon_spec
canon_specs col_dtypes [] t = ok (t, [])
canon_specs col_dtypes (spec ∷ specs) t = do
  one ← canon_spec col_dtypes spec t
  rest ← canon_specs col_dtypes specs one.0
  ok (rest.0, one.1 ∷ rest.1)

abbrev pub no_slots : SlotTable
no_slots = record { slots = []; order = []; dtypes = [] }

unfoldable pub from_specs : List AggSpec → Dtypes → Result AggSignatureError AggSignature
unfolding canon_specs insert
from_specs specs col_dtypes = do
  r ← canon_specs col_dtypes specs no_slots
  ok (record { column_order = r.0.order; column_dtypes = r.0.dtypes; aggs = r.1 })
