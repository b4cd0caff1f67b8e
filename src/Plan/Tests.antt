-- ===== src/Plan/Tests.antt =====
-- The functions of `AggExpr` on `a * (b + a)`, and the theorems applied to it.
use polars_metal.Base.{◌≤◌, ◌≡◌, refl, none, some, [], ◌∷◌, ok}
use polars_metal.Plan.{
  MetalDtype, BinaryOp, AggExpr, referenced_columns, depth, validate, dtype_from_wire, op_from_wire,
}
use polars_metal.Plan.Expressions.{
  columns_of, first_seen, nodes, referenced_columns-first_seen, validate-nodes,
}

abbrev product : AggExpr
product =
    AggExpr.binary BinaryOp.mul (AggExpr.column "a")
      (AggExpr.binary BinaryOp.add (AggExpr.column "b") (AggExpr.column "a"))

product_columns : referenced_columns product ≡ "a" ∷ "b" ∷ []
unfolding referenced_columns
product_columns = refl

two_deep : depth product ≡ 2
unfolding depth
two_deep = refl

product_valid : validate product ≡ ok tt
unfolding validate
product_valid = refl

date_is_i32 : dtype_from_wire "Date" ≡ some MetalDtype.i32
unfolding dtype_from_wire
date_is_i32 = refl

no_op : op_from_wire "Median" ≡ none
unfolding op_from_wire
no_op = refl

referenced_columns-first_seen_example : referenced_columns product ≡ first_seen (columns_of product)
referenced_columns-first_seen_example = referenced_columns-first_seen product

validate-nodes_example : nodes product ≤ 31
validate-nodes_example = validate-nodes product product_valid
