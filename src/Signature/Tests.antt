-- ===== src/Signature/Tests.antt =====
-- A signature of three aggregations over two columns, and the theorem applied to it.
use polars_metal.Base.{
  String, Bool-cases, inl, inr, sym, ap, ◌∙◌, ◌==◌, string_eq, if◌then◌else◌, ◌≡◌, refl, some, [],
  ◌∷◌, ok, arith, map, List,
}
use polars_metal.Plan.{MetalDtype, AggOp, BinaryOp, AggExpr, AggSpec, referenced_columns}
use polars_metal.Signature.{
  CanonicalExpr, CanonicalAgg, AggSignature, CompareEqual, Dtypes, from_specs,
}
use polars_metal.Signature.Restore.{name_all, without_alias, from_specs-name_all}
use polars_metal.Signature.Renaming.{rename_keys, from_specs-renamed}

abbrev three_specs : List AggSpec
three_specs =
    AggSpec.simple "v" AggOp.sum "s"
    ∷ AggSpec.expression (AggExpr.binary BinaryOp.mul (AggExpr.column "w") (AggExpr.column "v"))
        AggOp.sum "t"
    ∷ AggSpec.length "n"
    ∷ []

abbrev column_types : Dtypes
column_types = ("v", MetalDtype.f64) ∷ ("w", MetalDtype.i64) ∷ []

abbrev three_signature : AggSignature
three_signature = record {
  column_order = "v" ∷ "w" ∷ [];
  column_dtypes = MetalDtype.f64 ∷ MetalDtype.i64 ∷ [];
  aggs =
      CanonicalAgg.simple 0 AggOp.sum MetalDtype.f64
      ∷ CanonicalAgg.expression
          (CanonicalExpr.binary BinaryOp.mul (CanonicalExpr.column 1) (CanonicalExpr.column 0))
          AggOp.sum MetalDtype.i64
      ∷ CanonicalAgg.length
      ∷ [];
}

three_specs_sign : from_specs three_specs column_types ≡ ok three_signature
unfolding from_specs
three_specs_sign = refl

from_specs-name_all_example :
    name_all three_signature.column_order three_signature.aggs
    ≡ some (map without_alias three_specs)
unfolding referenced_columns
from_specs-name_all_example =
    from_specs-name_all three_specs column_types (omega arith) three_specs_sign

-- The two columns change names, and the aliases change.
abbrev swapped : String → String
swapped name = if name == "v" then "w" else if name == "w" then "v" else name

swapped_back : (name : String) → swapped (swapped name) ≡ name
swapped_back name = elim (Bool-cases (name == "v")) [
  | inl p ↦ rw p (sym ((string_eq.same_iff name "v").0 p))
  | inr p ↦ elim (Bool-cases (name == "w")) [
    | inl q ↦ rw (p, q) (sym ((string_eq.same_iff name "w").0 q))
    | inr q ↦ rw (p, q, p, q) refl
  ]
]

swapped_injective : (a b : String) → swapped a ≡ swapped b → a ≡ b
swapped_injective a b h = sym (swapped_back a) ∙ ap swapped h ∙ swapped_back b

abbrev swapped_specs : List AggSpec
swapped_specs =
    AggSpec.simple "w" AggOp.sum "x"
    ∷ AggSpec.expression (AggExpr.binary BinaryOp.mul (AggExpr.column "v") (AggExpr.column "w"))
        AggOp.sum "y"
    ∷ AggSpec.length "z"
    ∷ []

from_specs-renamed_example :
    (other : AggSignature) × (from_specs swapped_specs (rename_keys swapped column_types)
      ≡ ok other)
    × CompareEqual three_signature other
    × (other.column_order ≡ map swapped three_signature.column_order)
from_specs-renamed_example =
    from_specs-renamed swapped three_specs swapped_specs column_types swapped_injective refl
      three_specs_sign
