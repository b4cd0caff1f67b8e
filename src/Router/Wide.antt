-- ===== src/Router/Wide.antt =====
-- The plans that the router keeps on the CPU, described by their keys and expressions alone.
use polars_metal.Base.{
  ℕ, ◌+◌, ◌<◌, ◌≡◌, refl, ap, ap₂, ◌∙◌, ◌↔◌, ◌⊎◌, inl, inr, String, true, ◌||◌, Option, none, some,
  lookup, insert, none, if◌then◌else◌, string_eq, Bool-cases, ◌==◌, List, [], ◌∷◌, ◌++◌, arith,
}
use polars_metal.Plan.{MetalPlanNode, MetalDtype, AggSpec, AggExpr}
use polars_metal.Plan.Expressions.{columns_of, first_seen, without, referenced_columns-first_seen}
use polars_metal.Router.{
  key_width_bits, total_bits, expression_falls_back, columns_map, input_schema_lookup, is_wide,
  any_wide,
}
use polars_metal.Base.Maps.{lookup-insert}

-- The bits that a key of a type takes, one of them for its null flag.
abbrev pub bits_for : MetalDtype → ℕ
bits_for MetalDtype.bool = 2
bits_for MetalDtype.i8 = 9
bits_for MetalDtype.u8 = 9
bits_for MetalDtype.i16 = 17
bits_for MetalDtype.u16 = 17
bits_for MetalDtype.i32 = 33
bits_for MetalDtype.u32 = 33
bits_for MetalDtype.f32 = 33
bits_for MetalDtype.utf8 = 33
bits_for MetalDtype.i64 = 65
bits_for MetalDtype.u64 = 65
bits_for MetalDtype.f64 = 65

abbrev pub all_bits : List (String × MetalDtype) → ℕ
all_bits [] = 0
all_bits (k ∷ keys) = bits_for k.1 + all_bits keys

-- The type of a column under the projections and filters: the last that its scan gives to the name.
-- The output of a groupby has none.
abbrev pub last_named : String → List (String × MetalDtype) → Option MetalDtype
last_named name [] = none
last_named name (c ∷ columns) = elim (last_named name columns) [
  | some d ↦ some d
  | none ↦ if c.0 == name then some c.1 else none
]

abbrev pub type_of : MetalPlanNode → String → Option MetalDtype
type_of (MetalPlanNode.scan n_rows columns) name = last_named name columns
type_of (MetalPlanNode.project input columns) name = type_of input name
type_of (MetalPlanNode.filter input predicate) name = type_of input name
type_of (MetalPlanNode.group_by input keys aggs) name = none

-- An expression with an i64 or f64 column at one of its leaves.
abbrev pub ReadsWide : MetalPlanNode → AggExpr → Type 0
ReadsWide input (AggExpr.column name) =
    (type_of input name ≡ some MetalDtype.i64) ⊎ (type_of input name ≡ some MetalDtype.f64)
ReadsWide input (AggExpr.literal_f64 v) = ⊥
ReadsWide input (AggExpr.literal_i64 v) = ⊥
ReadsWide input (AggExpr.binary op lhs rhs) = ReadsWide input lhs ⊎ ReadsWide input rhs

abbrev pub SomeReadsWide : MetalPlanNode → List AggSpec → Type 0
SomeReadsWide input [] = ⊥
SomeReadsWide input (AggSpec.expression expr op alias ∷ aggs) =
    ReadsWide input expr ⊎ SomeReadsWide input aggs
SomeReadsWide input (AggSpec.simple input_col op alias ∷ aggs) = SomeReadsWide input aggs
SomeReadsWide input (AggSpec.length alias ∷ aggs) = SomeReadsWide input aggs

-- A plan with a groupby whose keys are too wide, or one of whose expressions reads a wide column.
abbrev pub HasUnfit : MetalPlanNode → Type 0
HasUnfit (MetalPlanNode.scan n_rows columns) = ⊥
HasUnfit (MetalPlanNode.project input columns) = HasUnfit input
HasUnfit (MetalPlanNode.filter input predicate) = HasUnfit input
HasUnfit (MetalPlanNode.group_by input keys aggs) =
    HasUnfit input ⊎ (128 < all_bits keys) ⊎ SomeReadsWide input aggs

pub total_bits-all_bits : (keys : List (String × MetalDtype)) → total_bits keys ≡ all_bits keys
unfolding total_bits key_width_bits
total_bits-all_bits [] = refl
total_bits-all_bits (k ∷ keys) = ap₂ ◌+◌ (one k.1) (total_bits-all_bits keys)
  where
    one : (d : MetalDtype) → key_width_bits d ≡ bits_for d
    one MetalDtype.bool = refl
    one MetalDtype.i8 = refl
    one MetalDtype.u8 = refl
    one MetalDtype.i16 = refl
    one MetalDtype.u16 = refl
    one MetalDtype.i32 = refl
    one MetalDtype.u32 = refl
    one MetalDtype.f32 = refl
    one MetalDtype.utf8 = refl
    one MetalDtype.i64 = refl
    one MetalDtype.u64 = refl
    one MetalDtype.f64 = refl

-- One column among those that an expression reads.
any_wide-append :
    (schema : List (String × MetalDtype)) (xs ys : List String)
    → any_wide schema (xs ++ ys) ≡ (any_wide schema xs || any_wide schema ys)
unfolding any_wide
any_wide-append schema [] ys = refl
any_wide-append schema (x ∷ xs) ys = ground (arith, any_wide-append schema xs ys)

any_wide-without :
    (schema : List (String × MetalDtype)) (name : String) (names : List String)
    → (is_wide (lookup name schema) || any_wide schema (without name names))
      ≡ (is_wide (lookup name schema) || any_wide schema names)
unfolding any_wide
any_wide-without schema name [] = refl
any_wide-without schema name (n ∷ names) = elim (Bool-cases (n == name)) [
  | inl same ↦
      let e = (string_eq.same_iff n name).0 same in
      ground
        (arith, same, ap (λ x. is_wide (lookup x schema)) e, any_wide-without schema name names)
  | inr other ↦ ground (arith, other, any_wide-without schema name names)
]

any_wide-first_seen :
    (schema : List (String × MetalDtype)) (names : List String)
    → any_wide schema (first_seen names) ≡ any_wide schema names
unfolding any_wide
any_wide-first_seen schema [] = refl
any_wide-first_seen schema (n ∷ names) =
    any_wide-without schema n (first_seen names)
    ∙ ap (λ b. is_wide (lookup n schema) || b) (any_wide-first_seen schema names)

is_wide_iff :
    (o : Option MetalDtype)
    → (is_wide o ≡ true) ↔ ((o ≡ some MetalDtype.i64) ⊎ (o ≡ some MetalDtype.f64))
is_wide_iff o = (wide o, λ h. elim h [ inl p ↦ rw p refl | inr p ↦ rw p refl ])
  where
    wide :
        (o : Option MetalDtype)
        → is_wide o ≡ true
        → (o ≡ some MetalDtype.i64) ⊎ (o ≡ some MetalDtype.f64)
    wide none h = cc
    wide (some MetalDtype.i64) h = inl refl
    wide (some MetalDtype.f64) h = inr refl
    wide (some MetalDtype.bool) h = cc
    wide (some MetalDtype.i32) h = cc
    wide (some MetalDtype.f32) h = cc
    wide (some MetalDtype.i8) h = cc
    wide (some MetalDtype.i16) h = cc
    wide (some MetalDtype.u8) h = cc
    wide (some MetalDtype.u16) h = cc
    wide (some MetalDtype.u32) h = cc
    wide (some MetalDtype.u64) h = cc
    wide (some MetalDtype.utf8) h = cc

columns_map-last_named :
    (name : String) (columns m : List (String × MetalDtype))
    → lookup name (columns_map columns m)
      ≡ elim (last_named name columns) [ some d ↦ some d | none ↦ lookup name m ]
unfolding columns_map
columns_map-last_named name [] m = refl
columns_map-last_named name (c ∷ columns) m =
    ground
      (arith, columns_map-last_named name columns (insert c.0 c.1 m), lookup-insert c.0 name c.1 m)

input_schema_lookup-type_of :
    (node : MetalPlanNode) (name : String)
    → lookup name (input_schema_lookup node) ≡ type_of node name
unfolding input_schema_lookup lookup
input_schema_lookup-type_of (MetalPlanNode.scan n_rows columns) name =
    columns_map-last_named name columns [] ∙ same (last_named name columns)
  where
    same : (o : Option MetalDtype) → elim o [ some d ↦ some d | none ↦ none ] ≡ o
    same none = refl
    same (some d) = refl
input_schema_lookup-type_of (MetalPlanNode.project input columns) name =
    input_schema_lookup-type_of input name
input_schema_lookup-type_of (MetalPlanNode.filter input predicate) name =
    input_schema_lookup-type_of input name
input_schema_lookup-type_of (MetalPlanNode.group_by input keys aggs) name = refl

columns_of-ReadsWide :
    (input : MetalPlanNode) (e : AggExpr)
    → (any_wide (input_schema_lookup input) (columns_of e) ≡ true) ↔ ReadsWide input e
unfolding any_wide
columns_of-ReadsWide input (AggExpr.column name) =
    ground (arith, is_wide_iff (type_of input name), input_schema_lookup-type_of input name)
columns_of-ReadsWide input (AggExpr.literal_f64 v) = ground arith
columns_of-ReadsWide input (AggExpr.literal_i64 v) = ground arith
columns_of-ReadsWide input (AggExpr.binary op lhs rhs) = ground (
  arith,
  any_wide-append (input_schema_lookup input) (columns_of lhs) (columns_of rhs),
  columns_of-ReadsWide input lhs,
  columns_of-ReadsWide input rhs,
)

pub expression_falls_back-SomeReadsWide :
    (input : MetalPlanNode) (aggs : List AggSpec)
    → (expression_falls_back (input_schema_lookup input) aggs ≡ true) ↔ SomeReadsWide input aggs
unfolding expression_falls_back
expression_falls_back-SomeReadsWide input [] = ground arith
expression_falls_back-SomeReadsWide input (AggSpec.expression expr op alias ∷ aggs) = ground (
  arith,
  ap (any_wide (input_schema_lookup input)) (referenced_columns-first_seen expr)
      ∙ any_wide-first_seen (input_schema_lookup input) (columns_of expr),
  columns_of-ReadsWide input expr,
  expression_falls_back-SomeReadsWide input aggs,
)
expression_falls_back-SomeReadsWide input (AggSpec.simple input_col op alias ∷ aggs) =
    expression_falls_back-SomeReadsWide input aggs
expression_falls_back-SomeReadsWide input (AggSpec.length alias ∷ aggs) =
    expression_falls_back-SomeReadsWide input aggs
