-- ===== src/Signature/Renaming.antt =====
-- Signatures whose columns differ in their names alone compare equal.
use polars_metal.Base.{
  ℕ, ◌%◌, ◌^◌, ◌≡◌, refl, ap, ap₂, sym, ◌∙◌, String, none, some, List, [], ◌∷◌, ◌++◌, map, ok,
  ok-injective, >>=-eq-ok, lookup, insert, string_eq, ◌==◌, length, Bool-cases, Option-cases, inl,
  inr,
}
use polars_metal.Base.Lists.{length-map}
use polars_metal.Plan.{MetalDtype, AggExpr, AggSpec, referenced_columns}
use polars_metal.Plan.Expressions.{columns_of, first_seen, without, referenced_columns-first_seen}
use polars_metal.Signature.{
  AggSignature, CanonicalExpr, CanonicalAgg, CompareEqual, Dtypes, SlotTable, lookup_dtype, intern,
  canon_expr, intern_all, output_dtype, canon_spec, canon_specs, no_slots, from_specs,
}
use polars_metal.Signature.Restore.{without_alias}
use polars_metal.Signature.Aliases.{from_specs-without_alias}

module _ (f : String → String) where
  abbrev pub rename_expr : AggExpr → AggExpr
  rename_expr (AggExpr.column name) = AggExpr.column (f name)
  rename_expr (AggExpr.literal_f64 v) = AggExpr.literal_f64 v
  rename_expr (AggExpr.literal_i64 v) = AggExpr.literal_i64 v
  rename_expr (AggExpr.binary op lhs rhs) = AggExpr.binary op (rename_expr lhs) (rename_expr rhs)

  abbrev pub rename_spec : AggSpec → AggSpec
  rename_spec (AggSpec.simple input_col op alias) = AggSpec.simple (f input_col) op alias
  rename_spec (AggSpec.expression expr op alias) = AggSpec.expression (rename_expr expr) op alias
  rename_spec (AggSpec.length alias) = AggSpec.length alias

  abbrev pub rename_keys : {V : Type 0} → List (String × V) → List (String × V)
  rename_keys [] = []
  rename_keys (p ∷ m) = (f p.0, p.1) ∷ rename_keys m

  abbrev rename_table : SlotTable → SlotTable
  rename_table t = record { slots = rename_keys t.slots; order = map f t.order; dtypes = t.dtypes }

map-push :
    (f : String → String) (xs : List String) (x : String)
    → map f (xs ++ x ∷ []) ≡ map f xs ++ f x ∷ []
map-push f [] x = refl
map-push f (y ∷ xs) x = ap (λ l. f y ∷ l) (map-push f xs x)

map-append : (f : String → String) (xs ys : List String) → map f (xs ++ ys) ≡ map f xs ++ map f ys
map-append f [] ys = refl
map-append f (x ∷ xs) ys = ap (λ l. f x ∷ l) (map-append f xs ys)

-- The column names are told apart as before.
module _ (f : String → String) (injective : (a b : String) → f a ≡ f b → a ≡ b) where
  beq_renamed : (a b : String) → (f a == f b) ≡ (a == b)
  beq_renamed a b = elim (Bool-cases (a == b)) [
    | inl same ↦
        (string_eq.same_iff (f a) (f b)).1 (ap f ((string_eq.same_iff a b).0 same)) ∙ sym same
    | inr other ↦ elim (Bool-cases (f a == f b)) [
      | inl same ↦
          same
          ∙ sym
              ((string_eq.same_iff a b).1 (injective a b ((string_eq.same_iff (f a) (f b)).0 same)))
      | inr other' ↦ other' ∙ sym other
    ]
  ]

  lookup-renamed :
      {V : Type 0} (k : String) (m : List (String × V))
      → lookup (f k) (rename_keys f m) ≡ lookup k m
  unfolding lookup
  lookup-renamed k [] = refl
  lookup-renamed k (p ∷ m) = rw (beq_renamed p.0 k, lookup-renamed k m) refl

  insert-renamed :
      {V : Type 0} (k : String) (v : V) (m : List (String × V))
      → insert (f k) v (rename_keys f m) ≡ rename_keys f (insert k v m)
  unfolding insert
  insert-renamed k v [] = refl
  insert-renamed k v (p ∷ m) = elim (Bool-cases (p.0 == k)) [
    | inl same ↦ rw (beq_renamed p.0 k, same) refl
    | inr other ↦ rw (beq_renamed p.0 k, other, insert-renamed k v m) refl
  ]

  intern-renamed :
      (name : String) (dtype : MetalDtype) (t : SlotTable)
      → intern (f name) dtype (rename_table f t)
        ≡ (rename_table f (intern name dtype t).0, (intern name dtype t).1)
  unfolding intern
  intern-renamed name dtype t = elim (Option-cases (lookup name t.slots)) [
    | inl new ↦
        rw
          (
            intern,
            lookup-renamed name t.slots,
            new,
            length-map f t.order,
            insert-renamed name (length t.order % 2 ^ 16) t.slots,
            map-push f t.order name,
          )
          refl
    | inr (slot, old) ↦ rw (intern, lookup-renamed name t.slots, old) refl
  ]

  without-renamed :
      (name : String) (names : List String)
      → without (f name) (map f names) ≡ map f (without name names)
  without-renamed name [] = refl
  without-renamed name (n ∷ names) = elim (Bool-cases (n == name)) [
    | inl same ↦ rw (beq_renamed n name, same) (without-renamed name names)
    | inr other ↦ rw (beq_renamed n name, other) (ap (λ l. f n ∷ l) (without-renamed name names))
  ]

  first_seen-renamed : (names : List String) → first_seen (map f names) ≡ map f (first_seen names)
  first_seen-renamed [] = refl
  first_seen-renamed (n ∷ names) =
      ap (λ l. f n ∷ l)
        (ap (without (f n)) (first_seen-renamed names) ∙ without-renamed n (first_seen names))

  columns_of-renamed : (e : AggExpr) → columns_of (rename_expr f e) ≡ map f (columns_of e)
  columns_of-renamed (AggExpr.column name) = refl
  columns_of-renamed (AggExpr.literal_f64 v) = refl
  columns_of-renamed (AggExpr.literal_i64 v) = refl
  columns_of-renamed (AggExpr.binary op lhs rhs) =
      ap₂ ◌++◌ (columns_of-renamed lhs) (columns_of-renamed rhs)
      ∙ sym (map-append f (columns_of lhs) (columns_of rhs))

  referenced_columns-renamed :
      (e : AggExpr) → referenced_columns (rename_expr f e) ≡ map f (referenced_columns e)
  referenced_columns-renamed e =
      referenced_columns-first_seen (rename_expr f e)
      ∙ ap first_seen (columns_of-renamed e)
      ∙ first_seen-renamed (columns_of e)
      ∙ ap (map f) (sym (referenced_columns-first_seen e))

  canon_expr-renamed :
      (e : AggExpr) (slots : List (String × ℕ))
      → canon_expr (rename_expr f e) (rename_keys f slots) ≡ canon_expr e slots
  unfolding canon_expr
  canon_expr-renamed (AggExpr.column name) slots =
      ap (λ o. CanonicalExpr.column (elim o [ none ↦ 0 | some slot ↦ slot ]))
        (lookup-renamed name slots)
  canon_expr-renamed (AggExpr.literal_f64 v) slots = refl
  canon_expr-renamed (AggExpr.literal_i64 v) slots = refl
  canon_expr-renamed (AggExpr.binary op lhs rhs) slots =
      ap₂ (CanonicalExpr.binary op) (canon_expr-renamed lhs slots) (canon_expr-renamed rhs slots)

  module _ (d : Dtypes) where
    lookup_dtype-renamed :
        (col : String) {dt : MetalDtype}
        → lookup_dtype col d ≡ ok dt
        → lookup_dtype (f col) (rename_keys f d) ≡ ok dt
    unfolding lookup_dtype
    lookup_dtype-renamed col h = elim (Option-cases (lookup col d)) [
      | inl missing ↦ cc (rw missing at h)
      | inr (dt, known) ↦ rw (lookup-renamed col d, known) (rw known at h)
    ]

    output_dtype-renamed :
        (cols : List String) {dt : MetalDtype}
        → output_dtype d cols ≡ ok dt
        → output_dtype (rename_keys f d) (map f cols) ≡ ok dt
    unfolding output_dtype
    output_dtype-renamed [] h = h
    output_dtype-renamed (c ∷ cols) h = lookup_dtype-renamed c h

    intern_all-renamed :
        (cols : List String) (t : SlotTable) {u : SlotTable}
        → intern_all d cols t ≡ ok u
        → intern_all (rename_keys f d) (map f cols) (rename_table f t) ≡ ok (rename_table f u)
    unfolding intern_all
    intern_all-renamed [] t h = ap ok (ap (rename_table f) (ok-injective h))
    intern_all-renamed (c ∷ cols) t h =
        let (dt, known, rest) = >>=-eq-ok (lookup_dtype c d) _ h in
        rw (lookup_dtype-renamed c known, intern-renamed c dt t)
          (intern_all-renamed cols (intern c dt t).0 rest)

    canon_spec-renamed :
        (spec : AggSpec) (t : SlotTable) {r : SlotTable × CanonicalAgg}
        → canon_spec d spec t ≡ ok r
        → canon_spec (rename_keys f d) (rename_spec f spec) (rename_table f t)
          ≡ ok (rename_table f r.0, r.1)
    unfolding canon_spec
    canon_spec-renamed (AggSpec.simple input_col op alias) t h =
        let (dt, known, rest) = >>=-eq-ok (lookup_dtype input_col d) _ h in
        rw
          (lookup_dtype-renamed input_col known, intern-renamed input_col dt t, ← ok-injective rest)
          refl
    canon_spec-renamed (AggSpec.expression expr op alias) t h =
        let (u, entered, rest) = >>=-eq-ok (intern_all d (referenced_columns expr) t) _ h in
        let (dt, known, last) = >>=-eq-ok (output_dtype d (referenced_columns expr)) _ rest in
        rw
          (
            referenced_columns-renamed expr,
            intern_all-renamed (referenced_columns expr) t entered,
            output_dtype-renamed (referenced_columns expr) known,
            canon_expr-renamed expr u.slots,
            ← ok-injective last,
          )
          refl
    canon_spec-renamed (AggSpec.length alias) t h = rw (← ok-injective h) refl

    canon_specs-renamed :
        (specs : List AggSpec) (t : SlotTable) {r : SlotTable × List CanonicalAgg}
        → canon_specs d specs t ≡ ok r
        → canon_specs (rename_keys f d) (map (rename_spec f) specs) (rename_table f t)
          ≡ ok (rename_table f r.0, r.1)
    unfolding canon_specs
    canon_specs-renamed [] t h = rw (← ok-injective h) refl
    canon_specs-renamed (spec ∷ specs) t h =
        let (one, first, rest) = >>=-eq-ok (canon_spec d spec t) _ h in
        let (more, second, last) = >>=-eq-ok (canon_specs d specs one.0) _ rest in
        rw
          (
            canon_spec-renamed spec t first,
            canon_specs-renamed specs one.0 second,
            ← ok-injective last,
          )
          refl

-- Renaming the columns, in the aggregations and in the types, so that no two of them get one name,
-- and giving any aliases, makes a signature that compares equal: only its column order has the new
-- names.
pub from_specs-renamed :
    (f : String → String) (xs ys : List AggSpec) (col_dtypes : Dtypes) {sig : AggSignature}
    → ((a b : String) → f a ≡ f b → a ≡ b)
    → map without_alias ys ≡ map (rename_spec f) (map without_alias xs)
    → from_specs xs col_dtypes ≡ ok sig
    → (other : AggSignature) × (from_specs ys (rename_keys f col_dtypes) ≡ ok other)
      × CompareEqual sig other
      × (other.column_order ≡ map f sig.column_order)
unfolding from_specs
from_specs-renamed f xs ys d {sig} injective same h =
    let (r, built, last) =
      >>=-eq-ok (canon_specs d (map without_alias xs) no_slots) _
        (from_specs-without_alias d xs ∙ h) in
    let renamed = canon_specs-renamed f injective d (map without_alias xs) no_slots built in
    (
      record { column_order = map f r.0.order; column_dtypes = r.0.dtypes; aggs = r.1 },
      sym (from_specs-without_alias (rename_keys f d) ys) ∙ rw (same, renamed) refl,
      rw (← ok-injective last) (refl, refl),
      rw (← ok-injective last) refl,
    )
