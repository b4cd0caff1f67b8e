-- ===== src/Signature/Restore.antt =====
-- What a signature keeps of the aggregations: everything but their aliases.
use polars_metal.Base.{
  ℕ, ◌+◌, ◌^◌, ◌≤◌, ◌≡◌, refl, sym, subst, String, Option, none, some, List, [], ◌∷◌, ◌++◌, map, ok,
  length, get_elem?, lookup, string_eq, ◌==◌, arith, IsNumbering-nil, >>=-eq-ok, ok-injective,
  Bool-cases, inl, inr,
}
use polars_metal.Plan.{MetalDtype, AggOp, AggExpr, AggSpec, referenced_columns}
use polars_metal.Plan.Expressions.{columns_of, first_seen, without, referenced_columns-first_seen}
use polars_metal.Signature.{
  CanonicalExpr, CanonicalAgg, AggSignature, Dtypes, SlotTable, lookup_dtype, intern, canon_expr,
  intern_all, output_dtype, canon_spec, canon_specs, no_slots, from_specs,
}
use polars_metal.Signature.Slots.{
  IsSlots, Extends, Extends-refl, Extends-trans, Extends-slot, HaveSlots, intern-IsInterned,
  intern_all-HaveSlots,
}

-- A slot read back through the column order.
abbrev pub name_expr : List String → CanonicalExpr → Option AggExpr
name_expr order (CanonicalExpr.column slot) = elim (get_elem? order slot) [
  | none ↦ none
  | some name ↦ some (AggExpr.column name)
]
name_expr order (CanonicalExpr.literal_f64_bits v) = some (AggExpr.literal_f64 v)
name_expr order (CanonicalExpr.literal_i64 v) = some (AggExpr.literal_i64 v)
name_expr order (CanonicalExpr.binary op l r) = elim (name_expr order l) [
  | none ↦ none
  | some a ↦ elim (name_expr order r) [ none ↦ none | some b ↦ some (AggExpr.binary op a b) ]
]

-- The aggregation, under an empty alias.
abbrev pub name_agg : List String → CanonicalAgg → Option AggSpec
name_agg order (CanonicalAgg.simple slot op dtype) = elim (get_elem? order slot) [
  | none ↦ none
  | some name ↦ some (AggSpec.simple name op "")
]
name_agg order (CanonicalAgg.expression e op dtype) = elim (name_expr order e) [
  | none ↦ none
  | some expr ↦ some (AggSpec.expression expr op "")
]
name_agg order CanonicalAgg.length = some (AggSpec.length "")

abbrev pub name_all : List String → List CanonicalAgg → Option (List AggSpec)
name_all order [] = some []
name_all order (c ∷ aggs) = elim (name_agg order c) [
  | none ↦ none
  | some s ↦ elim (name_all order aggs) [ none ↦ none | some rest ↦ some (s ∷ rest) ]
]

abbrev pub without_alias : AggSpec → AggSpec
without_alias (AggSpec.simple input_col op alias) = AggSpec.simple input_col op ""
without_alias (AggSpec.expression expr op alias) = AggSpec.expression expr op ""
without_alias (AggSpec.length alias) = AggSpec.length ""

-- The columns that a specification mentions.
abbrev pub mentions : AggSpec → ℕ
mentions (AggSpec.simple input_col op alias) = 1
mentions (AggSpec.expression expr op alias) = length (referenced_columns expr)
mentions (AggSpec.length alias) = 0

abbrev pub all_mentions : List AggSpec → ℕ
all_mentions [] = 0
all_mentions (s ∷ specs) = mentions s + all_mentions specs

HaveSlots-without :
    (t : SlotTable) (c : String) (columns : List String)
    → ((slot : ℕ) × (get_elem? t.order slot ≡ some c))
    → HaveSlots t (without c columns)
    → HaveSlots t columns
HaveSlots-without t c [] slot h = tt
HaveSlots-without t c (n ∷ columns) slot h = elim (Bool-cases (n == c)) [
  | inl same ↦
      let e : n ≡ c = (string_eq.same_iff n c).0 same in
      (
        subst (λ (x : String). (slot : ℕ) × (get_elem? t.order slot ≡ some x)) (sym e) slot,
        HaveSlots-without t c columns slot (rw same at h),
      )
  | inr other ↦ let both = rw other at h in (both.0, HaveSlots-without t c columns slot both.1)
]

HaveSlots-first_seen :
    (t : SlotTable) (columns : List String) → HaveSlots t (first_seen columns) → HaveSlots t columns
HaveSlots-first_seen t [] h = tt
HaveSlots-first_seen t (c ∷ columns) h =
    (h.0, HaveSlots-first_seen t columns (HaveSlots-without t c (first_seen columns) h.0 h.1))

HaveSlots-append :
    (t : SlotTable) (xs ys : List String) → HaveSlots t (xs ++ ys) → HaveSlots t xs × HaveSlots t ys
HaveSlots-append t [] ys h = (tt, h)
HaveSlots-append t (x ∷ xs) ys h =
    let both = HaveSlots-append t xs ys h.1 in ((h.0, both.0), both.1)

module _ {n : ℕ} {t u : SlotTable} (valid : IsSlots n t) (extends : Extends t u) where
  name_expr-canon_expr :
      (e : AggExpr) → HaveSlots t (columns_of e) → name_expr u.order (canon_expr e t.slots) ≡ some e
  unfolding canon_expr
  name_expr-canon_expr (AggExpr.column name) h =
      let (slot, at) = h.0 in
      let known : lookup name t.slots ≡ some slot = valid.numbering.of_table name slot at in
      let found : get_elem? u.order slot ≡ some name = Extends-slot slot extends at in
      ground (arith, known, found)
  name_expr-canon_expr (AggExpr.literal_f64 v) h = refl
  name_expr-canon_expr (AggExpr.literal_i64 v) h = refl
  name_expr-canon_expr (AggExpr.binary op lhs rhs) h =
      let both = HaveSlots-append t (columns_of lhs) (columns_of rhs) h in
      rw (name_expr-canon_expr lhs both.0, name_expr-canon_expr rhs both.1) refl

-- One specification is entered and can be read back, also when the table has grown.
record IsEntered (n : ℕ) (spec : AggSpec) (t u : SlotTable) (c : CanonicalAgg) : Type 0 where
  pub valid : IsSlots (n + mentions spec) u
  pub extends : Extends t u
  pub named : (v : SlotTable) → Extends u v → name_agg v.order c ≡ some (without_alias spec)

-- The results of `canon_spec`'s two branches.
simple-IsEntered :
    (col : String) (op : AggOp) (alias : String) (n : ℕ) (t : SlotTable) (dt : MetalDtype)
    → n + 1 ≤ 2 ^ 16
    → IsSlots n t
    → IsEntered n
        (AggSpec.simple col op alias)
        t
        (intern col dt t).0
        (CanonicalAgg.simple (intern col dt t).1 op dt)
simple-IsEntered col op alias n t dt small h =
    let one = intern-IsInterned {n = n} {t = t} col dt (omega arith) h in
    record {
      valid = record { numbering = one.valid.numbering; few = omega (arith, one.valid.few) };
      extends = one.extends;
      named = λ v later. rw (Extends-slot (intern col dt t).1 later one.stands, name_agg) refl;
    }

expression-IsEntered :
    (col_dtypes : Dtypes) (expr : AggExpr) (op : AggOp) (alias : String) (n : ℕ) (t u : SlotTable)
    (dt : MetalDtype)
    → n + length (referenced_columns expr) ≤ 2 ^ 16
    → IsSlots n t
    → intern_all col_dtypes (referenced_columns expr) t ≡ ok u
    → IsEntered n
        (AggSpec.expression expr op alias)
        t
        u
        (CanonicalAgg.expression (canon_expr expr u.slots) op dt)
expression-IsEntered col_dtypes expr op alias n t u dt small h e =
    let all = intern_all-HaveSlots col_dtypes (referenced_columns expr) n t small h e in
    let leaves : HaveSlots u (columns_of expr) =
      HaveSlots-first_seen u (columns_of expr)
        (subst (HaveSlots u) (referenced_columns-first_seen expr) all.2) in
    record {
      valid = all.0;
      extends = all.1;
      named = λ v later. rw (name_expr-canon_expr all.0 later expr leaves, name_agg) refl;
    }

canon_spec-IsEntered :
    (col_dtypes : Dtypes) (spec : AggSpec) (n : ℕ) (t : SlotTable) {r : SlotTable × CanonicalAgg}
    → n + mentions spec ≤ 2 ^ 16
    → IsSlots n t
    → canon_spec col_dtypes spec t ≡ ok r
    → IsEntered n spec t r.0 r.1
unfolding canon_spec
canon_spec-IsEntered col_dtypes (AggSpec.simple col op alias) n t small h e =
    let (dt, found, rest) = >>=-eq-ok (lookup_dtype col col_dtypes) _ e in
    subst (λ r. IsEntered n (AggSpec.simple col op alias) t r.0 r.1) (ok-injective rest)
      (simple-IsEntered col op alias n t dt small h)
canon_spec-IsEntered col_dtypes (AggSpec.expression expr op alias) n t small h e =
    let (u, entered, rest) = >>=-eq-ok (intern_all col_dtypes (referenced_columns expr) t) _ e in
    let (dt, found, last) = >>=-eq-ok (output_dtype col_dtypes (referenced_columns expr)) _ rest in
    subst (λ r. IsEntered n (AggSpec.expression expr op alias) t r.0 r.1) (ok-injective last)
      (expression-IsEntered col_dtypes expr op alias n t u dt small h entered)
canon_spec-IsEntered col_dtypes (AggSpec.length alias) n t small h e =
    subst (λ r. IsEntered n (AggSpec.length alias) t r.0 r.1) (ok-injective e)
      (record {
        valid = record { numbering = h.numbering; few = omega (arith, h.few) };
        extends = Extends-refl t;
        named = λ v later. refl;
      })

name_all-cons :
    (order : List String) (c : CanonicalAgg) (aggs : List CanonicalAgg) {spec : AggSpec}
    {specs : List AggSpec}
    → name_agg order c ≡ some spec
    → name_all order aggs ≡ some specs
    → name_all order (c ∷ aggs) ≡ some (spec ∷ specs)
name_all-cons order c aggs h k = rw (name_all, h, k) refl

canon_specs-named :
    (col_dtypes : Dtypes) (specs : List AggSpec) (n : ℕ) (t : SlotTable)
    {r : SlotTable × List CanonicalAgg}
    → n + all_mentions specs ≤ 2 ^ 16
    → IsSlots n t
    → canon_specs col_dtypes specs t ≡ ok r
    → Extends t r.0 × (name_all r.0.order r.1 ≡ some (map without_alias specs))
unfolding canon_specs
canon_specs-named col_dtypes [] n t small h e =
    subst
      (λ (r : SlotTable × List CanonicalAgg). Extends t r.0 × (name_all r.0.order r.1 ≡ some []))
      (ok-injective e) (Extends-refl t, refl)
canon_specs-named col_dtypes (spec ∷ specs) n t small h e =
    let (one, first, rest) = >>=-eq-ok (canon_spec col_dtypes spec t) _ e in
    let (more, second, last) = >>=-eq-ok (canon_specs col_dtypes specs one.0) _ rest in
    let entered = canon_spec-IsEntered col_dtypes spec n t (omega arith) h first in
    let later =
      canon_specs-named col_dtypes specs (n + mentions spec) one.0 (omega arith) entered.valid
        second in
    subst
      (λ (r : SlotTable × List CanonicalAgg).
        Extends t r.0 × (name_all r.0.order r.1 ≡ some (map without_alias (spec ∷ specs))))
      (ok-injective last)
      (
        Extends-trans entered.extends later.0,
        name_all-cons more.0.order one.1 more.1 (entered.named more.0 later.0) later.1,
      )

-- A signature loses nothing of the aggregations but their aliases: read back through the column
-- order, the canonical forms of specifications with at most 2^16 mentions of columns are the
-- specifications, so that every slot stands for the column it was given to.
pub from_specs-name_all :
    (specs : List AggSpec) (col_dtypes : Dtypes) {sig : AggSignature}
    → all_mentions specs ≤ 2 ^ 16
    → from_specs specs col_dtypes ≡ ok sig
    → name_all sig.column_order sig.aggs ≡ some (map without_alias specs)
unfolding from_specs
from_specs-name_all specs col_dtypes small e =
    let (r, done, last) = >>=-eq-ok (canon_specs col_dtypes specs no_slots) _ e in
    let named =
      canon_specs-named col_dtypes specs 0 no_slots (omega arith)
        (record { numbering = IsNumbering-nil; few = omega arith }) done in
    subst (λ s. name_all s.column_order s.aggs ≡ some (map without_alias specs)) (ok-injective last)
      named.1
