-- ===== src/Plan/Expressions.antt =====
-- What `AggExpr`'s functions compute: the columns of an expression, and the bound on its size.
use mathlib.Core.List.{append_assoc, append-nil}
use native.Mathlib.Nat.{pow-succ', one-le-pow}
use polars_metal.Base.{
  ℕ, zero, suc, ◌+◌, ◌*◌, ◌^◌, ◌≤◌, ◌≡◌, refl, ap, sym, ◌∙◌, String, true, ◌||◌, List, [], ◌∷◌,
  ◌++◌, ok, ◌==◌, if◌then◌else◌, string_eq, arith, Bool-cases, inl, inr,
}
use polars_metal.Plan.{AggExpr, walk, contains, note_column, referenced_columns, depth, validate}

-- The columns at the leaves, from left to right.
abbrev pub columns_of : AggExpr → List String
columns_of (AggExpr.column name) = name ∷ []
columns_of (AggExpr.literal_f64 v) = []
columns_of (AggExpr.literal_i64 v) = []
columns_of (AggExpr.binary op lhs rhs) = columns_of lhs ++ columns_of rhs

abbrev pub without : String → List String → List String
without name [] = []
without name (n ∷ names) = if n == name then without name names else n ∷ without name names

-- Each name once, at its first place.
abbrev pub first_seen : List String → List String
first_seen [] = []
first_seen (n ∷ names) = n ∷ without n (first_seen names)

abbrev push_all : List String → List String → List String
push_all [] out = out
push_all (n ∷ names) out = push_all names (note_column (AggExpr.column n) out)

abbrev unknown : List String → List String → List String
unknown out [] = []
unknown out (n ∷ names) = if contains out n then unknown out names else n ∷ unknown out names

push_all-append :
    (xs ys out : List String) → push_all (xs ++ ys) out ≡ push_all ys (push_all xs out)
push_all-append [] ys out = refl
push_all-append (x ∷ xs) ys out = push_all-append xs ys (note_column (AggExpr.column x) out)

walk-push_all :
    (e : AggExpr) (out : List String) → walk note_column e out ≡ push_all (columns_of e) out
unfolding walk note_column
walk-push_all (AggExpr.column name) out = refl
walk-push_all (AggExpr.literal_f64 v) out = refl
walk-push_all (AggExpr.literal_i64 v) out = refl
walk-push_all (AggExpr.binary op lhs rhs) out =
    walk-push_all rhs (walk note_column lhs out)
    ∙ ap (push_all (columns_of rhs)) (walk-push_all lhs out)
    ∙ sym (push_all-append (columns_of lhs) (columns_of rhs) out)

contains-push :
    (out : List String) (x n : String) → contains (out ++ x ∷ []) n ≡ (contains out n || x == n)
unfolding contains
contains-push [] x n = ground arith
contains-push (o ∷ out) x n = ground (arith, contains-push out x n)

unknown-push :
    (out : List String) (x : String) (names : List String)
    → unknown (out ++ x ∷ []) names ≡ unknown out (without x names)
unknown-push out x [] = refl
unknown-push out x (n ∷ names) = ground (
  arith,
  string_eq.same_iff n x,
  string_eq.same_iff x n,
  contains-push out x n,
  unknown-push out x names,
)

unknown-without :
    (out : List String) (x : String) (names : List String)
    → contains out x ≡ true
    → unknown out (without x names) ≡ unknown out names
unknown-without out x [] h = refl
unknown-without out x (n ∷ names) h =
    ground (arith, string_eq.same_iff n x, unknown-without out x names h, h)

push_all-first_seen :
    (names out : List String) → push_all names out ≡ out ++ unknown out (first_seen names)
unfolding note_column
push_all-first_seen [] out = sym (append-nil out)
push_all-first_seen (n ∷ names) out = elim (Bool-cases (contains out n)) [
  | inl old ↦ rw old (
      push_all-first_seen names out
      ∙ ap (λ l. out ++ l) (sym (unknown-without out n (first_seen names) old)))
  | inr new ↦ rw new (
      push_all-first_seen names (out ++ n ∷ [])
      ∙ append_assoc out (n ∷ []) (unknown (out ++ n ∷ []) (first_seen names))
      ∙ ap (λ l. out ++ n ∷ l) (unknown-push out n (first_seen names)))
]

unknown-nil : (names : List String) → unknown [] names ≡ names
unfolding contains
unknown-nil [] = refl
unknown-nil (n ∷ names) = ap (λ l. n ∷ l) (unknown-nil names)

-- `referenced_columns` lists the columns at the leaves of an expression from left to right, each
-- once, at its first place.
pub referenced_columns-first_seen : (e : AggExpr) → referenced_columns e ≡ first_seen (columns_of e)
unfolding referenced_columns
referenced_columns-first_seen e =
    walk-push_all e []
    ∙ push_all-first_seen (columns_of e) []
    ∙ unknown-nil (first_seen (columns_of e))

abbrev pub nodes : AggExpr → ℕ
nodes (AggExpr.column name) = 1
nodes (AggExpr.literal_f64 v) = 1
nodes (AggExpr.literal_i64 v) = 1
nodes (AggExpr.binary op lhs rhs) = 1 + nodes lhs + nodes rhs

nodes_bound : (e : AggExpr) (d : ℕ) → depth e ≤ d → nodes e + 1 ≤ 2 * 2 ^ d
unfolding depth
nodes_bound (AggExpr.column name) d h = omega (arith, one-le-pow d 2)
nodes_bound (AggExpr.literal_f64 v) d h = omega (arith, one-le-pow d 2)
nodes_bound (AggExpr.literal_i64 v) d h = omega (arith, one-le-pow d 2)
nodes_bound (AggExpr.binary op lhs rhs) zero h = absurd (omega arith)
nodes_bound (AggExpr.binary op lhs rhs) (suc d) h =
    omega (arith, pow-succ' 2 d, nodes_bound lhs d (omega arith), nodes_bound rhs d (omega arith))

-- An expression that `validate` accepts has at most 31 nodes: the source that is emitted for it
-- is bounded.
pub validate-nodes : (e : AggExpr) → validate e ≡ ok tt → nodes e ≤ 31
unfolding validate
validate-nodes e h =
    let shallow : depth e ≤ 4 = ground (arith, h) in omega (arith, nodes_bound e 4 shallow)
