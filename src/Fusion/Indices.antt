-- ===== src/Fusion/Indices.antt =====
-- The indices that a scope hands out.
use polars_metal.Base.{
  ℕ, zero, suc, ◌+◌, ◌-◌, ◌^◌, ◌≤◌, ◌<◌, ◌≡◌, refl, ap, ◌∙◌, inl, inr, ◌⊎◌, String, Option, none,
  some, List, [], ◌∷◌, ◌++◌, ok, Result-cases, ℤ, length, length-append, get_elem?, get_elem?-some,
  get_elem?-append_left, get_elem?-append_self, arith,
}
use native.Mathlib.Decide.{dec_lt}
use polars_metal.Fusion.Ops.{OpId, op_id_from_str}
use polars_metal.Fusion.Scope.{InputRef, OpNode, FusionScope, py_push_op, Call, do_call, do_calls}
use polars_metal.Fusion.Calls.{py_push_op-IsPushed, extent, Fits, AllFit}

-- The node of an index: the inputs come first, then the operations.
abbrev pub node_at : FusionScope → ℕ → Option (InputRef ⊎ OpNode)
node_at scope idx = elim (get_elem? scope.inputs idx) [
  | some input ↦ some (inl input)
  | none ↦ elim (get_elem? scope.ops (idx - length scope.inputs)) [
    | some node ↦ some (inr node)
    | none ↦ none
  ]
]

get_elem?-beyond : {A : Type 0} (xs : List A) (i : ℕ) → length xs ≤ i → get_elem? xs i ≡ none
get_elem?-beyond [] i h = refl
get_elem?-beyond (x ∷ xs) zero h = absurd (omega (arith, h))
get_elem?-beyond (x ∷ xs) (suc i) h = get_elem?-beyond xs i (omega (arith, h))

node_at-op :
    (scope : FusionScope) (j : ℕ) (node : OpNode)
    → get_elem? scope.ops j ≡ some node
    → node_at scope (length scope.inputs + j) ≡ some (inr node)
node_at-op scope j node at =
    let past = get_elem?-beyond scope.inputs (length scope.inputs + j) (omega arith) in
    let back : length scope.inputs + j - length scope.inputs ≡ j = omega arith in
    rw (past, node_at, back, at) refl

-- More operations leave the nodes that are there.
node_at-more :
    (scope : FusionScope) (node : OpNode) (idx : ℕ)
    → idx < extent scope
    → node_at (record scope { ops = scope.ops ++ node ∷ [] }) idx ≡ node_at scope idx
node_at-more scope node idx below = elim (dec_lt idx (length scope.inputs)) [
  | yes first ↦ let (input, here) = get_elem?-some scope.inputs idx first in rw (here, node_at) refl
  | no past ↦
      let beyond = get_elem?-beyond scope.inputs idx (omega arith) in
      let (op, here) =
        get_elem?-some scope.ops (idx - length scope.inputs) (omega (arith, below)) in
      rw
        (
          beyond,
          here,
          node_at,
          get_elem?-append_left scope.ops (node ∷ []) (idx - length scope.inputs) here,
        )
        refl
]

-- The first input is added where there is no operation yet.
node_at-input :
    (scope : FusionScope) (input : InputRef) (idx : ℕ)
    → scope.ops ≡ []
    → idx < extent scope
    → node_at (record scope { inputs = scope.inputs ++ input ∷ [] }) idx ≡ node_at scope idx
node_at-input scope input idx blank below =
    let first : idx < length scope.inputs = omega (arith, below, ap length blank) in
    let (old, here) = get_elem?-some scope.inputs idx first in
    rw (here, node_at, get_elem?-append_left scope.inputs (input ∷ []) idx here) refl

abbrev Kept : FusionScope → FusionScope → Type 0
Kept scope later =
    (extent scope ≤ extent later)
    × ((idx : ℕ) → idx < extent scope → node_at later idx ≡ node_at scope idx)

do_call-Kept :
    (scope : FusionScope) (call : Call) → Fits scope call → Kept scope (do_call scope call)
unfolding do_call
do_call-Kept scope (Call.add name dtype) first = (
  omega (arith, length-append {0} scope.inputs (record { column_name = name; dtype = dtype } ∷ [])),
  λ idx below. node_at-input scope (record { column_name = name; dtype = dtype }) idx first below,
)
do_call-Kept scope (Call.mark idx) fits = (omega arith, λ i below. refl)
do_call-Kept scope (Call.push op_str args param) fits =
    elim (Result-cases (py_push_op scope op_str args param)) [
      | inl (e, raised) ↦ rw raised (omega arith, λ idx below. refl)
      | inr (out, done) ↦
          let p = py_push_op-IsPushed scope op_str args param done in
          let node : OpNode = record { op = p.op; args = args; param = param } in
          rw (done, p.adds)
            (
              omega (arith, length-append {0} scope.ops (node ∷ [])),
              λ idx below. node_at-more scope node idx below,
            )
    ]

do_calls-Kept :
    (scope : FusionScope) (calls : List Call)
    → AllFit scope calls
    → Kept scope (do_calls scope calls)
unfolding do_calls
do_calls-Kept scope [] fit = (omega arith, λ idx below. refl)
do_calls-Kept scope (call ∷ calls) fit =
    let now = do_call-Kept scope call fit.0 in
    let later = do_calls-Kept (do_call scope call) calls fit.1 in
    (
      omega (arith, now.0, later.0),
      λ idx below. later.1 idx (omega (arith, now.0, below)) ∙ now.1 idx below,
    )

-- The index that `push_op` returns, in a scope of fewer than 2^32 nodes, names the pushed operation
-- with its arguments from then on, through all later calls that fit: those that add no input after
-- an operation and refer only to nodes that are there.
pub py_push_op-node_at :
    (scope : FusionScope) (op_str : String) (args : List ℕ) (param : Option ℤ) (calls : List Call)
    {out : FusionScope × ℕ}
    → extent scope < 2 ^ 32
    → py_push_op scope op_str args param ≡ ok out
    → AllFit out.0 calls
    → (op : OpId) × (op_id_from_str op_str ≡ some op)
      × (node_at (do_calls out.0 calls) out.1
          ≡ some (inr (record { op = op; args = args; param = param })))
py_push_op-node_at scope op_str args param calls {out} room done fit =
    let p = py_push_op-IsPushed scope op_str args param done in
    let node : OpNode = record { op = p.op; args = args; param = param } in
    let index : out.1 ≡ extent scope = ap (λ o. o.1) p.adds ∙ omega (arith, room) in
    let scope' : out.0 ≡ record scope { ops = scope.ops ++ node ∷ [] } = ap (λ o. o.0) p.adds in
    let grown : extent out.0 ≡ suc (extent scope) =
      ap extent scope' ∙ omega (arith, length-append {0} scope.ops (node ∷ [])) in
    let here : node_at out.0 (extent scope) ≡ some (inr node) =
      ap (λ s. node_at s (extent scope)) scope'
      ∙ node_at-op (record scope { ops = scope.ops ++ node ∷ [] }) (length scope.ops) node
          (get_elem?-append_self scope.ops node []) in
    let kept = do_calls-Kept out.0 calls fit in
    (
      p.op,
      p.known,
      ap (node_at (do_calls out.0 calls)) index
          ∙ kept.1 (extent scope) (omega (arith, grown))
          ∙ here,
    )
