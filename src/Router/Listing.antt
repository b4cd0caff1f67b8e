-- ===== src/Router/Listing.antt =====
-- `compute_lifting_plan` against a listing of the nodes, from the scan upward.
use native.Mathlib.Nat.{mod-eq_of_lt}
use polars_metal.Base.{
  ℕ, suc, ◌+◌, ◌%◌, ◌^◌, ◌<◌, ◌≡◌, refl, ap, ap₂, sym, ◌∙◌, String, Bool, false, none, some, [],
  ◌∷◌, ◌++◌, ◌==◌, if◌then◌else◌, lookup, insert, arith, All, All-append, lookup-insert, beq_self,
  string_eq, nat_eq,
}
use polars_metal.Plan.{MetalPlanNode}
use polars_metal.Router.{
  NodeId, node_eq, NodeDecision, LiftingPlan, decide_project, decide_group_by_node, WalkState,
  record_node, child_decision, Reason, walk, compute_lifting_plan,
}

-- The nodes below a node: its number in post-order.
abbrev pub height : MetalPlanNode → ℕ
height (MetalPlanNode.scan n_rows columns) = 0
height (MetalPlanNode.project input columns) = suc (height input)
height (MetalPlanNode.filter input predicate) = suc (height input)
height (MetalPlanNode.group_by input keys aggs) = suc (height input)

abbrev pub kind_of : MetalPlanNode → String
kind_of (MetalPlanNode.scan n_rows columns) = "Scan"
kind_of (MetalPlanNode.project input columns) = "Project"
kind_of (MetalPlanNode.filter input predicate) = "Filter"
kind_of (MetalPlanNode.group_by input keys aggs) = "GroupBy"

abbrev pub id_of : MetalPlanNode → NodeId
id_of node = record { kind = kind_of node; seq = height node }

-- A projection is decided as its input, a scan and a filter stay on the CPU.
abbrev pub decision_of : MetalPlanNode → NodeDecision
decision_of (MetalPlanNode.scan n_rows columns) = NodeDecision.cpu_leave
decision_of (MetalPlanNode.project input columns) = decision_of input
decision_of (MetalPlanNode.filter input predicate) = NodeDecision.cpu_leave
decision_of (MetalPlanNode.group_by input keys aggs) = decide_group_by_node input keys aggs

abbrev entry_of : MetalPlanNode → NodeId × NodeDecision
entry_of node = (id_of node, decision_of node)

abbrev pub listing : MetalPlanNode → LiftingPlan
listing (MetalPlanNode.scan n r) = entry_of (MetalPlanNode.scan n r) ∷ []
listing (MetalPlanNode.project i c) = listing i ++ entry_of (MetalPlanNode.project i c) ∷ []
listing (MetalPlanNode.filter i p) = listing i ++ entry_of (MetalPlanNode.filter i p) ∷ []
listing (MetalPlanNode.group_by i k a) = listing i ++ entry_of (MetalPlanNode.group_by i k a) ∷ []

-- All numbers of the plan are below `n`.
abbrev Below : ℕ → LiftingPlan → Type 0
Below n plan = All (λ e. e.0.seq < n) plan

Below-later : (n : ℕ) (plan : LiftingPlan) → Below n plan → Below (suc n) plan
Below-later n [] h = tt
Below-later n (e ∷ plan) h = (omega (arith, h.0), Below-later n plan h.1)

Below-push :
    (n : ℕ) (plan : LiftingPlan) (id : NodeId) (d : NodeDecision)
    → Below n plan
    → id.seq ≡ n
    → Below (suc n) (plan ++ (id, d) ∷ [])
Below-push n plan id d h e =
    All-append (λ e. e.0.seq < suc n) plan ((id, d) ∷ []) (Below-later n plan h) (omega arith, tt)

listing-Below : (node : MetalPlanNode) → Below (suc (height node)) (listing node)
listing-Below (MetalPlanNode.scan n r) = (omega arith, tt)
listing-Below (MetalPlanNode.project i c) =
    Below-push (suc (height i)) (listing i) _ _ (listing-Below i) refl
listing-Below (MetalPlanNode.filter i p) =
    Below-push (suc (height i)) (listing i) _ _ (listing-Below i) refl
listing-Below (MetalPlanNode.group_by i k a) =
    Below-push (suc (height i)) (listing i) _ _ (listing-Below i) refl

insert-Below :
    (n : ℕ) (plan : LiftingPlan) (id : NodeId) (d : NodeDecision)
    → Below n plan
    → id.seq ≡ n
    → insert id d plan ≡ plan ++ (id, d) ∷ []
unfolding insert
insert-Below n [] id d h e = refl
insert-Below n ((other, v) ∷ plan) id d h e =
    let fresh : (other == id) ≡ false =
      ground (arith, node_eq.same_iff other id, ap (λ (i : NodeId). i.seq), h.0) in
    rw fresh (ap (λ p. (other, v) ∷ p) (insert-Below n plan id d h.1 e))

-- One node is entered under a new number, and can be read back.
record_node-eq :
    (kind : String) (d : NodeDecision) (plan : LiftingPlan) (n : ℕ)
    → n + 1 < 2 ^ 32
    → Below n plan
    → record_node kind d (record { plan = plan; next_seq = n }) ≡ (
      record { kind = kind; seq = n },
      record { plan = plan ++ (record { kind = kind; seq = n }, d) ∷ []; next_seq = suc n },
    )
unfolding record_node
record_node-eq kind d plan n small below =
    let id : NodeId = record { kind = kind; seq = n } in
    let next : (n + 1) % 2 ^ 32 ≡ suc n = mod-eq_of_lt small ∙ omega arith in
    let made : LiftingPlan → ℕ → NodeId × WalkState =
      λ p k. (id, record { plan = p; next_seq = k }) in
    ap₂ made (insert-Below n plan id d below refl) next

lookup-push :
    (n : ℕ) (plan : LiftingPlan) (id : NodeId) (d : NodeDecision)
    → Below n plan
    → id.seq ≡ n
    → lookup id (plan ++ (id, d) ∷ []) ≡ some d
lookup-push n plan id d below e =
    ap (lookup id) (sym (insert-Below n plan id d below e))
    ∙ lookup-insert id id d plan
    ∙ ap (λ (b : Bool). if b then some d else lookup id plan) (beq_self id)

pub lookup-listing :
    (node : MetalPlanNode) → lookup (id_of node) (listing node) ≡ some (decision_of node)
lookup-listing (MetalPlanNode.scan n r) = lookup-push 0 [] _ _ tt refl
lookup-listing (MetalPlanNode.project i c) = lookup-push _ (listing i) _ _ (listing-Below i) refl
lookup-listing (MetalPlanNode.filter i p) = lookup-push _ (listing i) _ _ (listing-Below i) refl
lookup-listing (MetalPlanNode.group_by i k a) = lookup-push _ (listing i) _ _ (listing-Below i) refl

decide_project_same : (d : NodeDecision) → decide_project d ≡ d
unfolding decide_project
decide_project_same NodeDecision.gpu_lift = refl
decide_project_same NodeDecision.cpu_leave = refl
decide_project_same (NodeDecision.fallback r) = refl

child-listing :
    (i : MetalPlanNode) → decide_project (child_decision (id_of i) (listing i)) ≡ decision_of i
child-listing i =
    ap
      (λ o.
        decide_project (elim o [ some d ↦ d | none ↦ NodeDecision.fallback Reason.missing_child ]))
      (lookup-listing i)
    ∙ decide_project_same (decision_of i)

abbrev begin : WalkState
begin = record { plan = []; next_seq = 0 }

abbrev walked : MetalPlanNode → NodeId × WalkState
walked node = (id_of node, record { plan = listing node; next_seq = suc (height node) })

walk-listing : (node : MetalPlanNode) → height node + 1 < 2 ^ 32 → walk node begin ≡ walked node
unfolding walk
walk-listing (MetalPlanNode.scan n r) small =
    record_node-eq "Scan" NodeDecision.cpu_leave [] 0 (omega arith) tt
walk-listing (MetalPlanNode.project i c) small =
    let below : walk i begin ≡ walked i = walk-listing i (omega arith) in
    rw below (
      ap (λ d. record_node "Project" d (walked i).1) (child-listing i)
      ∙ record_node-eq "Project" (decision_of i) (listing i) (suc (height i)) (omega arith)
          (listing-Below i))
walk-listing (MetalPlanNode.filter i p) small =
    let below : walk i begin ≡ walked i = walk-listing i (omega arith) in
    rw below (
      record_node-eq "Filter" NodeDecision.cpu_leave (listing i) (suc (height i)) (omega arith)
        (listing-Below i))
walk-listing (MetalPlanNode.group_by i k a) small =
    let below : walk i begin ≡ walked i = walk-listing i (omega arith) in
    rw below (
      record_node-eq "GroupBy" (decide_group_by_node i k a) (listing i) (suc (height i))
        (omega arith) (listing-Below i))

-- The plan of a tree of fewer than 2^32 nodes has one decision for each node, under its kind and
-- its number in post-order: a projection has its input's decision, a scan and a filter stay on
-- the CPU, and each groupby has the one that its input, keys and aggregations give.
pub compute_lifting_plan-listing :
    (root : MetalPlanNode) → height root + 1 < 2 ^ 32 → compute_lifting_plan root ≡ listing root
unfolding compute_lifting_plan
compute_lifting_plan-listing root small =
    ap (λ (r : NodeId × WalkState). r.1.plan) (walk-listing root small)
