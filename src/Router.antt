-- ===== src/Router.antt =====
-- router/mod.rs and router/cost.rs of polars-metal-core: for every node of a plan, whether the
-- GPU takes it. The text of a fallback is a constructor with the numbers that stand in it.
pub mod Listing
pub mod Wide
pub mod Decisions
pub mod Affinity
mod Tests
use polars_metal.Base.{
  ℕ, ◌+◌, ◌%◌, ◌^◌, ◌≡◌, refl, ◌↔◌, String, Bool, true, false, ◌&&◌, ◌||◌, Option, none, some, List,
  [], ◌∷◌, ltb, ◌==◌, if◌then◌else◌, Eq, string_eq, nat_eq, length, lookup, insert, arith,
}
use polars_metal.Plan.{MetalDtype, AggExpr, AggSpec, MetalPlanNode, referenced_columns}

pub record NodeId : Type 0 where
  pub kind : String
  pub seq : ℕ

abbrev pub same_node : NodeId → NodeId → Bool
same_node a b = a.kind == b.kind && a.seq == b.seq

pub same_node_iff : (a b : NodeId) → (same_node a b ≡ true) ↔ (a ≡ b)
same_node_iff a b = ground (arith, string_eq.same_iff a.kind b.kind)

instance abbrev pub node_eq : Eq NodeId
node_eq = record { same = same_node; same_iff = same_node_iff }

pub data Reason : Type 0 where
  missing_child : Reason
  wide_expression : Reason
  wide_keys : ℕ → Reason

pub data NodeDecision : Type 0 where
  gpu_lift cpu_leave : NodeDecision
  fallback : Reason → NodeDecision

abbrev pub LiftingPlan : Type 0
LiftingPlan = List (NodeId × NodeDecision)

abbrev pub is_fallback : NodeDecision → Bool
is_fallback (NodeDecision.fallback r) = true
is_fallback d = false

unfoldable pub has_fallback : LiftingPlan → Bool
has_fallback [] = false
has_fallback ((id, d) ∷ plan) = is_fallback d || has_fallback plan

abbrev pub groupby_gpu_min_rows : ℕ
groupby_gpu_min_rows = 100000

abbrev pub decide_filter : ℕ → NodeDecision
decide_filter n_rows = NodeDecision.cpu_leave

unfoldable pub decide_groupby : ℕ → NodeDecision
decide_groupby n_rows =
    if ltb groupby_gpu_min_rows n_rows then NodeDecision.gpu_lift else NodeDecision.cpu_leave

unfoldable pub decide_project : NodeDecision → NodeDecision
decide_project (NodeDecision.fallback r) = NodeDecision.fallback r
decide_project NodeDecision.gpu_lift = NodeDecision.gpu_lift
decide_project NodeDecision.cpu_leave = NodeDecision.cpu_leave

abbrev pub decide_scan_initial : NodeDecision
decide_scan_initial = NodeDecision.cpu_leave

unfoldable pub key_width_bits : MetalDtype → ℕ
key_width_bits MetalDtype.bool = 1 + 1
key_width_bits MetalDtype.i64 = 1 + 64
key_width_bits MetalDtype.f64 = 1 + 64
key_width_bits MetalDtype.u64 = 1 + 64
key_width_bits MetalDtype.i32 = 1 + 32
key_width_bits MetalDtype.f32 = 1 + 32
key_width_bits MetalDtype.u32 = 1 + 32
key_width_bits MetalDtype.i16 = 1 + 16
key_width_bits MetalDtype.u16 = 1 + 16
key_width_bits MetalDtype.i8 = 1 + 8
key_width_bits MetalDtype.u8 = 1 + 8
key_width_bits MetalDtype.utf8 = 1 + 32

unfoldable pub total_bits : List (String × MetalDtype) → ℕ
unfolding key_width_bits
total_bits [] = 0
total_bits ((name, d) ∷ keys) = key_width_bits d + total_bits keys

unfoldable pub decide_groupby_with_keys :
    ℕ → List (String × MetalDtype) → List AggSpec → NodeDecision
unfolding decide_groupby total_bits
decide_groupby_with_keys n_rows keys aggs =
    if ltb 128 (total_bits keys)
    then NodeDecision.fallback (Reason.wide_keys (total_bits keys))
    else decide_groupby n_rows

unfoldable pub input_row_count : MetalPlanNode → ℕ
input_row_count (MetalPlanNode.scan n_rows columns) = n_rows
input_row_count (MetalPlanNode.project input columns) = input_row_count input
input_row_count (MetalPlanNode.filter input predicate) = input_row_count input
input_row_count (MetalPlanNode.group_by input keys aggs) = 0

-- `collect` into a map: of two columns of one name the later stays.
unfoldable pub columns_map :
    List (String × MetalDtype) → List (String × MetalDtype) → List (String × MetalDtype)
columns_map [] m = m
columns_map ((n, d) ∷ columns) m = columns_map columns (insert n d m)

unfoldable pub input_schema_lookup : MetalPlanNode → List (String × MetalDtype)
unfolding columns_map insert
input_schema_lookup (MetalPlanNode.scan n_rows columns) = columns_map columns []
input_schema_lookup (MetalPlanNode.project input columns) = input_schema_lookup input
input_schema_lookup (MetalPlanNode.filter input predicate) = input_schema_lookup input
input_schema_lookup (MetalPlanNode.group_by input keys aggs) = []

-- `matches!(schema.get(c), Some(F64) | Some(I64))`
abbrev pub is_wide : Option MetalDtype → Bool
is_wide (some MetalDtype.f64) = true
is_wide (some MetalDtype.i64) = true
is_wide o = false

unfoldable pub any_wide : List (String × MetalDtype) → List String → Bool
unfolding lookup
any_wide schema [] = false
any_wide schema (c ∷ columns) = is_wide (lookup c schema) || any_wide schema columns

unfoldable pub expression_falls_back : List (String × MetalDtype) → List AggSpec → Bool
unfolding any_wide referenced_columns
expression_falls_back schema [] = false
expression_falls_back schema (AggSpec.expression expr op alias ∷ aggs) =
    any_wide schema (referenced_columns expr) || expression_falls_back schema aggs
expression_falls_back schema (AggSpec.simple input_col op alias ∷ aggs) =
    expression_falls_back schema aggs
expression_falls_back schema (AggSpec.length alias ∷ aggs) = expression_falls_back schema aggs

-- The decision that `walk` takes at a `GroupBy`.
unfoldable pub decide_group_by_node :
    MetalPlanNode → List (String × MetalDtype) → List AggSpec → NodeDecision
unfolding input_row_count input_schema_lookup expression_falls_back decide_groupby_with_keys
decide_group_by_node input keys aggs =
    if expression_falls_back (input_schema_lookup input) aggs
    then NodeDecision.fallback Reason.wide_expression
    else decide_groupby_with_keys (input_row_count input) keys aggs

-- `walk`'s mutable arguments.
pub record WalkState : Type 0 where
  pub plan : LiftingPlan
  pub next_seq : ℕ

-- `NodeId::new(kind, *next_seq)`, `*next_seq += 1` and `plan.set(id, decision)`.
pub record_node : String → NodeDecision → WalkState → NodeId × WalkState
record_node kind decision st =
    let id : NodeId = record { kind = kind; seq = st.next_seq } in
    (id, record { plan = insert id decision st.plan; next_seq = (st.next_seq + 1) % 2 ^ 32 })

abbrev pub child_decision : NodeId → LiftingPlan → NodeDecision
child_decision id plan = elim (lookup id plan) [
  | some d ↦ d
  | none ↦ NodeDecision.fallback Reason.missing_child
]

unfoldable pub walk : MetalPlanNode → WalkState → NodeId × WalkState
unfolding record_node decide_group_by_node decide_project insert lookup
walk (MetalPlanNode.scan n_rows columns) st = record_node "Scan" decide_scan_initial st
walk (MetalPlanNode.project input columns) st =
    let (child_id, st') = walk input st in
    record_node "Project" (decide_project (child_decision child_id st'.plan)) st'
walk (MetalPlanNode.filter input predicate) st =
    record_node "Filter" (decide_filter 0) (walk input st).1
walk (MetalPlanNode.group_by input keys aggs) st =
    record_node "GroupBy" (decide_group_by_node input keys aggs) (walk input st).1

unfoldable pub compute_lifting_plan : MetalPlanNode → LiftingPlan
unfolding walk
compute_lifting_plan root = (walk root (record { plan = []; next_seq = 0 })).1.plan
