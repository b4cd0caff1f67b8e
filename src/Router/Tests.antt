-- ===== src/Router/Tests.antt =====
-- The router on a groupby over a filter over a scan, and the theorems applied to it.
use polars_metal.Base.{
  ℕ, ◌≡◌, ◌≢◌, refl, ◌↔◌, String, true, none, some, List, [], ◌∷◌, ok, arith, lookup, replicate,
}
use polars_metal.Plan.{MetalDtype, AggOp, AggSpec, AggExpr, PredicateAst, MetalPlanNode}
use polars_metal.Router.{
  NodeId, node_eq, NodeDecision, Reason, LiftingPlan, has_fallback, decide_groupby_with_keys,
  compute_lifting_plan,
}
use polars_metal.Router.Listing.{listing, compute_lifting_plan-listing}
use polars_metal.Router.Decisions.{
  too_wide, compute_lifting_plan-HasUnfit, decide_groupby_with_keys-encode_keys,
}
use polars_metal.Router.Wide.{HasUnfit}
use polars_metal.Router.Affinity.{smooth, smoothed, smooth-lookup, smooth-fallback}
use polars_metal.Udf.{metal_dtype_to_key_dtype}
use polars_metal.Groupby.Keys.{KeyDtype, KeyColumn, KeySchema, encode_keys}

abbrev scan : MetalPlanNode
scan = MetalPlanNode.scan 200000 (("k", MetalDtype.i64) ∷ ("v", MetalDtype.f64) ∷ [])

abbrev filtered : MetalPlanNode
filtered = MetalPlanNode.filter scan (PredicateAst.literal_bool true)

abbrev grouped : MetalPlanNode
grouped =
    MetalPlanNode.group_by filtered (("k", MetalDtype.i64) ∷ [])
      (AggSpec.simple "v" AggOp.sum "s" ∷ [])

abbrev node : String → ℕ → NodeId
node kind seq = record { kind = kind; seq = seq }

abbrev grouped_plan : LiftingPlan
grouped_plan =
    (node "Scan" 0, NodeDecision.cpu_leave)
    ∷ (node "Filter" 1, NodeDecision.cpu_leave)
    ∷ (node "GroupBy" 2, NodeDecision.gpu_lift)
    ∷ []

grouped_planned : compute_lifting_plan grouped ≡ grouped_plan
unfolding compute_lifting_plan
grouped_planned = refl

-- An expression over the f64 column.
abbrev wide : MetalPlanNode
wide =
    MetalPlanNode.group_by filtered (("k", MetalDtype.i64) ∷ [])
      (AggSpec.expression (AggExpr.column "v") AggOp.sum "s" ∷ [])

wide_planned : has_fallback (compute_lifting_plan wide) ≡ true
unfolding compute_lifting_plan has_fallback
wide_planned = refl

compute_lifting_plan-listing_example : compute_lifting_plan grouped ≡ listing grouped
compute_lifting_plan-listing_example = compute_lifting_plan-listing grouped (omega arith)

compute_lifting_plan-HasUnfit_example :
    (has_fallback (compute_lifting_plan wide) ≡ true) ↔ HasUnfit wide
compute_lifting_plan-HasUnfit_example = compute_lifting_plan-HasUnfit wide (omega arith)

-- One row of a 64-bit key.
abbrev key_column : KeyColumn
key_column = record {
  name = "k";
  dtype = KeyDtype.i64;
  bytes = replicate 8 1;
  valid = 1 ∷ [];
  n_rows = 1;
  dict = none;
}

k_is_i64 : metal_dtype_to_key_dtype MetalDtype.i64 ≡ ok KeyDtype.i64
unfolding metal_dtype_to_key_dtype
k_is_i64 = refl

decide_groupby_with_keys-encode_keys_example :
    ((out : List ℕ × KeySchema) × (encode_keys (key_column ∷ []) ≡ ok out)) ↔ (
      decide_groupby_with_keys 1 (("k", MetalDtype.i64) ∷ []) []
      ≢ too_wide (("k", MetalDtype.i64) ∷ []))
decide_groupby_with_keys-encode_keys_example =
    decide_groupby_with_keys-encode_keys 1 (("k", MetalDtype.i64) ∷ []) [] key_column []
      (k_is_i64, tt) tt ((refl, omega arith, omega arith), tt)

-- The filter, between two lifted neighbours.
abbrev rough : LiftingPlan
rough =
    (node "Scan" 0, NodeDecision.gpu_lift)
    ∷ (node "Filter" 1, NodeDecision.cpu_leave)
    ∷ (node "GroupBy" 2, NodeDecision.gpu_lift)
    ∷ []

filter_smoothed :
    lookup (node "Filter" 1) (smooth rough (node "Filter" 1 ∷ [])) ≡ some NodeDecision.gpu_lift
unfolding smooth lookup
filter_smoothed = refl

smooth-lookup_example :
    lookup (node "Filter" 1) (smooth rough (node "Filter" 1 ∷ []))
    ≡ smoothed rough (node "Filter" 1 ∷ []) (node "Filter" 1)
smooth-lookup_example = smooth-lookup rough (node "Filter" 1 ∷ []) (node "Filter" 1)

smooth-fallback_example :
    (lookup (node "Filter" 1) (smooth rough (node "Filter" 1 ∷ []))
      ≡ some (NodeDecision.fallback (Reason.wide_keys 130)))
    ↔ (lookup (node "Filter" 1) rough ≡ some (NodeDecision.fallback (Reason.wide_keys 130)))
smooth-fallback_example =
    smooth-fallback rough (node "Filter" 1 ∷ []) (node "Filter" 1) (Reason.wide_keys 130)
