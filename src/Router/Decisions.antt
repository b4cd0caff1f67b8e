-- ===== src/Router/Decisions.antt =====
-- What the decisions of a plan mean for the groupby that it asks for.
use polars_metal.Base.{
  ℕ, ◌+◌, ◌^◌, ◌≤◌, ◌<◌, ◌≡◌, ◌≢◌, refl, ap, ◌↔◌, ◌⊎◌, String, true, ◌||◌, string_eq, List, [], ◌∷◌,
  ◌++◌, Result, ok, err, arith, All,
}
use polars_metal.Plan.{MetalPlanNode, MetalDtype, AggSpec}
use polars_metal.Router.{
  NodeId, NodeDecision, Reason, LiftingPlan, is_fallback, has_fallback, key_width_bits, total_bits,
  decide_groupby, decide_groupby_with_keys, decide_group_by_node, compute_lifting_plan,
}
use polars_metal.Router.Wide.{
  all_bits, SomeReadsWide, HasUnfit, total_bits-all_bits, expression_falls_back-SomeReadsWide,
}
use polars_metal.Router.Listing.{height, id_of, decision_of, listing, compute_lifting_plan-listing}
use polars_metal.Udf.{metal_dtype_to_key_dtype}
use polars_metal.Groupby.Keys.{KeyDtype, KeyColumn, KeySchema, data_bits, encode_keys}
use polars_metal.Groupby.Keys.Lane.{total_width}
use polars_metal.Groupby.Keys.Fields.{SameRows, Serves, encode_keys_iff}

-- The columns that are encoded have the types of the plan's keys.
abbrev pub KeysOf : List (String × MetalDtype) → List KeyColumn → Type 0
KeysOf [] [] = Unit
KeysOf [] (c ∷ cols) = ⊥
KeysOf (k ∷ keys) [] = ⊥
KeysOf (k ∷ keys) (c ∷ cols) = (metal_dtype_to_key_dtype k.1 ≡ ok c.dtype) × KeysOf keys cols

abbrev bits_of : Result (Unit {0}) KeyDtype → ℕ
bits_of (ok k) = data_bits k
bits_of (err e) = 0

key_width_bits-data_bits :
    (d : MetalDtype) {k : KeyDtype}
    → metal_dtype_to_key_dtype d ≡ ok k
    → key_width_bits d ≡ 1 + data_bits k
unfolding metal_dtype_to_key_dtype key_width_bits
key_width_bits-data_bits MetalDtype.i64 h = omega (arith, ap bits_of h)
key_width_bits-data_bits MetalDtype.f64 h = omega (arith, ap bits_of h)
key_width_bits-data_bits MetalDtype.bool h = omega (arith, ap bits_of h)
key_width_bits-data_bits MetalDtype.i32 h = omega (arith, ap bits_of h)
key_width_bits-data_bits MetalDtype.f32 h = omega (arith, ap bits_of h)
key_width_bits-data_bits MetalDtype.i8 h = omega (arith, ap bits_of h)
key_width_bits-data_bits MetalDtype.i16 h = omega (arith, ap bits_of h)
key_width_bits-data_bits MetalDtype.u8 h = omega (arith, ap bits_of h)
key_width_bits-data_bits MetalDtype.u16 h = omega (arith, ap bits_of h)
key_width_bits-data_bits MetalDtype.u32 h = omega (arith, ap bits_of h)
key_width_bits-data_bits MetalDtype.utf8 h = omega (arith, ap bits_of h)
key_width_bits-data_bits MetalDtype.u64 h = cc

total_bits-total_width :
    (keys : List (String × MetalDtype)) (cols : List KeyColumn)
    → KeysOf keys cols
    → total_bits keys ≡ total_width cols
unfolding total_bits
total_bits-total_width [] [] h = refl
total_bits-total_width [] (c ∷ cols) h = absurd h
total_bits-total_width (k ∷ keys) [] h = absurd h
total_bits-total_width (k ∷ keys) (c ∷ cols) h =
    omega (arith, key_width_bits-data_bits k.1 h.0, total_bits-total_width keys cols h.1)

-- The width check of the router.
abbrev pub too_wide : List (String × MetalDtype) → NodeDecision
too_wide keys = NodeDecision.fallback (Reason.wide_keys (total_bits keys))

decide_groupby_with_keys_iff :
    (n_rows : ℕ) (keys : List (String × MetalDtype)) (aggs : List AggSpec)
    → (decide_groupby_with_keys n_rows keys aggs ≢ too_wide keys) ↔ (total_bits keys ≤ 128)
unfolding decide_groupby_with_keys decide_groupby
decide_groupby_with_keys_iff n_rows keys aggs = ground arith

-- The router's width check is the encoder's: where the columns have the types of the plan's keys,
-- agree in their row counts and have long enough buffers, `encode_keys` succeeds on them exactly
-- when the router does not turn the keys down as too wide.
pub decide_groupby_with_keys-encode_keys :
    (n_rows : ℕ) (keys : List (String × MetalDtype)) (aggs : List AggSpec) (c : KeyColumn)
    (cols : List KeyColumn)
    → KeysOf keys (c ∷ cols)
    → SameRows c.n_rows cols
    → All (Serves c.n_rows) (c ∷ cols)
    → ((out : List ℕ × KeySchema) × (encode_keys (c ∷ cols) ≡ ok out))
      ↔ (decide_groupby_with_keys n_rows keys aggs ≢ too_wide keys)
decide_groupby_with_keys-encode_keys n_rows keys aggs c cols same rows serves =
    let width = total_bits-total_width keys (c ∷ cols) same in
    let router = decide_groupby_with_keys_iff n_rows keys aggs in
    let encoder = encode_keys_iff (c ∷ cols) in
    (
      λ done. router.1 (omega (arith, width, (encoder.0 done).2)),
      λ narrow. encoder.1 (rows, serves, omega (arith, width, router.0 narrow)),
    )

has_fallback-push :
    (plan : LiftingPlan) (id : NodeId) (d : NodeDecision)
    → has_fallback (plan ++ (id, d) ∷ []) ≡ (has_fallback plan || is_fallback d)
unfolding has_fallback
has_fallback-push [] id d = ground arith
has_fallback-push (e ∷ plan) id d = ground (arith, has_fallback-push plan id d)

decide_group_by_node-unfit :
    (input : MetalPlanNode) (keys : List (String × MetalDtype)) (aggs : List AggSpec)
    → (is_fallback (decide_group_by_node input keys aggs) ≡ true)
      ↔ ((128 < all_bits keys) ⊎ SomeReadsWide input aggs)
unfolding decide_group_by_node decide_groupby_with_keys decide_groupby
decide_group_by_node-unfit input keys aggs =
    ground (arith, total_bits-all_bits keys, expression_falls_back-SomeReadsWide input aggs)

-- A decision that was made further down counts already there.
decision-listing :
    (node : MetalPlanNode)
    → is_fallback (decision_of node) ≡ true
    → has_fallback (listing node) ≡ true
unfolding has_fallback
decision-listing (MetalPlanNode.scan n r) h = cc
decision-listing (MetalPlanNode.project i c) h = ground (
  arith,
  has_fallback-push (listing i) (id_of (MetalPlanNode.project i c)) (decision_of i),
  decision-listing i h,
)
decision-listing (MetalPlanNode.filter i p) h = cc
decision-listing (MetalPlanNode.group_by i k a) h = ground (
  arith,
  has_fallback-push (listing i) (id_of (MetalPlanNode.group_by i k a)) (decide_group_by_node i k a),
)

listing-HasUnfit : (node : MetalPlanNode) → (has_fallback (listing node) ≡ true) ↔ HasUnfit node
unfolding has_fallback
listing-HasUnfit (MetalPlanNode.scan n r) = (λ h. cc, λ h. absurd h)
listing-HasUnfit (MetalPlanNode.project i c) = ground (
  arith,
  has_fallback-push (listing i) (id_of (MetalPlanNode.project i c)) (decision_of i),
  decision-listing i,
  listing-HasUnfit i,
)
listing-HasUnfit (MetalPlanNode.filter i p) = ground (
  arith,
  has_fallback-push (listing i) (id_of (MetalPlanNode.filter i p)) NodeDecision.cpu_leave,
  listing-HasUnfit i,
)
listing-HasUnfit (MetalPlanNode.group_by i k a) = ground (
  arith,
  has_fallback-push (listing i) (id_of (MetalPlanNode.group_by i k a)) (decide_group_by_node i k a),
  listing-HasUnfit i,
  decide_group_by_node-unfit i k a,
)

-- The plan of a tree of fewer than 2^32 nodes holds a fallback, so that the whole query stays on
-- the CPU, exactly when some groupby in the tree has keys that take more than 128 bits with their
-- null flags, a u64 counting 65, or an expression with an i64 or f64 column of its scan at a leaf.
pub compute_lifting_plan-HasUnfit :
    (root : MetalPlanNode)
    → height root + 1 < 2 ^ 32
    → (has_fallback (compute_lifting_plan root) ≡ true) ↔ HasUnfit root
compute_lifting_plan-HasUnfit root small =
    rw (compute_lifting_plan-listing root small) (listing-HasUnfit root)
