-- ===== src/Router/Affinity.antt =====
-- router/affinity.rs of polars-metal-core: close decisions are changed to their neighbours'.
-- The candidates are a hash set: the order in which it is walked is an argument.
use polars_metal.Base.{
  ℕ, ◌+◌, ◌-◌, ◌≡◌, ◌≢◌, refl, ◌↔◌, Bool, true, false, not, ◌&&◌, ◌||◌, Option, none, some, List,
  [], ◌∷◌, ◌==◌, if◌then◌else◌, nat_eq, lookup, lookup-insert, insert, arith, nat_beq, Option-cases,
  inl, inr,
}
use polars_metal.Router.{NodeId, node_eq, NodeDecision, Reason, LiftingPlan, is_fallback}

pub same_reason : Reason → Reason → Bool
same_reason Reason.missing_child Reason.missing_child = true
same_reason Reason.wide_expression Reason.wide_expression = true
same_reason (Reason.wide_keys a) (Reason.wide_keys b) = nat_beq a b
same_reason _ _ = false

-- The derived `PartialEq`.
pub same_decision : NodeDecision → NodeDecision → Bool
same_decision NodeDecision.gpu_lift NodeDecision.gpu_lift = true
same_decision NodeDecision.cpu_leave NodeDecision.cpu_leave = true
same_decision (NodeDecision.fallback r) (NodeDecision.fallback s) = same_reason r s
same_decision _ _ = false

-- `plan.iter().find(|(other, _)| other.seq() as i64 == target_seq)`
pub find_seq : ℕ → LiftingPlan → Option NodeDecision
find_seq target [] = none
find_seq target ((other, d) ∷ plan) = if other.seq == target then some d else find_seq target plan

-- `neighbor_decision` with a delta of -1 and of 1.
pub previous_decision : LiftingPlan → NodeId → Option NodeDecision
unfolding find_seq
previous_decision plan id = if id.seq == 0 then none else find_seq (id.seq - 1) plan

pub next_decision : LiftingPlan → NodeId → Option NodeDecision
unfolding find_seq
next_decision plan id = find_seq (id.seq + 1) plan

-- The decision that the loop's `match` sets for a candidate, if it sets one.
pub choose : NodeDecision → Option NodeDecision → Option NodeDecision → Option NodeDecision
unfolding same_decision same_reason
choose current (some p) (some s) =
    if same_decision p s && not (same_decision p current) && not (is_fallback p)
    then some p
    else none
choose current (some p) none =
    if not (same_decision p current) && not (is_fallback p) then some p else none
choose current none succ = none

-- What the loop does for one candidate.
pub flip : LiftingPlan → NodeId → Option NodeDecision
unfolding choose previous_decision next_decision lookup
flip plan id = elim (lookup id plan) [
  | none ↦ none
  | some current ↦
      if is_fallback current
      then none
      else choose current (previous_decision plan id) (next_decision plan id)
]

pub smooth_all : LiftingPlan → List NodeId → LiftingPlan → LiftingPlan
unfolding flip insert
smooth_all plan [] next = next
smooth_all plan (id ∷ candidates) next = elim (flip plan id) [
  | none ↦ smooth_all plan candidates next
  | some d ↦ smooth_all plan candidates (insert id d next)
]

unfoldable pub smooth : LiftingPlan → List NodeId → LiftingPlan
unfolding smooth_all
smooth plan candidates = smooth_all plan candidates plan

abbrev pub has : List NodeId → NodeId → Bool
has [] id = false
has (c ∷ candidates) id = c == id || has candidates id

abbrev pub or_keep : Option NodeDecision → Option NodeDecision → Option NodeDecision
or_keep none old = old
or_keep (some d) old = some d

-- The decision of a node after smoothing.
abbrev pub smoothed : LiftingPlan → List NodeId → NodeId → Option NodeDecision
smoothed plan candidates id =
    if has candidates id then or_keep (flip plan id) (lookup id plan) else lookup id plan

-- A candidate that was changed may be met again.
module _ (plan : LiftingPlan) (id : NodeId) where
  smooth_all-lookup :
      (candidates : List NodeId) (next : LiftingPlan)
      → lookup id (smooth_all plan candidates next)
        ≡ (if has candidates id then or_keep (flip plan id) (lookup id next) else lookup id next)
  unfolding smooth_all
  smooth_all-lookup [] next = refl
  smooth_all-lookup (c ∷ candidates) next = elim (Option-cases (flip plan c)) [
    | inl kept ↦
        rw (kept, smooth_all)
          (ground (arith, smooth_all-lookup candidates next, node_eq.same_iff c id, kept))
    | inr (d, flipped) ↦
        rw (flipped, smooth_all)
          (ground (
            arith,
            smooth_all-lookup candidates (insert c d next),
            lookup-insert c id d next,
            node_eq.same_iff c id,
            flipped,
          ))
  ]

-- In whatever order the candidates are walked, `smooth` decides each node by the plan it was
-- given alone: a candidate gets the decision that `flip` reads off the original neighbours, and
-- every other node keeps its own.
pub smooth-lookup :
    (plan : LiftingPlan) (candidates : List NodeId) (id : NodeId)
    → lookup id (smooth plan candidates) ≡ smoothed plan candidates id
unfolding smooth
smooth-lookup plan candidates id = smooth_all-lookup plan id candidates plan

choose-no-fallback :
    (current : NodeDecision) (prev succ : Option NodeDecision) (r : Reason)
    → choose current prev succ ≢ some (NodeDecision.fallback r)
unfolding choose
choose-no-fallback current none succ r h = cc
choose-no-fallback current (some NodeDecision.gpu_lift) none r h = ground (arith, h)
choose-no-fallback current (some NodeDecision.cpu_leave) none r h = ground (arith, h)
choose-no-fallback current (some (NodeDecision.fallback q)) none r h = ground (arith, h)
choose-no-fallback current (some NodeDecision.gpu_lift) (some s) r h = ground (arith, h)
choose-no-fallback current (some NodeDecision.cpu_leave) (some s) r h = ground (arith, h)
choose-no-fallback current (some (NodeDecision.fallback q)) (some s) r h = ground (arith, h)

-- No candidate is changed to a fallback, and no fallback is changed.
flip-no-fallback :
    (plan : LiftingPlan) (id : NodeId) (r : Reason) → flip plan id ≢ some (NodeDecision.fallback r)
unfolding flip
flip-no-fallback plan id r h = elim (Option-cases (lookup id plan)) [
  | inl missing ↦ ground (arith, missing, h)
  | inr (d, found) ↦
      ground (
        arith,
        found,
        h,
        choose-no-fallback d (previous_decision plan id) (next_decision plan id) r,
      )
]

flip_of_fallback :
    (plan : LiftingPlan) (id : NodeId) (r : Reason)
    → lookup id plan ≡ some (NodeDecision.fallback r)
    → flip plan id ≡ none
unfolding flip
flip_of_fallback plan id r found = rw (found, flip) refl

-- Smoothing neither removes a fallback nor makes one: a node has a given fallback afterwards
-- exactly when it had it before.
pub smooth-fallback :
    (plan : LiftingPlan) (candidates : List NodeId) (id : NodeId) (r : Reason)
    → (lookup id (smooth plan candidates) ≡ some (NodeDecision.fallback r))
      ↔ (lookup id plan ≡ some (NodeDecision.fallback r))
smooth-fallback plan candidates id r = elim (Option-cases (flip plan id)) [
  | inl kept ↦ ground (arith, smooth-lookup plan candidates id, kept)
  | inr (d, flipped) ↦ ground (
    arith,
    smooth-lookup plan candidates id,
    flipped,
    flip-no-fallback plan id r,
    flip_of_fallback plan id r,
  )
]
