-- ===== src/Fusion/Routing.antt =====
-- When a scope goes to the GPU.
use native.Mathlib.Nat.{add-mul}
use polars_metal.Base.{
  ℕ, ◌+◌, ◌*◌, ◌%◌, ◌^◌, ◌≤◌, ◌<◌, ◌≡◌, ◌≢◌, ◌↔◌, refl, ◌∙◌, inl, inr, List, [], ◌∷◌, Bool-cases,
  ltb, if◌then◌else◌, arith,
}
use polars_metal.Fusion.Ops.{op_spec}
use polars_metal.Fusion.Scope.{InputRef, OpNode, FusionScope, flops_from}
use polars_metal.Fusion.Density.{
  min_flops_threshold, min_rows_threshold, RouteDecision, density_routes_gpu,
}

-- The floating-point operations for a row of all operations whose cost is fixed.
abbrev pub flops_each : OpNode → ℕ
flops_each node = if (op_spec node.op).dynamic_flops then 0 else (op_spec node.op).flops_per_row

abbrev pub flops_per_row : List OpNode → ℕ
flops_per_row [] = 0
flops_per_row (node ∷ ops) = flops_each node + flops_per_row ops

-- Without an overflow the loop adds the products up.
flops_from-exact :
    (n total : ℕ) (ops : List OpNode)
    → total + flops_per_row ops * n < 2 ^ 64
    → flops_from n total ops ≡ total + flops_per_row ops * n
unfolding flops_from
flops_from-exact n total [] room = omega arith
flops_from-exact n total (node ∷ ops) room =
    let split = add-mul (flops_each node) (flops_per_row ops) n in
    elim (Bool-cases (op_spec node.op).dynamic_flops) [
      | inl dynamic ↦
          let none : flops_each node * n ≡ 0 = ground (arith, dynamic) in
          rw dynamic (
            flops_from-exact n total ops (omega (arith, room, split, none))
            ∙ omega (arith, split, none))
      | inr static ↦
          let same : flops_each node * n ≡ (op_spec node.op).flops_per_row * n = rw static refl in
          let whole : (total + (op_spec node.op).flops_per_row * n % 2 ^ 64) % 2 ^ 64
              ≡ total + flops_each node * n =
            omega (arith, room, split, same) in
          rw (static, whole)
            (flops_from-exact n (total + flops_each node * n) ops (omega (arith, room, split))
              ∙ omega (arith, split))
    ]

abbrev pub IsDense : FusionScope → ℕ → Type 0
IsDense scope n_rows =
    (scope.ops ≢ [])
    × (min_rows_threshold ≤ n_rows)
    × (min_flops_threshold ≤ flops_per_row scope.ops * n_rows)

routed-IsDense :
    (inputs : List InputRef) (ops : List OpNode) (outputs : List ℕ) (n_rows : ℕ)
    → flops_per_row ops * n_rows < 2 ^ 64
    → (let scope : FusionScope = record { inputs = inputs; ops = ops; outputs = outputs } in
        (density_routes_gpu scope n_rows ≡ RouteDecision.gpu) ↔ IsDense scope n_rows)
unfolding density_routes_gpu
routed-IsDense inputs [] outputs n room = (λ h. cc h, λ dense. absurd (dense.0 refl))
routed-IsDense inputs (node ∷ ops) outputs n room =
    let total : ℕ = flops_from n 0 (node ∷ ops) in
    let fits : 0 + flops_per_row (node ∷ ops) * n < 2 ^ 64 = omega (arith, room) in
    let whole : total ≡ flops_per_row (node ∷ ops) * n =
      flops_from-exact n 0 (node ∷ ops) fits ∙ omega arith in
    elim (Bool-cases (ltb n min_rows_threshold)) [
      | inl few ↦ (λ h. cc (rw few at h), λ dense. absurd (ground (arith, few, dense.1)))
      | inr many ↦ elim (Bool-cases (ltb total min_flops_threshold)) [
        | inl light ↦ (
          λ h. cc (rw (many, light) at h),
          λ dense. absurd (ground (arith, whole, light, dense.2)),
        )
        | inr heavy ↦ (
          λ h. (λ e. cc e, ground (arith, many), ground (arith, whole, heavy)),
          λ dense. rw (many, heavy) refl,
        )
      ]
    ]

-- Where the estimate fits in 64 bits, a scope goes to the GPU exactly when it has an operation, the
-- rows reach 10^5, and the rows times the fixed costs of its operations reach 5 * 10^7.
pub density_routes_gpu-IsDense :
    (scope : FusionScope) (n_rows : ℕ)
    → flops_per_row scope.ops * n_rows < 2 ^ 64
    → (density_routes_gpu scope n_rows ≡ RouteDecision.gpu) ↔ IsDense scope n_rows
density_routes_gpu-IsDense scope n_rows room =
    routed-IsDense scope.inputs scope.ops scope.outputs n_rows room
