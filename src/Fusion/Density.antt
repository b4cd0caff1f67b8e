-- ===== src/Fusion/Density.antt =====
-- fusion/density.rs of polars-metal-core: `density_routes_gpu`.
use polars_metal.Base.{ℕ, [], ◌∷◌, ltb, if◌then◌else◌}
use polars_metal.Fusion.Scope.{FusionScope, flops_from, est_flops_for}

abbrev pub min_flops_threshold : ℕ
min_flops_threshold = 50000000

abbrev pub min_rows_threshold : ℕ
min_rows_threshold = 100000

pub data CpuReason : Type 0 where
  below_rows_threshold below_flops_threshold empty_scope : CpuReason

pub data RouteDecision : Type 0 where
  gpu : RouteDecision
  cpu : CpuReason → RouteDecision

unfoldable pub density_routes_gpu : FusionScope → ℕ → RouteDecision
unfolding flops_from
density_routes_gpu scope n_rows = elim scope.ops [
  | [] ↦ RouteDecision.cpu CpuReason.empty_scope
  | node ∷ ops ↦
      if ltb n_rows min_rows_threshold
      then RouteDecision.cpu CpuReason.below_rows_threshold
      else if ltb (est_flops_for scope n_rows) min_flops_threshold
      then RouteDecision.cpu CpuReason.below_flops_threshold
      else RouteDecision.gpu
]
