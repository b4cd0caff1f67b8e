-- ===== src/Fusion.antt =====
-- fusion of polars-metal-core: scopes of fused expressions, their routing, and the MLX graph that is
-- built from one.
pub mod Ops
pub mod Scope
pub mod Density
pub mod Mlx
pub mod Subgraph
pub mod Execute
pub mod Counts
pub mod Calls
pub mod Graph
pub mod Meaning
pub mod Nodes
pub mod Indices
pub mod Routing
pub mod Endings
pub mod Outcome
mod Tests
