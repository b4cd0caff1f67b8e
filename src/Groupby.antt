-- ===== src/Groupby.antt =====
-- crates/polars-metal-kernels/src/groupby.rs and its build modules: composite keys, group
-- numbering and per-group aggregation.
pub mod Keys
pub mod Decode
pub mod Build
pub mod Sorted
pub mod Partitioned
pub mod Parallel
pub mod Aggregate
pub mod Requests
pub mod Floats
pub mod RunOne
pub mod Dispatch
mod Tests
mod PipelineTests
