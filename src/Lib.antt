-- ===== src/Lib.antt =====
-- Verification of polars-metal, the engine that runs Polars queries on Apple GPUs: its Rust crates
-- under crates/.
--
-- A query comes from the Python walker as a plan tree. The router (polars-metal-core) decides for
-- each node whether the GPU takes it. A groupby that is lifted goes through the kernels crate
-- (polars-metal-kernels): the key columns of a row are packed into one u128, equal lanes are
-- numbered as groups, the value columns are aggregated by group, and one key for each group is
-- decoded again. The buffer crate (polars-metal-buffer) supplies dictionaries for string columns,
-- validity bitmaps, and the memory that both sides share. A filter takes its predicate column,
-- which comparisons and connectives make of other columns, and
-- compacts every other column on the GPU. An expression that is fused is built as a scope of nodes,
-- and the scope as a graph of MLX arrays that is evaluated into the caller's memory.
--
-- Files and the code they model, from the repository's root:
--   Plan      crates/polars-metal-core/src/plan/mod.rs: MetalPlanNode, AggExpr and its functions.
--   Filter    crates/polars-metal-kernels/src/filter.rs: the dispatchers, with the threads of
--             shaders/filter_predicate.metal and shaders/filter_scatter.metal.
--   Compaction crates/polars-metal-kernels/src/pipeline.rs and
--             crates/polars-metal-core/src/udf/compact.rs: execute_filter_compact.
--   Predicates crates/polars-metal-kernels/src/cmp.rs and logical.rs, with shaders/cmp_i64.metal,
--             cmp_f64.metal and logical_bool.metal, and udf/compare.rs and udf/logical.rs of
--             crates/polars-metal-core/src; a device is taken to open.
--   Fusion    crates/polars-metal-core/src/fusion: Ops is supported_ops.rs, Scope scope.rs and the
--             calls of py.rs, Density density.rs, Subgraph subgraph.rs, Execute its evaluation and
--             udf/fused_expr.rs; Mlx is what they call of crates/polars-metal-mlx-sys.
--   Cache     crates/polars-metal-kernels/src/aggregate_fused/cache.rs: FusedLibraryCache, with the
--             calls of its threads as interleaved steps.
--   Signature crates/polars-metal-kernels/src/aggregate_fused/signature.rs: AggSignature.
--   Router    crates/polars-metal-core/src/router/mod.rs and cost.rs: compute_lifting_plan, walk and
--             the decide_ functions; Router/Affinity is affinity.rs, smooth.
--   Udf       crates/polars-metal-core/src/udf/groupby/mod.rs: metal_dtype_to_key_dtype.
--   Arena     crates/polars-metal-core/src/arena.rs: BumpArena, with view_into of
--             crates/polars-metal-buffer/src/bridge.rs.
--   Buffer    crates/polars-metal-buffer/src: Dict is dict.rs, Bitmap null_bitmap.rs, Alignment
--             alignment.rs, Staging staging.rs, Errors error.rs.
--   Groupby   crates/polars-metal-kernels/src/groupby.rs: Keys is encode_keys, Decode decode_keys,
--             Build cpu_hashmap_build, Sorted cpu_sort_segment of groupby_build_sort/reference.rs,
--             Partitioned cpu_partitioned_hash of groupby_build_partitioned/reference.rs,
--             Aggregate the integer aggregations on the CPU, Floats those of floats and the
--             means, Requests the types of dispatch_groupby, RunOne run_one_agg,
--             Dispatch dispatch_build and dispatch_groupby. Parallel stands for the thread pool.
--   Base      what they share: tests, lists, maps, results, bit fields, signed integers, and the
--             numbering of values by a map and a table.
-- Each component has its properties in modules below it and its runs on small inputs in Tests.
--
-- How the code is read. A machine integer is a natural number with its wrap-around written out;
-- signed ones are two's complement patterns, and ℤ where a value is shown. A float is its bit
-- pattern, and its arithmetic an argument (the record Floats). Slices and vectors are lists; a hash
-- map is an association list with one entry a key, of which only the entries are used, never their
-- order; where the code walks a hash set the order is an argument. A parallel fold takes a Schedule:
-- how the rows are split, in which the pieces are merged, and where the identity is merged in. A
-- panic is a value (none, or Failure.panic). `n as u32` is written `% 2 ^ 32`, which is why some
-- theorems ask for fewer than 2^32 rows or nodes. Loops are structural recursions over lists or
-- trees, but for two of the partitioned build: a probe has as much fuel as its table has slots, and
-- the search for a power of two doubles 64 times. Both are enough: the table is never full.
--
-- The specifications use words of their own, not the code's: a row of a group by the bitmap and the
-- groups, an integer comparison by an order on shifted patterns, a float comparison by signed
-- magnitudes, a fused expression by the functions of MLX its operations are named after.
--
-- The bytes of a key column are taken to fit a usize, and a lock to be granted: the calls of the fused
-- cache interleave between their critical sections, which are single steps. A device that works runs any grid; the code never dispatches an empty one. The cumsum of MLX is asked
-- for right prefix sums of fewer than 2^32 flags; its bridge in mlx-sys casts their number to 32
-- signed bits.
--
-- Arguments for what is outside: the Metal device (whether it grants a buffer or a view), the page
-- size, the GPU build and the GPU aggregations, the order in which the threads of a kernel write, the
-- cumsum of MLX and its other functions, the hasher, the shader text and the Metal compiler. What is asked of the GPU build is its documented
-- contract, that a result it gives is a grouping; of the device, that a new buffer has the size
-- asked for.
--
-- Not modelled: the Objective-C and MLX bindings, the conversions of Python objects, the shader text
-- that the fused aggregation emits, and, so far, the layout and the scratch buffers of the partitioned
-- build, rolling windows, DTW, FFT, correlation and vector search.
pub mod Base
pub mod Arena
pub mod Buffer
pub mod Groupby
pub mod Plan
pub mod Filter
pub mod Compaction
pub mod Predicates
pub mod Fusion
pub mod Cache
pub mod Router
pub mod Signature
pub mod Udf
