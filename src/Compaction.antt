-- ===== src/Compaction.antt =====
-- pipeline.rs of polars-metal-kernels, the three passes of a filter, and udf/compact.rs of
-- polars-metal-core, which runs them for every column of a frame. MLX's cumsum is an argument.
pub mod Words
pub mod Passes
pub mod Survivors
pub mod Columns
mod Tests
use polars_metal.Base.{
  ℕ, zero, suc, ◌+◌, ◌-◌, ◌*◌, ◌/◌, ◌%◌, ◌^◌, not, String, List, [], ◌∷◌, ◌++◌, map, ◌==◌,
  if◌then◌else◌, get_or, take, drop, replicate, length, ltb, nat_eq, Result, ok, err, ◌>>=◌, ◌>>◌,
  fail_if, collect, ok_or,
}
use polars_metal.Plan.{MetalDtype, dtype_from_wire}
use polars_metal.Filter.{
  FilterError, Device, min_bitmap_bytes, scatter_sentinel_i64, scatter_sentinel_f64_bits,
  dst_valid_min_bytes, dispatch_predicate_to_u8, dispatch_scatter_slots, dispatch_scatter_bool,
}

pub data PipelineError : Type 0 where
  filter : FilterError → PipelineError
  cumsum : String → PipelineError

pub record CompactionResult : Type 0 where
  pub values : List ℕ
  pub valid : List ℕ
  pub n_out : ℕ

-- The `?` on a `FilterError`, and the `map_err` on MLX's.
abbrev pub filtering : {A : Type 0} → Result FilterError A → Result PipelineError A
filtering (ok a) = ok a
filtering (err e) = err (PipelineError.filter e)

abbrev pub summing : {A : Type 0} → Result String A → Result PipelineError A
summing (ok a) = ok a
summing (err e) = err (PipelineError.cumsum e)

-- The flags that are kept, their prefix sums and the number of survivors.
abbrev pub Kept : Type 0
Kept = List ℕ × List ℕ × ℕ

module _ (device : Device) (cumsum_u8_to_u32 : List ℕ → Result String (List ℕ)) where
  unfoldable pub compute_keep_and_prefix : List ℕ → List ℕ → ℕ → Result PipelineError Kept
  unfolding dispatch_predicate_to_u8
  compute_keep_and_prefix pred_data pred_valid n_rows =
      let rows : Result PipelineError Kept = do
        keep ←
            filtering
              (dispatch_predicate_to_u8 device pred_data pred_valid n_rows (replicate n_rows 0))
        prefix ← summing (cumsum_u8_to_u32 keep)
        ok (keep, prefix, get_or prefix (n_rows - 1) 0)
      in if n_rows == 0 then ok ([], [], 0) else rows

module _ (device : Device) where
  -- `compact_i64` and `compact_f64` but for the sentinel.
  unfoldable pub compact_slots :
      ℕ → List ℕ → List ℕ → List ℕ → List ℕ → ℕ → Result PipelineError CompactionResult
  unfolding dispatch_scatter_slots dst_valid_min_bytes
  compact_slots sentinel src_data src_valid keep prefix n_out = do
    out ← filtering (
        dispatch_scatter_slots sentinel device src_data src_valid keep prefix n_out
          (replicate (n_out + 1) 0) (replicate (dst_valid_min_bytes n_out) 0))
    ok (record { values = take n_out out.0; valid = out.1; n_out = n_out })

  abbrev pub compact_i64 :
      List ℕ → List ℕ → List ℕ → List ℕ → ℕ → Result PipelineError CompactionResult
  compact_i64 = compact_slots scatter_sentinel_i64

  abbrev pub compact_f64 :
      List ℕ → List ℕ → List ℕ → List ℕ → ℕ → Result PipelineError CompactionResult
  compact_f64 = compact_slots scatter_sentinel_f64_bits

  unfoldable pub compact_bool :
      List ℕ → List ℕ → List ℕ → List ℕ → ℕ → ℕ → Result PipelineError CompactionResult
  unfolding dispatch_scatter_bool dst_valid_min_bytes
  compact_bool src_data src_valid keep prefix n_rows n_out = do
    out ← filtering (
        dispatch_scatter_bool device src_data src_valid keep prefix n_rows n_out
          (replicate (dst_valid_min_bytes n_out) 0) (replicate (dst_valid_min_bytes n_out) 0))
    ok (record { values = out.0; valid = out.1; n_out = n_out })

-- The Python errors of `execute_filter_compact`, by their type and what they report.
pub data ColumnError : Type 0 where
  pred_data_short pred_valid_short : ℕ → ℕ → ColumnError
  unknown_dtype : String → ColumnError
  valid_short data_short : String → ℕ → ℕ → ColumnError
  runtime : PipelineError → ColumnError
  not_implemented : String → MetalDtype → ColumnError

abbrev pub running : {A : Type 0} → Result PipelineError A → Result ColumnError A
running (ok a) = ok a
running (err e) = err (ColumnError.runtime e)

-- Eight bytes at a time, the lowest first, as 64-bit slots, and back.
abbrev pub word : ℕ → List ℕ → ℕ
word zero bytes = 0
word (suc k) bytes = get_or bytes 0 0 + 256 * word k (drop 1 bytes)

unfoldable pub words : ℕ → List ℕ → List ℕ
words zero bytes = []
words (suc n) bytes = word 8 bytes ∷ words n (drop 8 bytes)

abbrev pub word_bytes : ℕ → ℕ → List ℕ
word_bytes zero w = []
word_bytes (suc k) w = w % 256 ∷ word_bytes k (w / 256)

pub words_bytes : List ℕ → List ℕ
words_bytes [] = []
words_bytes (w ∷ ws) = word_bytes 8 w ++ words_bytes ws

-- A column as the Python side hands it over.
pub record Column : Type 0 where
  pub name : String
  pub dtype : String
  pub bytes : List ℕ
  pub valid : List ℕ

module _ (device : Device) where
  -- The arms of `compact_one_column` for 64-bit columns.
  pub compact_words :
      (List ℕ → List ℕ → List ℕ → List ℕ → ℕ → Result PipelineError CompactionResult)
      → ℕ
      → List ℕ
      → List ℕ
      → Kept
      → String
      → Result ColumnError (List ℕ × List ℕ)
  unfolding words words_bytes
  compact_words compact n_rows src_data src_valid (keep, prefix, n_out) column_name = do
    let expected_data = n_rows * 8
    fail_if (ltb (length src_data) expected_data)
        (ColumnError.data_short column_name (length src_data) expected_data)
    r ← running (compact (words n_rows src_data) src_valid keep prefix n_out)
    ok (words_bytes r.values, r.valid)

  pub compact_bits : ℕ → List ℕ → List ℕ → Kept → String → Result ColumnError (List ℕ × List ℕ)
  unfolding compact_bool
  compact_bits n_rows src_data src_valid (keep, prefix, n_out) column_name = do
    fail_if (ltb (length src_data) (min_bitmap_bytes n_rows))
        (ColumnError.data_short column_name (length src_data) (min_bitmap_bytes n_rows))
    r ← running (compact_bool device src_data src_valid keep prefix n_rows n_out)
    ok (r.values, r.valid)

  pub compact_typed :
      MetalDtype → ℕ → List ℕ → List ℕ → Kept → String → Result ColumnError (List ℕ × List ℕ)
  unfolding compact_words compact_bits compact_slots
  compact_typed MetalDtype.i64 n_rows src_data src_valid k name =
      compact_words (compact_i64 device) n_rows src_data src_valid k name
  compact_typed MetalDtype.f64 n_rows src_data src_valid k name =
      compact_words (compact_f64 device) n_rows src_data src_valid k name
  compact_typed MetalDtype.bool n_rows src_data src_valid k name =
      compact_bits n_rows src_data src_valid k name
  compact_typed other n_rows src_data src_valid k name =
      err (ColumnError.not_implemented name other)

  unfoldable pub compact_one_column :
      MetalDtype → ℕ → List ℕ → List ℕ → Kept → String → Result ColumnError (List ℕ × List ℕ)
  unfolding compact_typed
  compact_one_column dtype n_rows src_data src_valid k column_name = do
    let min_valid_bytes = min_bitmap_bytes n_rows
    fail_if (ltb (length src_valid) min_valid_bytes)
        (ColumnError.valid_short column_name (length src_valid) min_valid_bytes)
    (if k.2 == 0 then ok ([], []) else compact_typed dtype n_rows src_data src_valid k column_name)

  -- An entry of the loop over the columns.
  pub compact_entry : ℕ → Kept → Column → Result ColumnError (List ℕ × List ℕ × ℕ)
  unfolding compact_one_column dtype_from_wire
  compact_entry n_rows k c = do
    dtype ← ok_or (dtype_from_wire c.dtype) (ColumnError.unknown_dtype c.dtype)
    out ← compact_one_column dtype n_rows c.bytes c.valid k c.name
    ok (out.0, out.1, k.2)

module _ (device : Device) (cumsum_u8_to_u32 : List ℕ → Result String (List ℕ)) where
  unfoldable pub execute_filter_compact :
      List ℕ → List ℕ → ℕ → List Column → Result ColumnError (List (List ℕ × List ℕ × ℕ))
  unfolding compute_keep_and_prefix compact_entry collect
  execute_filter_compact pred_data pred_valid n_rows columns = do
    let min_pred_bytes = min_bitmap_bytes n_rows
    fail_if (ltb (length pred_data) min_pred_bytes)
        (ColumnError.pred_data_short (length pred_data) min_pred_bytes)
    fail_if (ltb (length pred_valid) min_pred_bytes)
        (ColumnError.pred_valid_short (length pred_valid) min_pred_bytes)
    k ← running (compute_keep_and_prefix device cumsum_u8_to_u32 pred_data pred_valid n_rows)
    collect (compact_entry device n_rows k) columns
