-- ===== src/Filter.antt =====
-- filter.rs of polars-metal-kernels, with the kernels of filter_predicate.metal and
-- filter_scatter.metal that it runs. 64-bit slots, of `i64` and of `f64`, are their bit patterns.
pub mod Schedules
pub mod Sequential
pub mod Marks
pub mod Ranks
pub mod Scatter
use polars_metal.Base.{
  ℕ, zero, suc, ◌+◌, ◌-◌, ◌*◌, ◌/◌, ◌%◌, ◌^◌, max, bit_and, Bool, true, false, not, ◌&&◌, ◌||◌,
  Option, none, some, String, List, [], ◌∷◌, ◌++◌, ◌==◌, if◌then◌else◌, get_or, set, take, drop,
  replicate, tabulate, length, ltb, leb, nat_eq, Result, ok, err, ◌>>=◌, ◌>>◌, fail_if, ok_or,
}
use polars_metal.Arena.{checked_add}
use polars_metal.Buffer.Errors.{BufferError}
use polars_metal.Buffer.Bitmap.{get_valid, set_valid}

abbrev pub scatter_sentinel_i64 : ℕ
scatter_sentinel_i64 = 0xDEADBEEFCAFEBABE

abbrev pub scatter_sentinel_f64_bits : ℕ
scatter_sentinel_f64_bits = 0x7FFDEADBEEFCAFE0

pub data FilterError : Type 0 where
  shader : String → FilterError
  dispatch : String → FilterError
  buffer : BufferError → FilterError
  input_length_mismatch : ℕ → ℕ → ℕ → FilterError
  output_length_mismatch : ℕ → ℕ → FilterError
  row_count_overflow : ℕ → FilterError
  scatter_overrun : FilterError
  dst_data_too_small : ℕ → ℕ → FilterError
  dst_valid_too_small : ℕ → ℕ → FilterError
  dst_data_bool_too_small : ℕ → ℕ → FilterError
  scatter_prefix_sum_mismatch : ℕ → ℕ → FilterError

-- A dispatch over a grid of so many threads, given what each thread writes to a buffer: it fails
-- (the shader, a buffer, the queue), or it gives the orders in which the writes arrive.
pub record Device : Type 0 where
  pub run_bytes : ℕ → Result FilterError (Unit {0})
  pub run_slots :
      ℕ → (ℕ → Option (ℕ × ℕ)) → (ℕ → Option ℕ) → Result FilterError (List (ℕ × ℕ) × List ℕ)
  pub run_bits : ℕ → (ℕ → Option ℕ) → (ℕ → Option ℕ) → Result FilterError (List ℕ × List ℕ)

abbrev pub min_bitmap_bytes : ℕ → ℕ
min_bitmap_bytes n_rows = (n_rows + 7) / 8

-- `(raw + 3) & !3` in 64 bits.
unfoldable pub dst_valid_min_bytes : ℕ → ℕ
dst_valid_min_bytes n_out = max (bit_and (min_bitmap_bytes n_out + 3) (2 ^ 64 - 1 - 3)) 4

-- `u32::try_from(n)`
abbrev pub try_u32 : ℕ → Option ℕ
try_u32 n = if ltb n (2 ^ 32) then some n else none

-- What `filter_predicate_to_u8` leaves in a row's own slot.
abbrev pub predicate_flag : List ℕ → List ℕ → ℕ → ℕ
predicate_flag pred_data pred_valid gid =
    if get_valid pred_data gid && get_valid pred_valid gid then 1 else 0

-- The part of `dispatch_predicate_to_u8` for rows that there are.
pub predicate_rows : Device → List ℕ → List ℕ → ℕ → Result FilterError (List ℕ)
unfolding get_valid
predicate_rows device pred_data pred_valid n_rows = do
  let min_bytes = min_bitmap_bytes n_rows
  fail_if (ltb (length pred_data) min_bytes)
      (FilterError.input_length_mismatch (length pred_data) min_bytes n_rows)
  fail_if (ltb (length pred_valid) min_bytes)
      (FilterError.input_length_mismatch (length pred_valid) min_bytes n_rows)
  n ← ok_or (try_u32 n_rows) (FilterError.row_count_overflow n_rows)
  device.run_bytes n_rows
  ok (tabulate 0 n_rows (predicate_flag (take min_bytes pred_data) (take min_bytes pred_valid)))

unfoldable pub dispatch_predicate_to_u8 :
    Device → List ℕ → List ℕ → ℕ → List ℕ → Result FilterError (List ℕ)
unfolding predicate_rows
dispatch_predicate_to_u8 device pred_data pred_valid n_rows out = do
  fail_if (not (length out == n_rows)) (FilterError.output_length_mismatch (length out) n_rows)
  (if n_rows == 0 then ok out else predicate_rows device pred_data pred_valid n_rows)

-- The slot that a scatter thread aims at, in 32 bits.
abbrev pub out_idx : List ℕ → List ℕ → ℕ → ℕ → Option ℕ
out_idx keep prefix_sum n_rows gid =
    if leb n_rows gid || get_or keep gid 0 == 0
    then none
    else some ((get_or prefix_sum gid 0 + 2 ^ 32 - 1) % 2 ^ 32)

-- The writes to `dst_data` of `filter_scatter_i64` and `filter_scatter_f64`.
abbrev pub slot_write : ℕ → List ℕ → Option ℕ → ℕ → ℕ → Option (ℕ × ℕ)
slot_write sentinel src_data none n_out gid = none
slot_write sentinel src_data (some out) n_out gid =
    some (if leb n_out out then (n_out, sentinel) else (out, get_or src_data gid 0))

-- The bits that a scatter thread sets: those of the rows whose bit is set in `bitmap`.
abbrev pub bit_write : List ℕ → Option ℕ → ℕ → ℕ → Option ℕ
bit_write bitmap none n_out gid = none
bit_write bitmap (some out) n_out gid =
    if leb n_out out then none else if get_valid bitmap gid then some out else none

-- A buffer after its writes.
pub store_all : List (ℕ × ℕ) → List ℕ → List ℕ
store_all [] dst = dst
store_all ((i, v) ∷ order) dst = store_all order (set dst i v)

-- `set_valid_atomic_or`, by bytes.
pub mark : List ℕ → ℕ → List ℕ
unfolding set_valid
mark bitmap row = elim (set_valid bitmap row true) [ none ↦ bitmap | some after ↦ after ]

unfoldable pub mark_all : List ℕ → List ℕ → List ℕ
unfolding mark
mark_all [] bitmap = bitmap
mark_all (row ∷ order) bitmap = mark_all order (mark bitmap row)

-- `dst[..n].copy_from_slice(&buffer)`
abbrev pub copy_into : List ℕ → List ℕ → List ℕ
copy_into new dst = new ++ drop (length new) dst

-- The part of the scatter dispatchers that runs the kernel and reads its buffers back.
pub scatter_slots_rows :
    ℕ
    → Device
    → List ℕ
    → List ℕ
    → List ℕ
    → List ℕ
    → ℕ
    → List ℕ
    → List ℕ
    → Result FilterError (List ℕ × List ℕ)
unfolding dst_valid_min_bytes store_all mark_all get_valid
scatter_slots_rows sentinel device src_data src_valid keep prefix_sum n_out dst_data dst_valid = do
  let n_rows = length src_data
  n_rows_u32 ← ok_or (try_u32 n_rows) (FilterError.row_count_overflow n_rows)
  n_out_u32 ← ok_or (try_u32 n_out) (FilterError.row_count_overflow n_out)
  let aim = out_idx keep prefix_sum n_rows
  orders ←
      device.run_slots n_rows (λ gid. slot_write sentinel src_data (aim gid) n_out gid)
        (λ gid. bit_write (take (min_bitmap_bytes n_rows) src_valid) (aim gid) n_out gid)
  let dst_data_out = copy_into (store_all orders.0 (replicate (n_out + 1) 0)) dst_data
  let min_valid = dst_valid_min_bytes n_out
  let dst_valid_out = copy_into (mark_all orders.1 (replicate min_valid 0)) dst_valid
  fail_if (get_or dst_data_out n_out 0 == sentinel) FilterError.scatter_overrun
  ok (dst_data_out, dst_valid_out)

-- `dispatch_scatter_i64` and `dispatch_scatter_f64` but for the sentinel. After an error the
-- caller drops its slices.
unfoldable pub dispatch_scatter_slots :
    ℕ
    → Device
    → List ℕ
    → List ℕ
    → List ℕ
    → List ℕ
    → ℕ
    → List ℕ
    → List ℕ
    → Result FilterError (List ℕ × List ℕ)
unfolding dst_valid_min_bytes scatter_slots_rows
dispatch_scatter_slots sentinel device src_data src_valid keep prefix_sum n_out dst_data dst_valid =
    do
      let n_rows = length src_data
      fail_if (not (length keep == n_rows))
          (FilterError.output_length_mismatch (length keep) n_rows)
      fail_if (not (length prefix_sum == n_rows))
          (FilterError.output_length_mismatch (length prefix_sum) n_rows)
      expected_dst ← ok_or (checked_add n_out 1) (FilterError.row_count_overflow n_out)
      fail_if (ltb (length dst_data) expected_dst)
          (FilterError.dst_data_too_small (length dst_data) expected_dst)
      let min_valid = dst_valid_min_bytes n_out
      fail_if (ltb (length dst_valid) min_valid)
          (FilterError.dst_valid_too_small (length dst_valid) min_valid)
      let min_src_valid = min_bitmap_bytes n_rows
      fail_if (ltb (length src_valid) min_src_valid)
          (FilterError.input_length_mismatch (length src_valid) min_src_valid n_rows)
      (if n_rows == 0
          then ok (dst_data, dst_valid)
          else scatter_slots_rows sentinel device src_data src_valid keep prefix_sum n_out dst_data
              dst_valid)

abbrev pub dispatch_scatter_i64 :
    Device
    → List ℕ
    → List ℕ
    → List ℕ
    → List ℕ
    → ℕ
    → List ℕ
    → List ℕ
    → Result FilterError (List ℕ × List ℕ)
dispatch_scatter_i64 = dispatch_scatter_slots scatter_sentinel_i64

abbrev pub dispatch_scatter_f64 :
    Device
    → List ℕ
    → List ℕ
    → List ℕ
    → List ℕ
    → ℕ
    → List ℕ
    → List ℕ
    → Result FilterError (List ℕ × List ℕ)
dispatch_scatter_f64 = dispatch_scatter_slots scatter_sentinel_f64_bits

-- The host's check of the last prefix sum, for rows that there are.
pub check_last_prefix : ℕ → List ℕ → ℕ → Result FilterError (Unit {0})
check_last_prefix n_rows prefix_sum n_out =
    if ltb 0 n_rows
    then (do
      n_out_u32 ← ok_or (try_u32 n_out) (FilterError.row_count_overflow n_out)
      let last_prefix = get_or prefix_sum (n_rows - 1) 0
      fail_if (not (last_prefix == n_out_u32))
          (FilterError.scatter_prefix_sum_mismatch last_prefix n_out))
    else ok tt

-- The part of `dispatch_scatter_bool` that runs the kernel and reads its buffers back.
pub scatter_bool_rows :
    Device
    → List ℕ
    → List ℕ
    → List ℕ
    → List ℕ
    → ℕ
    → ℕ
    → List ℕ
    → List ℕ
    → Result FilterError (List ℕ × List ℕ)
unfolding dst_valid_min_bytes mark_all get_valid
scatter_bool_rows device src_data src_valid keep prefix_sum n_rows n_out dst_data dst_valid = do
  n_rows_u32 ← ok_or (try_u32 n_rows) (FilterError.row_count_overflow n_rows)
  n_out_u32 ← ok_or (try_u32 n_out) (FilterError.row_count_overflow n_out)
  let aim = out_idx keep prefix_sum n_rows
  let bytes = min_bitmap_bytes n_rows
  orders ←
      device.run_bits n_rows (λ gid. bit_write (take bytes src_data) (aim gid) n_out gid)
        (λ gid. bit_write (take bytes src_valid) (aim gid) n_out gid)
  let blank = replicate (dst_valid_min_bytes n_out) 0
  ok (copy_into (mark_all orders.0 blank) dst_data, copy_into (mark_all orders.1 blank) dst_valid)

unfoldable pub dispatch_scatter_bool :
    Device
    → List ℕ
    → List ℕ
    → List ℕ
    → List ℕ
    → ℕ
    → ℕ
    → List ℕ
    → List ℕ
    → Result FilterError (List ℕ × List ℕ)
unfolding dst_valid_min_bytes check_last_prefix scatter_bool_rows
dispatch_scatter_bool device src_data src_valid keep prefix_sum n_rows n_out dst_data dst_valid = do
  fail_if (not (length keep == n_rows)) (FilterError.output_length_mismatch (length keep) n_rows)
  fail_if (not (length prefix_sum == n_rows))
      (FilterError.output_length_mismatch (length prefix_sum) n_rows)
  let min_src_bytes = min_bitmap_bytes n_rows
  fail_if (ltb (length src_data) min_src_bytes)
      (FilterError.input_length_mismatch (length src_data) min_src_bytes n_rows)
  fail_if (ltb (length src_valid) min_src_bytes)
      (FilterError.input_length_mismatch (length src_valid) min_src_bytes n_rows)
  let min_out_bytes = dst_valid_min_bytes n_out
  fail_if (ltb (length dst_data) min_out_bytes)
      (FilterError.dst_data_bool_too_small (length dst_data) min_out_bytes)
  fail_if (ltb (length dst_valid) min_out_bytes)
      (FilterError.dst_valid_too_small (length dst_valid) min_out_bytes)
  check_last_prefix n_rows prefix_sum n_out
  (if n_rows == 0
      then ok (dst_data, dst_valid)
      else scatter_bool_rows device src_data src_valid keep prefix_sum n_rows n_out dst_data
          dst_valid)
