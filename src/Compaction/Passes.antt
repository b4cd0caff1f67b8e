-- ===== src/Compaction/Passes.antt =====
-- The three passes on a device that works: every pass gives what its documentation says.
use native.Mathlib.Nat.{mod-eq_of_lt, zero-add}
use polars_metal.Base.Bits.{bit_and_above, bit_and_mask}
use polars_metal.Base.{
  ℕ, zero, suc, ◌+◌, ◌-◌, ◌*◌, ◌/◌, ◌^◌, ◌≤◌, ◌<◌, ◌≡◌, refl, ap, ap₂, sym, ◌∙◌, String, Bool, ◌&&◌,
  Option, List, [], ◌∷◌, get_or, take, replicate, length, length-replicate, tabulate,
  length-tabulate, nat_eq, if◌then◌else◌, bit_and, Result, ok, arith, get_elem?-take,
}
use polars_metal.Buffer.Bitmap.{get_valid}
use polars_metal.Buffer.Bitmap.Set.{get_valid-ext}
use polars_metal.Filter.{
  Device, min_bitmap_bytes, dst_valid_min_bytes, predicate_flag, dispatch_predicate_to_u8,
}
use polars_metal.Filter.Schedules.{IsSchedule}
use polars_metal.Filter.Ranks.{prefix_sums, survivors, AreFlags, last-prefix}
use polars_metal.Filter.Scatter.{kept, row_flags}
use polars_metal.Compaction.{compute_keep_and_prefix}

-- A device that works: a dispatch ends, and its buffers have seen the writes of its threads.
pub record IsUp (device : Device) : Type 0 where
  pub bytes : (n : ℕ) → device.run_bytes n ≡ ok tt
  pub slots :
      (n : ℕ) (store : ℕ → Option (ℕ × ℕ)) (mark : ℕ → Option ℕ)
      → (stores : List (ℕ × ℕ)) × (marks : List ℕ) × (device.run_slots n store mark
          ≡ ok (stores, marks))
        × IsSchedule n store stores
        × IsSchedule n mark marks
  pub bits :
      (n : ℕ) (bit mark : ℕ → Option ℕ)
      → (bits : List ℕ) × (marks : List ℕ) × (device.run_bits n bit mark ≡ ok (bits, marks))
        × IsSchedule n bit bits
        × IsSchedule n mark marks

-- MLX's inclusive cumsum, documented for flags.
abbrev pub IsInclusive : (List ℕ → Result String (List ℕ)) → Type 0
IsInclusive cumsum =
    (keep : List ℕ) → AreFlags keep → length keep < 2 ^ 32 → cumsum keep ≡ ok (prefix_sums 0 keep)

-- The flags of the rows whose predicate is true and not null.
abbrev pub keep_flags : List ℕ → List ℕ → ℕ → List ℕ
keep_flags pred_data pred_valid n_rows =
    tabulate 0 n_rows (λ i. if get_valid pred_data i && get_valid pred_valid i then 1 else 0)

pub keep_flags-AreFlags :
    (pred_data pred_valid : List ℕ) (start n : ℕ)
    → AreFlags
        (tabulate start n (λ i. if get_valid pred_data i && get_valid pred_valid i then 1 else 0))
keep_flags-AreFlags pred_data pred_valid start zero = tt
keep_flags-AreFlags pred_data pred_valid start (suc n) =
    (ground arith, keep_flags-AreFlags pred_data pred_valid (suc start) n)

pub get_valid-take :
    (bitmap : List ℕ) (n row : ℕ)
    → row < n
    → get_valid (take (min_bitmap_bytes n) bitmap) row ≡ get_valid bitmap row
get_valid-take bitmap n row h =
    get_valid-ext (take (min_bitmap_bytes n) bitmap) bitmap row
      (get_elem?-take (min_bitmap_bytes n) bitmap (row / 8) (omega arith))

pub tabulate-ext :
    {A : Type 0} (f g : ℕ → A) (start n : ℕ)
    → ((i : ℕ) → i < start + n → f i ≡ g i)
    → tabulate start n f ≡ tabulate start n g
tabulate-ext f g start zero h = refl
tabulate-ext f g start (suc n) h =
    ap₂ ◌∷◌ (h start (omega arith)) (tabulate-ext f g (suc start) n (λ i p. h i (omega arith)))

-- The bytes of an output bitmap hold a bit for every row.
pub room_for : (n : ℕ) → n < 2 ^ 32 → n ≤ dst_valid_min_bytes n * 8
unfolding dst_valid_min_bytes
room_for n h =
    let down : bit_and (min_bitmap_bytes n + 3) (2 ^ 64 - 1 - 3)
        ≡ (min_bitmap_bytes n + 3) / 4 * 4 =
      bit_and_above 2 (min_bitmap_bytes n + 3) (2 ^ 62 - 1)
      ∙ ap (λ (t : ℕ). t * 4)
          (bit_and_mask 62 ((min_bitmap_bytes n + 3) / 4) ∙ mod-eq_of_lt (omega arith)) in
    omega (arith, down)

pub row_flags-take :
    (bitmap : List ℕ) (n : ℕ) → row_flags (take (min_bitmap_bytes n) bitmap) n ≡ row_flags bitmap n
row_flags-take bitmap n = tabulate-ext _ _ 0 n (λ i h. get_valid-take bitmap n i (omega arith))

keep_flags-take :
    (pred_data pred_valid : List ℕ) (n : ℕ)
    → keep_flags (take (min_bitmap_bytes n) pred_data) (take (min_bitmap_bytes n) pred_valid) n
      ≡ keep_flags pred_data pred_valid n
keep_flags-take pred_data pred_valid n = tabulate-ext _ _ 0 n (λ i h.
    ap₂ (λ (a b : Bool). if a && b then 1 else 0) (get_valid-take pred_data n i (omega arith))
      (get_valid-take pred_valid n i (omega arith)))

predicate_lem :
    (device : Device) (pred_data pred_valid : List ℕ) (m : ℕ)
    → IsUp device
    → suc m < 2 ^ 32
    → min_bitmap_bytes (suc m) ≤ length pred_data
    → min_bitmap_bytes (suc m) ≤ length pred_valid
    → dispatch_predicate_to_u8 device pred_data pred_valid (suc m) (replicate (suc m) 0)
      ≡ ok (keep_flags pred_data pred_valid (suc m))
unfolding dispatch_predicate_to_u8
predicate_lem device pred_data pred_valid m up small d v =
    rw (← keep_flags-take pred_data pred_valid (suc m))
      (ground (arith, length-replicate {A = ℕ} (suc m) 0, up.bytes (suc m)))

pub last-kept :
    (keep : List ℕ)
    → AreFlags keep
    → 0 < length keep
    → get_or (prefix_sums 0 keep) (length keep - 1) 0 ≡ kept keep
last-kept [] flags h = absurd (omega arith)
last-kept (k ∷ keep) flags h =
    let e : suc (length keep) - 1 ≡ length keep = omega arith in
    rw e (last-prefix 0 0 k keep k keep flags refl ∙ zero-add (kept (k ∷ keep)))

passes_lem :
    (device : Device) (cumsum : List ℕ → Result String (List ℕ)) (pred_data pred_valid : List ℕ)
    (m : ℕ) {keep prefix : List ℕ} {n_out : ℕ}
    → dispatch_predicate_to_u8 device pred_data pred_valid (suc m) (replicate (suc m) 0) ≡ ok keep
    → cumsum keep ≡ ok prefix
    → get_or prefix (suc m - 1) 0 ≡ n_out
    → compute_keep_and_prefix device cumsum pred_data pred_valid (suc m) ≡ ok (keep, prefix, n_out)
unfolding compute_keep_and_prefix
passes_lem device cumsum pred_data pred_valid m first second last = ground arith

-- Passes 1 and 2 give the flags, their prefix sums and the number of survivors.
pub compute_keep_and_prefix_lem :
    (device : Device) (cumsum : List ℕ → Result String (List ℕ)) (pred_data pred_valid : List ℕ)
    (n : ℕ)
    → IsUp device
    → IsInclusive cumsum
    → n < 2 ^ 32
    → min_bitmap_bytes n ≤ length pred_data
    → min_bitmap_bytes n ≤ length pred_valid
    → compute_keep_and_prefix device cumsum pred_data pred_valid n
      ≡ (let keep = keep_flags pred_data pred_valid n in ok (keep, prefix_sums 0 keep, kept keep))
unfolding compute_keep_and_prefix prefix_sums survivors
compute_keep_and_prefix_lem device cumsum pred_data pred_valid zero up sums small d v = refl
compute_keep_and_prefix_lem device cumsum pred_data pred_valid (suc m) up sums small d v =
    let keep = keep_flags pred_data pred_valid (suc m) in
    let flags = keep_flags-AreFlags pred_data pred_valid 0 (suc m) in
    let size : length keep ≡ suc m =
      length-tabulate 0 (suc m) (predicate_flag pred_data pred_valid) in
    let last : get_or (prefix_sums 0 keep) (suc m - 1) 0 ≡ kept keep =
      ap (λ n. get_or (prefix_sums 0 keep) (n - 1) 0) (sym size)
      ∙ last-kept keep flags (omega (arith, size)) in
    passes_lem device cumsum pred_data pred_valid m
      (predicate_lem device pred_data pred_valid m up small d v)
      (sums keep flags (omega (arith, size))) last
