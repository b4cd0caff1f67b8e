-- ===== src/Compaction/Survivors.antt =====
-- Pass 3: a compacted column holds the survivors of its source, values and validity.
use mathlib.Core.List.{append-nil}
use polars_metal.Base.{
  ℕ, ◌+◌, ◌-◌, ◌^◌, ◌≤◌, ◌<◌, ◌≡◌, ◌≢◌, refl, ap, sym, ◌∙◌, subst, false, Option, List, ◌++◌,
  get_or, get_or_ext, get_or-take, length-take, take, drop, drop-all, replicate, length,
  length-replicate, nat_eq, ok, arith,
}
use polars_metal.Buffer.Bitmap.{get_valid}
use polars_metal.Filter.{
  Device, min_bitmap_bytes, dst_valid_min_bytes, slot_write, bit_write, out_idx, copy_into,
  dispatch_scatter_slots, dispatch_scatter_bool, store_all, mark_all,
}
use polars_metal.Filter.Schedules.{IsSchedule}
use polars_metal.Filter.Marks.{length-store_all, length-mark_all}
use polars_metal.Filter.Ranks.{
  prefix_sums, survivors, AreFlags, length-prefix_sums, length-survivors, length-survivors-ext,
}
use polars_metal.Filter.Scatter.{kept, row_flags, aim, slots-survivors, bits-survivors}
use polars_metal.Compaction.{CompactionResult, compact_slots, compact_bool}
use polars_metal.Compaction.Passes.{IsUp, last-kept, room_for, row_flags-take}

-- A bitmap shows the survivors of another's bits.
abbrev pub ShowsSurvivors : List ℕ → List ℕ → List ℕ → Type 0
ShowsSurvivors keep source bitmap =
    (i : ℕ)
    → i < kept keep
    → get_valid bitmap i ≡ get_or (survivors keep (row_flags source (length keep))) i false

pub record IsCompacted (keep src valid : List ℕ) (r : CompactionResult) : Type 0 where
  pub values : r.values ≡ survivors keep src
  pub bits : ShowsSurvivors keep valid r.valid
  pub count : r.n_out ≡ kept keep

copy_into-whole : (new dst : List ℕ) → length new ≡ length dst → copy_into new dst ≡ new
copy_into-whole new dst same = ap (λ n. new ++ drop n dst) same ∙ rw drop-all (append-nil new)

module _ (device : Device) (keep : List ℕ) (flags : AreFlags keep) (some_rows : 0 < length keep)
    (small : length keep < 2 ^ 32) where
  -- The writes of a thread.
  abbrev store : ℕ → List ℕ → ℕ → Option (ℕ × ℕ)
  store sentinel src gid = slot_write sentinel src (aim keep flags small gid) (kept keep) gid

  abbrev mark : List ℕ → ℕ → Option ℕ
  mark bitmap gid =
      bit_write (take (min_bitmap_bytes (length keep)) bitmap) (aim keep flags small gid)
        (kept keep) gid

  scatter_slots-ok :
      (sentinel : ℕ) (src valid dst_data dst_valid : List ℕ) {stores : List (ℕ × ℕ)}
      {marks : List ℕ}
      → length keep ≡ length src
      → min_bitmap_bytes (length keep) ≤ length valid
      → length dst_data ≡ kept keep + 1
      → length dst_valid ≡ dst_valid_min_bytes (kept keep)
      → device.run_slots (length keep) (store sentinel src) (mark valid) ≡ ok (stores, marks)
      → get_or (copy_into (store_all stores (replicate (kept keep + 1) 0)) dst_data) (kept keep) 0
        ≢ sentinel
      → dispatch_scatter_slots sentinel device src valid keep
          (prefix_sums 0 keep)
          (kept keep)
          dst_data
          dst_valid
        ≡ ok (
          copy_into (store_all stores (replicate (kept keep + 1) 0)) dst_data,
          copy_into (mark_all marks (replicate (dst_valid_min_bytes (kept keep)) 0)) dst_valid,
        )
  unfolding dispatch_scatter_slots
  scatter_slots-ok sentinel src valid dst_data dst_valid {stores} {marks} same has_valid data_fits
        valid_fits ran clear =
      let most = length-survivors 0 keep keep in
      let sums = length-prefix_sums 0 keep in
      let n_small : kept keep < 2 ^ 32 = omega (arith, most, small) in
      let going : device.run_slots (length src)
            (λ gid.
              slot_write sentinel src (out_idx keep (prefix_sums 0 keep) (length src) gid)
                (kept keep) gid)
            (λ gid.
              bit_write (take (min_bitmap_bytes (length src)) valid)
                (out_idx keep (prefix_sums 0 keep) (length src) gid) (kept keep) gid)
          ≡ ok (stores, marks) =
        subst
          (λ n.
            device.run_slots n
              (λ gid.
                slot_write sentinel src (out_idx keep (prefix_sums 0 keep) n gid) (kept keep) gid)
              (λ gid.
                bit_write (take (min_bitmap_bytes n) valid)
                  (out_idx keep (prefix_sums 0 keep) n gid) (kept keep) gid)
            ≡ ok (stores, marks))
          same ran in
      ground (arith, sums)

  -- The values as a list, from what the slots hold.
  values-survivors :
      (src slots : List ℕ)
      → length keep ≡ length src
      → length slots ≡ kept keep + 1
      → ((i : ℕ) → i < kept keep → get_or slots i 0 ≡ get_or (survivors keep src) i 0)
      → take (kept keep) slots ≡ survivors keep src
  values-survivors src slots same size h =
      let count = length-survivors-ext keep src keep (sym same) in
      let taken = length-take (kept keep) slots (omega (arith, size)) in
      get_or_ext 0 (take (kept keep) slots) (survivors keep src) (taken ∙ sym count) (λ i p.
        let below : i < kept keep = omega (arith, taken, p) in
        get_or-take (kept keep) slots i 0 below ∙ h i below)

  compact_slots-ok :
      (sentinel : ℕ) (src valid : List ℕ) {data_out valid_out : List ℕ}
      → dispatch_scatter_slots sentinel device src valid keep
          (prefix_sums 0 keep)
          (kept keep)
          (replicate (kept keep + 1) 0)
          (replicate (dst_valid_min_bytes (kept keep)) 0)
        ≡ ok (data_out, valid_out)
      → compact_slots device sentinel src valid keep (prefix_sums 0 keep) (kept keep)
        ≡ ok (record { values = take (kept keep) data_out; valid = valid_out; n_out = kept keep })
  unfolding compact_slots
  compact_slots-ok sentinel src valid done = rw (done, compact_slots) refl

  bits-shown :
      (bitmap marks : List ℕ)
      → IsSchedule (length keep) (mark bitmap) marks
      → ShowsSurvivors keep bitmap (mark_all marks (replicate (dst_valid_min_bytes (kept keep)) 0))
  bits-shown bitmap marks schedule i h =
      let most = length-survivors 0 keep keep in
      let fits = room_for (kept keep) (omega (arith, most, small)) in
      bits-survivors keep flags small (take (min_bitmap_bytes (length keep)) bitmap) marks
        (dst_valid_min_bytes (kept keep)) i schedule fits h
      ∙ ap (λ l. get_or (survivors keep l) i false) (row_flags-take bitmap (length keep))

  pub compact_slots-IsCompacted :
      (sentinel : ℕ) (src valid : List ℕ)
      → IsUp device
      → sentinel ≢ 0
      → length keep ≡ length src
      → min_bitmap_bytes (length keep) ≤ length valid
      → (r : CompactionResult) × (compact_slots device sentinel src valid keep
            (prefix_sums 0 keep)
            (kept keep)
          ≡ ok r)
        × IsCompacted keep src valid r
  compact_slots-IsCompacted sentinel src valid up marked same has_valid =
      let (stores, marks, ran, first, second) =
        up.slots (length keep) (store sentinel src) (mark valid) in
      let n_out : ℕ = kept keep in
      let room : ℕ = dst_valid_min_bytes n_out in
      let blank : List ℕ = replicate (n_out + 1) 0 in
      let blank_bits : List ℕ = replicate room 0 in
      let slots : List ℕ = store_all stores blank in
      let size : length blank ≡ n_out + 1 = length-replicate (n_out + 1) 0 in
      let size_bits : length blank_bits ≡ room = length-replicate room 0 in
      let whole = copy_into-whole slots blank (length-store_all stores blank) in
      let whole_bits =
        copy_into-whole (mark_all marks blank_bits) blank_bits (length-mark_all marks blank_bits) in
      let (held, behind) = slots-survivors keep flags small sentinel src stores same first in
      let done =
        scatter_slots-ok sentinel src valid blank blank_bits same has_valid size size_bits ran
          (λ e. marked (sym e ∙ ap (λ l. get_or l n_out 0) whole ∙ behind)) in
      (
        record {
          values = take n_out (copy_into slots blank);
          valid = copy_into (mark_all marks blank_bits) blank_bits;
          n_out = n_out;
        },
        compact_slots-ok sentinel src valid done,
        record {
          values =
              rw whole
                (values-survivors src slots same (length-store_all stores blank ∙ size) held);
          bits = rw whole_bits (bits-shown valid marks second);
          count = refl;
        },
      )

  scatter_bool-ok :
      (src valid : List ℕ) {bits marks : List ℕ}
      → min_bitmap_bytes (length keep) ≤ length src
      → min_bitmap_bytes (length keep) ≤ length valid
      → device.run_bits (length keep) (mark src) (mark valid) ≡ ok (bits, marks)
      → get_or (prefix_sums 0 keep) (length keep - 1) 0 ≡ kept keep
      → dispatch_scatter_bool device src valid keep
          (prefix_sums 0 keep)
          (length keep)
          (kept keep)
          (replicate (dst_valid_min_bytes (kept keep)) 0)
          (replicate (dst_valid_min_bytes (kept keep)) 0)
        ≡ ok (
          copy_into
              (mark_all bits (replicate (dst_valid_min_bytes (kept keep)) 0))
              (replicate (dst_valid_min_bytes (kept keep)) 0),
          copy_into
              (mark_all marks (replicate (dst_valid_min_bytes (kept keep)) 0))
              (replicate (dst_valid_min_bytes (kept keep)) 0),
        )
  unfolding dispatch_scatter_bool
  scatter_bool-ok src valid has_src has_valid ran last =
      let most = length-survivors 0 keep keep in
      let sums = length-prefix_sums 0 keep in
      let n_small : kept keep < 2 ^ 32 = omega (arith, most, small) in
      let room = length-replicate {A = ℕ} (dst_valid_min_bytes (kept keep)) 0 in
      ground (arith, sums, room, last)

  -- A Boolean column holds the survivors of its source, values and validity.
  pub record IsCompactedBool (src valid : List ℕ) (r : CompactionResult) : Type 0 where
    pub values : ShowsSurvivors keep src r.values
    pub bits : ShowsSurvivors keep valid r.valid
    pub count : r.n_out ≡ kept keep

  compact_bool-ok :
      (src valid : List ℕ) {data_out valid_out : List ℕ}
      → dispatch_scatter_bool device src valid keep
          (prefix_sums 0 keep)
          (length keep)
          (kept keep)
          (replicate (dst_valid_min_bytes (kept keep)) 0)
          (replicate (dst_valid_min_bytes (kept keep)) 0)
        ≡ ok (data_out, valid_out)
      → compact_bool device src valid keep (prefix_sums 0 keep) (length keep) (kept keep)
        ≡ ok (record { values = data_out; valid = valid_out; n_out = kept keep })
  unfolding compact_bool
  compact_bool-ok src valid done = rw (done, compact_bool) refl

  pub compact_bool-IsCompacted :
      (src valid : List ℕ)
      → IsUp device
      → min_bitmap_bytes (length keep) ≤ length src
      → min_bitmap_bytes (length keep) ≤ length valid
      → (r : CompactionResult) × (compact_bool device src valid keep
            (prefix_sums 0 keep)
            (length keep)
            (kept keep)
          ≡ ok r)
        × IsCompactedBool src valid r
  compact_bool-IsCompacted src valid up has_src has_valid =
      let (bits, marks, ran, first, second) = up.bits (length keep) (mark src) (mark valid) in
      let blank : List ℕ = replicate (dst_valid_min_bytes (kept keep)) 0 in
      let whole = λ (order : List ℕ).
        copy_into-whole (mark_all order blank) blank (length-mark_all order blank) in
      (
        record {
          values = copy_into (mark_all bits blank) blank;
          valid = copy_into (mark_all marks blank) blank;
          n_out = kept keep;
        },
        compact_bool-ok src valid
            (scatter_bool-ok src valid has_src has_valid ran (last-kept keep flags some_rows)),
        record {
          values = rw (whole bits) (bits-shown src bits first);
          bits = rw (whole marks) (bits-shown valid marks second);
          count = refl;
        },
      )
