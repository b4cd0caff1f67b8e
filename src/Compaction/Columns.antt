-- ===== src/Compaction/Columns.antt =====
-- `execute_filter_compact` on a device that works.
use polars_metal.Base.{
  concat, ℕ, zero, suc, ◌*◌, ◌^◌, ◌≤◌, ◌<◌, ◌≡◌, ◌≢◌, refl, ap, sym, ◌∙◌, subst, inl, inr, String,
  some, List, [], ◌∷◌, All, length, length-tabulate, nat_beq, nat_beq_iff, Result, ok, Both,
  collect-Both, Bool-cases, arith,
}
use polars_metal.Plan.{MetalDtype, dtype_from_wire}
use polars_metal.Filter.{
  Device, min_bitmap_bytes, scatter_sentinel_i64, scatter_sentinel_f64_bits, predicate_flag,
}
use polars_metal.Filter.Ranks.{
  prefix_sums, survivors, AreFlags, length-survivors, length-survivors-ext,
}
use polars_metal.Filter.Scatter.{kept}
use polars_metal.Compaction.{
  Column, Kept, compact_slots, words, words_bytes, compact_words, compact_bits, compact_typed,
  compact_one_column, compact_entry, execute_filter_compact,
}
use polars_metal.Compaction.Words.{AreBytes, chunks, words_bytes-survivors, length-words}
use polars_metal.Compaction.Passes.{
  IsUp, IsInclusive, keep_flags, keep_flags-AreFlags, compute_keep_and_prefix_lem,
}
use polars_metal.Compaction.Survivors.{
  ShowsSurvivors, compact_slots-IsCompacted, compact_bool-IsCompacted,
}

-- What the Python side may hand over: a type that is compacted, and enough bytes.
abbrev pub HasBytes : MetalDtype → ℕ → List ℕ → Type 0
HasBytes MetalDtype.i64 n bytes = (n * 8 ≤ length bytes) × AreBytes bytes
HasBytes MetalDtype.f64 n bytes = (n * 8 ≤ length bytes) × AreBytes bytes
HasBytes MetalDtype.bool n bytes = min_bitmap_bytes n ≤ length bytes
HasBytes other n bytes = ⊥

pub record IsGiven (n : ℕ) (c : Column) : Type 0 where
  pub dtype : MetalDtype
  pub known : dtype_from_wire c.dtype ≡ some dtype
  pub values : HasBytes dtype n c.bytes
  pub validity : min_bitmap_bytes n ≤ length c.valid

-- The values that come back: the surviving pieces of eight bytes, or a bitmap of surviving bits.
abbrev pub HoldsSurvivors : MetalDtype → List ℕ → List ℕ → List ℕ → Type 0
HoldsSurvivors MetalDtype.bool keep source out = ShowsSurvivors keep source out
HoldsSurvivors other keep source out = out ≡ concat (survivors keep (chunks (length keep) source))

pub record IsFiltered (keep : List ℕ) (c : Column) (out : List ℕ × List ℕ × ℕ) : Type 0 where
  pub dtype : MetalDtype
  pub known : dtype_from_wire c.dtype ≡ some dtype
  pub values : HoldsSurvivors dtype keep c.bytes out.0
  pub validity : ShowsSurvivors keep c.valid out.1
  pub count : out.2 ≡ kept keep

length-chunks : (n : ℕ) (bytes : List ℕ) → length (chunks n bytes) ≡ n
length-chunks zero bytes = refl
length-chunks (suc n) bytes = ap suc (length-chunks n _)

nil_of_length : {A : Type 0} (xs : List A) → length xs ≡ 0 → xs ≡ []
nil_of_length [] h = refl
nil_of_length (x ∷ xs) h = absurd (omega arith)

-- A column's buffers.
record IsFilteredColumn (dtype : MetalDtype) (keep bytes valid : List ℕ) (out : List ℕ × List ℕ)
    : Type 0 where
  pub values : HoldsSurvivors dtype keep bytes out.0
  pub validity : ShowsSurvivors keep valid out.1

module _ (device : Device) (up : IsUp device) (keep : List ℕ) (flags : AreFlags keep)
    (small : length keep < 2 ^ 32) (name : String) where
  abbrev passed : Kept
  passed = (keep, prefix_sums 0 keep, kept keep)

  compact_words-survivors :
      (sentinel : ℕ) (bytes valid : List ℕ)
      → 0 < length keep
      → sentinel ≢ 0
      → length keep * 8 ≤ length bytes
      → AreBytes bytes
      → min_bitmap_bytes (length keep) ≤ length valid
      → (out : List ℕ × List ℕ) × (compact_words device
            (compact_slots device sentinel)
            (length keep)
            bytes
            valid
            passed
            name
          ≡ ok out)
        × (out.0 ≡ concat (survivors keep (chunks (length keep) bytes)))
        × ShowsSurvivors keep valid out.1
  unfolding compact_words
  compact_words-survivors sentinel bytes valid rows marked long are_bytes has_valid =
      let (r, done, right) =
        compact_slots-IsCompacted device keep flags rows small sentinel (words (length keep) bytes)
          valid up marked (sym (length-words (length keep) bytes)) has_valid in
      (
        (words_bytes r.values, r.valid),
        ground (arith, done),
        ap words_bytes right.values ∙ words_bytes-survivors keep (length keep) bytes long are_bytes,
        right.bits,
      )

  compact_bits-survivors :
      (bytes valid : List ℕ)
      → 0 < length keep
      → min_bitmap_bytes (length keep) ≤ length bytes
      → min_bitmap_bytes (length keep) ≤ length valid
      → (out : List ℕ × List ℕ) × (compact_bits device (length keep) bytes valid passed name
          ≡ ok out)
        × ShowsSurvivors keep bytes out.0
        × ShowsSurvivors keep valid out.1
  unfolding compact_bits
  compact_bits-survivors bytes valid rows has_bytes has_valid =
      let (r, done, right) =
        compact_bool-IsCompacted device keep flags rows small bytes valid up has_bytes has_valid in
      ((r.values, r.valid), ground (arith, done), right.values, right.bits)

  compact_typed-IsFiltered :
      (dtype : MetalDtype) (bytes valid : List ℕ)
      → 0 < length keep
      → HasBytes dtype (length keep) bytes
      → min_bitmap_bytes (length keep) ≤ length valid
      → (out : List ℕ × List ℕ) × (compact_typed device dtype (length keep) bytes valid passed name
          ≡ ok out)
        × IsFilteredColumn dtype keep bytes valid out
  unfolding compact_typed
  compact_typed-IsFiltered MetalDtype.i64 bytes valid rows has has_valid =
      let (out, done, values, bits) =
        compact_words-survivors scatter_sentinel_i64 bytes valid rows (omega arith) has.0 has.1
          has_valid in
      (out, done, record { values = values; validity = bits })
  compact_typed-IsFiltered MetalDtype.f64 bytes valid rows has has_valid =
      let (out, done, values, bits) =
        compact_words-survivors scatter_sentinel_f64_bits bytes valid rows (omega arith) has.0 has.1
          has_valid in
      (out, done, record { values = values; validity = bits })
  compact_typed-IsFiltered MetalDtype.bool bytes valid rows has has_valid =
      let (out, done, values, bits) = compact_bits-survivors bytes valid rows has has_valid in
      (out, done, record { values = values; validity = bits })
  compact_typed-IsFiltered MetalDtype.i32 bytes valid rows has has_valid = absurd has
  compact_typed-IsFiltered MetalDtype.f32 bytes valid rows has has_valid = absurd has
  compact_typed-IsFiltered MetalDtype.i8 bytes valid rows has has_valid = absurd has
  compact_typed-IsFiltered MetalDtype.i16 bytes valid rows has has_valid = absurd has
  compact_typed-IsFiltered MetalDtype.u8 bytes valid rows has has_valid = absurd has
  compact_typed-IsFiltered MetalDtype.u16 bytes valid rows has has_valid = absurd has
  compact_typed-IsFiltered MetalDtype.u32 bytes valid rows has has_valid = absurd has
  compact_typed-IsFiltered MetalDtype.u64 bytes valid rows has has_valid = absurd has
  compact_typed-IsFiltered MetalDtype.utf8 bytes valid rows has has_valid = absurd has

  no_survivors :
      (bytes : List ℕ) → kept keep ≡ 0 → [] ≡ concat (survivors keep (chunks (length keep) bytes))
  no_survivors bytes e =
      let size =
        length-survivors-ext keep (chunks (length keep) bytes) keep
          (length-chunks (length keep) bytes) in
      ap concat (sym (nil_of_length (survivors keep (chunks (length keep) bytes)) (size ∙ e)))

  nothing-IsFiltered :
      (dtype : MetalDtype) (bytes valid : List ℕ)
      → kept keep ≡ 0
      → HasBytes dtype (length keep) bytes
      → IsFilteredColumn dtype keep bytes valid ([], [])
  nothing-IsFiltered MetalDtype.bool bytes valid e has = record {
    values = λ i h. absurd (omega (arith, e));
    validity = λ i h. absurd (omega (arith, e));
  }
  nothing-IsFiltered MetalDtype.i64 bytes valid e has = record {
    values = no_survivors bytes e;
    validity = λ i h. absurd (omega (arith, e));
  }
  nothing-IsFiltered MetalDtype.f64 bytes valid e has = record {
    values = no_survivors bytes e;
    validity = λ i h. absurd (omega (arith, e));
  }
  nothing-IsFiltered MetalDtype.i32 bytes valid e has = absurd has
  nothing-IsFiltered MetalDtype.f32 bytes valid e has = absurd has
  nothing-IsFiltered MetalDtype.i8 bytes valid e has = absurd has
  nothing-IsFiltered MetalDtype.i16 bytes valid e has = absurd has
  nothing-IsFiltered MetalDtype.u8 bytes valid e has = absurd has
  nothing-IsFiltered MetalDtype.u16 bytes valid e has = absurd has
  nothing-IsFiltered MetalDtype.u32 bytes valid e has = absurd has
  nothing-IsFiltered MetalDtype.u64 bytes valid e has = absurd has
  nothing-IsFiltered MetalDtype.utf8 bytes valid e has = absurd has

  compact_one_column-IsFiltered :
      (dtype : MetalDtype) (bytes valid : List ℕ)
      → HasBytes dtype (length keep) bytes
      → min_bitmap_bytes (length keep) ≤ length valid
      → (out : List ℕ × List ℕ) × (compact_one_column device dtype
            (length keep)
            bytes
            valid
            passed
            name
          ≡ ok out)
        × IsFilteredColumn dtype keep bytes valid out
  unfolding compact_one_column
  compact_one_column-IsFiltered dtype bytes valid has has_valid =
      elim (Bool-cases (nat_beq (kept keep) 0)) [
        | inl empty ↦
            let e : kept keep ≡ 0 = (nat_beq_iff (kept keep) 0).0 empty in
            (([], []), ground arith, nothing-IsFiltered dtype bytes valid e has)
        | inr more ↦
            let most = length-survivors 0 keep keep in
            let rows : 0 < length keep = ground (arith, most) in
            let (out, done, right) =
              compact_typed-IsFiltered dtype bytes valid rows has has_valid in
            (out, ground (arith, done), right)
      ]

compact_entry-IsFiltered :
    (device : Device) (keep : List ℕ) (c : Column)
    → IsUp device
    → AreFlags keep
    → length keep < 2 ^ 32
    → IsGiven (length keep) c
    → (out : List ℕ × List ℕ × ℕ) × (compact_entry device
          (length keep)
          (keep, prefix_sums 0 keep, kept keep)
          c
        ≡ ok out)
      × IsFiltered keep c out
unfolding compact_entry
compact_entry-IsFiltered device keep c up flags small given =
    let (out, done, right) =
      compact_one_column-IsFiltered device up keep flags small c.name given.dtype c.bytes c.valid
        given.values given.validity in
    (
      (out.0, out.1, kept keep),
      rw (given.known, done) refl,
      record {
        dtype = given.dtype;
        known = given.known;
        values = right.values;
        validity = right.validity;
        count = refl;
      },
    )

-- On a device that works and with an inclusive cumsum, a filter succeeds on every frame of fewer
-- than 2^32 rows whose buffers are long enough and whose columns are I64, F64 or Bool. Whatever
-- the order in which the threads' writes arrive, each column that comes back holds, in order, the
-- values and the validity of the rows whose predicate is true and not null, and their number.
pub execute_filter_compact-IsFiltered :
    (device : Device) (cumsum : List ℕ → Result String (List ℕ)) (pred_data pred_valid : List ℕ)
    (n_rows : ℕ) (columns : List Column)
    → IsUp device
    → IsInclusive cumsum
    → n_rows < 2 ^ 32
    → min_bitmap_bytes n_rows ≤ length pred_data
    → min_bitmap_bytes n_rows ≤ length pred_valid
    → All (IsGiven n_rows) columns
    → (outs : List (List ℕ × List ℕ × ℕ)) × (execute_filter_compact device cumsum pred_data
          pred_valid n_rows columns
        ≡ ok outs)
      × Both (IsFiltered (keep_flags pred_data pred_valid n_rows)) columns outs
unfolding execute_filter_compact
execute_filter_compact-IsFiltered device cumsum pred_data pred_valid n_rows columns up sums small d
      v given =
    let keep = keep_flags pred_data pred_valid n_rows in
    let size : length keep ≡ n_rows =
      length-tabulate 0 n_rows (predicate_flag pred_data pred_valid) in
    let flags = keep_flags-AreFlags pred_data pred_valid 0 n_rows in
    let kept_rows =
      compute_keep_and_prefix_lem device cumsum pred_data pred_valid n_rows up sums small d v in
    let (outs, done, right) =
      collect-Both (compact_entry device n_rows (keep, prefix_sums 0 keep, kept keep))
        (IsGiven n_rows) (IsFiltered keep) columns
        (subst
          (λ n.
            (c : Column)
            → IsGiven n c
            → (out : List ℕ × List ℕ × ℕ) × (compact_entry device n
                  (keep, prefix_sums 0 keep, kept keep) c
                ≡ ok out)
              × IsFiltered keep c out)
          size (λ c g. compact_entry-IsFiltered device keep c up flags (omega (arith, size)) g))
        given in
    (outs, ground (arith, kept_rows, done), right)
