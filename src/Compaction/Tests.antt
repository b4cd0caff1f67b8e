-- ===== src/Compaction/Tests.antt =====
-- A filter of three rows on a device that runs its threads one after the other, the last first.
use polars_metal.Base.{ℕ, ◌≡◌, refl, String, List, [], ◌∷◌, Result, ok, Both, arith}
use polars_metal.Plan.{MetalDtype, dtype_from_wire}
use polars_metal.Filter.{Device}
use polars_metal.Filter.Sequential.{last_first, last_first-IsSchedule}
use polars_metal.Filter.Ranks.{prefix_sums}
use polars_metal.Compaction.{Column, execute_filter_compact}
use polars_metal.Compaction.Passes.{IsUp, IsInclusive, keep_flags}
use polars_metal.Compaction.Columns.{IsFiltered, execute_filter_compact-IsFiltered}

abbrev sequential : Device
sequential = record {
  run_bytes = λ n. ok tt;
  run_slots = λ n store mark. ok (last_first n store, last_first n mark);
  run_bits = λ n bit mark. ok (last_first n bit, last_first n mark);
}

sequential-IsUp : IsUp sequential
sequential-IsUp = record {
  bytes = λ n. refl;
  slots = λ n store mark. (
    last_first n store,
    last_first n mark,
    refl,
    last_first-IsSchedule n store,
    last_first-IsSchedule n mark,
  );
  bits = λ n bit mark. (
    last_first n bit,
    last_first n mark,
    refl,
    last_first-IsSchedule n bit,
    last_first-IsSchedule n mark,
  );
}

abbrev sums : List ℕ → Result String (List ℕ)
sums keep = ok (prefix_sums 0 keep)

sums-IsInclusive : IsInclusive sums
sums-IsInclusive keep flags small = refl

-- Rows 0 and 2 are kept; row 2 of the first column is null.
abbrev pred_bits : List ℕ
pred_bits = 5 ∷ []

abbrev all_valid : List ℕ
all_valid = 7 ∷ []

abbrev frame : List Column
frame =
    record {
      name = "v";
      dtype = "I64";
      bytes =
          1 ∷ 0 ∷ 0 ∷ 0 ∷ 0 ∷ 0 ∷ 0 ∷ 0 ∷ 2 ∷ 0 ∷ 0 ∷ 0 ∷ 0 ∷ 0 ∷ 0 ∷ 0 ∷ 3 ∷ 1 ∷ 0 ∷ 0 ∷ 0 ∷ 0 ∷ 0
          ∷ 255 ∷ [];
      valid = 3 ∷ [];
    }
    ∷ record { name = "b"; dtype = "Bool"; bytes = 4 ∷ []; valid = all_valid }
    ∷ []

frame_filtered :
    execute_filter_compact sequential sums pred_bits all_valid 3 frame
    ≡ ok (
        (
          1 ∷ 0 ∷ 0 ∷ 0 ∷ 0 ∷ 0 ∷ 0 ∷ 0 ∷ 3 ∷ 1 ∷ 0 ∷ 0 ∷ 0 ∷ 0 ∷ 0 ∷ 255 ∷ [],
          1 ∷ 0 ∷ 0 ∷ 0 ∷ [],
          2,
        )
        ∷ (2 ∷ 0 ∷ 0 ∷ 0 ∷ [], 3 ∷ 0 ∷ 0 ∷ 0 ∷ [], 2)
        ∷ [])
unfolding execute_filter_compact prefix_sums
frame_filtered = refl

execute_filter_compact-IsFiltered_example :
    (outs : List (List ℕ × List ℕ × ℕ)) × (execute_filter_compact sequential sums pred_bits
        all_valid 3 frame
      ≡ ok outs)
    × Both (IsFiltered (keep_flags pred_bits all_valid 3)) frame outs
unfolding dtype_from_wire
execute_filter_compact-IsFiltered_example =
    execute_filter_compact-IsFiltered sequential sums pred_bits all_valid 3 frame sequential-IsUp
      sums-IsInclusive (omega arith) (omega arith) (omega arith)
      (
        record {
          dtype = MetalDtype.i64;
          known = refl;
          values = omega arith;
          validity = omega arith;
        },
        (
          record {
            dtype = MetalDtype.bool;
            known = refl;
            values = omega arith;
            validity = omega arith;
          },
          tt,
        ),
      )
