-- ===== src/Groupby/Dispatch/Whole.antt =====
-- `dispatch_groupby` from end to end.
use polars_metal.Base.{
  ℕ, ◌^◌, ◌<◌, ◌≡◌, ◌≢◌, refl, ap, sym, ◌∙◌, false, Option, List, [], ◌∷◌, Result, ok, ◌==◌, nat_eq,
  length, arith, length-tabulate, tabulate,
}
use polars_metal.Groupby.Keys.{KeyColumn, KeySchema, encode_keys}
use polars_metal.Groupby.Keys.Lane.{HoldBytes, lane_of}
use polars_metal.Groupby.Keys.Fields.{IsAccepted, SameRows, encode_keys-ok, schema_of}
use polars_metal.Groupby.Build.{BuildOutput}
use polars_metal.Groupby.Requests.{GroupByError, AggRequest, ValueColumn, AggOutput, GroupByResult}
use polars_metal.Groupby.Dispatch.{dispatch_build, check_key_rows, Spec, by_lanes, dispatch_groupby}
use polars_metal.Groupby.Dispatch.Grouped.{
  GivesGroupings, Answers, IsGroupBy, dispatch_build-IsGrouping, finish-IsGroupBy,
}

check_key_rows-SameRows :
    (n_rows : ℕ) (cols : List KeyColumn) → SameRows n_rows cols → check_key_rows n_rows cols ≡ ok tt
unfolding check_key_rows
check_key_rows-SameRows n_rows [] h = refl
check_key_rows-SameRows n_rows (c ∷ cols) h =
    ground (arith, h.0, check_key_rows-SameRows n_rows cols h.1)

module _ (try_a1_build : List ℕ → Option BuildOutput)
    (run : List ℕ → ℕ → AggRequest → ValueColumn → Result GroupByError AggOutput)
    (gives : GivesGroupings try_a1_build) (specs : List Spec)
    (answers : (row_to_group : List ℕ) (n_groups : ℕ)
      → Answers run row_to_group n_groups specs) where
  by_lanes-IsGroupBy :
      (cols : List KeyColumn) (encoded : List ℕ) (schema : KeySchema)
      → HoldBytes cols
      → encode_keys cols ≡ ok (encoded, schema)
      → length encoded ≡ schema.n_rows
      → schema.n_rows ≢ 0
      → schema.n_rows < 2 ^ 32
      → (result : GroupByResult) × (by_lanes try_a1_build run encoded schema specs schema.n_rows
          ≡ ok result)
        × IsGroupBy run cols specs schema.n_rows result
  unfolding by_lanes
  by_lanes-IsGroupBy cols encoded schema bytes coded lanes filled small =
      let (build, built, grouping) =
        dispatch_build-IsGrouping try_a1_build gives encoded (omega arith) in
      let (result, finished, grouped) =
        finish-IsGroupBy try_a1_build run cols specs bytes coded lanes build grouping
          (answers build.row_to_group build.n_groups) in
      let asked : (schema.n_rows == 0) ≡ false = ground arith in
      let chosen : dispatch_build try_a1_build encoded schema.n_rows ≡ ok build =
        ap (dispatch_build try_a1_build encoded) (sym lanes) ∙ built in
      (result, rw (asked, by_lanes) (rw chosen finished), grouped)

  -- `dispatch_groupby` with at least one key column, on more than 0 and fewer than 2^32 rows that
  -- `encode_keys` accepts, succeeds if the aggregations do and if what the GPU build returns is
  -- always a grouping: rows are in one group exactly when their keys are the same, nulls included;
  -- each group has a row that stands for it, whose key columns are decoded for the group; and each
  -- request gets, in order, what its aggregation answers for these groups.
  pub dispatch_groupby-IsGroupBy :
      (c : KeyColumn) (cols : List KeyColumn)
      → HoldBytes (c ∷ cols)
      → IsAccepted (c ∷ cols)
      → c.n_rows ≢ 0
      → c.n_rows < 2 ^ 32
      → (result : GroupByResult) × (dispatch_groupby try_a1_build run (c ∷ cols) specs c.n_rows
          ≡ ok result)
        × IsGroupBy run (c ∷ cols) specs c.n_rows result
  unfolding dispatch_groupby
  dispatch_groupby-IsGroupBy c cols bytes accepted filled small =
      let encoded = tabulate 0 c.n_rows (λ row. lane_of row (c ∷ cols)) in
      let coded = encode_keys-ok c cols bytes accepted in
      let (result, done, grouped) =
        by_lanes-IsGroupBy (c ∷ cols) encoded (schema_of c cols) bytes coded
          (length-tabulate 0 c.n_rows (λ row. lane_of row (c ∷ cols))) filled small in
      let checked = check_key_rows-SameRows c.n_rows (c ∷ cols) (refl, accepted.0) in
      (result, rw checked (rw coded done), grouped)
