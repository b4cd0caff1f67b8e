-- ===== src/Groupby/Dispatch.antt =====
-- groupby.rs, `dispatch_build` and `dispatch_groupby`: encode the keys, number the groups, run the
-- aggregations, decode a key for each group.
-- The build on the GPU (`try_a1_build`) is an argument: it returns none where it overflows or
-- fails. A panic (an index out of range, the unreachable arm) is a value.
pub mod Grouped
pub mod Whole
use polars_metal.Base.{
  ℕ, String, Bool, true, false, Option, none, some, List, [], ◌∷◌, map, Result, ok, err, ◌>>=◌,
  ◌>>◌, collect, ltb, leb, ◌==◌, if◌then◌else◌, length, take, replicate, get_elem?, nat_eq,
}
use polars_metal.Groupby.Keys.{KeyColumn, KeySchema, KeyEncodeError, encode_keys}
use polars_metal.Groupby.Decode.{DecodedColumn, decode_keys}
use polars_metal.Groupby.Build.{BuildOutput, cpu_hashmap_build}
use polars_metal.Groupby.Requests.{
  GroupByError, AggRequest, ValueColumn, AggOutput, GroupByResult, empty_output_for,
}

abbrev pub a1_rows_threshold : ℕ
a1_rows_threshold = 500000

-- The GPU build for many rows, where it gives a result, else the CPU's.
pub a1_or_cpu : (List ℕ → Option BuildOutput) → List ℕ → ℕ → BuildOutput
a1_or_cpu try_a1_build encoded n_rows =
    if leb a1_rows_threshold n_rows
    then elim (try_a1_build encoded) [ none ↦ cpu_hashmap_build encoded | some out ↦ out ]
    else cpu_hashmap_build encoded

unfoldable pub dispatch_build :
    (List ℕ → Option BuildOutput) → List ℕ → ℕ → Result GroupByError BuildOutput
unfolding a1_or_cpu cpu_hashmap_build
dispatch_build try_a1_build encoded n_rows =
    if n_rows == 0
    then ok (record { row_to_group = []; first_row_per_group = []; n_groups = 0 })
    else if ltb (length encoded) n_rows
    then err (GroupByError.output_too_short (length encoded) n_rows)
    else ok (a1_or_cpu try_a1_build (take n_rows encoded) n_rows)

pub data Failure : Type 0 where
  error : GroupByError → Failure
  panic : Failure

-- `?`, with the conversion into the caller's error.
abbrev pub lift {ℓ κ} :
    {E : Type ℓ} {A : Type κ} → (E → GroupByError) → Result E A → Result Failure A
lift f (ok a) = ok a
lift f (err e) = err (Failure.error (f e))

abbrev pub or_panic {ℓ} : {A : Type ℓ} → Option A → Result Failure A
or_panic none = err Failure.panic
or_panic (some a) = ok a

pub check_key_rows : ℕ → List KeyColumn → Result Failure (Unit {0})
check_key_rows n_rows [] = ok tt
check_key_rows n_rows (kc ∷ key_cols) =
    if kc.n_rows == n_rows
    then check_key_rows n_rows key_cols
    else err (Failure.error (GroupByError.output_too_short kc.n_rows n_rows))

-- `first_row_per_group.iter().map(|&row| encoded[row as usize])`
pub gather : List ℕ → List ℕ → Result Failure (List ℕ)
unfolding collect
gather encoded rows = collect (λ row. or_panic (get_elem? encoded row)) rows

abbrev pub Spec : Type 0
Spec = AggRequest × ValueColumn

abbrev pub empty_outputs : List Spec → List AggOutput
empty_outputs agg_specs = map (λ s. empty_output_for s.0.kind) agg_specs

-- `run` is `run_one_agg`, with the groups' numbers and their count.
module _ (try_a1_build : List ℕ → Option BuildOutput)
    (run : List ℕ → ℕ → AggRequest → ValueColumn → Result GroupByError AggOutput) where
  pub run_all : List Spec → List ℕ → ℕ → Result Failure (List AggOutput)
  unfolding collect
  run_all agg_specs row_to_group n_groups =
      collect (λ s. lift (λ e. e) (run row_to_group n_groups s.0 s.1)) agg_specs

  -- No keys: one group with all rows.
  pub whole_input : List Spec → ℕ → Result Failure GroupByResult
  unfolding run_all
  whole_input agg_specs n_rows =
      if n_rows == 0
      then ok (record { decoded_keys = []; agg_outputs = empty_outputs agg_specs; n_groups = 0 })
      else (run_all agg_specs (replicate n_rows 0) 1 >>= λ outputs.
          ok (record { decoded_keys = []; agg_outputs = outputs; n_groups = 1 }))

  pub finish : List ℕ → KeySchema → List Spec → BuildOutput → Result Failure GroupByResult
  unfolding run_all gather
  finish encoded schema agg_specs build = do
    outputs ← run_all agg_specs build.row_to_group build.n_groups
    representative_keys ← gather encoded build.first_row_per_group
    decoded_keys ← or_panic (decode_keys representative_keys schema)
    ok (record { decoded_keys = decoded_keys; agg_outputs = outputs; n_groups = build.n_groups })

  pub no_rows : KeySchema → List Spec → Result Failure GroupByResult
  no_rows schema agg_specs = do
    decoded_keys ← or_panic (decode_keys [] schema)
    ok (record { decoded_keys = decoded_keys; agg_outputs = empty_outputs agg_specs; n_groups = 0 })

  -- What follows the encoding of the keys.
  pub by_lanes : List ℕ → KeySchema → List Spec → ℕ → Result Failure GroupByResult
  unfolding finish no_rows
  by_lanes encoded schema agg_specs n_rows =
      if n_rows == 0
      then no_rows schema agg_specs
      else (lift (λ e. e) (dispatch_build try_a1_build encoded n_rows) >>= λ build.
          finish encoded schema agg_specs build)

  pub by_keys : List KeyColumn → List Spec → ℕ → Result Failure GroupByResult
  unfolding by_lanes
  by_keys key_cols agg_specs n_rows = do
    encoded ← lift GroupByError.key_encode (encode_keys key_cols)
    by_lanes encoded.0 encoded.1 agg_specs n_rows

  unfoldable pub dispatch_groupby : List KeyColumn → List Spec → ℕ → Result Failure GroupByResult
  unfolding check_key_rows whole_input by_keys encode_keys dispatch_build cpu_hashmap_build
      decode_keys
  dispatch_groupby key_cols agg_specs n_rows = do
    check_key_rows n_rows key_cols
    elim key_cols [
      | [] ↦ whole_input agg_specs n_rows
      | kc ∷ more ↦ by_keys (kc ∷ more) agg_specs n_rows
    ]
