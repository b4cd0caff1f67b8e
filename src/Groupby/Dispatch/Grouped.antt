-- ===== src/Groupby/Dispatch/Grouped.antt =====
-- What `dispatch_groupby` delivers, from the theorems on its phases.
use polars_metal.Base.{
  ℕ, zero, suc, ◌^◌, ◌<◌, ◌≡◌, refl, ap, ◌∙◌, subst, ◌↔◌, false, Option, some, List, [], ◌∷◌, map,
  Result, ok, collect, ltb, leb, ◌==◌, length, take, nat_eq, get_elem?, get_or, arith, All,
  get_elem?-lt, Bool-cases, Option-cases, inl, inr,
}
use polars_metal.Groupby.Keys.{KeyColumn, KeySchema, encode_keys}
use polars_metal.Groupby.Keys.Lane.{HoldBytes}
use polars_metal.Groupby.Keys.Injective.{SameKey, encode_keys-injective}
use polars_metal.Groupby.Decode.RoundTrip.{stored_columns, decode_keys-encode_keys}
use polars_metal.Groupby.Build.{BuildOutput, cpu_hashmap_build}
use polars_metal.Groupby.Build.Grouping.{IsGrouping}
use polars_metal.Groupby.Build.Run.{cpu_hashmap_build-IsFirstSeen}
use polars_metal.Groupby.Requests.{GroupByError, AggRequest, ValueColumn, AggOutput, GroupByResult}
use polars_metal.Groupby.Dispatch.{
  a1_rows_threshold, a1_or_cpu, dispatch_build, gather, Spec, run_all, finish,
}

take_all : (xs : List ℕ) → take (length xs) xs ≡ xs
take_all [] = refl
take_all (x ∷ xs) = ap (λ l. x ∷ l) (take_all xs)

get_elem?-get_or : (xs : List ℕ) (i : ℕ) → i < length xs → get_elem? xs i ≡ some (get_or xs i 0)
get_elem?-get_or [] i h = absurd (omega arith)
get_elem?-get_or (x ∷ xs) zero h = refl
get_elem?-get_or (x ∷ xs) (suc i) h = get_elem?-get_or xs i (omega arith)

everywhere : (P : ℕ → Type 0) (xs : List ℕ) → ((i x : ℕ) → get_elem? xs i ≡ some x → P x) → All P xs
everywhere P [] h = tt
everywhere P (x ∷ xs) h = (h 0 x refl, everywhere P xs (λ i y e. h (suc i) y e))

-- The contract of the build on the GPU: where it gives a result, it is a grouping.
abbrev pub GivesGroupings : (List ℕ → Option BuildOutput) → Type 0
GivesGroupings try_a1_build =
    (keys : List ℕ) (out : BuildOutput) → try_a1_build keys ≡ some out → IsGrouping keys out

a1_or_cpu-IsGrouping :
    (try_a1_build : List ℕ → Option BuildOutput)
    → GivesGroupings try_a1_build
    → (encoded : List ℕ) (n_rows : ℕ) → length encoded < 2 ^ 32
    → IsGrouping encoded (a1_or_cpu try_a1_build encoded n_rows)
unfolding a1_or_cpu
a1_or_cpu-IsGrouping try_a1_build gives encoded n_rows small =
    let cpu : IsGrouping encoded (cpu_hashmap_build encoded) =
      (cpu_hashmap_build-IsFirstSeen encoded small).grouping in
    elim (Bool-cases (leb a1_rows_threshold n_rows)) [
      | inr few ↦ rw (few, a1_or_cpu) cpu
      | inl many ↦ elim (Option-cases (try_a1_build encoded)) [
        | inl overflow ↦ rw (many, a1_or_cpu) (rw overflow cpu)
        | inr (out, built) ↦ rw (many, a1_or_cpu) (rw built (gives encoded out built))
      ]
    ]

-- Whichever build `dispatch_build` chooses, by the number of rows and by what the GPU returns, it
-- groups fewer than 2^32 rows by their lanes, if what the GPU returns is always a grouping.
pub dispatch_build-IsGrouping :
    (try_a1_build : List ℕ → Option BuildOutput)
    → GivesGroupings try_a1_build
    → (encoded : List ℕ) → length encoded < 2 ^ 32
    → (out : BuildOutput) × (dispatch_build try_a1_build encoded (length encoded) ≡ ok out)
      × IsGrouping encoded out
unfolding dispatch_build
dispatch_build-IsGrouping try_a1_build gives [] small = (
  _,
  refl,
  record {
    assigned = refl;
    in_range = λ i g p. cc;
    same_group = λ i j a b k l p q r s. cc;
    one_each = refl;
    stands_for = λ g r p. cc;
  },
)
dispatch_build-IsGrouping try_a1_build gives (key ∷ keys) small =
    let encoded = key ∷ keys in
    let filled : (length encoded == 0) ≡ false = ground arith in
    let enough : ltb (length encoded) (length encoded) ≡ false = ground arith in
    (
      a1_or_cpu try_a1_build encoded (length encoded),
      rw (filled, enough, dispatch_build)
          (ap (λ l. ok (a1_or_cpu try_a1_build l (length encoded))) (take_all encoded)),
      a1_or_cpu-IsGrouping try_a1_build gives encoded (length encoded) small,
    )

-- One output for each request, in order.
module _ (run : List ℕ → ℕ → AggRequest → ValueColumn → Result GroupByError AggOutput)
    (row_to_group : List ℕ) (n_groups : ℕ) where
  abbrev pub Answered : List Spec → List AggOutput → Type 0
  Answered [] [] = Unit
  Answered [] (o ∷ outputs) = ⊥
  Answered (s ∷ specs) [] = ⊥
  Answered (s ∷ specs) (o ∷ outputs) =
      (run row_to_group n_groups s.0 s.1 ≡ ok o) × Answered specs outputs

  abbrev pub Answers : List Spec → Type 0
  Answers specs = All (λ s. (o : AggOutput) × (run row_to_group n_groups s.0 s.1 ≡ ok o)) specs

  run_all-Answered :
      (try_a1_build : List ℕ → Option BuildOutput) (specs : List Spec)
      → Answers specs
      → (outputs : List AggOutput) × (run_all try_a1_build run specs row_to_group n_groups
          ≡ ok outputs)
        × Answered specs outputs
  unfolding run_all collect
  run_all-Answered try_a1_build [] h = ([], refl, tt)
  run_all-Answered try_a1_build (s ∷ specs) h =
      let (o, answer) = h.0 in
      let (outputs, done, all) = run_all-Answered try_a1_build specs h.1 in
      (o ∷ outputs, rw (answer, done) refl, (answer, all))

gather-ok :
    (encoded rows : List ℕ)
    → All (λ r. r < length encoded) rows
    → gather encoded rows ≡ ok (map (λ r. get_or encoded r 0) rows)
unfolding gather collect
gather-ok encoded [] h = refl
gather-ok encoded (r ∷ rows) h =
    rw (get_elem?-get_or encoded r h.0, gather-ok encoded rows h.1) refl

-- What a groupby of `n_rows` rows returns.
pub record IsGroupBy (run : List ℕ → ℕ → AggRequest → ValueColumn → Result GroupByError AggOutput)
    (cols : List KeyColumn) (specs : List Spec) (n_rows : ℕ) (result : GroupByResult) : Type 0 where
  pub row_to_group : List ℕ
  pub first_rows : List ℕ
  pub assigned : length row_to_group ≡ n_rows
  pub in_range : (i g : ℕ) → get_elem? row_to_group i ≡ some g → g < result.n_groups
  pub same_group :
      (i j a b : ℕ)
      → get_elem? row_to_group i ≡ some a
      → get_elem? row_to_group j ≡ some b
      → (a ≡ b) ↔ SameKey cols i j
  pub one_each : length first_rows ≡ result.n_groups
  pub stands_for : (g r : ℕ) → get_elem? first_rows g ≡ some r → get_elem? row_to_group r ≡ some g
  pub keys : result.decoded_keys ≡ stored_columns cols first_rows
  pub answered : Answered run row_to_group result.n_groups specs result.agg_outputs

module _ (try_a1_build : List ℕ → Option BuildOutput)
    (run : List ℕ → ℕ → AggRequest → ValueColumn → Result GroupByError AggOutput)
    (cols : List KeyColumn) {encoded : List ℕ} {schema : KeySchema} (specs : List Spec)
    (bytes : HoldBytes cols) (coded : encode_keys cols ≡ ok (encoded, schema))
    (lanes : length encoded ≡ schema.n_rows) where
  module _ (build : BuildOutput) (grouping : IsGrouping encoded build) where
    first_row-lt : All (λ r. r < length encoded) build.first_row_per_group
    first_row-lt =
        everywhere (λ r. r < length encoded) build.first_row_per_group
          (λ g r at. omega (
            arith,
            grouping.assigned,
            get_elem?-lt {0} build.row_to_group r (grouping.stands_for g r at),
          ))

    row-lt : (i a : ℕ) → get_elem? build.row_to_group i ≡ some a → i < length encoded
    row-lt i a p = omega (arith, grouping.assigned, get_elem?-lt {0} build.row_to_group i p)

    same_group-SameKey :
        (i j a b : ℕ)
        → get_elem? build.row_to_group i ≡ some a
        → get_elem? build.row_to_group j ≡ some b
        → (a ≡ b) ↔ SameKey cols i j
    same_group-SameKey i j a b p q =
        let left = row-lt i a p in
        let right = row-lt j b q in
        let lane =
          grouping.same_group i j a b _ _ p q (get_elem?-get_or encoded i left)
            (get_elem?-get_or encoded j right) in
        let key = encode_keys-injective cols i j bytes coded (omega arith) (omega arith) in
        (λ e. key.0 (lane.0 e), λ s. lane.1 (key.1 s))

    pub finish-IsGroupBy :
        Answers run build.row_to_group build.n_groups specs
        → (result : GroupByResult) × (finish try_a1_build run encoded schema specs build
            ≡ ok result)
          × IsGroupBy run cols specs schema.n_rows result
    unfolding finish
    finish-IsGroupBy answers =
        let (outputs, done, all) =
          run_all-Answered run build.row_to_group build.n_groups try_a1_build specs answers in
        let reps = gather-ok encoded build.first_row_per_group first_row-lt in
        let decoded =
          decode_keys-encode_keys cols build.first_row_per_group bytes coded
            (subst (λ (n : ℕ). All (λ r. r < n) build.first_row_per_group) lanes first_row-lt) in
        (
          record {
            decoded_keys = stored_columns cols build.first_row_per_group;
            agg_outputs = outputs;
            n_groups = build.n_groups;
          },
          rw (done, reps, decoded) refl,
          record {
            row_to_group = build.row_to_group;
            first_rows = build.first_row_per_group;
            assigned = grouping.assigned ∙ lanes;
            in_range = grouping.in_range;
            same_group = same_group-SameKey;
            one_each = grouping.one_each;
            stands_for = grouping.stands_for;
            keys = refl;
            answered = all;
          },
        )
