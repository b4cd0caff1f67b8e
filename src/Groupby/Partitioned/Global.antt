-- ===== src/Groupby/Partitioned/Global.antt =====
-- The partitioned build as a whole.
use native.Mathlib.Nat.{mod_self, one-le-pow, zero-add}
use mathlib.Core.Option.{some-injective}
use polars_metal.Base.Bits.{bit_and_mask}
use polars_metal.Base.{
  ℕ, zero, suc, ltb, length-map, ◌+◌, ◌-◌, ◌%◌, ◌^◌, ◌<◌, ◌≡◌, refl, ap, sym, ◌∙◌, inl, inr,
  bit_and, true, some, List, [], ◌∷◌, map, In, All, concat, nat_eq, length, length-replicate,
  get_elem?, get_elem?-lt, get_elem?-replicate, get_or, get_or-replicate, replicate, arith, subst,
}
use polars_metal.Groupby.Build.{BuildOutput}
use polars_metal.Groupby.Build.Grouping.{IsFirstSeen}
use polars_metal.Groupby.Partitioned.{
  indices_fit, assign_rows, partition_id, is_power_of_two, push_rows, offsets, global_group,
  gather_groups, cpu_partitioned_hash,
}
use polars_metal.Groupby.Partitioned.Partitions.{
  Distinct, AreRows, AreHashed, hash_partitions-AreHashed,
}
use polars_metal.Groupby.Partitioned.Pushes.{partition_id_bound, IsPushed, push_rows-IsPushed}
use polars_metal.Groupby.Partitioned.Numbers.{
  offsets-concat, offsets-last, concat-part, concat-Distinct,
}
use polars_metal.Groupby.Partitioned.Ranges.{length-offsets, indices_fit-true}
use polars_metal.Groupby.Partitioned.Assign.{assign_rows-IsAssigned, finished-IsFirstSeen, unset}

All-In : {A : Type 0} (P : A → Type 0) (xs : List A) → ((x : A) → In x xs → P x) → All P xs
All-In P [] h = tt
All-In P (x ∷ xs) h = (h x (inl refl), All-In P xs (λ y i. h y (inr i)))

All-get_or :
    (P : List ℕ → Type 0) (parts : List (List ℕ)) → ((q : ℕ) → P (get_or parts q [])) → All P parts
All-get_or P [] h = tt
All-get_or P (x ∷ parts) h = (h 0, All-get_or P parts (λ q. h (suc q)))

get_or-get_elem? : (xs : List ℕ) (i : ℕ) {a : ℕ} → get_elem? xs i ≡ some a → get_or xs i 0 ≡ a
get_or-get_elem? [] i h = cc
get_or-get_elem? (x ∷ xs) zero h = cc
get_or-get_elem? (x ∷ xs) (suc i) h = get_or-get_elem? xs i h

power-is_power_of_two : (q n : ℕ) → n ≡ 2 ^ q → is_power_of_two n ≡ true
unfolding is_power_of_two
power-is_power_of_two q n power =
    let pos : 0 < n = rw power (one-le-pow q 2 (omega arith)) in
    let masked : bit_and n (n - 1) ≡ n % n = rw power (bit_and_mask q (2 ^ q)) in
    let nought : bit_and n (n - 1) ≡ 0 = masked ∙ mod_self n in rw nought (ground arith)

module _ (keys : List ℕ) (q n : ℕ) (power : n ≡ 2 ^ q) (few : n < 2 ^ 32)
    (small : length keys < 2 ^ 32 - 1) where
  abbrev blank : List (List ℕ)
  blank = replicate n []

  abbrev parts : List (List ℕ)
  parts = push_rows n 0 keys blank

  split : IsPushed n 0 keys blank parts
  split =
      push_rows-IsPushed n 0 keys blank
        (λ k. rw (length-replicate {A = List ℕ} n []) (partition_id_bound q n k power few))
        (omega arith)

  -- A row of a partition has a key of the partition.
  row_of :
      (p r : ℕ)
      → In r (get_or parts p [])
      → (k : ℕ) × (get_elem? keys r ≡ some k) × (partition_id k n ≡ p)
  row_of p r isin = elim (split.only p r isin) [
    | inl old ↦ absurd (subst (In r) (get_or-replicate n p []) old)
    | inr (i, k, e, at, owned) ↦ (k, rw (e ∙ zero-add i) at, owned)
  ]

  hashed : AreHashed keys (replicate (length keys) 0) parts
  hashed =
      hash_partitions-AreHashed keys (λ r. partition_id (get_or keys r 0) n) 0
        (replicate (length keys) 0) parts (length-replicate (length keys) 0)
        (All-get_or (AreRows keys) parts (λ p.
          All-In (λ r. (k : ℕ) × (get_elem? keys r ≡ some k)) (get_or parts p [])
            (λ r isin. let (k, at, owned) = row_of p r isin in (k, at))))
        (All-get_or (λ rows. length rows < 2 ^ 32 - 1) parts
          (λ p. omega (arith, split.few p, ap length (get_or-replicate {A = List ℕ} n p []))))
        (λ p r isin.
          let (k, at, owned) = row_of p r isin in
          ap (λ j. partition_id j n) (get_or-get_elem? keys r at) ∙ owned ∙ sym (zero-add p))

  concat-blank : (m : ℕ) → concat {A = ℕ} (replicate m []) ≡ []
  concat-blank zero = refl
  concat-blank (suc m) = concat-blank m

  few_names : 0 + length (concat hashed.names) < 2 ^ 32
  few_names = omega (arith, hashed.few, split.sum, ap length (concat-blank n))

  few_keys : length keys < 2 ^ 32
  few_keys = omega (arith, small)

  abbrev starts : List ℕ
  starts = offsets 0 (map length hashed.tables)

  abbrev group_of : ℕ → ℕ → ℕ
  group_of = global_group n starts hashed.local

  group-name :
      (i k : ℕ)
      → get_elem? keys i ≡ some k
      → get_elem? (concat hashed.names) (group_of i k) ≡ some k
  group-name i k at =
      let isin =
        subst (λ x. In x (get_or parts (partition_id k n) [])) (zero-add i) (split.new i k at) in
      let (s, offset, held) =
        offsets-concat 0 hashed.names (partition_id k n) (get_or hashed.local i 0) few_names
          (hashed.coded (partition_id k n) i k isin at) in
      let start : get_or starts (partition_id k n) 0 ≡ s =
        ap (λ l. get_or (offsets 0 l) (partition_id k n) 0) hashed.sizes ∙ offset ∙ zero-add s in
      let local = get_or hashed.local i 0 in
      let fits : (s + local) % 2 ^ 32 ≡ s + local =
        omega (arith, few_names, get_elem?-lt (concat hashed.names) (s + local) held) in
      rw (start, fits) held

  names-Distinct : Distinct (concat hashed.names)
  names-Distinct =
      concat-Distinct (λ k. partition_id k n) 0 hashed.names hashed.distinct
        (λ p l k at.
          let (r, isin, held) = hashed.origin p l k at in
          let (k', at', owned) = row_of p r isin in
          let same : k' ≡ k = some-injective _ _ (sym at' ∙ held) in
          rw (← same) (owned ∙ sym (zero-add p)))

  name_origin :
      (g k : ℕ) → get_elem? (concat hashed.names) g ≡ some k → (i : ℕ) × (get_elem? keys i ≡ some k)
  name_origin g k at =
      let (p, l, held) = concat-part hashed.names g at in
      let (r, isin, row) = hashed.origin p l k held in (r, row)

  total : get_or starts n 0 ≡ length (concat hashed.names)
  total =
      ap (λ l. get_or (offsets 0 l) n 0) hashed.sizes
      ∙ offsets-last 0 hashed.names few_names
          (hashed.count ∙ split.count ∙ length-replicate {A = List ℕ} n [])
      ∙ zero-add (length (concat hashed.names))

  length-starts : length starts ≡ suc n
  length-starts =
      length-offsets 0 (map length hashed.tables)
      ∙ ap (λ l. suc (length l)) hashed.sizes
      ∙ ap suc (
          length-map length hashed.names
          ∙ hashed.count
          ∙ split.count
          ∙ length-replicate {A = List ℕ} n [])

  fits : indices_fit n starts hashed.local (get_or starts n 0) 0 keys ≡ true
  fits =
      indices_fit-true n starts hashed.local (get_or starts n 0) 0 keys
        (λ i k at. omega (arith, length-starts, partition_id_bound q n k power few))
        (omega (arith, hashed.same_length, length-replicate {A = ℕ} (length keys) 0))
        (λ i k at. rw (zero-add i) (
          omega (
            arith,
            total,
            get_elem?-lt {0} (concat hashed.names) (group_of i k) (group-name i k at),
          )))

  abbrev gathered : BuildOutput
  gathered =
      let out =
        assign_rows group_of 0 keys (replicate (length keys) 0)
          (replicate (get_or starts n 0) (2 ^ 32 - 1)) in
      record { row_to_group = out.0; first_row_per_group = out.1; n_groups = get_or starts n 0 }

  gather_groups-gathered : gather_groups keys n (hashed.tables, hashed.local) ≡ some gathered
  gather_groups-gathered =
      let past : ltb n (length starts) ≡ true = ground (arith, length-starts) in
      rw (past, fits) refl

  gathered-IsFirstSeen : IsFirstSeen keys gathered
  gathered-IsFirstSeen =
      let seed : List ℕ = replicate (length keys) 0 in
      let none_yet : List ℕ = replicate (get_or starts n 0) unset in
      finished-IsFirstSeen keys (concat hashed.names) group_of few_keys group-name names-Distinct
        name_origin
        (assign_rows-IsAssigned keys (concat hashed.names) group_of few_keys group-name keys [] seed
          none_yet refl
          (record {
            size = length-replicate (length keys) 0;
            groups = length-replicate (get_or starts n 0) unset ∙ total;
            assigned = λ i k h. absurd (omega (arith, h));
            first_rows = λ g f at. inl (
              get_elem?-replicate (get_or starts n 0) g unset at,
              λ i k h. absurd (omega (arith, h)),
            );
          }))
        total

-- The partitioned build of fewer than 2^32 - 1 rows, with any power of two of partitions below 2^32,
-- ends and does not panic: no probe runs round its table for ever. Its output puts rows in one
-- group exactly when their keys are equal, numbers the groups below `n_groups`, and notes for each
-- group its first row.
pub cpu_partitioned_hash-IsFirstSeen :
    (keys : List ℕ) (q n_partitions : ℕ)
    → n_partitions ≡ 2 ^ q
    → n_partitions < 2 ^ 32
    → length keys < 2 ^ 32 - 1
    → (out : BuildOutput) × (cpu_partitioned_hash keys n_partitions ≡ some out)
      × IsFirstSeen keys out
unfolding cpu_partitioned_hash
cpu_partitioned_hash-IsFirstSeen [] q n power few small = (
  record { row_to_group = []; first_row_per_group = []; n_groups = 0 },
  refl,
  record {
    grouping = record {
      assigned = refl;
      in_range = λ i g p. cc;
      same_group = λ i j a b k l p q' r s. cc;
      one_each = refl;
      stands_for = λ g r p. cc;
    };
    earliest = λ i g r p. cc;
  },
)
cpu_partitioned_hash-IsFirstSeen (k ∷ keys) q n power few small =
    let h = hashed (k ∷ keys) q n power few small in
    let allowed = power-is_power_of_two q n power in
    (
      gathered (k ∷ keys) q n power few small,
      rw (allowed, h.runs, cpu_partitioned_hash)
          (gather_groups-gathered (k ∷ keys) q n power few small),
      gathered-IsFirstSeen (k ∷ keys) q n power few small,
    )
