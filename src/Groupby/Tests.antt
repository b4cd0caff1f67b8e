-- ===== src/Groupby/Tests.antt =====
-- The key encoder, the build and the aggregations run on small inputs, and the theorems applied
-- to them.
use polars_metal.Base.{
  ℕ, ◌==◌, nat_eq, ◌%◌, ◌^◌, ◌<◌, ◌≡◌, refl, ◌↔◌, true, false, none, some, List, [], ◌∷◌, map,
  arith, All, ok, err, get_or, length, pos, negsuc, min,
}
use polars_metal.Groupby.Keys.{KeyDtype, KeyColumn, KeyEncodeError, encode_keys}
use polars_metal.Groupby.Keys.Fields.{schema_of}
use polars_metal.Groupby.Keys.Injective.{SameKey, encode_keys-injective}
use polars_metal.Groupby.Keys.Lane.{HoldBytes}
use polars_metal.Groupby.Decode.{DecodedColumn, decode_keys}
use polars_metal.Groupby.Decode.RoundTrip.{stored_columns, decode_keys-encode_keys}
use polars_metal.Groupby.Build.{cpu_hashmap_build}
use polars_metal.Groupby.Build.Grouping.{IsFirstSeen}
use polars_metal.Groupby.Build.Run.{cpu_hashmap_build-IsFirstSeen}
use polars_metal.Groupby.Parallel.{Schedule, chunk, join, pad}
use polars_metal.Groupby.Aggregate.{
  lt_i64, i64_max, i64_min, aggregate_sum_i64_cpu, aggregate_count_cpu, aggregate_min_i64_cpu,
  aggregate_max_i64_cpu, aggregate_len_cpu,
}
use polars_metal.Groupby.Aggregate.Members.{is_member, total}
use polars_metal.Groupby.Aggregate.Extremes.{IsExtreme}
use polars_metal.Groupby.Aggregate.MinMax.{
  aggregate_min_i64_cpu-IsExtreme, aggregate_max_i64_cpu-IsExtreme,
}
use polars_metal.Groupby.Aggregate.Totals.{
  aggregate_sum_i64_cpu-eq-total, aggregate_count_cpu-eq-total, aggregate_len_cpu-eq-total,
}

-- The values 7, null, 7 as i16, and the codes of "x", "y", "x".
abbrev amount : KeyColumn
amount = record {
  name = "amount";
  dtype = KeyDtype.i16;
  bytes = 249 ∷ 255 ∷ 0 ∷ 0 ∷ 249 ∷ 255 ∷ [];
  valid = 5 ∷ [];
  n_rows = 3;
  dict = none;
}

abbrev flag : KeyColumn
flag = record {
  name = "flag";
  dtype = KeyDtype.utf8;
  bytes = 0 ∷ 0 ∷ 0 ∷ 0 ∷ 1 ∷ 0 ∷ 0 ∷ 0 ∷ 0 ∷ 0 ∷ 0 ∷ 0 ∷ [];
  valid = 7 ∷ [];
  n_rows = 3;
  dict = some ("x" ∷ "y" ∷ []);
}

abbrev keys : List KeyColumn
keys = amount ∷ flag ∷ []

keys-HoldBytes : HoldBytes keys
keys-HoldBytes = omega arith

abbrev lanes : List ℕ
lanes = 131058 ∷ 262145 ∷ 131058 ∷ []

keys_encoded : encode_keys keys ≡ ok (lanes, schema_of amount (flag ∷ []))
unfolding encode_keys
keys_encoded = refl

keys_decoded :
    decode_keys lanes (schema_of amount (flag ∷ []))
    ≡ some (
        DecodedColumn.i16 (negsuc 6 ∷ pos 0 ∷ negsuc 6 ∷ []) (true ∷ false ∷ true ∷ [])
        ∷ DecodedColumn.utf8 ("x" ∷ "y" ∷ "x" ∷ []) (true ∷ true ∷ true ∷ [])
        ∷ [])
unfolding decode_keys
keys_decoded = refl

too_wide :
    encode_keys (
      record amount { dtype = KeyDtype.i64; n_rows = 0 }
      ∷ record flag { dtype = KeyDtype.f64; n_rows = 0 }
      ∷ [])
    ≡ err (KeyEncodeError.too_wide 130)
unfolding encode_keys
too_wide = refl

encode_keys-injective_example : (get_or lanes 0 0 ≡ get_or lanes 2 0) ↔ SameKey keys 0 2
encode_keys-injective_example =
    encode_keys-injective keys 0 2 keys-HoldBytes keys_encoded (omega arith) (omega arith)

decode_keys-encode_keys_example :
    decode_keys (map (λ r. get_or lanes r 0) (0 ∷ 1 ∷ [])) (schema_of amount (flag ∷ []))
    ≡ some (stored_columns keys (0 ∷ 1 ∷ []))
decode_keys-encode_keys_example =
    decode_keys-encode_keys keys (0 ∷ 1 ∷ []) keys-HoldBytes keys_encoded (omega arith)

lanes_built :
    cpu_hashmap_build lanes
    ≡ record { row_to_group = 0 ∷ 1 ∷ 0 ∷ []; first_row_per_group = 0 ∷ 1 ∷ []; n_groups = 2 }
unfolding cpu_hashmap_build
lanes_built = refl

cpu_hashmap_build-IsFirstSeen_example : IsFirstSeen lanes (cpu_hashmap_build lanes)
cpu_hashmap_build-IsFirstSeen_example = cpu_hashmap_build-IsFirstSeen lanes (omega arith)

-- Five rows in two groups, the fourth null; 2^64 - 3 is -3.
abbrev values : List ℕ
values = 4 ∷ 18446744073709551613 ∷ 9 ∷ 100 ∷ 1 ∷ []

abbrev valid : List ℕ
valid = 23 ∷ []

abbrev groups : List ℕ
groups = 0 ∷ 0 ∷ 1 ∷ 1 ∷ 0 ∷ []

abbrev split : Schedule
split = join (pad (chunk 2)) (join (chunk 1) (chunk 2))

sums : aggregate_sum_i64_cpu split valid groups 2 values ≡ 2 ∷ 9 ∷ []
unfolding aggregate_sum_i64_cpu
sums = refl

least :
    aggregate_min_i64_cpu split valid groups 3 values
    ≡ (18446744073709551613 ∷ 9 ∷ i64_max ∷ [], true ∷ true ∷ false ∷ [])
unfolding aggregate_min_i64_cpu
least = refl

values-words : All (λ v. v < 2 ^ 64) values
values-words = omega arith

aggregate_sum_i64_cpu-eq-total_example :
    get_or (aggregate_sum_i64_cpu split valid groups 2 values) 0 0
    ≡ total
        (is_member valid groups 0)
        (λ i. get_or values i 0)
        0
        (min (length values) (length groups))
      % 2 ^ 64
aggregate_sum_i64_cpu-eq-total_example =
    aggregate_sum_i64_cpu-eq-total split valid groups 2 values 0 refl (omega arith)

aggregate_count_cpu-eq-total_example :
    get_or (aggregate_count_cpu split valid groups 2) 1 0
    ≡ total (is_member valid groups 1) (λ _. 1) 0 (length groups)
aggregate_count_cpu-eq-total_example =
    aggregate_count_cpu-eq-total split valid groups 2 1 refl (omega arith)

aggregate_min_i64_cpu-IsExtreme_example :
    IsExtreme lt_i64
      (is_member valid groups 0)
      (λ i. get_or values i 0)
      5
      (get_or (aggregate_min_i64_cpu split valid groups 2 values).0 0 i64_max)
      (get_or (aggregate_min_i64_cpu split valid groups 2 values).1 0 false)
aggregate_min_i64_cpu-IsExtreme_example =
    aggregate_min_i64_cpu-IsExtreme split valid groups 2 values 0 values-words refl (omega arith)

aggregate_max_i64_cpu-IsExtreme_example :
    IsExtreme
      (λ b a. lt_i64 a b)
      (is_member valid groups 0)
      (λ i. get_or values i 0)
      5
      (get_or (aggregate_max_i64_cpu split valid groups 2 values).0 0 i64_min)
      (get_or (aggregate_max_i64_cpu split valid groups 2 values).1 0 false)
aggregate_max_i64_cpu-IsExtreme_example =
    aggregate_max_i64_cpu-IsExtreme split valid groups 2 values 0 values-words refl (omega arith)

aggregate_len_cpu-eq-total_example :
    get_or (aggregate_len_cpu split groups 2) 1 0
    ≡ total (λ i. get_or groups i 0 == 1) (λ _. 1) 0 (length groups)
aggregate_len_cpu-eq-total_example = aggregate_len_cpu-eq-total split groups 2 1 refl (omega arith)
