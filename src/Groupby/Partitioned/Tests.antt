-- ===== src/Groupby/Partitioned/Tests.antt =====
-- The partitioned build on concrete keys.
use polars_metal.Base.{ℕ, ◌≡◌, refl, arith, some, List, [], ◌∷◌, map}
use polars_metal.Groupby.Build.{BuildOutput}
use polars_metal.Groupby.Build.Grouping.{IsFirstSeen}
use polars_metal.Groupby.Partitioned.{partition_id, cpu_partitioned_hash}
use polars_metal.Groupby.Partitioned.Global.{cpu_partitioned_hash-IsFirstSeen}

abbrev some_keys : List ℕ
some_keys = 5007 ∷ 90011 ∷ 5007 ∷ 11 ∷ 90011 ∷ 123456789 ∷ 18446744073709551616 ∷ []

test_parts : map (λ k. partition_id k 4) some_keys ≡ 3 ∷ 3 ∷ 3 ∷ 3 ∷ 3 ∷ 1 ∷ 3 ∷ []
unfolding partition_id
test_parts = refl

test_hash :
    cpu_partitioned_hash some_keys 4
    ≡ some (record {
      row_to_group = 1 ∷ 2 ∷ 1 ∷ 3 ∷ 2 ∷ 0 ∷ 4 ∷ [];
      first_row_per_group = 5 ∷ 0 ∷ 1 ∷ 3 ∷ 6 ∷ [];
      n_groups = 5;
    })
unfolding cpu_partitioned_hash
test_hash = refl

cpu_partitioned_hash-IsFirstSeen_example :
    (out : BuildOutput) × (cpu_partitioned_hash some_keys 4 ≡ some out) × IsFirstSeen some_keys out
cpu_partitioned_hash-IsFirstSeen_example =
    cpu_partitioned_hash-IsFirstSeen some_keys 2 4 refl (omega arith) (omega arith)
