-- ===== src/Groupby/Partitioned.antt =====
-- groupby_build_partitioned/reference.rs: the partitioned build on the CPU. `none` is a panic, or
-- a probe that has seen every slot and would go on for ever.
pub mod Probe
pub mod Ends
pub mod Hashed
pub mod Loop
pub mod Capacity
pub mod Partitions
pub mod Pushes
pub mod Numbers
pub mod Assign
pub mod Ranges
pub mod Global
mod Tests
use polars_metal.Base.{
  ℕ, zero, suc, ◌+◌, ◌-◌, ◌*◌, ◌/◌, ◌%◌, ◌^◌, max, bit_and, bit_xor, Bool, true, false, ◌&&◌,
  Option, none, some, List, [], ◌∷◌, ◌++◌, ltb, leb, ◌==◌, if◌then◌else◌, length, get_elem?, get_or,
  set, take, drop, replicate, map, nat_eq,
}
use polars_metal.Groupby.Build.{BuildOutput}

-- In 64 bits; `key as u64` and `(key >> 64) as u64` are the halves of the lane.
unfoldable pub hash_u128 : ℕ → ℕ
hash_u128 key =
    let h : ℕ = 0x9E3779B97F4A7C15 in
    let h1 = bit_xor h (key % 2 ^ 64 * 0xBF58476D1CE4E5B9 % 2 ^ 64) in
    let h2 = bit_xor h1 (key / 2 ^ 64 % 2 ^ 64 * 0x94D049BB133111EB % 2 ^ 64) in
    let h3 = bit_xor h2 (h2 / 2 ^ 31) in h3 * 0x9E3779B97F4A7C15 % 2 ^ 64

-- `TGSM_SLOTS_PER_PARTITION.trailing_zeros()`, of 1024.
abbrev pub tgsm_log2 : ℕ
tgsm_log2 = 10

unfoldable pub partition_id : ℕ → ℕ → ℕ
unfolding hash_u128
partition_id key n_partitions = bit_and (hash_u128 key / 2 ^ tgsm_log2) (n_partitions - 1) % 2 ^ 32

-- `n.is_power_of_two()` in 32 bits.
pub is_power_of_two : ℕ → Bool
is_power_of_two n = ltb 0 n && bit_and n (n - 1) == 0

-- `n.next_power_of_two()`: the first of the next `fuel` doublings of `p` that reaches `n`.
pub double_until : ℕ → ℕ → ℕ → ℕ
double_until zero p n = p
double_until (suc fuel) p n = let more = double_until fuel (2 * p) n in if leb n p then p else more

abbrev pub next_power_of_two : ℕ → ℕ
next_power_of_two n = double_until 64 1 n

-- A slot of a table: a key with its number.
abbrev pub Slots : Type 0
Slots = List (Option (ℕ × ℕ))

-- Where a probe ends.
pub data Probed : Type 0 where
  found : ℕ → Probed
  empty : ℕ → Probed

-- The `loop` of a row, from slot `idx`, with fuel.
unfoldable pub probe : ℕ → Slots → ℕ → ℕ → ℕ → Option Probed
probe zero slots cap k idx = none
probe (suc fuel) slots cap k idx = elim (get_elem? slots idx) [
  | none ↦ none
  | some entry ↦ elim entry [
    | none ↦ some (Probed.empty idx)
    | some (existing, gid) ↦ elim (existing == k) [
      | true ↦ some (Probed.found gid)
      | false ↦ probe fuel slots cap k (bit_and (idx + 1) (cap - 1))
    ]
  ]
]

-- The locals of a partition's loop, with `row_local_group`.
pub record Table : Type 0 where
  pub slots : Slots
  pub table : List (ℕ × ℕ)
  pub local_next : ℕ
  pub row_local_group : List ℕ

abbrev pub place : ℕ → ℕ → Probed → Table → Table
place r k (Probed.found gid) st = record st { row_local_group = set st.row_local_group r gid }
place r k (Probed.empty idx) st = record {
  slots = set st.slots idx (some (k, st.local_next));
  table = st.table ++ (k, st.local_next) ∷ [];
  local_next = (st.local_next + 1) % 2 ^ 32;
  row_local_group = set st.row_local_group r st.local_next;
}

-- One row: `keys[r]`, its hash and its probe.
pub hash_row : List ℕ → ℕ → ℕ → Table → Option Table
unfolding hash_u128 probe
hash_row keys cap r st = elim (get_elem? keys r) [
  | none ↦ none
  | some k ↦ elim (probe cap st.slots cap k (bit_and (hash_u128 k) (cap - 1))) [
    | none ↦ none
    | some hit ↦ some (place r k hit st)
  ]
]

pub hash_rows : List ℕ → ℕ → List ℕ → Table → Option Table
unfolding hash_row
hash_rows keys cap [] st = some st
hash_rows keys cap (r ∷ rows) st = elim (hash_row keys cap r st) [
  | none ↦ none
  | some st' ↦ hash_rows keys cap rows st'
]

abbrev pub capacity : List ℕ → ℕ
capacity rows = max (next_power_of_two (length rows * 2)) 8

abbrev pub no_entries : ℕ → List ℕ → Table
no_entries cap row_local_group = record {
  slots = replicate cap none;
  table = [];
  local_next = 0;
  row_local_group = row_local_group;
}

-- The loop over the partitions: their tables, and every row's number in its partition.
pub hash_partitions : List ℕ → List (List ℕ) → List ℕ → Option (List (List (ℕ × ℕ)) × List ℕ)
unfolding hash_rows double_until
hash_partitions keys [] row_local_group = some ([], row_local_group)
hash_partitions keys (rows ∷ more) row_local_group =
    elim (hash_rows keys (capacity rows) rows (no_entries (capacity rows) row_local_group)) [
      | none ↦ none
      | some st ↦ elim (hash_partitions keys more st.row_local_group) [
        | none ↦ none
        | some (tables, local) ↦ some (st.table ∷ tables, local)
      ]
    ]

-- `rows_by_partition[part].push(r)`
pub push_rows : ℕ → ℕ → List ℕ → List (List ℕ) → List (List ℕ)
unfolding partition_id
push_rows n_partitions r [] rows_by_partition = rows_by_partition
push_rows n_partitions r (k ∷ keys) rows_by_partition =
    let part = partition_id k n_partitions in
    push_rows n_partitions (r + 1) keys
      (set rows_by_partition part (get_or rows_by_partition part [] ++ (r % 2 ^ 32) ∷ []))

-- `partition_offset`: the sums of the tables' lengths in 32 bits, from `acc` on.
pub offsets : ℕ → List ℕ → List ℕ
offsets acc [] = acc ∷ []
offsets acc (n ∷ sizes) = acc ∷ offsets ((acc + n % 2 ^ 32) % 2 ^ 32) sizes

-- The group of a row.
abbrev pub global_group : ℕ → List ℕ → List ℕ → ℕ → ℕ → ℕ
global_group n_partitions partition_offset row_local_group r k =
    (get_or partition_offset (partition_id k n_partitions) 0 + get_or row_local_group r 0) % 2 ^ 32

-- The last loop, over the rows from `r` on.
pub assign_rows : (ℕ → ℕ → ℕ) → ℕ → List ℕ → List ℕ → List ℕ → List ℕ × List ℕ
assign_rows global r [] row_to_group first_row_per_group = (row_to_group, first_row_per_group)
assign_rows global r (k ∷ keys) row_to_group first_row_per_group =
    let g = global r k in
    assign_rows global (r + 1) keys (set row_to_group r g) (
      if get_or first_row_per_group g 0 == 2 ^ 32 - 1
      then set first_row_per_group g (r % 2 ^ 32)
      else first_row_per_group)

-- Whether the indices of the last loop are in range, from the row `r` on.
unfoldable pub indices_fit : ℕ → List ℕ → List ℕ → ℕ → ℕ → List ℕ → Bool
unfolding partition_id
indices_fit n_partitions partition_offset row_local_group n_groups r [] = true
indices_fit n_partitions partition_offset row_local_group n_groups r (k ∷ keys) =
    ltb (partition_id k n_partitions) (length partition_offset)
    && ltb r (length row_local_group)
    && ltb (global_group n_partitions partition_offset row_local_group r k) n_groups
    && indices_fit n_partitions partition_offset row_local_group n_groups (r + 1) keys

-- What follows the loop over the partitions; an index out of range is a panic.
abbrev pub gather_groups : List ℕ → ℕ → List (List (ℕ × ℕ)) × List ℕ → Option BuildOutput
gather_groups keys n_partitions (tables, row_local_group) =
    let partition_offset = offsets 0 (map length tables) in
    let n_groups = get_or partition_offset n_partitions 0 in
    let out =
      assign_rows (global_group n_partitions partition_offset row_local_group) 0 keys
        (replicate (length keys) 0) (replicate n_groups (2 ^ 32 - 1)) in
    if ltb n_partitions (length partition_offset)
      && indices_fit n_partitions partition_offset row_local_group n_groups 0 keys
    then some (record { row_to_group = out.0; first_row_per_group = out.1; n_groups = n_groups })
    else none

unfoldable pub cpu_partitioned_hash : List ℕ → ℕ → Option BuildOutput
unfolding hash_partitions push_rows is_power_of_two offsets assign_rows partition_id indices_fit
cpu_partitioned_hash [] n_partitions =
    some (record { row_to_group = []; first_row_per_group = []; n_groups = 0 })
cpu_partitioned_hash (k ∷ keys) n_partitions =
    let blank = replicate n_partitions [] in
    let rows_by_partition = push_rows n_partitions 0 (k ∷ keys) blank in
    elim (is_power_of_two n_partitions) [
      | false ↦ none
      | true ↦
          elim (hash_partitions (k ∷ keys) rows_by_partition (replicate (length (k ∷ keys)) 0)) [
            | none ↦ none
            | some hashed ↦ gather_groups (k ∷ keys) n_partitions hashed
          ]
    ]
