-- ===== src/Groupby/Build.antt =====
-- The build phase: each row's group number and each group's first row.
-- groupby.rs `cpu_hashmap_build`; groupby_build_partitioned/mod.rs `BuildOutput`.
pub mod Grouping
pub mod Steps
pub mod Run
use polars_metal.Base.{
  ℕ, zero, suc, ◌+◌, ◌-◌, ◌%◌, ◌^◌, Bool, true, false, Option, none, some, List, [], ◌∷◌, ◌++◌,
  Result, ok, err, ltb, ◌==◌, if◌then◌else◌, length, lookup, insert, nat_eq, take,
}
use polars_metal.Groupby.Keys.{KeyEncodeError}

pub record BuildOutput : Type 0 where
  pub row_to_group : List ℕ
  pub first_row_per_group : List ℕ
  pub n_groups : ℕ

-- The locals of the loop in `cpu_hashmap_build`.
pub record BuildState : Type 0 where
  pub group_for_key : List (ℕ × ℕ)
  pub next_gid : ℕ
  pub row_to_group : List ℕ
  pub first_row_per_group : List ℕ

-- `g.checked_add(1).unwrap_or(u32::MAX)`
abbrev pub next_or_max : ℕ → ℕ
next_or_max g = if ltb (g + 1) (2 ^ 32) then g + 1 else 2 ^ 32 - 1

-- One round of the loop: `entry(key).or_insert_with(...)`, then the row's group.
pub build_row : ℕ → ℕ → BuildState → BuildState
build_row row key st = elim (lookup key st.group_for_key) [
  | some gid ↦ record st { row_to_group = st.row_to_group ++ gid ∷ [] }
  | none ↦ record {
    group_for_key = insert key st.next_gid st.group_for_key;
    next_gid = next_or_max st.next_gid;
    row_to_group = st.row_to_group ++ st.next_gid ∷ [];
    first_row_per_group = st.first_row_per_group ++ (row % 2 ^ 32) ∷ [];
  }
]

pub build_rows : ℕ → List ℕ → BuildState → BuildState
build_rows row [] st = st
build_rows row (key ∷ keys) st = build_rows (row + 1) keys (build_row row key st)

abbrev pub start : BuildState
start = record { group_for_key = []; next_gid = 0; row_to_group = []; first_row_per_group = [] }

unfoldable pub cpu_hashmap_build : List ℕ → BuildOutput
unfolding build_rows build_row lookup insert
cpu_hashmap_build encoded =
    let st = build_rows 0 encoded start in
    record {
      row_to_group = st.row_to_group;
      first_row_per_group = st.first_row_per_group;
      n_groups = st.next_gid;
    }
