-- ===== src/Groupby/Sorted.antt =====
-- groupby_build_sort/reference.rs: groups as the runs of equal keys among the sorted rows.
-- `sort_unstable_by_key` is an argument.
pub mod Runs
pub mod Permuted
pub mod Grouped
mod Tests
use polars_metal.Base.{
  ℕ, zero, suc, ◌+◌, ◌%◌, ◌^◌, List, [], ◌∷◌, ◌++◌, ◌==◌, if◌then◌else◌, length, set, replicate,
  nat_eq,
}
use polars_metal.Groupby.Build.{BuildOutput}

-- A key and its row.
abbrev pub Pair : Type 0
Pair = ℕ × ℕ

-- `keys.iter().enumerate().map(|(i, &k)| (k, i as u32))`
abbrev pub enumerate : ℕ → List ℕ → List Pair
enumerate i [] = []
enumerate i (k ∷ keys) = (k, i % 2 ^ 32) ∷ enumerate (suc i) keys

pub record Segments : Type 0 where
  pub row_to_group : List ℕ
  pub first_row_per_group : List ℕ
  pub cur_group : ℕ

-- One round of the loop, with the key of the pair before.
pub segment_row : ℕ → ℕ → ℕ → Segments → Segments
segment_row prev k r st =
    if k == prev then record st { row_to_group = set st.row_to_group r st.cur_group } else record {
      row_to_group = set st.row_to_group r ((st.cur_group + 1) % 2 ^ 32);
      first_row_per_group = st.first_row_per_group ++ r ∷ [];
      cur_group = (st.cur_group + 1) % 2 ^ 32;
    }

pub segment_rows : ℕ → List Pair → Segments → Segments
segment_rows prev [] st = st
segment_rows prev ((k, r) ∷ pairs) st = segment_rows k pairs (segment_row prev k r st)

-- From the first pair on.
pub segment : ℕ → List Pair → BuildOutput
unfolding segment_rows segment_row
segment n_rows [] = record { row_to_group = []; first_row_per_group = []; n_groups = 0 }
segment n_rows ((k, r) ∷ pairs) =
    let st = segment_rows k pairs (record {
      row_to_group = set (replicate n_rows 0) r 0;
      first_row_per_group = r ∷ [];
      cur_group = 0;
    }) in
    record {
      row_to_group = st.row_to_group;
      first_row_per_group = st.first_row_per_group;
      n_groups = (st.cur_group + 1) % 2 ^ 32;
    }

unfoldable pub cpu_sort_segment : (List Pair → List Pair) → List ℕ → BuildOutput
unfolding segment
cpu_sort_segment sort_unstable_by_key [] = record {
  row_to_group = [];
  first_row_per_group = [];
  n_groups = 0;
}
cpu_sort_segment sort_unstable_by_key (k ∷ keys) =
    segment (length (k ∷ keys)) (sort_unstable_by_key (enumerate 0 (k ∷ keys)))
