-- ===== src/Groupby/Build/Run.antt =====
-- The finished loop of `cpu_hashmap_build`, read as a grouping.
use native.Mathlib.Decide.{dec_le}
use polars_metal.Base.{
  ℕ, ◌^◌, ◌<◌, ◌≡◌, refl, ap, sym, ◌∙◌, some, List, [], arith, length, get_elem?, nat_eq,
  number_iff, Codes-length, Codes-at, get_elem?-lt, get_elem?-some,
}
use polars_metal.Groupby.Build.{BuildOutput, BuildState, start, cpu_hashmap_build}
use polars_metal.Groupby.Build.Grouping.{IsGrouping, IsFirstSeen}
use polars_metal.Groupby.Build.Steps.{IsRun, start-IsRun, build_rows-IsRun}

-- A finished run, read as a grouping.
module _ {keys table : List ℕ} {st : BuildState} (run : IsRun keys keys st table) where
  abbrev output : BuildOutput
  output = record {
    row_to_group = st.row_to_group;
    first_row_per_group = st.first_row_per_group;
    n_groups = st.next_gid;
  }

  -- The key of a row is the one that its group number stands for.
  numbered_row :
      (i g : ℕ) {k : ℕ}
      → get_elem? st.row_to_group i ≡ some g
      → get_elem? keys i ≡ some k
      → get_elem? table g ≡ some k
  numbered_row i g p q =
      let (c, coded, numbered) = Codes-at table keys st.row_to_group i run.codes q in
      cc (coded, p, numbered)

  coded_row :
      (i g : ℕ) → get_elem? st.row_to_group i ≡ some g → (k : ℕ) × (get_elem? keys i ≡ some k)
  coded_row i g p = get_elem?-some keys i (
      omega (
        arith,
        get_elem?-lt {0} st.row_to_group i p,
        Codes-length table keys st.row_to_group run.codes,
      ))

  output-IsGrouping : IsGrouping keys output
  output-IsGrouping = record {
    assigned = Codes-length table keys st.row_to_group run.codes;
    in_range = λ i g p.
        let (k, q) = coded_row i g p in rw run.next (get_elem?-lt table g (numbered_row i g p q));
    same_group = λ i j a b k l p q r s.
        number_iff run.numbering (numbered_row i a p r) (numbered_row j b q s);
    one_each = run.firsts_length ∙ sym run.next;
    stands_for = λ g r p.
        let first = run.firsts g r p in
        let (c, coded, numbered) = Codes-at table keys st.row_to_group r run.codes first.holds in
        let same : c ≡ g = (number_iff run.numbering numbered first.numbered).1 refl in
        rw (← same) coded;
  }

  output-IsFirstSeen : IsFirstSeen keys output
  output-IsFirstSeen = record {
    grouping = output-IsGrouping;
    earliest = λ i g r p q.
        let first = run.firsts g r q in
        let (k, held) = coded_row i g p in
        let same : k ≡ first.key = cc (numbered_row i g p held, first.numbered) in
        elim (dec_le r i) [
          | yes le ↦ le
          | no gt ↦ absurd (first.earlier i (omega arith) (held ∙ ap some same))
        ];
  }

-- With fewer than 2^32 rows, `cpu_hashmap_build` puts two rows in one group exactly when their
-- keys are equal, numbers the groups below `n_groups`, and notes for each group its first row.
pub cpu_hashmap_build-IsFirstSeen :
    (keys : List ℕ) → length keys < 2 ^ 32 → IsFirstSeen keys (cpu_hashmap_build keys)
unfolding cpu_hashmap_build
cpu_hashmap_build-IsFirstSeen keys small =
    let (table, run) = build_rows-IsRun keys [] keys [] start refl small (start-IsRun keys) in
    output-IsFirstSeen run
