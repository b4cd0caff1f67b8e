-- ===== src/Groupby/Partitioned/Loop.antt =====
-- The loop over the rows of a partition, and what it leaves.
use polars_metal.Base.{
  ℕ, ◌+◌, ◌^◌, ◌≤◌, ◌<◌, ◌≡◌, ◌≢◌, refl, ap, sym, ◌∙◌, inl, inr, none, some, List, [], ◌∷◌, ◌++◌,
  In, length, length-append, length-set, get_elem?, get_elem?-push, get_elem?-append_left,
  get_elem?-append_self, get_or, get_or-set, get_or-set_ne, set, nat_beq, nat_beq_iff, nat_eq,
  lookup, insert, Bool-cases, Option-cases, arith,
}
use polars_metal.Groupby.Partitioned.{Probed, probe, Table, place, hash_row, no_entries}
use polars_metal.Groupby.Partitioned.Hashed.{
  home, IsTable, blank-IsTable, probe-absent, enter-IsTable,
}

-- After the rows `done`, on a table of `cap` slots.
pub record IsLocal (keys : List ℕ) (cap : ℕ) (before done : List ℕ) (m : List (ℕ × ℕ))
    (names : List ℕ) (st : Table) : Type 0 where
  pub table : IsTable cap m names st.slots
  pub next : st.local_next ≡ length names
  pub entries : length st.table ≡ length names
  pub few : length names ≤ length done
  pub same_length : length st.row_local_group ≡ length before
  pub coded :
      (r k : ℕ)
      → In r done
      → get_elem? keys r ≡ some k
      → get_elem? names (get_or st.row_local_group r 0) ≡ some k
  pub kept : (r : ℕ) → (In r done → ⊥) → get_or st.row_local_group r 0 ≡ get_or before r 0
  pub origin :
      (g k : ℕ) → get_elem? names g ≡ some k → (r : ℕ) × In r done × (get_elem? keys r ≡ some k)

pub blank-IsLocal :
    (keys : List ℕ) (cap : ℕ) (before : List ℕ)
    → IsLocal keys cap before [] [] [] (no_entries cap before)
blank-IsLocal keys cap before = record {
  table = blank-IsTable cap;
  next = refl;
  entries = refl;
  few = omega arith;
  same_length = refl;
  coded = λ r k at h. absurd at;
  kept = λ r h. refl;
  origin = λ g k h. cc;
}

module _ (keys : List ℕ) (c cap : ℕ) (power : cap ≡ 2 ^ c) (before done : List ℕ) (m : List (ℕ × ℕ))
    (names : List ℕ) (st : Table) (run : IsLocal keys cap before done m names st) (r k : ℕ)
    (at : get_elem? keys r ≡ some k) (inside : r < length before) where
  -- A row is written, and the others keep their numbers.
  written : (g : ℕ) → get_or (set st.row_local_group r g) r 0 ≡ g
  written g = ground (
    arith,
    get_or-set st.row_local_group r r g 0 (omega (arith, run.same_length)),
    nat_beq_iff r r,
  )

  unwritten :
      (g other : ℕ)
      → r ≢ other
      → get_or (set st.row_local_group r g) other 0 ≡ get_or st.row_local_group other 0
  unwritten g other far = get_or-set_ne st.row_local_group r other g 0 far

  found-IsLocal :
      (g : ℕ)
      → lookup k m ≡ some g
      → IsLocal keys cap before (r ∷ done) m names (place r k (Probed.found g) st)
  found-IsLocal g known = record {
    table = run.table;
    next = run.next;
    entries = run.entries;
    few = omega (arith, run.few);
    same_length = length-set st.row_local_group r g ∙ run.same_length;
    coded = λ other l isin held. elim (Bool-cases (nat_beq r other)) [
      | inl same ↦
          let e : r ≡ other = (nat_beq_iff r other).0 same in
          let key : some k ≡ some l = sym at ∙ ap (get_elem? keys) e ∙ held in
          rw (← e, written g) (run.table.numbering.to_table k g known ∙ key)
      | inr differs ↦
          let far : r ≢ other = λ e. ground (arith, nat_beq_iff r other) in
          rw (unwritten g other far)
            (run.coded other l (elim isin [ inl e ↦ absurd (far e) | inr later ↦ later ]) held)
    ];
    kept = λ other h. unwritten g other (λ e. h (inl e)) ∙ run.kept other (λ i. h (inr i));
    origin = λ g' l h. let (row, isin, held) = run.origin g' l h in (row, inr isin, held);
  }

  entered-IsLocal :
      (i : ℕ)
      → length names + 1 < 2 ^ 32
      → lookup k m ≡ none
      → probe cap st.slots cap k (home cap k) ≡ some (Probed.empty i)
      → get_elem? st.slots i ≡ some none
      → IsLocal keys cap before
          (r ∷ done)
          (insert k (length names) m)
          (names ++ k ∷ [])
          (place r k (Probed.empty i) st)
  entered-IsLocal i room fresh ended free = record {
    table = rw run.next (enter-IsTable c cap power k i run.table fresh ended free);
    next = omega (arith, room, run.next, length-append {0} names (k ∷ []));
    entries = omega (
      arith,
      run.entries,
      length-append {0} st.table ((k, st.local_next) ∷ []),
      length-append {0} names (k ∷ []),
    );
    few = omega (arith, run.few, length-append {0} names (k ∷ []));
    same_length = length-set st.row_local_group r st.local_next ∙ run.same_length;
    coded = λ other l isin held. elim (Bool-cases (nat_beq r other)) [
      | inl same ↦
          let e : r ≡ other = (nat_beq_iff r other).0 same in
          let key : some k ≡ some l = sym at ∙ ap (get_elem? keys) e ∙ held in
          rw (← e, written st.local_next, run.next) (get_elem?-append_self names k [] ∙ key)
      | inr differs ↦
          let far : r ≢ other = λ e. ground (arith, nat_beq_iff r other) in
          rw (unwritten st.local_next other far) (
            get_elem?-append_left names (k ∷ []) (get_or st.row_local_group other 0)
              (run.coded other l (elim isin [ inl e ↦ absurd (far e) | inr later ↦ later ]) held))
    ];
    kept = λ other h.
        unwritten st.local_next other (λ e. h (inl e)) ∙ run.kept other (λ i'. h (inr i'));
    origin = λ g l h. elim (Option-cases (get_elem? names g)) [
      | inl beyond ↦ (r, inl refl, at ∙ newest g l h beyond)
      | inr (l', old) ↦
          let (row, isin, held) = run.origin g l' old in
          let same : some l' ≡ some l = sym (get_elem?-append_left names (k ∷ []) g old) ∙ h in
          (row, inr isin, held ∙ same)
    ];
  }
    where
      newest :
          (g l : ℕ)
          → get_elem? (names ++ k ∷ []) g ≡ some l
          → get_elem? names g ≡ none
          → some k ≡ some l
      newest g l h beyond = ground (arith, get_elem?-push names k g)

  -- One row.
  pub record Advanced : Type 0 where
    pub m' : List (ℕ × ℕ)
    pub names' : List ℕ
    pub st' : Table
    pub runs : hash_row keys cap r st ≡ some st'
    pub local : IsLocal keys cap before (r ∷ done) m' names' st'

  pub hash_row-Advanced : length names + 1 < 2 ^ 32 → length names < cap → Advanced
  unfolding hash_row
  hash_row-Advanced room few = elim (Option-cases (lookup k m)) [
    | inl fresh ↦
        let (i, ended, free) = probe-absent c cap power k run.table few fresh in
        record {
          m' = insert k (length names) m;
          names' = names ++ k ∷ [];
          st' = place r k (Probed.empty i) st;
          runs = rw (at, ended, hash_row) refl;
          local = entered-IsLocal i room fresh ended free;
        }
    | inr (g, known) ↦ record {
      m' = m;
      names' = names;
      st' = place r k (Probed.found g) st;
      runs = rw (at, run.table.known k g known, hash_row) refl;
      local = found-IsLocal g known;
    }
  ]
