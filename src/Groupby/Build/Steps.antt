-- ===== src/Groupby/Build/Steps.antt =====
-- The invariant of the loop in `cpu_hashmap_build`.
use mathlib.Core.List.{append_assoc, append-nil}
use native.Mathlib.Nat.{mod-eq_of_lt}
use polars_metal.Base.{
  ℕ, ◌+◌, ◌^◌, ◌≤◌, ◌<◌, ◌≡◌, ◌≢◌, refl, ap, sym, ◌∙◌, none, some, List, [], ◌∷◌, ◌++◌, arith,
  length, get_elem?, lookup, nat_eq, IsNumbering, IsNumbering-nil, IsNumbering-insert, Codes,
  Codes-append, Codes-push, Codes-at, get_elem?-append_left, get_elem?-append_self, get_elem?-push,
  length-append, Option-cases, Bool-cases, inl, inr, nat_beq, get_elem?-append_lt, subst,
}
use polars_metal.Groupby.Build.{BuildState, build_row, build_rows, start}

-- The row noted for each number is the first that holds the number's key.
pub record IsFirstRow (all table : List ℕ) (g r : ℕ) : Type 0 where
  pub key : ℕ
  pub numbered : get_elem? table g ≡ some key
  pub holds : get_elem? all r ≡ some key
  pub earlier : (i : ℕ) → i < r → get_elem? all i ≢ some key

-- After the rows `done` of `all`.
pub record IsRun (all done : List ℕ) (st : BuildState) (table : List ℕ) : Type 0 where
  pub numbering : IsNumbering st.group_for_key table
  pub next : st.next_gid ≡ length table
  pub few : length table ≤ length done
  pub codes : Codes table done st.row_to_group
  pub firsts_length : length st.first_row_per_group ≡ length table
  pub firsts : (g r : ℕ) → get_elem? st.first_row_per_group g ≡ some r → IsFirstRow all table g r

IsFirstRow-append :
    {all table : List ℕ} {g r : ℕ} (more : List ℕ)
    → IsFirstRow all table g r
    → IsFirstRow all (table ++ more) g r
IsFirstRow-append {table = table} {g = g} more h = record {
  key = h.key;
  numbered = get_elem?-append_left table more g h.numbered;
  holds = h.holds;
  earlier = h.earlier;
}

pub start-IsRun : (all : List ℕ) → IsRun all [] start []
start-IsRun all = record {
  numbering = IsNumbering-nil;
  next = refl;
  few = omega arith;
  codes = tt;
  firsts_length = refl;
  firsts = λ g r h. cc;
}

module _ {all done table : List ℕ} {st : BuildState} (k : ℕ) (rest : List ℕ)
    (run : IsRun all done st table) where
  known_row :
      {gid : ℕ}
      → lookup k st.group_for_key ≡ some gid
      → IsRun all (done ++ k ∷ []) (build_row (length done) k st) table
  unfolding build_row
  known_row {gid} e =
      rw (e, build_row)
        (record {
          numbering = run.numbering;
          next = run.next;
          few = omega (arith, run.few, length-append {0} done (k ∷ []));
          codes =
              Codes-push table done st.row_to_group k gid run.codes
                (run.numbering.to_table k gid e);
          firsts_length = run.firsts_length;
          firsts = run.firsts;
        })

  module _ (whole : all ≡ done ++ k ∷ rest) (small : length all < 2 ^ 32)
      (fresh : lookup k st.group_for_key ≡ none) where
    new_key_absent : (i : ℕ) → i < length done → get_elem? all i ≢ some k
    new_key_absent i below at =
        let inside : get_elem? done i ≡ some k =
          sym (get_elem?-append_lt done (k ∷ rest) i below)
          ∙ ap (λ l. get_elem? l i) (sym whole)
          ∙ at in
        let (c, coded, numbered) = Codes-at table done st.row_to_group i run.codes inside in
        cc (run.numbering.of_table k c numbered, fresh)

    new_first :
        (g r : ℕ)
        → get_elem? (st.first_row_per_group ++ length done ∷ []) g ≡ some r
        → IsFirstRow all (table ++ k ∷ []) g r
    new_first g r h = elim (Bool-cases (nat_beq g (length st.first_row_per_group))) [
      | inl e ↦
          let here : get_elem? (st.first_row_per_group ++ length done ∷ []) g ≡ some (length done) =
            get_elem?-push st.first_row_per_group (length done) g ∙ rw e in
          let at : length done ≡ r = cc (here, h) in
          let number : length table ≡ g = ground (arith, run.firsts_length) in
          rw (← at) (record {
            key = k;
            numbered = rw (← number) (get_elem?-append_self table k []);
            holds = ap (λ l. get_elem? l (length done)) whole ∙ get_elem?-append_self done k rest;
            earlier = new_key_absent;
          })
      | inr e ↦
          let old : get_elem? st.first_row_per_group g ≡ some r =
            sym (get_elem?-push st.first_row_per_group (length done) g ∙ rw e) ∙ h in
          IsFirstRow-append (k ∷ []) (run.firsts g r old)
    ]

    new_row : IsRun all (done ++ k ∷ []) (build_row (length done) k st) (table ++ k ∷ [])
    unfolding build_row
    new_row =
        let room : length done + 1 < 2 ^ 32 =
          omega (arith, small, ap length whole, length-append {0} done (k ∷ rest)) in
        let inside : length done < 2 ^ 32 = omega arith in
        rw (fresh, mod-eq_of_lt inside, build_row)
          (record {
            numbering = rw run.next (IsNumbering-insert k run.numbering fresh);
            next = ground (arith, room, run.next, run.few, length-append table (k ∷ []));
            few =
                omega (
                  arith,
                  run.few,
                  length-append {0} done (k ∷ []),
                  length-append {0} table (k ∷ []),
                );
            codes =
                Codes-push (table ++ k ∷ []) done st.row_to_group k st.next_gid
                  (Codes-append table (k ∷ []) done st.row_to_group run.codes)
                  (rw run.next (get_elem?-append_self table k []));
            firsts_length = omega (
              arith,
              run.firsts_length,
              length-append {0} st.first_row_per_group (length done ∷ []),
              length-append {0} table (k ∷ []),
            );
            firsts = new_first;
          })

-- The loop, from any reached state.
pub build_rows-IsRun :
    (all done rest table : List ℕ) (st : BuildState)
    → all ≡ done ++ rest
    → length all < 2 ^ 32
    → IsRun all done st table
    → (full : List ℕ) × IsRun all all (build_rows (length done) rest st) full
unfolding build_rows
build_rows-IsRun all done [] table st whole small run =
    let e : done ≡ all = sym (whole ∙ append-nil done) in
    (table, subst (λ d. IsRun all d st table) e run)
build_rows-IsRun all done (k ∷ rest) table st whole small run =
    let whole' : all ≡ (done ++ k ∷ []) ++ rest = whole ∙ sym (append_assoc done (k ∷ []) rest) in
    let count : length (done ++ k ∷ []) ≡ length done + 1 = length-append done (k ∷ []) in
    elim (Option-cases (lookup k st.group_for_key)) [
      | inl fresh ↦ rw count at (
          build_rows-IsRun all (done ++ k ∷ []) rest (table ++ k ∷ [])
            (build_row (length done) k st) whole' small (new_row k rest run whole small fresh))
      | inr (gid, e) ↦ rw count at (
          build_rows-IsRun all (done ++ k ∷ []) rest table (build_row (length done) k st) whole'
            small (known_row k rest run e))
    ]
