-- ===== src/Groupby/Sorted/Runs.antt =====
-- The invariant of the loop over the sorted pairs.
use mathlib.Core.List.{append-nil}
use native.Mathlib.Nat.{mod-eq_of_lt}
use polars_metal.Base.{
  get_elem?-set, ℕ, suc, ◌+◌, ◌%◌, ◌^◌, ◌≤◌, ◌<◌, ◌≡◌, refl, ap, sym, ◌∙◌, true, false, some, List,
  [], ◌∷◌, ◌++◌, ◌==◌, length, set, get_elem?, nat_eq, nat_beq, nat_beq_iff, arith, All, length-set,
  length-append, get_elem?-push, get_elem?-append_left, get_elem?-append_self, get_elem?-lt,
  Bool-cases, inl, inr,
}
use polars_metal.Groupby.Sorted.{Pair, Segments, segment_row}

-- Ascending keys, from `prev` on.
abbrev pub Ascending : ℕ → List Pair → Type 0
Ascending prev [] = Unit
Ascending prev (p ∷ pairs) = (prev ≤ p.0) × Ascending p.0 pairs

-- A pair that has been written: its row's group stands for its key.
pub record IsCoded (table row_to_group : List ℕ) (p : Pair) : Type 0 where
  pub group : ℕ
  pub written : get_elem? row_to_group p.1 ≡ some group
  pub stands : get_elem? table group ≡ some p.0

-- The row noted for a group holds the group's key.
pub record IsFirst (keys table : List ℕ) (g r : ℕ) : Type 0 where
  pub key : ℕ
  pub stands : get_elem? table g ≡ some key
  pub holds : get_elem? keys r ≡ some key

pub record IsRun (keys table : List ℕ) (prev : ℕ) (done : List Pair) (st : Segments) : Type 0 where
  pub rows : length st.row_to_group ≡ length keys
  pub groups : length table ≡ suc st.cur_group
  pub firsts_length : length st.first_row_per_group ≡ suc st.cur_group
  pub last : get_elem? table st.cur_group ≡ some prev
  pub upto : (g k : ℕ) → get_elem? table g ≡ some k → k ≤ prev
  pub distinct : (a b k : ℕ) → get_elem? table a ≡ some k → get_elem? table b ≡ some k → a ≡ b
  pub coded : All (IsCoded table st.row_to_group) done
  pub held : All (λ p. get_elem? keys p.1 ≡ some p.0) done
  pub firsts : (g r : ℕ) → get_elem? st.first_row_per_group g ≡ some r → IsFirst keys table g r
  pub few : suc st.cur_group ≤ length done

-- A write at a row that holds the group's key leaves every written pair right.
IsCoded-set :
    (keys table more rtg : List ℕ) (k r g : ℕ) (done : List Pair)
    → r < length rtg
    → get_elem? (table ++ more) g ≡ some k
    → get_elem? keys r ≡ some k
    → All (λ p. get_elem? keys p.1 ≡ some p.0) done
    → All (IsCoded table rtg) done
    → All (IsCoded (table ++ more) (set rtg r g)) done
IsCoded-set keys table more rtg k r g [] inside stands holds held coded = tt
IsCoded-set keys table more rtg k r g (p ∷ done) inside stands holds held coded = (
  elim (Bool-cases (nat_beq r p.1)) [
    | inl same ↦
        let at : r ≡ p.1 = (nat_beq_iff r p.1).0 same in
        record {
          group = g;
          written = get_elem?-set rtg r p.1 g inside ∙ rw same refl;
          stands = stands ∙ sym holds ∙ ap (get_elem? keys) at ∙ held.0;
        }
    | inr other ↦ record {
      group = coded.0.group;
      written = get_elem?-set rtg r p.1 g inside ∙ rw other coded.0.written;
      stands = get_elem?-append_left table more coded.0.group coded.0.stands;
    }
  ],
  IsCoded-set keys table more rtg k r g done inside stands holds held.1 coded.1,
)

module _ {keys table : List ℕ} {prev : ℕ} {done : List Pair} {st : Segments} (k r : ℕ)
    (run : IsRun keys table prev done st) (holds : get_elem? keys r ≡ some k) where
  inside : r < length st.row_to_group
  inside = omega (arith, run.rows, get_elem?-lt keys r holds)

  pub same_key : k ≡ prev → IsRun keys table k ((k, r) ∷ done) (segment_row prev k r st)
  unfolding segment_row
  same_key e =
      let test : (k == prev) ≡ true = (nat_beq_iff k prev).1 e in
      let last : get_elem? table st.cur_group ≡ some k = run.last ∙ ap some (sym e) in
      let grown = append-nil table in
      rw (test, segment_row)
        (record {
          rows = length-set st.row_to_group r st.cur_group ∙ run.rows;
          groups = run.groups;
          firsts_length = run.firsts_length;
          last = last;
          upto = λ g j p. omega (arith, run.upto g j p);
          distinct = run.distinct;
          coded = (
            record {
              group = st.cur_group;
              written = get_elem?-set st.row_to_group r r st.cur_group inside ∙ ground arith;
              stands = last;
            },
            rw grown at (
                IsCoded-set keys table [] st.row_to_group k r st.cur_group done inside
                  (rw grown last) holds run.held run.coded),
          );
          held = (holds, run.held);
          firsts = run.firsts;
          few = omega (arith, run.few);
        })

  module _ (above : prev < k) (room : suc (length done) < 2 ^ 32) where
    grown_distinct :
        (a b j : ℕ)
        → get_elem? (table ++ k ∷ []) a ≡ some j
        → get_elem? (table ++ k ∷ []) b ≡ some j
        → a ≡ b
    grown_distinct a b j p q = ground (
      arith,
      get_elem?-push table k a,
      get_elem?-push table k b,
      run.upto a j,
      run.upto b j,
      run.distinct a b j,
      above,
    )

    grown_upto : (g j : ℕ) → get_elem? (table ++ k ∷ []) g ≡ some j → j ≤ k
    grown_upto g j p = ground (arith, get_elem?-push table k g, run.upto g j, above)

    grown_firsts :
        (g q : ℕ)
        → get_elem? (st.first_row_per_group ++ r ∷ []) g ≡ some q
        → IsFirst keys (table ++ k ∷ []) g q
    grown_firsts g q p = elim (Bool-cases (nat_beq g (length st.first_row_per_group))) [
      | inl new ↦
          let here : q ≡ r = ground (arith, get_elem?-push st.first_row_per_group r g, p, new) in
          record {
            key = k;
            stands = ground (arith, get_elem?-push table k g, new, run.groups, run.firsts_length);
            holds = rw here holds;
          }
      | inr old ↦
          let first =
            run.firsts g q (sym (get_elem?-push st.first_row_per_group r g ∙ rw old refl) ∙ p) in
          record {
            key = first.key;
            stands = get_elem?-append_left table (k ∷ []) g first.stands;
            holds = first.holds;
          }
    ]

    pub new_key : IsRun keys (table ++ k ∷ []) k ((k, r) ∷ done) (segment_row prev k r st)
    unfolding segment_row
    new_key =
        let test : (k == prev) ≡ false = ground (arith, above) in
        let small : st.cur_group + 1 < 2 ^ 32 = omega (arith, run.few) in
        let next : (st.cur_group + 1) % 2 ^ 32 ≡ suc st.cur_group =
          mod-eq_of_lt small ∙ omega arith in
        let last : get_elem? (table ++ k ∷ []) (suc st.cur_group) ≡ some k =
          ap (get_elem? (table ++ k ∷ [])) (sym run.groups) ∙ get_elem?-append_self table k [] in
        rw (test, next, segment_row)
          (record {
            rows = length-set st.row_to_group r (suc st.cur_group) ∙ run.rows;
            groups = omega (arith, run.groups, length-append {0} table (k ∷ []));
            firsts_length =
                omega (arith, run.firsts_length, length-append {0} st.first_row_per_group (r ∷ []));
            last = last;
            upto = grown_upto;
            distinct = grown_distinct;
            coded = (
              record {
                group = suc st.cur_group;
                written =
                    get_elem?-set st.row_to_group r r (suc st.cur_group) inside ∙ ground arith;
                stands = last;
              },
              IsCoded-set keys table (k ∷ []) st.row_to_group k r (suc st.cur_group) done inside
                  last holds run.held run.coded,
            );
            held = (holds, run.held);
            firsts = grown_firsts;
            few = omega (arith, run.few);
          })
