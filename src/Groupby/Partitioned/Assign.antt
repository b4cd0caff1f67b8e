-- ===== src/Groupby/Partitioned/Assign.antt =====
-- The last loop: each row's group and each group's first row.
use mathlib.Core.List.{append_assoc, append-nil}
use mathlib.Core.Option.{some-injective}
use native.Mathlib.Nat.{mod-eq_of_lt}
use native.Mathlib.Decide.{dec_le, dec_lt}
use polars_metal.Base.{
  ℕ, zero, suc, ◌+◌, ◌-◌, ◌%◌, ◌^◌, ◌<◌, ◌≡◌, ◌≢◌, refl, ap, sym, ◌∙◌, inl, inr, ◌⊎◌, some, List,
  [], ◌∷◌, ◌++◌, length, length-append, length-set, get_elem?, get_elem?-lt, get_elem?-some,
  get_elem?-set, get_elem?-append_self, get_or, set, nat_beq, nat_beq_iff, nat_eq, if◌then◌else◌,
  Bool-cases, arith, subst,
}
use polars_metal.Groupby.Build.Grouping.{IsFirstSeen}
use polars_metal.Groupby.Partitioned.{assign_rows}
use polars_metal.Groupby.Partitioned.Partitions.{Distinct}

abbrev pub unset : ℕ
unset = 2 ^ 32 - 1

get_or-some : (xs : List ℕ) (i a : ℕ) → get_elem? xs i ≡ some a → get_or xs i 0 ≡ a
get_or-some [] i a h = cc
get_or-some (x ∷ xs) zero a h = cc
get_or-some (x ∷ xs) (suc i) a h = get_or-some xs i a h

module _ (all names : List ℕ) (global : ℕ → ℕ → ℕ) (small : length all < 2 ^ 32)
    (coded : (i k : ℕ) → get_elem? all i ≡ some k → get_elem? names (global i k) ≡ some k) where
  -- No row before `r` is in group `g`.
  abbrev pub NoneBefore : ℕ → ℕ → Type 0
  NoneBefore r g = (i k : ℕ) → i < r → get_elem? all i ≡ some k → global i k ≢ g

  pub record IsFirst (r g f : ℕ) : Type 0 where
    pub key : ℕ
    pub holds : get_elem? all f ≡ some key
    pub group : global f key ≡ g
    pub before : f < r
    pub earlier : NoneBefore f g

  -- After the rows before `r`.
  pub record IsAssigned (r : ℕ) (row_to_group firsts : List ℕ) : Type 0 where
    pub size : length row_to_group ≡ length all
    pub groups : length firsts ≡ length names
    pub assigned :
        (i k : ℕ) → i < r → get_elem? all i ≡ some k → get_elem? row_to_group i ≡ some (global i k)
    pub first_rows :
        (g f : ℕ) → get_elem? firsts g ≡ some f → ((f ≡ unset) × NoneBefore r g) ⊎ IsFirst r g f

  -- One row.
  module _ {r : ℕ} {row_to_group firsts : List ℕ} (st : IsAssigned r row_to_group firsts) (k : ℕ)
      (here : get_elem? all r ≡ some k) where
    abbrev g : ℕ
    g = global r k

    inside : g < length firsts
    inside = omega (arith, st.groups, get_elem?-lt names g (coded r k here))

    later : (h f : ℕ) → IsFirst r h f → IsFirst (suc r) h f
    later h f first = record {
      key = first.key;
      holds = first.holds;
      group = first.group;
      before = omega (arith, first.before);
      earlier = first.earlier;
    }

    still_none : (h : ℕ) → g ≢ h → NoneBefore r h → NoneBefore (suc r) h
    still_none h far before i l less at = elim (dec_lt i r) [
      | yes old ↦ before i l old at
      | no new ↦
          let e : r ≡ i = omega arith in
          let same : k ≡ l = some-injective _ _ (sym here ∙ ap (get_elem? all) e ∙ at) in
          λ same_group. far (ap (λ x. global x k) e ∙ ap (global i) same ∙ same_group)
    ]

    new-IsFirst : NoneBefore r g → IsFirst (suc r) g r
    new-IsFirst before = record {
      key = k;
      holds = here;
      group = refl;
      before = omega arith;
      earlier = before;
    }

    -- A group other than the row's.
    other-IsFirst :
        (h f : ℕ)
        → g ≢ h
        → get_elem? firsts h ≡ some f
        → ((f ≡ unset) × NoneBefore (suc r) h) ⊎ IsFirst (suc r) h f
    other-IsFirst h f far at = elim (st.first_rows h f at) [
      | inl (e, before) ↦ inl (e, still_none h far before)
      | inr first ↦ inr (later h f first)
    ]

    was_unset : (f : ℕ) → get_elem? firsts g ≡ some f → f ≡ unset → NoneBefore r g
    was_unset f at e = elim (st.first_rows g f at) [
      | inl (same, before) ↦ before
      | inr first ↦ absurd (omega (arith, first.before, e, get_elem?-lt all r here))
    ]

    abbrev noted : List ℕ
    noted = if nat_beq (get_or firsts g 0) unset then set firsts g (r % 2 ^ 32) else firsts

    noted-IsFirst :
        (h f : ℕ)
        → get_elem? noted h ≡ some f
        → ((f ≡ unset) × NoneBefore (suc r) h) ⊎ IsFirst (suc r) h f
    noted-IsFirst h f at = elim (Bool-cases (nat_beq (get_or firsts g 0) unset)) [
      | inl blank ↦
          let moved : get_elem? (set firsts g (r % 2 ^ 32)) h ≡ some f = rw blank at at in
          let read = get_elem?-set firsts g h (r % 2 ^ 32) inside in
          elim (Bool-cases (nat_beq g h)) [
            | inl same ↦
                let e : g ≡ h = (nat_beq_iff g h).0 same in
                let low : r % 2 ^ 32 ≡ r = mod-eq_of_lt (omega (arith, get_elem?-lt all r here)) in
                let value : r ≡ f = ground (arith, read, moved, low) in
                let (old, held) = get_elem?-some firsts g inside in
                let before = was_unset old held (
                  sym (get_or-some firsts g old held)
                  ∙ (nat_beq_iff (get_or firsts g 0) unset).0 blank) in
                inr (rw (← e, ← value) (new-IsFirst before))
            | inr differs ↦
                other-IsFirst h f (λ e. ground (arith, nat_beq_iff g h))
                  (ground (arith, read, moved))
          ]
      | inr filled ↦
          let moved : get_elem? firsts h ≡ some f = rw filled at at in
          elim (Bool-cases (nat_beq g h)) [
            | inl same ↦
                let e : g ≡ h = (nat_beq_iff g h).0 same in
                elim (st.first_rows h f moved) [
                  | inl (blank, before) ↦
                      let value = get_or-some firsts g f (ap (get_elem? firsts) e ∙ moved) in
                      absurd (ground (arith, nat_beq_iff (get_or firsts g 0) unset))
                  | inr first ↦ inr (later h f first)
                ]
            | inr differs ↦ other-IsFirst h f (λ e. ground (arith, nat_beq_iff g h)) moved
          ]
    ]

    assign-IsAssigned : IsAssigned (suc r) (set row_to_group r g) noted
    assign-IsAssigned = record {
      size = length-set row_to_group r g ∙ st.size;
      groups = elim (Bool-cases (nat_beq (get_or firsts g 0) unset)) [
        | inl blank ↦ rw blank (length-set firsts g (r % 2 ^ 32) ∙ st.groups)
        | inr filled ↦ rw filled st.groups
      ];
      assigned = λ i l less at.
          let read =
            get_elem?-set row_to_group r i g (omega (arith, st.size, get_elem?-lt all r here)) in
          elim (Bool-cases (nat_beq r i)) [
            | inl same ↦
                let e : r ≡ i = (nat_beq_iff r i).0 same in
                let key : k ≡ l = some-injective _ _ (sym here ∙ ap (get_elem? all) e ∙ at) in
                read ∙ rw same (ap some (ap (λ x. global x k) e ∙ ap (global i) key))
            | inr differs ↦ read ∙ rw differs (st.assigned i l (ground arith) at)
          ];
      first_rows = noted-IsFirst;
    }

  -- All rows.
  pub assign_rows-IsAssigned :
      (rest done row_to_group firsts : List ℕ)
      → done ++ rest ≡ all
      → IsAssigned (length done) row_to_group firsts
      → (let out = assign_rows global (length done) rest row_to_group firsts in
          IsAssigned (length all) out.0 out.1)
  unfolding assign_rows
  assign_rows-IsAssigned [] done row_to_group firsts whole st =
      let e : length done ≡ length all = ap length (sym (append-nil done) ∙ whole) in
      subst (λ n. IsAssigned n row_to_group firsts) e st
  assign_rows-IsAssigned (k ∷ rest) done row_to_group firsts whole st =
      let here : get_elem? all (length done) ≡ some k =
        rw (← whole) (get_elem?-append_self done k rest) in
      let e : length (done ++ k ∷ []) ≡ length done + 1 = length-append done (k ∷ []) in
      let e' : suc (length done) ≡ length (done ++ k ∷ []) = omega (arith, e) in
      let next = assign-IsAssigned st k here in
      subst
        (λ n.
          let out =
            assign_rows global n rest (set row_to_group (length done) (g st k here))
              (noted st k here) in
          IsAssigned (length all) out.0 out.1)
        e
        (assign_rows-IsAssigned rest (done ++ k ∷ []) (set row_to_group (length done) (g st k here))
          (noted st k here) (append_assoc done (k ∷ []) rest ∙ whole)
          (subst
            (λ n. IsAssigned n (set row_to_group (length done) (g st k here)) (noted st k here)) e'
            next))

  -- The finished loop as a grouping.
  module _ (distinct : Distinct names)
      (origin : (g k : ℕ) → get_elem? names g ≡ some k → (i : ℕ) × (get_elem? all i ≡ some k))
      {row_to_group firsts : List ℕ} (st : IsAssigned (length all) row_to_group firsts) where
    group_key :
        (i g : ℕ)
        → get_elem? row_to_group i ≡ some g
        → (k : ℕ) × (get_elem? all i ≡ some k) × (global i k ≡ g) × (get_elem? names g ≡ some k)
    group_key i g at =
        let (k, held) =
          get_elem?-some all i (omega (arith, st.size, get_elem?-lt row_to_group i at)) in
        let same : global i k ≡ g =
          some-injective _ _ (sym (st.assigned i k (get_elem?-lt all i held) held) ∙ at) in
        (k, held, same, rw (← same) (coded i k held))

    -- Every group has a row, so that its first row is noted.
    IsFirst-of : (g f : ℕ) → get_elem? firsts g ≡ some f → IsFirst (length all) g f
    IsFirst-of g f at = elim (st.first_rows g f at) [
      | inl (blank, nobody) ↦
          let (k, name) =
            get_elem?-some names g (omega (arith, st.groups, get_elem?-lt firsts g at)) in
          let (i, held) = origin g k name in
          absurd (
            nobody i k (get_elem?-lt all i held) held
              (distinct (global i k) g k (coded i k held) name))
      | inr first ↦ first
    ]

    pub finished-IsFirstSeen :
        {n : ℕ}
        → n ≡ length names
        → IsFirstSeen all
            (record { row_to_group = row_to_group; first_row_per_group = firsts; n_groups = n })
    finished-IsFirstSeen total = record {
      grouping = record {
        assigned = st.size;
        in_range = λ i g at.
            let (k, held, same, name) = group_key i g at in
            omega (arith, total, get_elem?-lt names g name);
        same_group = λ i j a b k l p q r s.
            let (k', held, e, name) = group_key i a p in
            let (l', held', e', name') = group_key j b q in
            let key : k' ≡ k = some-injective _ _ (sym held ∙ r) in
            let key' : l' ≡ l = some-injective _ _ (sym held' ∙ s) in
            (
              λ same.
                  sym key
                  ∙ some-injective _ _ (sym name ∙ ap (get_elem? names) same ∙ name')
                  ∙ key',
              λ same. distinct a b k' name (name' ∙ ap some (key' ∙ sym same ∙ sym key)),
            );
        one_each = st.groups ∙ sym total;
        stands_for = λ g f at.
            let first = IsFirst-of g f at in
            st.assigned f first.key first.before first.holds ∙ ap some first.group;
      };
      earliest = λ i g f at noted_at.
          let first = IsFirst-of g f noted_at in
          let (k, held, same, name) = group_key i g at in
          elim (dec_le f i) [
            | yes le ↦ le
            | no gt ↦ absurd (first.earlier i k (omega arith) held same)
          ];
    }
