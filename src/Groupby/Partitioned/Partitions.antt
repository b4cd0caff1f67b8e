-- ===== src/Groupby/Partitioned/Partitions.antt =====
-- The loop over the partitions: each has a table of its own.
use polars_metal.Base.{
  ℕ, zero, suc, ◌+◌, ◌-◌, ◌^◌, ◌≤◌, ◌<◌, ◌≡◌, refl, ap, ap₂, ◌∙◌, inl, inr, ◌⊎◌, some, List, [],
  ◌∷◌, map, In, All, concat, length, length-append, get_elem?, get_elem?-lt, get_or, nat_eq, arith,
}
use polars_metal.Groupby.Partitioned.{Table, hash_rows, hash_partitions, no_entries, capacity}
use polars_metal.Groupby.Partitioned.Loop.{IsLocal, blank-IsLocal, hash_row-Advanced}
use polars_metal.Groupby.Partitioned.Capacity.{capacity-IsPower}

abbrev pub onto : List ℕ → List ℕ → List ℕ
onto [] done = done
onto (r ∷ rows) done = onto rows (r ∷ done)

In-onto : (rows done : List ℕ) (x : ℕ) → In x rows ⊎ In x done → In x (onto rows done)
In-onto [] done x (inl h) = absurd h
In-onto [] done x (inr h) = h
In-onto (r ∷ rows) done x (inl (inl h)) = In-onto rows (r ∷ done) x (inr (inl h))
In-onto (r ∷ rows) done x (inl (inr h)) = In-onto rows (r ∷ done) x (inl h)
In-onto (r ∷ rows) done x (inr h) = In-onto rows (r ∷ done) x (inr (inr h))

onto-In : (rows done : List ℕ) (x : ℕ) → In x (onto rows done) → In x rows ⊎ In x done
onto-In [] done x h = inr h
onto-In (r ∷ rows) done x h = elim (onto-In rows (r ∷ done) x h) [
  | inl later ↦ inl (inr later)
  | inr (inl here) ↦ inl (inl here)
  | inr (inr old) ↦ inr old
]

length-onto : (rows done : List ℕ) → length (onto rows done) ≡ length rows + length done
length-onto [] done = omega arith
length-onto (r ∷ rows) done = length-onto rows (r ∷ done) ∙ omega arith

-- A number stands for one key, and a key has one number.
abbrev pub Distinct : List ℕ → Type 0
Distinct names = (a b k : ℕ) → get_elem? names a ≡ some k → get_elem? names b ≡ some k → a ≡ b

-- A partition whose loop is done.
pub record IsHashed (keys before rows : List ℕ) : Type 0 where
  pub names : List ℕ
  pub st : Table
  pub runs : hash_rows keys (capacity rows) rows (no_entries (capacity rows) before) ≡ some st
  pub entries : length st.table ≡ length names
  pub few : length names ≤ length rows
  pub same_length : length st.row_local_group ≡ length before
  pub coded :
      (r k : ℕ)
      → In r rows
      → get_elem? keys r ≡ some k
      → get_elem? names (get_or st.row_local_group r 0) ≡ some k
  pub kept : (r : ℕ) → (In r rows → ⊥) → get_or st.row_local_group r 0 ≡ get_or before r 0
  pub origin :
      (g k : ℕ) → get_elem? names g ≡ some k → (r : ℕ) × In r rows × (get_elem? keys r ≡ some k)
  pub distinct : Distinct names

abbrev pub AreRows : List ℕ → List ℕ → Type 0
AreRows keys = All (λ r. (k : ℕ) × (get_elem? keys r ≡ some k))

record IsLooped (keys : List ℕ) (cap : ℕ) (before rows done : List ℕ) (st : Table) : Type 0 where
  pub m : List (ℕ × ℕ)
  pub names : List ℕ
  pub st' : Table
  pub runs : hash_rows keys cap rows st ≡ some st'
  pub local : IsLocal keys cap before (onto rows done) m names st'

hash_rows-IsLooped :
    (keys : List ℕ) (c cap : ℕ)
    → cap ≡ 2 ^ c
    → (before : List ℕ) → length before ≡ length keys
    → (rows done : List ℕ) (m : List (ℕ × ℕ)) (names : List ℕ) (st : Table)
    → IsLocal keys cap before done m names st
    → AreRows keys rows
    → length done + length rows < 2 ^ 32 - 1
    → length done + length rows < cap
    → IsLooped keys cap before rows done st
unfolding hash_rows
hash_rows-IsLooped keys c cap power before size [] done m names st run all room few = record {
  m = m;
  names = names;
  st' = st;
  runs = refl;
  local = run;
}
hash_rows-IsLooped keys c cap power before size (r ∷ rows) done m names st run all room few =
    let (k, at) = all.0 in
    let inside : r < length before = omega (arith, size, get_elem?-lt {0} keys r at) in
    let one =
      hash_row-Advanced keys c cap power before done m names st run r k at inside
        (omega (arith, run.few, room)) (omega (arith, run.few)) in
    let rest =
      hash_rows-IsLooped keys c cap power before size rows (r ∷ done) one.m' one.names' one.st'
        one.local all.1 (omega (arith, room)) (omega arith) in
    record {
      m = rest.m;
      names = rest.names;
      st' = rest.st';
      runs = rw (one.runs, hash_rows) rest.runs;
      local = rest.local;
    }

hash_rows-IsHashed :
    (keys before rows : List ℕ)
    → length before ≡ length keys
    → AreRows keys rows
    → length rows < 2 ^ 32 - 1
    → IsHashed keys before rows
hash_rows-IsHashed keys before rows size all small =
    let p = capacity-IsPower rows (omega (arith, small)) in
    let done =
      hash_rows-IsLooped keys p.log (capacity rows) p.power before size rows [] [] []
        (no_entries (capacity rows) before) (blank-IsLocal keys (capacity rows) before) all
        (omega (arith, small)) (omega (arith, p.enough)) in
    record {
      names = done.names;
      st = done.st';
      runs = done.runs;
      entries = done.local.entries;
      few = omega (arith, done.local.few, length-onto rows []);
      same_length = done.local.same_length;
      coded = λ r k isin at. done.local.coded r k (In-onto rows [] r (inl isin)) at;
      kept = λ r h.
          done.local.kept r
            (λ isin. elim (onto-In rows [] r isin) [ inl here ↦ h here | inr old ↦ absurd old ]);
      origin = λ g k at.
          let (r, isin, held) = done.local.origin g k at in
          (r, elim (onto-In rows [] r isin) [ inl here ↦ here | inr old ↦ absurd old ], held);
      distinct = λ a b k p q.
          let t = done.local.table.numbering in cc (t.of_table k a p, t.of_table k b q);
    }

-- All partitions, of which the first has the number `base`; a row is in the partition that owns it.
pub record AreHashed (keys before : List ℕ) (parts : List (List ℕ)) : Type 0 where
  pub names : List (List ℕ)
  pub tables : List (List (ℕ × ℕ))
  pub local : List ℕ
  pub runs : hash_partitions keys parts before ≡ some (tables, local)
  pub sizes : map length tables ≡ map length names
  pub count : length names ≡ length parts
  pub few : length (concat names) ≤ length (concat parts)
  pub same_length : length local ≡ length before
  pub coded :
      (q r k : ℕ)
      → In r (get_or parts q [])
      → get_elem? keys r ≡ some k
      → get_elem? (get_or names q []) (get_or local r 0) ≡ some k
  pub kept :
      (r : ℕ) → ((q : ℕ) → In r (get_or parts q []) → ⊥) → get_or local r 0 ≡ get_or before r 0
  pub origin :
      (q g k : ℕ)
      → get_elem? (get_or names q []) g ≡ some k
      → (r : ℕ) × In r (get_or parts q []) × (get_elem? keys r ≡ some k)
  pub distinct : (q : ℕ) → Distinct (get_or names q [])

module _ {keys before rows : List ℕ} {more : List (List ℕ)} (one : IsHashed keys before rows)
    (rest : AreHashed keys one.st.row_local_group more) where
  add-coded :
      ((r : ℕ) → In r rows → (q : ℕ) → In r (get_or more q []) → ⊥)
      → (q r k : ℕ) → In r (get_or (rows ∷ more) q [])
      → get_elem? keys r ≡ some k
      → get_elem? (get_or (one.names ∷ rest.names) q []) (get_or rest.local r 0) ≡ some k
  add-coded apart zero r k isin at = rw (rest.kept r (apart r isin)) (one.coded r k isin at)
  add-coded apart (suc q) r k isin at = rest.coded q r k isin at

  add-origin :
      (q g k : ℕ)
      → get_elem? (get_or (one.names ∷ rest.names) q []) g ≡ some k
      → (r : ℕ) × In r (get_or (rows ∷ more) q []) × (get_elem? keys r ≡ some k)
  add-origin zero g k at = one.origin g k at
  add-origin (suc q) g k at = rest.origin q g k at

  add-Distinct : (q : ℕ) → Distinct (get_or (one.names ∷ rest.names) q [])
  add-Distinct zero = one.distinct
  add-Distinct (suc q) = rest.distinct q

pub hash_partitions-AreHashed :
    (keys : List ℕ) (owner : ℕ → ℕ) (base : ℕ) (before : List ℕ) (parts : List (List ℕ))
    → length before ≡ length keys
    → All (AreRows keys) parts
    → All (λ rows. length rows < 2 ^ 32 - 1) parts
    → ((q r : ℕ) → In r (get_or parts q []) → owner r ≡ base + q)
    → AreHashed keys before parts
unfolding hash_partitions
hash_partitions-AreHashed keys owner base before [] size all small owned = record {
  names = [];
  tables = [];
  local = before;
  runs = refl;
  sizes = refl;
  count = refl;
  few = omega arith;
  same_length = refl;
  coded = λ q r k isin. absurd isin;
  kept = λ r h. refl;
  origin = λ q g k. cc;
  distinct = λ q a b k h. cc;
}
hash_partitions-AreHashed keys owner base before (rows ∷ more) size all small owned =
    let one = hash_rows-IsHashed keys before rows size all.0 small.0 in
    let rest =
      hash_partitions-AreHashed keys owner (suc base) one.st.row_local_group more
        (one.same_length ∙ size) all.1 small.1 (λ q r isin. owned (suc q) r isin ∙ omega arith) in
    let apart : (r : ℕ) → In r rows → (q : ℕ) → In r (get_or more q []) → ⊥ =
      λ r here q there. omega (arith, owned 0 r here, owned (suc q) r there) in
    record {
      names = one.names ∷ rest.names;
      tables = one.st.table ∷ rest.tables;
      local = rest.local;
      runs = rw (one.runs, rest.runs, hash_partitions) refl;
      sizes = ap₂ ◌∷◌ one.entries rest.sizes;
      count = ap suc rest.count;
      few = omega (
        arith,
        one.few,
        rest.few,
        length-append {0} one.names (concat rest.names),
        length-append {0} rows (concat more),
      );
      same_length = rest.same_length ∙ one.same_length;
      coded = add-coded one rest apart;
      kept = λ r h. rest.kept r (λ q. h (suc q)) ∙ one.kept r (h 0);
      origin = add-origin one rest;
      distinct = add-Distinct one rest;
    }
