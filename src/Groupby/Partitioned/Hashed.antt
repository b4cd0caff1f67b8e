-- ===== src/Groupby/Partitioned/Hashed.antt =====
-- A partition's loop: its table numbers the keys of its rows.
use native.Mathlib.Decide.{dec_le}
use polars_metal.Base.Bits.{bit_and_mask}
use polars_metal.Base.{
  ℕ, ◌+◌, ◌-◌, ◌%◌, ◌^◌, ◌<◌, ◌≡◌, ◌∙◌, inl, inr, bit_and, none, some, List, [], ◌∷◌, ◌++◌, length,
  length-append, length-set, get_elem?, get_elem?-set, get_elem?-lt, get_elem?-replicate,
  length-replicate, replicate, set, nat_beq, nat_beq_iff, nat_eq, lookup, insert, lookup-insert,
  lookup-nil, IsNumbering, IsNumbering-nil, IsNumbering-insert, Bool-cases, arith,
}
use polars_metal.Groupby.Partitioned.{Slots, Probed, probe, hash_u128}
use polars_metal.Groupby.Partitioned.Probe.{
  vacant, vacant-replicate, vacant-set, vacant-some, probe-found-set, probe-entered, probe-vacancy,
}
use polars_metal.Groupby.Partitioned.Ends.{probe-ends}

-- A key's first slot.
abbrev pub home : ℕ → ℕ → ℕ
home cap k = bit_and (hash_u128 k) (cap - 1)

-- The slots and a map hold the same numbers, and every probe of a key of the map finds it.
pub record IsTable (cap : ℕ) (m : List (ℕ × ℕ)) (keys : List ℕ) (slots : Slots) : Type 0 where
  pub size : length slots ≡ cap
  pub known :
      (k g : ℕ) → lookup k m ≡ some g → probe cap slots cap k (home cap k) ≡ some (Probed.found g)
  pub stored : (i k g : ℕ) → get_elem? slots i ≡ some (some (k, g)) → lookup k m ≡ some g
  pub room : vacant slots + length keys ≡ cap
  pub numbering : IsNumbering m keys

pub blank-IsTable : (cap : ℕ) → IsTable cap [] [] (replicate cap none)
blank-IsTable cap = record {
  size = length-replicate cap none;
  known = λ k g h. cc (lookup-nil {V = ℕ} k);
  stored = λ i k g h. cc (get_elem?-replicate cap i none h);
  room = omega (arith, vacant-replicate cap);
  numbering = IsNumbering-nil;
}

module _ (c cap : ℕ) (power : cap ≡ 2 ^ c) where
  home_bound : (k : ℕ) → 0 < cap → home cap k < cap
  home_bound k pos =
      let masked : home cap k ≡ hash_u128 k % cap = rw power (bit_and_mask c (hash_u128 k)) in
      rw masked (omega (arith, pos))

  -- A key that is not in the table finds an empty slot.
  pub probe-absent :
      {m : List (ℕ × ℕ)} {keys : List ℕ} {slots : Slots} (k : ℕ)
      → IsTable cap m keys slots
      → length keys < cap
      → lookup k m ≡ none
      → (i : ℕ) × (probe cap slots cap k (home cap k) ≡ some (Probed.empty i))
        × (get_elem? slots i ≡ some none)
  probe-absent {m} {keys} {slots} k t few fresh =
      let (e, free) = vacant-some slots (omega (arith, t.room)) in
      let inside : e < cap = omega (arith, get_elem?-lt slots e free, t.size) in
      let start = home_bound k (omega arith) in
      let (i, done) =
        probe-ends c cap power cap slots k (home cap k) e t.size
          (λ i g at. cc (t.stored i k g at, fresh)) start inside free
          (elim (dec_le (home cap k) e) [
            | yes before ↦ inl (before, omega arith)
            | no after ↦ inr (omega arith, omega arith)
          ]) in
      (i, done, probe-vacancy cap cap slots k (home cap k) i done)

  -- Entering it keeps the table.
  pub enter-IsTable :
      {m : List (ℕ × ℕ)} {keys : List ℕ} {slots : Slots} (k i : ℕ)
      → IsTable cap m keys slots
      → lookup k m ≡ none
      → probe cap slots cap k (home cap k) ≡ some (Probed.empty i)
      → get_elem? slots i ≡ some none
      → IsTable cap
          (insert k (length keys) m)
          (keys ++ k ∷ [])
          (set slots i (some (k, length keys)))
  enter-IsTable {m} {keys} {slots} k i t fresh ended free = record {
    size = length-set slots i (some (k, length keys)) ∙ t.size;
    known = λ j g h. elim (Bool-cases (nat_beq k j)) [
      | inl same ↦
          let e : k ≡ j = (nat_beq_iff k j).0 same in
          let number : length keys ≡ g = ground (arith, lookup-insert k j (length keys) m, h) in
          rw (← e, ← number) (probe-entered cap cap slots k (home cap k) i (length keys) free ended)
      | inr differs ↦
          let old : lookup j m ≡ some g = ground (arith, lookup-insert k j (length keys) m, h) in
          probe-found-set cap slots i (k, length keys) free cap j (home cap j) g (t.known j g old)
    ];
    stored = λ j l g at. ground (
      arith,
      get_elem?-set slots i j (some (k, length keys)) (get_elem?-lt slots i free),
      t.stored j l g,
      lookup-insert k l (length keys) m,
      nat_beq_iff k l,
      fresh,
    );
    room =
        omega (
          arith,
          t.room,
          vacant-set slots i (k, length keys) free,
          length-append {0} keys (k ∷ []),
        );
    numbering = IsNumbering-insert k t.numbering fresh;
  }
