-- ===== src/Groupby/Partitioned/Pushes.antt =====
-- The rows of the partitions: a row stands in the partition of its key, and in no other.
use mathlib.Core.Option.{some-injective}
use native.Mathlib.Nat.{mod-eq_of_lt, one-le-pow, lt_trans, add-zero}
use polars_metal.Base.Bits.{bit_and_mask}
use polars_metal.Base.{
  ℕ, zero, suc, ◌+◌, ◌-◌, ◌/◌, ◌%◌, ◌^◌, ◌≤◌, ◌<◌, ◌≡◌, refl, sym, ◌∙◌, inl, inr, ◌⊎◌, subst,
  bit_and, true, some, List, [], ◌∷◌, ◌++◌, concat, In, length, length-append, length-set,
  get_elem?, get_or, get_or-set, set, nat_beq, nat_beq_iff, if◌then◌else◌, Bool-cases, arith,
}
use polars_metal.Groupby.Partitioned.{hash_u128, partition_id, push_rows, tgsm_log2}

-- With a power of two of partitions the mask gives the number of one of them.
pub partition_id_bound : (q n k : ℕ) → n ≡ 2 ^ q → n < 2 ^ 32 → partition_id k n < n
unfolding partition_id
partition_id_bound q n k power small =
    let masked : bit_and (hash_u128 k / 2 ^ tgsm_log2) (n - 1) ≡ hash_u128 k / 2 ^ tgsm_log2 % n =
      rw power (bit_and_mask q (hash_u128 k / 2 ^ tgsm_log2)) in
    let pos : 0 < n = rw power (one-le-pow q 2 (omega arith)) in
    let below : hash_u128 k / 2 ^ tgsm_log2 % n < n = omega (arith, pos) in
    rw (masked, mod-eq_of_lt (lt_trans below small)) below

append-In : {A : Type 0} (xs : List A) (y x : A) → In x (xs ++ y ∷ []) → In x xs ⊎ (y ≡ x)
append-In [] y x (inl e) = inr e
append-In [] y x (inr h) = absurd h
append-In (z ∷ xs) y x (inl e) = inl (inl e)
append-In (z ∷ xs) y x (inr h) = elim (append-In xs y x h) [
  | inl old ↦ inl (inr old)
  | inr new ↦ inr new
]

In-append : {A : Type 0} (xs : List A) (y x : A) → In x xs ⊎ (y ≡ x) → In x (xs ++ y ∷ [])
In-append [] y x (inl h) = absurd h
In-append [] y x (inr e) = inl e
In-append (z ∷ xs) y x (inl (inl e)) = inl e
In-append (z ∷ xs) y x (inl (inr h)) = inr (In-append xs y x (inl h))
In-append (z ∷ xs) y x (inr e) = inr (In-append xs y x (inr e))

-- A push makes the partitions longer by one row together.
concat-push :
    (parts : List (List ℕ)) (p r : ℕ)
    → p < length parts
    → length (concat (set parts p (get_or parts p [] ++ r ∷ []))) ≡ suc (length (concat parts))
concat-push [] p r h = absurd (omega (arith, h))
concat-push (rows ∷ parts) zero r h = omega (
  arith,
  length-append {0} (rows ++ r ∷ []) (concat parts),
  length-append {0} rows (r ∷ []),
  length-append {0} rows (concat parts),
)
concat-push (rows ∷ parts) (suc p) r h = omega (
  arith,
  concat-push parts p r (omega (arith, h)),
  length-append {0} rows (concat (set parts p (get_or parts p [] ++ r ∷ []))),
  length-append {0} rows (concat parts),
)

module _ (n : ℕ) where
  -- One push.
  abbrev pushed : ℕ → ℕ → List (List ℕ) → List (List ℕ)
  pushed r k parts =
      set parts (partition_id k n) (get_or parts (partition_id k n) [] ++ (r % 2 ^ 32) ∷ [])

  pushed-get_or :
      (r k : ℕ) (parts : List (List ℕ)) (q : ℕ)
      → partition_id k n < length parts
      → get_or (pushed r k parts) q [] ≡ (
          if nat_beq (partition_id k n) q
          then get_or parts (partition_id k n) [] ++ (r % 2 ^ 32) ∷ []
          else get_or parts q [])
  pushed-get_or r k parts q h = get_or-set parts (partition_id k n) q _ [] h

  pushed-old :
      (r k : ℕ) (parts : List (List ℕ)) (q x : ℕ)
      → partition_id k n < length parts
      → In x (get_or parts q [])
      → In x (get_or (pushed r k parts) q [])
  pushed-old r k parts q x h isin =
      rw (pushed-get_or r k parts q h) (elim (Bool-cases (nat_beq (partition_id k n) q)) [
        | inl same ↦
            let e : partition_id k n ≡ q = (nat_beq_iff (partition_id k n) q).0 same in
            rw same
              (In-append (get_or parts (partition_id k n) []) (r % 2 ^ 32) x (inl (rw e isin)))
        | inr other ↦ rw other isin
      ])

  pushed-new :
      (r k : ℕ) (parts : List (List ℕ))
      → partition_id k n < length parts
      → r < 2 ^ 32
      → In r (get_or (pushed r k parts) (partition_id k n) [])
  pushed-new r k parts h small =
      let same : nat_beq (partition_id k n) (partition_id k n) ≡ true = (nat_beq_iff _ _).1 refl in
      rw (pushed-get_or r k parts (partition_id k n) h, same)
        (In-append (get_or parts (partition_id k n) []) (r % 2 ^ 32) r (inr (mod-eq_of_lt small)))

  pushed-In :
      (r k : ℕ) (parts : List (List ℕ)) (q x : ℕ)
      → partition_id k n < length parts
      → r < 2 ^ 32
      → In x (get_or (pushed r k parts) q [])
      → In x (get_or parts q []) ⊎ ((x ≡ r) × (partition_id k n ≡ q))
  pushed-In r k parts q x h small isin =
      let moved = subst (In x) (pushed-get_or r k parts q h) isin in
      elim (Bool-cases (nat_beq (partition_id k n) q)) [
        | inl same ↦
            let e : partition_id k n ≡ q = (nat_beq_iff (partition_id k n) q).0 same in
            elim (append-In (get_or parts (partition_id k n) []) (r % 2 ^ 32) x
              (rw same at moved)) [
                | inl old ↦ inl (rw (← e) old)
                | inr new ↦ inr (sym new ∙ mod-eq_of_lt small, e)
              ]
        | inr other ↦ inl (rw other at moved)
      ]

  pushed-length :
      (r k : ℕ) (parts : List (List ℕ)) (q : ℕ)
      → partition_id k n < length parts
      → length (get_or (pushed r k parts) q []) ≤ suc (length (get_or parts q []))
  pushed-length r k parts q h =
      rw (pushed-get_or r k parts q h) (elim (Bool-cases (nat_beq (partition_id k n) q)) [
        | inl same ↦
            let e : partition_id k n ≡ q = (nat_beq_iff (partition_id k n) q).0 same in
            rw (same, e) (omega (arith, length-append {0} (get_or parts q []) ((r % 2 ^ 32) ∷ [])))
        | inr other ↦ rw other (omega arith)
      ])

  -- The partitions after the rows from `r` on.
  pub record IsPushed (r : ℕ) (keys : List ℕ) (parts after : List (List ℕ)) : Type 0 where
    pub count : length after ≡ length parts
    pub old : (q x : ℕ) → In x (get_or parts q []) → In x (get_or after q [])
    pub new :
        (i k : ℕ) → get_elem? keys i ≡ some k → In (r + i) (get_or after (partition_id k n) [])
    pub only :
        (q x : ℕ)
        → In x (get_or after q [])
        → In x (get_or parts q [])
          ⊎ ((i : ℕ) × (k : ℕ) × (x ≡ r + i) × (get_elem? keys i ≡ some k) × (partition_id k n ≡ q))
    pub few : (q : ℕ) → length (get_or after q []) ≤ length (get_or parts q []) + length keys
    pub sum : length (concat after) ≡ length (concat parts) + length keys

  push-new :
      (r k : ℕ) (keys : List ℕ) (parts : List (List ℕ)) {after : List (List ℕ)}
      → partition_id k n < length parts
      → r < 2 ^ 32
      → IsPushed (r + 1) keys (pushed r k parts) after
      → (i j : ℕ) → get_elem? (k ∷ keys) i ≡ some j
      → In (r + i) (get_or after (partition_id j n) [])
  push-new r k keys parts h small rest zero j at =
      let e : k ≡ j = some-injective _ _ at in
      rw (add-zero r, ← e) (rest.old (partition_id k n) r (pushed-new r k parts h small))
  push-new r k keys parts h small rest (suc i) j at =
      let e : r + suc i ≡ r + 1 + i = omega arith in rw e (rest.new i j at)

  pub push_rows-IsPushed :
      (r : ℕ) (keys : List ℕ) (parts : List (List ℕ))
      → ((k : ℕ) → partition_id k n < length parts)
      → r + length keys < 2 ^ 32
      → IsPushed r keys parts (push_rows n r keys parts)
  unfolding push_rows
  push_rows-IsPushed r [] parts bound small = record {
    count = refl;
    old = λ q x h. h;
    new = λ i k h. cc;
    only = λ q x h. inl h;
    few = λ q. omega arith;
    sum = omega arith;
  }
  push_rows-IsPushed r (k ∷ keys) parts bound small =
      let size =
        length-set parts (partition_id k n)
          (get_or parts (partition_id k n) [] ++ (r % 2 ^ 32) ∷ []) in
      let rest =
        push_rows-IsPushed (r + 1) keys (pushed r k parts) (λ j. rw size (bound j)) (omega arith) in
      let here : r < 2 ^ 32 = omega arith in
      record {
        count = rest.count ∙ size;
        old = λ q x h. rest.old q x (pushed-old r k parts q x (bound k) h);
        new = push-new r k keys parts (bound k) here rest;
        only = λ q x h. elim (rest.only q x h) [
          | inl before ↦ elim (pushed-In r k parts q x (bound k) here before) [
            | inl old ↦ inl old
            | inr (e, p) ↦ inr (0, k, e ∙ omega arith, refl, p)
          ]
          | inr (i, j, e, at, p) ↦ inr (suc i, j, e ∙ omega arith, at, p)
        ];
        few = λ q. omega (arith, rest.few q, pushed-length r k parts q (bound k));
        sum = omega (arith, rest.sum, concat-push parts (partition_id k n) (r % 2 ^ 32) (bound k));
      }
