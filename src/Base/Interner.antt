-- ===== src/Base/Interner.antt =====
-- Numbering values by a map and a table that grow together: the pattern behind `build_dict`,
-- `cpu_hashmap_build` and the signature's `intern`.
use polars_metal.Base.Tests.{Eq, nat_beq, if◌then◌else◌}
use polars_metal.Base.Lists.{length, get_elem?, get_elem?-append_left, get_elem?-lt}
use polars_metal.Base.Maps.{lookup, insert, lookup-insert, lookup-nil}
use Prim.Native.Nat.{ℕ, zero, suc}
use mathlib.Core.Path.{◌≡◌, refl, ap, ◌∙◌}
use mathlib.Core.Logic.{◌↔◌}
use mathlib.Core.List.{List, [], ◌∷◌, ◌++◌}
use mathlib.Core.Option.{none, some}
use native.Mathlib.Omega.{arith}

pub get_elem?-push :
    {A : Type 0} (xs : List A) (a : A) (i : ℕ)
    → get_elem? (xs ++ a ∷ []) i ≡ (if nat_beq i (length xs) then some a else get_elem? xs i)
get_elem?-push [] a zero = refl
get_elem?-push [] a (suc i) = ground arith
get_elem?-push (x ∷ xs) a zero = ground arith
get_elem?-push (x ∷ xs) a (suc i) = ground (arith, get_elem?-push xs a i)

pub get_elem?-length : {A : Type 0} (xs : List A) → get_elem? xs (length xs) ≡ none
get_elem?-length [] = refl
get_elem?-length (x ∷ xs) = get_elem?-length xs

module _ {K : Type 0} ⦃e : Eq K⦄ where
  -- The map and the table hold the same numbering.
  pub record IsNumbering (m : List (K × ℕ)) (table : List K) : Type 0 where
    pub to_table : (k : K) (g : ℕ) → lookup k m ≡ some g → get_elem? table g ≡ some k
    pub of_table : (k : K) (g : ℕ) → get_elem? table g ≡ some k → lookup k m ≡ some g

  pub IsNumbering-nil : IsNumbering [] []
  IsNumbering-nil = record { to_table = λ k g h. cc (lookup-nil {V = ℕ} k); of_table = λ k g h. cc }

  -- A value that the map lacks takes the next number.
  pub IsNumbering-insert :
      {m : List (K × ℕ)} {table : List K} (k : K)
      → IsNumbering m table
      → lookup k m ≡ none
      → IsNumbering (insert k (length table) m) (table ++ k ∷ [])
  IsNumbering-insert {m} {table} k h fresh = record {
    to_table = λ j g p. ground (
      arith,
      lookup-insert k j (length table) m,
      get_elem?-push table k g,
      e.same_iff k j,
      h.to_table j g,
      get_elem?-lt table g {a = j},
    );
    of_table = λ j g p. ground (
      arith,
      lookup-insert k j (length table) m,
      get_elem?-push table k g,
      e.same_iff k j,
      h.of_table j g,
    );
  }

  -- Numbers are equal exactly when the values are.
  pub number_iff :
      {m : List (K × ℕ)} {table : List K} {k j : K} {a b : ℕ}
      → IsNumbering m table
      → get_elem? table a ≡ some k
      → get_elem? table b ≡ some j
      → (a ≡ b) ↔ (k ≡ j)
  number_iff {m} {table} {k} {j} {a} {b} h p q =
      (λ s. cc, λ s. cc (h.of_table k a p, h.of_table j b q, s))

module _ {K : Type 0} where
  -- Each code stands for its key in the table.
  abbrev pub Codes : List K → List K → List ℕ → Type 0
  Codes table [] [] = Unit
  Codes table [] (c ∷ codes) = ⊥
  Codes table (k ∷ keys) [] = ⊥
  Codes table (k ∷ keys) (c ∷ codes) = (get_elem? table c ≡ some k) × Codes table keys codes

  pub Codes-append :
      (table more keys : List K) (codes : List ℕ)
      → Codes table keys codes
      → Codes (table ++ more) keys codes
  Codes-append table more [] [] h = tt
  Codes-append table more [] (c ∷ codes) h = absurd h
  Codes-append table more (k ∷ keys) [] h = absurd h
  Codes-append table more (k ∷ keys) (c ∷ codes) h =
      (get_elem?-append_left table more c h.0, Codes-append table more keys codes h.1)

  pub Codes-push :
      (table keys : List K) (codes : List ℕ) (k : K) (c : ℕ)
      → Codes table keys codes
      → get_elem? table c ≡ some k
      → Codes table (keys ++ k ∷ []) (codes ++ c ∷ [])
  Codes-push table [] [] k c h p = (p, tt)
  Codes-push table [] (x ∷ codes) k c h p = absurd h
  Codes-push table (j ∷ keys) [] k c h p = absurd h
  Codes-push table (j ∷ keys) (x ∷ codes) k c h p = (h.0, Codes-push table keys codes k c h.1 p)

  pub Codes-length :
      (table keys : List K) (codes : List ℕ) → Codes table keys codes → length codes ≡ length keys
  Codes-length table [] [] h = refl
  Codes-length table [] (c ∷ codes) h = absurd h
  Codes-length table (k ∷ keys) [] h = absurd h
  Codes-length table (k ∷ keys) (c ∷ codes) h = ap suc (Codes-length table keys codes h.1)

  pub Codes-at :
      (table keys : List K) (codes : List ℕ) (i : ℕ) {k : K}
      → Codes table keys codes
      → get_elem? keys i ≡ some k
      → (c : ℕ) × (get_elem? codes i ≡ some c) × (get_elem? table c ≡ some k)
  Codes-at table [] [] i h p = cc
  Codes-at table [] (c ∷ codes) i h p = absurd h
  Codes-at table (k ∷ keys) [] i h p = absurd h
  Codes-at table (k ∷ keys) (c ∷ codes) zero h p = (c, refl, h.0 ∙ p)
  Codes-at table (k ∷ keys) (c ∷ codes) (suc i) h p = Codes-at table keys codes i h.1 p
