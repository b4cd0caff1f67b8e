-- ===== src/Groupby/Sorted/Permuted.antt =====
-- The sorted pairs are those of the rows, and the loop over them.
use mathlib.Core.List.{Permᴰ, append_assoc}
use mathlib.Core.Option.{some-injective}
use native.Mathlib.Nat.{mod-eq_of_lt, add-zero}
use native.Mathlib.Decide.{dec_lt}
use polars_metal.Base.{
  ℕ, zero, suc, ◌+◌, ◌%◌, ◌^◌, ◌<◌, ◌≡◌, refl, ap, sym, ◌∙◌, subst, some, List, [], ◌∷◌, ◌++◌,
  length, set, get_elem?, replicate, nat_eq, arith, All, length-set, length-replicate,
  length-append, get_elem?-lt, get_elem?-set, get_elem?-append_self,
}
use polars_metal.Groupby.Sorted.{Pair, enumerate, Segments, segment_rows}
use polars_metal.Groupby.Sorted.Runs.{Ascending, IsRun, same_key, new_key}

abbrev pub Sorted : List Pair → Type 0
Sorted [] = Unit
Sorted (p ∷ pairs) = Ascending p.0 pairs

-- What `sort_unstable_by_key` promises: the same pairs, by ascending key. Pairs of one key may
-- come in any order.
pub record IsSort (sort : List Pair → List Pair) : Type 0 where
  pub same_pairs : (pairs : List Pair) → Permᴰ pairs (sort pairs)
  pub ascending : (pairs : List Pair) → Sorted (sort pairs)

pub Perm-All : (P : Pair → Type 0) {xs ys : List Pair} → Permᴰ xs ys → All P xs → All P ys
Perm-All P Permᴰ.nil h = tt
Perm-All P (Permᴰ.cons e d) h = (subst P e h.0, Perm-All P d h.1)
Perm-All P (Permᴰ.swap e f) h = (subst P f h.1.0, (subst P e h.0, h.1.1))
Perm-All P (Permᴰ.trans d f) h = Perm-All P f (Perm-All P d h)

abbrev pub onto : List Pair → List Pair → List Pair
onto [] done = done
onto (p ∷ pairs) done = onto pairs (p ∷ done)

pub All-onto :
    (P : Pair → Type 0) (pairs done : List Pair)
    → All P (onto pairs done)
    → All P pairs × All P done
All-onto P [] done h = (tt, h)
All-onto P (p ∷ pairs) done h =
    let both = All-onto P pairs (p ∷ done) h in ((both.1.0, both.0), both.1.1)

module _ (keys : List ℕ) where
  abbrev pub Holds : Pair → Type 0
  Holds p = get_elem? keys p.1 ≡ some p.0

  pub record IsFinished (all : List Pair) (st : Segments) : Type 0 where
    pub table : List ℕ
    pub last_key : ℕ
    pub run : IsRun keys table last_key all st

  pub segment_rows-IsFinished :
      (pairs done : List Pair) (prev : ℕ) (table : List ℕ) (st : Segments)
      → length done + length pairs < 2 ^ 32
      → Ascending prev pairs
      → All Holds pairs
      → IsRun keys table prev done st
      → IsFinished (onto pairs done) (segment_rows prev pairs st)
  unfolding segment_rows
  segment_rows-IsFinished [] done prev table st small up held run = record {
    table = table;
    last_key = prev;
    run = run;
  }
  segment_rows-IsFinished (p ∷ pairs) done prev table st small up held run =
      elim (dec_lt prev p.0) [
        | yes above ↦
            segment_rows-IsFinished pairs (p ∷ done) p.0 (table ++ p.0 ∷ []) _ (omega arith) up.1
              held.1 (new_key p.0 p.1 run held.0 above (omega arith))
        | no same ↦
            segment_rows-IsFinished pairs (p ∷ done) p.0 table _ (omega arith) up.1 held.1
              (same_key p.0 p.1 run held.0 (omega arith))
      ]

-- Each key stands at its row.
pub enumerate-Holds :
    (keys before rest : List ℕ)
    → keys ≡ before ++ rest
    → length keys < 2 ^ 32
    → All (Holds keys) (enumerate (length before) rest)
enumerate-Holds keys before [] whole small = tt
enumerate-Holds keys before (k ∷ rest) whole small =
    let inside : length before < 2 ^ 32 =
      omega (arith, ap length whole, length-append {0} before (k ∷ rest)) in
    let next : keys ≡ (before ++ k ∷ []) ++ rest =
      whole ∙ sym (append_assoc before (k ∷ []) rest) in
    let count : length (before ++ k ∷ []) ≡ suc (length before) =
      length-append before (k ∷ []) ∙ omega arith in
    (
      ap (get_elem? keys) (mod-eq_of_lt inside)
          ∙ ap (λ l. get_elem? l (length before)) whole
          ∙ get_elem?-append_self before k rest,
      rw count at (enumerate-Holds keys (before ++ k ∷ []) rest next small),
    )

pub enumerate-at :
    (P : Pair → Type 0) (keys : List ℕ) (at j : ℕ) {k : ℕ}
    → All P (enumerate at keys)
    → get_elem? keys j ≡ some k
    → P (k, (at + j) % 2 ^ 32)
enumerate-at P [] at j all h = cc
enumerate-at P (x ∷ keys) at zero {k} all h =
    let same : x ≡ k = some-injective _ _ h in rw (add-zero at, ← same) all.0
enumerate-at P (x ∷ keys) at (suc j) all h =
    let shift : suc at + j ≡ at + suc j = omega arith in
    rw (← shift) (enumerate-at P keys (suc at) j all.1 h)

-- The state before the loop, after the first pair.
abbrev pub first_segment : ℕ → Pair → Segments
first_segment n_rows p = record {
  row_to_group = set (replicate n_rows 0) p.1 0;
  first_row_per_group = p.1 ∷ [];
  cur_group = 0;
}

singleton : (x g k : ℕ) → get_elem? (x ∷ []) g ≡ some k → (g ≡ 0) × (x ≡ k)
singleton x zero k h = (refl, some-injective _ _ h)
singleton x (suc g) k h = cc

pub first-IsRun :
    (keys : List ℕ) (p : Pair)
    → Holds keys p
    → IsRun keys (p.0 ∷ []) p.0 (p ∷ []) (first_segment (length keys) p)
first-IsRun keys p holds =
    let inside : p.1 < length {A = ℕ} (replicate (length keys) 0) =
      omega (arith, get_elem?-lt keys p.1 holds, length-replicate {A = ℕ} (length keys) 0) in
    record {
      rows = length-set (replicate (length keys) 0) p.1 0 ∙ length-replicate (length keys) 0;
      groups = refl;
      firsts_length = refl;
      last = refl;
      upto = λ g k h. omega (arith, (singleton p.0 g k h).1);
      distinct = λ a b k h q. (singleton p.0 a k h).0 ∙ sym (singleton p.0 b k q).0;
      coded = (
        record {
          group = 0;
          written = get_elem?-set (replicate (length keys) 0) p.1 p.1 0 inside ∙ ground arith;
          stands = refl;
        },
        tt,
      );
      held = (holds, tt);
      firsts = λ g r h. record {
        key = p.0;
        stands = rw (singleton p.1 g r h).0 refl;
        holds = rw (← (singleton p.1 g r h).1) holds;
      };
      few = omega arith;
    }
