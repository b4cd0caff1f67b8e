-- ===== src/Buffer/Staging.antt =====
-- staging.rs, `StagingPool`. A buffer is its bytes. The device is an argument: for a size it
-- gives the bytes of a new buffer, or none.
use polars_metal.Base.{
  ℕ, suc, ◌≤◌, ◌<◌, ◌≡◌, refl, ap, sym, ◌∙◌, ◌≢◌, Bool, true, false, Option, none, some, List, [],
  ◌∷◌, ◌++◌, Result, ok, err, length, take, drop, ltb, ◌==◌, if◌then◌else◌, nat_eq, arith,
  Option-cases, Bool-cases, inl, inr,
}
use polars_metal.Buffer.Errors.{BufferError}

pub record StagingPool : Type 0 where
  pub buf : Option (List ℕ)

abbrev pub capacity : StagingPool → ℕ
capacity pool = elim pool.buf [ none ↦ 0 | some b ↦ length b ]

-- `self.buf.as_ref().is_none_or(|b| b.len() < need)`
pub must_grow : StagingPool → ℕ → Bool
must_grow pool need = elim pool.buf [ none ↦ true | some b ↦ ltb (length b) need ]

-- `dst[..src.len()].copy_from_slice(src)`
abbrev pub copy_in : List ℕ → List ℕ → List ℕ
copy_in dst src = src ++ drop (length src) dst

-- The copy into the pool's buffer, when there is one.
pub fill : StagingPool → List ℕ → StagingPool × Result BufferError (List ℕ)
fill pool src = elim pool.buf [
  | none ↦ (pool, err (BufferError.allocation_failed (length src)))
  | some b ↦ (record { buf = some (copy_in b src) }, ok (copy_in b src))
]

module _ (new_buffer_uninit : ℕ → Option (List ℕ)) where
  unfoldable pub stage : StagingPool → List ℕ → StagingPool × Result BufferError (List ℕ)
  unfolding fill must_grow
  stage pool src =
      if length src == 0
      then (pool, err (BufferError.allocation_failed 0))
      else if must_grow pool (length src)
      then elim (new_buffer_uninit (length src)) [
        | none ↦ (pool, err (BufferError.allocation_failed (length src)))
        | some b ↦ fill (record { buf = some b }) src
      ]
      else fill pool src

-- The pool after a call to `stage`, and what it returns.
pub record IsStaged (pool after : StagingPool) (src result : List ℕ) : Type 0 where
  pub held : after.buf ≡ some result
  pub prefix : take (length src) result ≡ src
  pub capacity_kept : capacity pool ≤ capacity after
  pub enough : length src ≤ length result
  pub reused : length src ≤ capacity pool → capacity after ≡ capacity pool

take-append : (xs ys : List ℕ) → take (length xs) (xs ++ ys) ≡ xs
take-append [] ys = refl
take-append (x ∷ xs) ys = ap (λ l. x ∷ l) (take-append xs ys)

length-copy_in :
    (dst src : List ℕ) → length src ≤ length dst → length (copy_in dst src) ≡ length dst
length-copy_in dst [] h = refl
length-copy_in [] (s ∷ src) h = absurd (omega arith)
length-copy_in (d ∷ dst) (s ∷ src) h = ap suc (length-copy_in dst src (omega arith))

copied-IsStaged :
    (pool : StagingPool) (b src : List ℕ)
    → capacity pool ≤ length b
    → length src ≤ length b
    → (length src ≤ capacity pool → length b ≡ capacity pool)
    → IsStaged pool (record { buf = some (copy_in b src) }) src (copy_in b src)
copied-IsStaged pool b src kept fits reused = record {
  held = refl;
  prefix = take-append src (drop (length src) b);
  capacity_kept = omega (arith, length-copy_in b src fits);
  enough = omega (arith, length-copy_in b src fits);
  reused = λ small. length-copy_in b src fits ∙ reused small;
}

-- A pool that need not grow has a buffer that is long enough.
no_growth :
    (pool : StagingPool) (need : ℕ)
    → must_grow pool need ≡ false
    → (b : List ℕ) × (pool.buf ≡ some b) × need ≤ length b
unfolding must_grow
no_growth pool need h = elim (Option-cases pool.buf) [
  | inl empty ↦ ground (arith, h, empty)
  | inr (b, found) ↦ (b, found, ground (arith, h, found))
]

growth :
    (pool : StagingPool) (need : ℕ) → must_grow pool need ≡ true → need ≢ 0 → capacity pool < need
unfolding must_grow
growth pool need h p = elim (Option-cases pool.buf) [
  | inl empty ↦ ground (arith, h, empty)
  | inr (b, found) ↦ ground (arith, h, found)
]

module _ (new_buffer_uninit : ℕ → Option (List ℕ)) (pool : StagingPool) (src b : List ℕ)
    (filled : length src ≢ 0) where
  stage-reuse :
      must_grow pool (length src) ≡ false
      → pool.buf ≡ some b
      → stage new_buffer_uninit pool src
        ≡ (record { buf = some (copy_in b src) }, ok (copy_in b src))
  unfolding stage fill
  stage-reuse kept found =
      let asked : (length src == 0) ≡ false = ground arith in
      rw (asked, stage) (rw (kept, found, fill) refl)

  stage-grow :
      must_grow pool (length src) ≡ true
      → new_buffer_uninit (length src) ≡ some b
      → stage new_buffer_uninit pool src
        ≡ (record { buf = some (copy_in b src) }, ok (copy_in b src))
  unfolding stage fill
  stage-grow grows made =
      let asked : (length src == 0) ≡ false = ground arith in
      rw (asked, stage) (rw (grows, made) refl)

-- `stage` succeeds on every input that is not empty, unless the pool must grow and the device
-- refuses, where the device's new buffers have the size asked for. The buffer then holds the
-- input first, the pool holds that buffer, its capacity never shrinks and is enough, and it is
-- the old capacity when that was enough.
pub stage-IsStaged :
    (new_buffer_uninit : ℕ → Option (List ℕ))
    → ((n : ℕ) (b : List ℕ) → new_buffer_uninit n ≡ some b → length b ≡ n)
    → (pool : StagingPool) (src : List ℕ) → length src ≢ 0
    → (must_grow pool (length src) ≡ true → new_buffer_uninit (length src) ≢ none)
    → (after : StagingPool) × (result : List ℕ) × (stage new_buffer_uninit pool src
        ≡ (after, ok result))
      × IsStaged pool after src result
stage-IsStaged new_buffer_uninit sized pool src filled served =
    elim (Bool-cases (must_grow pool (length src))) [
      | inr kept ↦
          let (b, found, fits) = no_growth pool (length src) kept in
          let same : capacity pool ≡ length b = ground (arith, found) in
          (
            record { buf = some (copy_in b src) },
            copy_in b src,
            stage-reuse new_buffer_uninit pool src b filled kept found,
            copied-IsStaged pool b src (omega arith) fits (λ _. sym same),
          )
      | inl grows ↦ elim (Option-cases (new_buffer_uninit (length src))) [
        | inl refused ↦ absurd (served grows refused)
        | inr (b, made) ↦
            let size = sized (length src) b made in
            let more = growth pool (length src) grows filled in
            (
              record { buf = some (copy_in b src) },
              copy_in b src,
              stage-grow new_buffer_uninit pool src b filled grows made,
              copied-IsStaged pool b src (omega arith) (omega arith)
                  (λ small. absurd (omega arith)),
            )
      ]
    ]
