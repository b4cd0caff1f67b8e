-- ===== src/Buffer/Bitmap/Set.antt =====
-- `set_valid` writes one row.
use mathlib.Core.Option.{some-injective}
use polars_metal.Base.Bits.{bit_and-one}
use polars_metal.Base.{
  get_elem?-set, Option-cases, length-set, sym, ◌∙◌, ℕ, ◌-◌, ◌/◌, ◌%◌, ◌^◌, ◌<◌, ◌≡◌, refl, ap,
  arith, Bool, true, false, none, some, List, bit_and, bit_or, get_elem?, set, length, nat_eq,
  nat_beq, ◌==◌, if◌then◌else◌, Bool-cases, inl, inr, get_elem?-some, nat_beq_iff, ◌≢◌, Option,
}
use polars_metal.Buffer.Bitmap.{get_valid, set_valid}
use polars_metal.Buffer.Bitmap.Bits.{bit, bit-bit_or, bit-bit_and, bit-pow, bit-mask}

-- The byte that is written.
abbrev written : ℕ → ℕ → Bool → ℕ
written byte k true = bit_or byte (2 ^ k)
written byte k false = bit_and byte (2 ^ 8 - 1 - 2 ^ k)

bit-written :
    (byte k j : ℕ) (valid : Bool)
    → k < 8
    → j < 8
    → bit (written byte k valid) j ≡ (if nat_beq k j then (if valid then 1 else 0) else bit byte j)
bit-written byte k j true h p = ground (arith, bit-bit_or j byte (2 ^ k), bit-pow k j)
bit-written byte k j false h p =
    ground (arith, bit-bit_and j byte (2 ^ 8 - 1 - 2 ^ k), bit-mask 8 k j h p)

get_valid-some :
    (bitmap : List ℕ) (row : ℕ) {b : ℕ}
    → get_elem? bitmap (row / 8) ≡ some b
    → get_valid bitmap row ≡ (bit b (row % 8) == 1)
unfolding get_valid
get_valid-some bitmap row {b} e = rw (e, get_valid) (rw (bit_and-one (b / 2 ^ (row % 8))) refl)

set_valid-some :
    (bitmap : List ℕ) (row : ℕ) (valid : Bool) {b : ℕ}
    → get_elem? bitmap (row / 8) ≡ some b
    → set_valid bitmap row valid ≡ some (set bitmap (row / 8) (written b (row % 8) valid))
unfolding set_valid
set_valid-some bitmap row true e = rw (e, set_valid) refl
set_valid-some bitmap row false e = rw (e, set_valid) refl

-- `get_valid` reads one byte.
pub get_valid-ext :
    (xs ys : List ℕ) (row : ℕ)
    → get_elem? xs (row / 8) ≡ get_elem? ys (row / 8)
    → get_valid xs row ≡ get_valid ys row
unfolding get_valid
get_valid-ext xs ys row e =
    ap
      (λ (o : Option ℕ). elim o [
        | none ↦ false
        | some byte ↦ bit_and (byte / 2 ^ (row % 8)) 1 == 1
      ])
      e

-- A row that has a byte in the bitmap can be written, and the write changes this row alone:
-- `get_valid` then reports the new flag for it and the old one for every other row.
pub get_valid-set_valid :
    (bitmap : List ℕ) (row other : ℕ) (valid : Bool)
    → row / 8 < length bitmap
    → (after : List ℕ) × (set_valid bitmap row valid ≡ some after)
      × (get_valid after other ≡ (if nat_beq row other then valid else get_valid bitmap other))
get_valid-set_valid bitmap row other valid inside =
    let (b, at) = get_elem?-some bitmap (row / 8) inside in
    let after = set bitmap (row / 8) (written b (row % 8) valid) in
    let found = get_elem?-set bitmap (row / 8) (other / 8) (written b (row % 8) valid) inside in
    (
      after,
      set_valid-some bitmap row valid at,
      elim (Bool-cases (nat_beq (row / 8) (other / 8))) [
        | inl equal ↦
            let same : row / 8 ≡ other / 8 = (nat_beq_iff _ _).0 equal in
            let old : get_elem? bitmap (other / 8) ≡ some b = rw (← same) at in
            ground (
              arith,
              get_valid-some bitmap other old,
              get_valid-some after other {b = written b (row % 8) valid} (ground (arith, found)),
              bit-written b (row % 8) (other % 8) valid (omega arith) (omega arith),
            )
        | inr different ↦
            let far : row ≢ other = ground arith in
            let kept : get_valid after other ≡ get_valid bitmap other =
              get_valid-ext after bitmap other (ground (arith, found)) in
            ground arith
      ],
    )

-- A write keeps the number of bytes.
pub set_valid-length :
    (bitmap : List ℕ) (row : ℕ) (valid : Bool) {after : List ℕ}
    → set_valid bitmap row valid ≡ some after
    → length after ≡ length bitmap
unfolding set_valid
set_valid-length bitmap row valid {after} e = elim (Option-cases (get_elem? bitmap (row / 8))) [
  | inl outside ↦ cc (rw (outside, set_valid) at e)
  | inr (b, at) ↦
      let done : set bitmap (row / 8) (written b (row % 8) valid) ≡ after =
        some-injective _ _ (sym (set_valid-some bitmap row valid at) ∙ e) in
      rw (← done) (length-set bitmap (row / 8) (written b (row % 8) valid))
]
