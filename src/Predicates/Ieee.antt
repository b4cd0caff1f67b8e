-- ===== src/Predicates/Ieee.antt =====
-- The comparisons of doubles are those of IEEE 754.
use native.Mathlib.Nat.{one-le-pow, pow-succ'}
use polars_metal.Base.Bits.{bit_and_mask, bit_or_low, mod_double}
use polars_metal.Base.Xor.{bit_xor_above, bit_xor_ones}
use polars_metal.Base.{
  ℕ, zero, suc, ◌+◌, ◌-◌, ◌*◌, ◌/◌, ◌%◌, ◌^◌, ◌≤◌, ◌<◌, ◌≡◌, refl, ap, sym, ◌∙◌, inl, inr, max,
  bit_or, Bool, true, false, not, ◌||◌, ℤ, pos, negsuc, ◌==◌, ltb, leb, if◌then◌else◌, nat_eq,
  Bool-cases, arith,
}
use polars_metal.Plan.{CompareOp}
use polars_metal.Predicates.Floats.{
  f64_is_nan, both_are_zero, f64_total_order_key, f64_op, int_lt, int_eq, int_op,
}

-- The magnitudes above infinity's are not numbers.
abbrev pub is_nan : ℕ → Bool
is_nan bits = ltb 0x7FF0000000000000 (bits % 2 ^ 63)

-- The magnitude with its sign, an integer that is ordered as the numbers are; -0 is 0.
abbrev pub signed_magnitude : ℕ → ℤ
signed_magnitude bits =
    if ltb bits (2 ^ 63)
    then pos bits
    else if bits == 2 ^ 63
    then pos 0
    else negsuc (bits - 2 ^ 63 - 1)

abbrev pub unordered : CompareOp → Bool
unordered CompareOp.eq = false
unordered CompareOp.ne = true
unordered CompareOp.lt = false
unordered CompareOp.le = false
unordered CompareOp.gt = false
unordered CompareOp.ge = false

-- With a NaN only `ne` holds; other doubles compare as numbers.
abbrev pub ieee : CompareOp → ℕ → ℕ → Bool
ieee op a b =
    if is_nan a || is_nan b
    then unordered op
    else int_op op (signed_magnitude a) (signed_magnitude b)

f64_is_nan-is_nan : (a : ℕ) → a < 2 ^ 64 → f64_is_nan a ≡ is_nan a
f64_is_nan-is_nan a h = ground (arith, bit_and_mask 11 (a / 2 ^ 52), bit_and_mask 52 a)

or_zero : (k a b : ℕ) → bit_or a b % 2 ^ k ≡ 0 → (a % 2 ^ k ≡ 0) × (b % 2 ^ k ≡ 0)
or_zero zero a b h = (omega arith, omega arith)
or_zero (suc k) a b h =
    let e = pow-succ' 2 k in
    let p : 0 < 2 ^ k = one-le-pow k 2 (omega arith) in
    let low = bit_or_low a b in
    let split : bit_or a b % 2 ^ suc k ≡ bit_or a b / 2 % 2 ^ k * 2 + bit_or a b % 2 =
      rw e (mod_double (bit_or a b) (2 ^ k) p) in
    let half : bit_or a b / 2 ≡ bit_or (a / 2) (b / 2) = ground (arith, low) in
    let bits : max (a % 2) (b % 2) ≡ 0 = ground (arith, low, split, h) in
    let more : bit_or (a / 2) (b / 2) % 2 ^ k ≡ 0 = rw (← half) (omega (arith, split, h)) in
    let (left, right) = or_zero k (a / 2) (b / 2) more in
    (
      rw e (mod_double a (2 ^ k) p ∙ omega (arith, left, bits)),
      rw e (mod_double b (2 ^ k) p ∙ omega (arith, right, bits)),
    )

zero_or : (k a b : ℕ) → a % 2 ^ k ≡ 0 → b % 2 ^ k ≡ 0 → bit_or a b % 2 ^ k ≡ 0
zero_or zero a b g h = omega arith
zero_or (suc k) a b g h =
    let e = pow-succ' 2 k in
    let p : 0 < 2 ^ k = one-le-pow k 2 (omega arith) in
    let low = bit_or_low a b in
    let left : a / 2 % 2 ^ k * 2 + a % 2 ≡ 0 = sym (rw e (mod_double a (2 ^ k) p)) ∙ g in
    let right : b / 2 % 2 ^ k * 2 + b % 2 ≡ 0 = sym (rw e (mod_double b (2 ^ k) p)) ∙ h in
    let more = zero_or k (a / 2) (b / 2) (omega (arith, left)) (omega (arith, right)) in
    let half : bit_or a b / 2 ≡ bit_or (a / 2) (b / 2) = ground (arith, low) in
    rw e (mod_double (bit_or a b) (2 ^ k) p ∙ rw half (ground (arith, low, left, right, more)))

-- Where a pattern stands: its magnitude, its key and its number.
data Place (a : ℕ) : Type 0 where
  above :
      (m : ℕ)
      → m < 2 ^ 63
      → a ≡ m
      → f64_total_order_key a ≡ 2 ^ 63 + m
      → signed_magnitude a ≡ pos m
      → Place a
  minus_zero :
      a ≡ 2 ^ 63 → f64_total_order_key a ≡ 2 ^ 63 - 1 → signed_magnitude a ≡ pos 0 → Place a
  below :
      (m : ℕ)
      → m < 2 ^ 63 - 1
      → a ≡ 2 ^ 63 + m + 1
      → f64_total_order_key a ≡ 2 ^ 63 - 2 - m
      → signed_magnitude a ≡ negsuc m
      → Place a

place : (a : ℕ) → a < 2 ^ 64 → Place a
place a h = elim (Bool-cases (ltb a (2 ^ 63))) [
  | inl small ↦
      let less : a < 2 ^ 63 = ground (arith, small) in
      let top : a / 2 ^ 63 ≡ 0 = omega (arith, less) in
      above a less refl (ground (arith, top, bit_xor_above 63 a 1 less)) (rw small refl)
  | inr large ↦
      let past : 2 ^ 63 ≤ a = ground (arith, large) in
      let top : a / 2 ^ 63 ≡ 1 = omega (arith, past, h) in
      let key : f64_total_order_key a ≡ 2 ^ 64 - 1 - a = ground (arith, top, bit_xor_ones 64 a h) in
      elim (Bool-cases (a == 2 ^ 63)) [
        | inl sign ↦
            let e : a ≡ 2 ^ 63 = ground (arith, sign) in
            minus_zero e (key ∙ omega (arith, e)) (rw (large, sign) refl)
        | inr more ↦
            let far : 2 ^ 63 < a = ground (arith, past, more) in
            below (a - 2 ^ 63 - 1) (omega (arith, far, h)) (omega (arith, far))
              (key ∙ omega (arith, far, h)) (rw (large, more) refl)
      ]
]

zeros : (a b : ℕ) → both_are_zero a b ≡ true → (a % 2 ^ 63 ≡ 0) × (b % 2 ^ 63 ≡ 0)
zeros a b h = or_zero 63 a b (ground (arith, h))

no_zeros : (a b : ℕ) → both_are_zero a b ≡ false → a % 2 ^ 63 ≡ 0 → b % 2 ^ 63 ≡ 0 → ⊥
no_zeros a b h p q = let e = zero_or 63 a b p q in ground (arith, h, e)

-- The order of the keys, but for the zeros, is that of the numbers.
less :
    (a b : ℕ)
    → Place a
    → Place b
    → (if both_are_zero a b then false else ltb (f64_total_order_key a) (f64_total_order_key b))
      ≡ int_lt (signed_magnitude a) (signed_magnitude b)
less a b p q = elim (Bool-cases (both_are_zero a b)) [
  | inl both ↦ let (za, zb) = zeros a b both in rw both (zero_less a b p q za zb)
  | inr apart ↦ rw apart (key_less a b p q (no_zeros a b apart))
]
  where
    zero_less :
        (a b : ℕ)
        → Place a
        → Place b
        → a % 2 ^ 63 ≡ 0
        → b % 2 ^ 63 ≡ 0
        → false ≡ int_lt (signed_magnitude a) (signed_magnitude b)
    zero_less a b (above m h e k s) (above n i f l t) za zb =
        rw (s, t) (ground (arith, h, i, e, f, za, zb))
    zero_less a b (above m h e k s) (minus_zero f l t) za zb = rw (s, t) (ground (arith, h, e, za))
    zero_less a b (above m h e k s) (below n i f l t) za zb = absurd (omega (arith, i, f, zb))
    zero_less a b (minus_zero e k s) (above n i f l t) za zb = rw (s, t) (ground (arith, i, f, zb))
    zero_less a b (minus_zero e k s) (minus_zero f l t) za zb = rw (s, t) refl
    zero_less a b (minus_zero e k s) (below n i f l t) za zb = absurd (omega (arith, i, f, zb))
    zero_less a b (below m h e k s) q za zb = absurd (omega (arith, h, e, za))

    key_less :
        (a b : ℕ)
        → Place a
        → Place b
        → (a % 2 ^ 63 ≡ 0 → b % 2 ^ 63 ≡ 0 → ⊥)
        → ltb (f64_total_order_key a) (f64_total_order_key b)
          ≡ int_lt (signed_magnitude a) (signed_magnitude b)
    key_less a b (above m h e k s) (above n i f l t) apart = rw (s, t, k, l) (ground arith)
    key_less a b (above m h e k s) (minus_zero f l t) apart = rw (s, t, k, l) (ground arith)
    key_less a b (above m h e k s) (below n i f l t) apart = rw (s, t, k, l) (ground (arith, i))
    key_less a b (minus_zero e k s) (above n i f l t) apart =
        rw (s, t, k, l) (ground (arith, e, f, i, apart))
    key_less a b (minus_zero e k s) (minus_zero f l t) apart =
        absurd (apart (omega (arith, e)) (omega (arith, f)))
    key_less a b (minus_zero e k s) (below n i f l t) apart = rw (s, t, k, l) (ground (arith, i))
    key_less a b (below m h e k s) (above n i f l t) apart = rw (s, t, k, l) (ground (arith, h))
    key_less a b (below m h e k s) (minus_zero f l t) apart = rw (s, t, k, l) (ground (arith, h))
    key_less a b (below m h e k s) (below n i f l t) apart = rw (s, t, k, l) (ground (arith, h, i))

-- The patterns are one, but for the zeros, exactly when the numbers are.
equal :
    (a b : ℕ)
    → Place a
    → Place b
    → (if both_are_zero a b then true else a == b)
      ≡ int_eq (signed_magnitude a) (signed_magnitude b)
equal a b p q = elim (Bool-cases (both_are_zero a b)) [
  | inl both ↦ let (za, zb) = zeros a b both in rw both (zero_equal a b p q za zb)
  | inr apart ↦ rw apart (bits_equal a b p q (no_zeros a b apart))
]
  where
    zero_equal :
        (a b : ℕ)
        → Place a
        → Place b
        → a % 2 ^ 63 ≡ 0
        → b % 2 ^ 63 ≡ 0
        → true ≡ int_eq (signed_magnitude a) (signed_magnitude b)
    zero_equal a b (above m h e k s) (above n i f l t) za zb =
        rw (s, t) (ground (arith, h, i, e, f, za, zb))
    zero_equal a b (above m h e k s) (minus_zero f l t) za zb = rw (s, t) (ground (arith, h, e, za))
    zero_equal a b (above m h e k s) (below n i f l t) za zb = absurd (omega (arith, i, f, zb))
    zero_equal a b (minus_zero e k s) (above n i f l t) za zb = rw (s, t) (ground (arith, i, f, zb))
    zero_equal a b (minus_zero e k s) (minus_zero f l t) za zb = rw (s, t) refl
    zero_equal a b (minus_zero e k s) (below n i f l t) za zb = absurd (omega (arith, i, f, zb))
    zero_equal a b (below m h e k s) q za zb = absurd (omega (arith, h, e, za))

    bits_equal :
        (a b : ℕ)
        → Place a
        → Place b
        → (a % 2 ^ 63 ≡ 0 → b % 2 ^ 63 ≡ 0 → ⊥)
        → (a == b) ≡ int_eq (signed_magnitude a) (signed_magnitude b)
    bits_equal a b (above m h e k s) (above n i f l t) apart = rw (s, t, e, f) refl
    bits_equal a b (above m h e k s) (minus_zero f l t) apart =
        rw (s, t) (ground (arith, h, e, f, apart))
    bits_equal a b (above m h e k s) (below n i f l t) apart = rw (s, t) (ground (arith, h, e, f))
    bits_equal a b (minus_zero e k s) (above n i f l t) apart =
        rw (s, t) (ground (arith, e, f, i, apart))
    bits_equal a b (minus_zero e k s) (minus_zero f l t) apart =
        absurd (apart (omega (arith, e)) (omega (arith, f)))
    bits_equal a b (minus_zero e k s) (below n i f l t) apart = rw (s, t) (ground (arith, e, f))
    bits_equal a b (below m h e k s) (above n i f l t) apart = rw (s, t) (ground (arith, i, e, f))
    bits_equal a b (below m h e k s) (minus_zero f l t) apart = rw (s, t) (ground (arith, e, f))
    bits_equal a b (below m h e k s) (below n i f l t) apart = rw (s, t) (ground (arith, e, f))

zero_sym : (a b : ℕ) → both_are_zero a b ≡ both_are_zero b a
zero_sym a b = elim (Bool-cases (both_are_zero a b)) [
  | inl both ↦
      let (za, zb) = zeros a b both in
      elim (Bool-cases (both_are_zero b a)) [
        | inl back ↦ both ∙ sym back
        | inr apart ↦ absurd (no_zeros b a apart zb za)
      ]
  | inr apart ↦ elim (Bool-cases (both_are_zero b a)) [
    | inl back ↦ let (zb, za) = zeros b a back in absurd (no_zeros a b apart za zb)
    | inr none ↦ apart ∙ sym none
  ]
]

at_most :
    (zero : Bool) (x y : ℕ)
    → (if zero then true else leb x y) ≡ not (if zero then false else ltb y x)
at_most true x y = refl
at_most false x y = ground arith

-- Doubles that are numbers.
ordered :
    (op : CompareOp) (a b : ℕ)
    → Place a
    → Place b
    → f64_is_nan a ≡ false
    → f64_is_nan b ≡ false
    → f64_op op a b ≡ int_op op (signed_magnitude a) (signed_magnitude b)
unfolding f64_op
ordered CompareOp.eq a b p q g h = rw (g, h) (equal a b p q)
ordered CompareOp.ne a b p q g h =
    rw (g, h, ← equal a b p q) (distinct (both_are_zero a b) (a == b))
  where
    distinct :
        (zero same : Bool) → (if zero then false else not same) ≡ not (if zero then true else same)
    distinct true same = refl
    distinct false same = refl
ordered CompareOp.lt a b p q g h = rw (g, h) (less a b p q)
ordered CompareOp.gt a b p q g h = rw (g, h, zero_sym a b) (less b a q p)
ordered CompareOp.le a b p q g h =
    rw (g, h, zero_sym a b)
      (at_most (both_are_zero b a) (f64_total_order_key a) (f64_total_order_key b)
        ∙ ap not (less b a q p))
ordered CompareOp.ge a b p q g h =
    rw (g, h)
      (at_most (both_are_zero a b) (f64_total_order_key b) (f64_total_order_key a)
        ∙ ap not (less a b p q))

either_nan :
    (op : CompareOp) (a b : ℕ) → f64_is_nan a || f64_is_nan b ≡ true → f64_op op a b ≡ unordered op
unfolding f64_op
either_nan CompareOp.eq a b h = rw h refl
either_nan CompareOp.ne a b h = rw h refl
either_nan CompareOp.lt a b h = rw h refl
either_nan CompareOp.le a b h = rw h refl
either_nan CompareOp.gt a b h = rw h refl
either_nan CompareOp.ge a b h = rw h refl

-- The f64 kernels, which have only integers, compare as IEEE 754 does: with a NaN on a side only
-- `ne` holds, and numbers compare as numbers, the two zeros as one.
pub f64_op-ieee : (op : CompareOp) (a b : ℕ) → a < 2 ^ 64 → b < 2 ^ 64 → f64_op op a b ≡ ieee op a b
f64_op-ieee op a b p q =
    let g = f64_is_nan-is_nan a p in
    let h = f64_is_nan-is_nan b q in
    elim (Bool-cases (is_nan a)) [
      | inl nan ↦ rw nan (either_nan op a b (rw (g, nan) refl))
      | inr number ↦ elim (Bool-cases (is_nan b)) [
        | inl nan ↦ rw (number, nan) (either_nan op a b (rw (g, h, number, nan) refl))
        | inr number' ↦
            rw (number, number') (ordered op a b (place a p) (place b q) (g ∙ number) (h ∙ number'))
      ]
    ]
