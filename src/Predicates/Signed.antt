-- ===== src/Predicates/Signed.antt =====
-- The comparisons of i64 patterns are those of an order: half of the range is added in 64 bits, so
-- that the patterns are ordered as the signed integers are.
use polars_metal.Base.{ℕ, ◌+◌, ◌%◌, ◌^◌, ◌<◌, ◌≡◌, Bool, not, ◌==◌, nat_eq, ltb, to_signed, arith}
use polars_metal.Plan.{CompareOp}
use polars_metal.Predicates.Floats.{i64_op}

abbrev pub shifted : ℕ → ℕ
shifted a = (a + 2 ^ 63) % 2 ^ 64

abbrev pub ordered : CompareOp → ℕ → ℕ → Bool
ordered CompareOp.eq x y = x == y
ordered CompareOp.ne x y = not (x == y)
ordered CompareOp.lt x y = ltb x y
ordered CompareOp.le x y = not (ltb y x)
ordered CompareOp.gt x y = ltb y x
ordered CompareOp.ge x y = not (ltb x y)

-- The comparison of two i64 by their patterns.
abbrev pub signed : CompareOp → ℕ → ℕ → Bool
signed op a b = ordered op (shifted a) (shifted b)

pub i64_op-signed :
    (op : CompareOp) (a b : ℕ) → a < 2 ^ 64 → b < 2 ^ 64 → i64_op op a b ≡ signed op a b
unfolding i64_op to_signed
i64_op-signed CompareOp.eq a b p q = ground arith
i64_op-signed CompareOp.ne a b p q = ground arith
i64_op-signed CompareOp.lt a b p q = ground arith
i64_op-signed CompareOp.le a b p q = ground arith
i64_op-signed CompareOp.gt a b p q = ground arith
i64_op-signed CompareOp.ge a b p q = ground arith
