-- ===== src/Predicates/Floats.antt =====
-- cmp_f64.metal, the comparisons on bit patterns of doubles, and those of signed integers.
use polars_metal.Base.{
  ℕ, ◌*◌, ◌/◌, ◌%◌, ◌^◌, bit_and, bit_or, bit_xor, Bool, true, false, not, ◌&&◌, ◌||◌, ℤ, pos,
  negsuc, to_signed, ◌==◌, ltb, leb, if◌then◌else◌, nat_eq,
}
use polars_metal.Plan.{CompareOp}

-- In 64 bits.
abbrev pub f64_is_nan : ℕ → Bool
f64_is_nan bits =
    (bit_and (bits / 2 ^ 52) 0x7FF == 0x7FF) && not (bit_and bits 0x000FFFFFFFFFFFFF == 0)

abbrev pub both_are_zero : ℕ → ℕ → Bool
both_are_zero a b = bit_or a b * 2 % 2 ^ 64 == 0

abbrev pub f64_total_order_key : ℕ → ℕ
f64_total_order_key bits =
    bit_xor bits (if bits / 2 ^ 63 == 0 then 0x8000000000000000 else 0xFFFFFFFFFFFFFFFF)

abbrev pub f64_eq : ℕ → ℕ → Bool
f64_eq a b =
    if f64_is_nan a || f64_is_nan b then false else if both_are_zero a b then true else a == b

abbrev pub f64_lt : ℕ → ℕ → Bool
f64_lt a b =
    if f64_is_nan a || f64_is_nan b
    then false
    else if both_are_zero a b
    then false
    else ltb (f64_total_order_key a) (f64_total_order_key b)

abbrev pub f64_le : ℕ → ℕ → Bool
f64_le a b =
    if f64_is_nan a || f64_is_nan b
    then false
    else if both_are_zero a b
    then true
    else leb (f64_total_order_key a) (f64_total_order_key b)

abbrev pub f64_gt : ℕ → ℕ → Bool
f64_gt a b =
    if f64_is_nan a || f64_is_nan b
    then false
    else if both_are_zero a b
    then false
    else ltb (f64_total_order_key b) (f64_total_order_key a)

abbrev pub f64_ge : ℕ → ℕ → Bool
f64_ge a b =
    if f64_is_nan a || f64_is_nan b
    then false
    else if both_are_zero a b
    then true
    else leb (f64_total_order_key b) (f64_total_order_key a)

abbrev pub f64_ne : ℕ → ℕ → Bool
f64_ne a b =
    if f64_is_nan a || f64_is_nan b then true else if both_are_zero a b then false else not (a == b)

-- The f64 kernel of an operation.
unfoldable pub f64_op : CompareOp → ℕ → ℕ → Bool
f64_op CompareOp.eq = f64_eq
f64_op CompareOp.ne = f64_ne
f64_op CompareOp.lt = f64_lt
f64_op CompareOp.le = f64_le
f64_op CompareOp.gt = f64_gt
f64_op CompareOp.ge = f64_ge

abbrev pub int_lt : ℤ → ℤ → Bool
int_lt (pos a) (pos b) = ltb a b
int_lt (pos a) (negsuc b) = false
int_lt (negsuc a) (pos b) = true
int_lt (negsuc a) (negsuc b) = ltb b a

abbrev pub int_eq : ℤ → ℤ → Bool
int_eq (pos a) (pos b) = a == b
int_eq (pos a) (negsuc b) = false
int_eq (negsuc a) (pos b) = false
int_eq (negsuc a) (negsuc b) = a == b

-- The operators of MSL on signed integers.
abbrev pub int_op : CompareOp → ℤ → ℤ → Bool
int_op CompareOp.eq x y = int_eq x y
int_op CompareOp.ne x y = not (int_eq x y)
int_op CompareOp.lt x y = int_lt x y
int_op CompareOp.le x y = not (int_lt y x)
int_op CompareOp.gt x y = int_lt y x
int_op CompareOp.ge x y = not (int_lt x y)

-- The i64 kernel of an operation, of cmp_i64.metal, on bit patterns.
unfoldable pub i64_op : CompareOp → ℕ → ℕ → Bool
unfolding to_signed
i64_op op a b = int_op op (to_signed 64 a) (to_signed 64 b)
