-- ===== src/Base/Int.antt =====
-- Signed machine integers: a value and its two's complement bit pattern.
use Prim.Native.Nat.{ℕ, ◌-◌, ◌*◌, ◌^◌, ◌<◌}
use mathlib.Core.Path.{◌≡◌}
use native.Mathlib.Omega.{arith}
use polars_metal.Base.Tests.{ltb, if◌then◌else◌}

-- `negsuc n` is -(n + 1).
pub data ℤ : Type 0 where
  pos : ℕ → ℤ
  negsuc : ℕ → ℤ

-- The `w`-bit pattern `n` as a signed integer: a cast such as `n as i64`.
unfoldable pub to_signed : ℕ → ℕ → ℤ
to_signed w n = if ltb (2 * n) (2 ^ w) then pos n else negsuc (2 ^ w - n - 1)

-- The `w`-bit pattern of a signed integer: a cast such as `v as u64`.
unfoldable pub to_unsigned : ℕ → ℤ → ℕ
to_unsigned w (pos n) = n
to_unsigned w (negsuc n) = 2 ^ w - n - 1

pub to_unsigned-to_signed : (w n : ℕ) → n < 2 ^ w → to_unsigned w (to_signed w n) ≡ n
unfolding to_signed to_unsigned
to_unsigned-to_signed w n h = ground arith
