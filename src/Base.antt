-- ===== src/Base.antt =====
-- The names that the other modules share: the libraries', passed on, and those of the children.
pub mod Tests
pub mod Lists
pub mod Maps
pub mod Bits
pub mod Xor
pub mod Interner
pub mod Results
pub mod Int
pub use Tests.*
pub use Lists.*
pub use Maps.{lookup-insert, lookup-nil, beq_self}
unfoldable pub use Maps.{lookup, insert}
pub use Interner.*
pub use Results.{
  Result, ok, err, ◌>>=◌, ◌>>◌, fail_if, ok_or, >>=-eq-ok, ok-injective, Result-cases, Both,
  collect-Both,
}
unfoldable pub use Results.{collect}
pub use Int.{ℤ, pos, negsuc, to_unsigned-to_signed}
unfoldable pub use Int.{to_signed, to_unsigned}
pub use Prim.Native.Nat.{ℕ, zero, suc, ◌+◌, ◌-◌, ◌*◌, ◌/◌, ◌%◌, ◌^◌, ◌≤◌, ◌<◌, min, max}
pub use Prim.Native.Nat.{bit_and, bit_or, bit_xor}
pub use Prim.Native.String.{String}
pub use mathlib.Core.Path.{◌≡◌, refl, sym, ap, ap₂, ◌∙◌, subst}
pub use mathlib.Core.Logic.{◌≢◌, ◌↔◌, ◌⊎◌, inl, inr}
pub use mathlib.Core.Bool.{Bool, true, false, not, ◌&&◌, ◌||◌}
pub use mathlib.Core.Option.{Option, none, some}
pub use mathlib.Core.List.{List, [], ◌∷◌, ◌++◌, map}
pub use native.Mathlib.Omega.{arith}
