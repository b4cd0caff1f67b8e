-- ===== src/Base/Maps.antt =====
-- `HashMap` and `BTreeMap` as association lists with one entry a key; their order is not used.
use mathlib.Core.Path.{◌≡◌, refl}
use mathlib.Core.Bool.{true}
use mathlib.Core.List.{List, [], ◌∷◌}
use mathlib.Core.Option.{Option, none, some}
use native.Mathlib.Omega.{arith}
use polars_metal.Base.Tests.{Eq, ◌==◌, if◌then◌else◌}

module _ {ℓ κ} {K : Type ℓ} {V : Type κ} ⦃e : Eq K⦄ where
  unfoldable pub lookup : K → List (K × V) → Option V
  lookup key [] = none
  lookup key ((other, value) ∷ rest) = if other == key then some value else lookup key rest

  unfoldable pub insert : K → V → List (K × V) → List (K × V)
  insert key new [] = (key, new) ∷ []
  insert key new ((other, value) ∷ rest) =
      if other == key then (other, new) ∷ rest else (other, value) ∷ insert key new rest

  pub lookup-insert :
      (key asked : K) (new : V) (m : List (K × V))
      → lookup asked (insert key new m) ≡ (if key == asked then some new else lookup asked m)
  unfolding lookup insert
  lookup-insert key asked new [] = refl
  lookup-insert key asked new ((other, value) ∷ rest) = ground (
    arith,
    lookup-insert key asked new rest,
    e.same_iff key asked,
    e.same_iff other asked,
    e.same_iff other key,
  )

pub beq_self {ℓ} : {K : Type ℓ} ⦃e : Eq K⦄ (k : K) → k == k ≡ true
beq_self ⦃e⦄ k = (e.same_iff k k).1 refl

pub lookup-nil {ℓ κ} : {K : Type ℓ} {V : Type κ} ⦃e : Eq K⦄ (k : K) → lookup {V = V} k [] ≡ none
unfolding lookup
lookup-nil k = refl
