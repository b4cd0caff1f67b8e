-- ===== src/Base/Results.antt =====
-- `Result<A, E>`, and the `?` operator as a bind.
use mathlib.Core.Path.{◌≡◌, refl, ap}
use mathlib.Core.Logic.{◌⊎◌, inl, inr}
use mathlib.Core.Bool.{Bool, true, false}
use mathlib.Core.List.{List, [], ◌∷◌}
use mathlib.Core.Option.{Option, none, some}
use polars_metal.Base.Lists.{All}

pub data Result {ℓ κ} (E : Type ℓ) (A : Type κ) : Type (ℓ ⊔ κ) where
  ok : A → Result E A
  err : E → Result E A

-- `m?` in front of the rest of the block, with its value and without.
infixl 5 ◌>>=◌ ◌>>◌
abbrev pub ◌>>=◌ {ℓ κ μ} :
    {E : Type ℓ} {A : Type κ} {C : Type μ} → Result E A → (A → Result E C) → Result E C
err e >>= rest = err e
ok value >>= rest = rest value

abbrev pub ◌>>◌ {ℓ μ} : {E : Type ℓ} {C : Type μ} → Result E (Unit {0}) → Result E C → Result E C
check >> rest = check >>= λ _. rest

-- `if bad { return Err(e); }`
abbrev pub fail_if {ℓ} : {E : Type ℓ} → Bool → E → Result E (Unit {0})
fail_if true e = err e
fail_if false e = ok tt

-- `o.ok_or(e)`
abbrev pub ok_or {ℓ κ} : {E : Type ℓ} {A : Type κ} → Option A → E → Result E A
ok_or none e = err e
ok_or (some a) e = ok a

pub Result-cases {ℓ κ} :
    {E : Type ℓ} {A : Type κ} (r : Result E A) → ((e : E) × (r ≡ err e)) ⊎ ((a : A) × (r ≡ ok a))
Result-cases (ok a) = inr (a, refl)
Result-cases (err e) = inl (e, refl)

-- `xs.iter().map(f).collect::<Result<Vec<_>, _>>()`
unfoldable pub collect {ℓ κ μ} :
    {E : Type ℓ} {A : Type κ} {B : Type μ} → (A → Result E B) → List A → Result E (List B)
collect f [] = ok []
collect f (x ∷ xs) = f x >>= λ y. collect f xs >>= λ ys. ok (y ∷ ys)

pub >>=-eq-ok {ℓ κ μ} :
    {E : Type ℓ} {A : Type κ} {C : Type μ} (m : Result E A) (rest : A → Result E C) {result : C}
    → (m >>= rest) ≡ ok result
    → (value : A) × (m ≡ ok value) × (rest value ≡ ok result)
>>=-eq-ok (err e) rest h = cc
>>=-eq-ok (ok value) rest h = (value, refl, h)

ok_or_else {ℓ κ} : {E : Type ℓ} {A : Type κ} → A → Result E A → A
ok_or_else d (ok a) = a
ok_or_else d (err e) = d

pub ok-injective {ℓ κ} :
    {E : Type ℓ} {A : Type κ} {a b : A} → ◌≡◌ {A = Result E A} (ok a) (ok b) → a ≡ b
unfolding ok_or_else
ok-injective {a} h = ap (ok_or_else a) h

-- Two lists of one length whose elements are related one by one.
abbrev pub Both {ℓ κ} : {A : Type ℓ} {B : Type κ} → (A → B → Type 0) → List A → List B → Type 0
Both R [] [] = Unit
Both R [] (y ∷ ys) = ⊥
Both R (x ∷ xs) [] = ⊥
Both R (x ∷ xs) (y ∷ ys) = R x y × Both R xs ys

-- Where every step succeeds, so does the whole.
pub collect-Both {ℓ κ} :
    {E : Type ℓ} {A B : Type κ} (f : A → Result E B) (P : A → Type 0) (R : A → B → Type 0)
    (xs : List A)
    → ((x : A) → P x → (y : B) × (f x ≡ ok y) × R x y)
    → All P xs
    → (ys : List B) × (collect f xs ≡ ok ys) × Both R xs ys
unfolding collect
collect-Both f P R [] step h = ([], refl, tt)
collect-Both f P R (x ∷ xs) step h =
    let (y, here, first) = step x h.0 in
    let (ys, there, later) = collect-Both f P R xs step h.1 in
    (y ∷ ys, rw (here, there) refl, (first, later))
