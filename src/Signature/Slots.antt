-- ===== src/Signature/Slots.antt =====
-- The slots that `intern` gives to columns.
use mathlib.Core.List.{append_assoc, append-nil}
use native.Mathlib.Nat.{mod-eq_of_lt}
use polars_metal.Base.{
  ℕ, suc, ◌+◌, ◌^◌, ◌≤◌, ◌<◌, ◌≡◌, refl, ap, sym, ◌∙◌, String, some, List, [], ◌∷◌, ◌++◌, ok,
  length, get_elem?, lookup, string_eq, arith, IsNumbering, IsNumbering-insert,
  get_elem?-append_left, get_elem?-append_self, length-append, Option-cases, inl, inr, >>=-eq-ok,
  ok-injective, subst,
}
use polars_metal.Plan.{MetalDtype}
use polars_metal.Signature.{Dtypes, SlotTable, lookup_dtype, intern, intern_all}

-- Map and order agree, and there are at most `n` slots.
pub record IsSlots (n : ℕ) (t : SlotTable) : Type 0 where
  pub numbering : IsNumbering t.slots t.order
  pub few : length t.order ≤ n

-- The table only grows at its end.
pub record Extends (t u : SlotTable) : Type 0 where
  pub more : List String
  pub grown : u.order ≡ t.order ++ more

pub Extends-refl : (t : SlotTable) → Extends t t
Extends-refl t = record { more = []; grown = sym (append-nil t.order) }

pub Extends-trans : {t u v : SlotTable} → Extends t u → Extends u v → Extends t v
Extends-trans {t} f g = record {
  more = f.more ++ g.more;
  grown = g.grown ∙ ap (λ l. l ++ g.more) f.grown ∙ append_assoc t.order f.more g.more;
}

-- A slot keeps its column.
pub Extends-slot :
    {t u : SlotTable} (i : ℕ) {name : String}
    → Extends t u
    → get_elem? t.order i ≡ some name
    → get_elem? u.order i ≡ some name
Extends-slot {t} i f h = rw f.grown (get_elem?-append_left t.order f.more i h)

pub record IsInterned (n : ℕ) (name : String) (t u : SlotTable) (slot : ℕ) : Type 0 where
  pub valid : IsSlots (suc n) u
  pub extends : Extends t u
  pub stands : get_elem? u.order slot ≡ some name

pub intern-IsInterned :
    {n : ℕ} {t : SlotTable} (name : String) (dtype : MetalDtype)
    → n < 2 ^ 16
    → IsSlots n t
    → IsInterned n name t (intern name dtype t).0 (intern name dtype t).1
unfolding intern
intern-IsInterned {n} {t} name dtype small h = elim (Option-cases (lookup name t.slots)) [
  | inl fresh ↦
      let room : length t.order < 2 ^ 16 = omega (arith, h.few) in
      rw (fresh, intern, mod-eq_of_lt room)
        (record {
          valid = record {
            numbering = IsNumbering-insert name h.numbering fresh;
            few = omega (arith, h.few, length-append {0} t.order (name ∷ []));
          };
          extends = record { more = name ∷ []; grown = refl };
          stands = get_elem?-append_self t.order name [];
        })
  | inr (slot, known) ↦
      rw (known, intern)
        (record {
          valid = record { numbering = h.numbering; few = omega (arith, h.few) };
          extends = Extends-refl t;
          stands = h.numbering.to_table name slot known;
        })
]

-- After the loop every column has a slot.
abbrev pub HaveSlots : SlotTable → List String → Type 0
HaveSlots t [] = Unit
HaveSlots t (c ∷ columns) = ((slot : ℕ) × (get_elem? t.order slot ≡ some c)) × HaveSlots t columns

pub intern_all-HaveSlots :
    (col_dtypes : Dtypes) (columns : List String) (n : ℕ) (t : SlotTable) {u : SlotTable}
    → n + length columns ≤ 2 ^ 16
    → IsSlots n t
    → intern_all col_dtypes columns t ≡ ok u
    → IsSlots (n + length columns) u × Extends t u × HaveSlots u columns
unfolding intern_all
intern_all-HaveSlots col_dtypes [] n t small h e =
    subst (λ v. IsSlots (n + length {A = String} []) v × Extends t v × HaveSlots v [])
      (ok-injective e)
      (record { numbering = h.numbering; few = omega (arith, h.few) }, Extends-refl t, tt)
intern_all-HaveSlots col_dtypes (c ∷ columns) n t small h e =
    let (dt, found, rest) = >>=-eq-ok (lookup_dtype c col_dtypes) _ e in
    let one = intern-IsInterned {n = n} {t = t} c dt (omega arith) h in
    let later =
      intern_all-HaveSlots col_dtypes columns (suc n) (intern c dt t).0 (omega arith) one.valid
        rest in
    let count : suc n + length columns ≡ n + length (c ∷ columns) = omega arith in
    (
      rw (← count) later.0,
      Extends-trans one.extends later.1,
      ((_, Extends-slot (intern c dt t).1 later.1 one.stands), later.2),
    )
