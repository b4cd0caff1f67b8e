-- ===== src/Signature/Aliases.antt =====
-- A signature does not depend on the aliases.
use polars_metal.Base.{◌≡◌, refl, List, [], ◌∷◌, map, Result-cases, inl, inr}
use polars_metal.Plan.{AggSpec}
use polars_metal.Signature.{Dtypes, SlotTable, canon_spec, canon_specs, no_slots, from_specs}
use polars_metal.Signature.Restore.{without_alias}

canon_spec-without_alias :
    (d : Dtypes) (spec : AggSpec) (t : SlotTable)
    → canon_spec d (without_alias spec) t ≡ canon_spec d spec t
unfolding canon_spec
canon_spec-without_alias d (AggSpec.simple input_col op alias) t = refl
canon_spec-without_alias d (AggSpec.expression expr op alias) t = refl
canon_spec-without_alias d (AggSpec.length alias) t = refl

canon_specs-without_alias :
    (d : Dtypes) (specs : List AggSpec) (t : SlotTable)
    → canon_specs d (map without_alias specs) t ≡ canon_specs d specs t
unfolding canon_specs
canon_specs-without_alias d [] t = refl
canon_specs-without_alias d (spec ∷ specs) t = elim (Result-cases (canon_spec d spec t)) [
  | inr (one, e) ↦
      rw (canon_spec-without_alias d spec t, e, canon_specs-without_alias d specs one.0) refl
  | inl (why, e) ↦ rw (canon_spec-without_alias d spec t, e) refl
]

pub from_specs-without_alias :
    (d : Dtypes) (specs : List AggSpec)
    → from_specs (map without_alias specs) d ≡ from_specs specs d
unfolding from_specs
from_specs-without_alias d specs = rw (canon_specs-without_alias d specs no_slots) refl
