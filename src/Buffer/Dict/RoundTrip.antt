-- ===== src/Buffer/Dict/RoundTrip.antt =====
-- What the codes stand for.
use mathlib.Core.List.{append_assoc, append-nil}
use native.Mathlib.Nat.{mod-eq_of_lt}
use polars_metal.Base.{
  ℕ, ◌+◌, ◌^◌, ◌≤◌, ◌<◌, ◌≡◌, refl, sym, some, List, [], ◌∷◌, ◌++◌, arith, String, length,
  get_elem?, lookup, string_eq, IsNumbering, IsNumbering-nil, IsNumbering-insert, Codes,
  Codes-append, Codes-push, get_elem?-append_self, length-append, Option-cases, inl, inr,
  number_iff, ◌↔◌,
}
use polars_metal.Buffer.Dict.{
  Dictionary, code_of, encode_strings, empty_dict, build_dict, decode_dict,
}

-- Map and table agree, and the table has at most `n` strings.
pub record IsDictionary (n : ℕ) (d : Dictionary) : Type 0 where
  pub numbering : IsNumbering d.seen d.dict
  pub few : length d.dict ≤ n

-- One string: the table grows at its end at most, and the code stands for the string.
pub record IsCoded (n : ℕ) (s : String) (d e : Dictionary) (code : ℕ) : Type 0 where
  pub valid : IsDictionary (n + 1) e
  pub more : List String
  pub grown : e.dict ≡ d.dict ++ more
  pub stands : get_elem? e.dict code ≡ some s

code_of-IsCoded :
    {n : ℕ} {d : Dictionary} (s : String)
    → n < 2 ^ 32
    → IsDictionary n d
    → IsCoded n s d (code_of s d).0 (code_of s d).1
unfolding code_of
code_of-IsCoded {n} {d} s small h = elim (Option-cases (lookup s d.seen)) [
  | inl fresh ↦
      let room : length d.dict < 2 ^ 32 = omega (arith, h.few) in
      rw (fresh, code_of, mod-eq_of_lt room)
        (record {
          valid = record {
            numbering = IsNumbering-insert s h.numbering fresh;
            few = omega (arith, h.few, length-append {0} d.dict (s ∷ []));
          };
          more = s ∷ [];
          grown = refl;
          stands = get_elem?-append_self d.dict s [];
        })
  | inr (c, known) ↦
      rw (known, code_of)
        (record {
          valid = record { numbering = h.numbering; few = omega (arith, h.few) };
          more = [];
          grown = sym (append-nil d.dict);
          stands = h.numbering.to_table s c known;
        })
]

-- The loop of `build_dict` after the strings `done`.
encode_strings-Codes :
    (strings done : List String) (d : Dictionary) (codes : List ℕ)
    → length done + length strings ≤ 2 ^ 32
    → IsDictionary (length done) d
    → Codes d.dict done codes
    → (n : ℕ) × (IsDictionary n (encode_strings strings d codes).0)
      × Codes
          (encode_strings strings d codes).0.dict
          (done ++ strings)
          (encode_strings strings d codes).1
unfolding encode_strings
encode_strings-Codes [] done d codes small h coded = (length done, h, rw append-nil coded)
encode_strings-Codes (s ∷ strings) done d codes small h coded =
    let step = code_of-IsCoded s (omega arith) h in
    let (d', code) = code_of s d in
    let count : length (done ++ s ∷ []) ≡ length done + 1 = length-append {0} done (s ∷ []) in
    rw (sym (append_assoc done (s ∷ []) strings)) (
      encode_strings-Codes strings (done ++ s ∷ []) d' (codes ++ code ∷ []) (omega arith)
        (rw count step.valid)
        (Codes-push d'.dict done codes s code
          (rw step.grown (Codes-append d.dict step.more done codes coded)) step.stands))

build_dict-Codes :
    (strings : List String)
    → length strings ≤ 2 ^ 32
    → (d : Dictionary) × ((n : ℕ) × IsDictionary n d)
      × (d.dict ≡ (build_dict strings).0)
      × Codes (build_dict strings).0 strings (build_dict strings).1
unfolding build_dict
build_dict-Codes strings small =
    let (n, valid, coded) =
      encode_strings-Codes strings [] empty_dict [] (omega arith)
        (record { numbering = IsNumbering-nil; few = omega arith }) tt in
    ((encode_strings strings empty_dict []).0, (n, valid), refl, coded)

decode_dict-Codes :
    (dict strings : List String) (codes : List ℕ)
    → Codes dict strings codes
    → decode_dict dict codes ≡ some strings
unfolding decode_dict
decode_dict-Codes dict [] [] h = refl
decode_dict-Codes dict [] (c ∷ codes) h = absurd h
decode_dict-Codes dict (s ∷ strings) [] h = absurd h
decode_dict-Codes dict (s ∷ strings) (c ∷ codes) h =
    rw (h.0, decode_dict-Codes dict strings codes h.1, decode_dict) refl

-- For at most 2^32 strings, `decode_dict` turns the table and the codes of `build_dict` back
-- into the strings: no code is out of range.
pub decode_dict-build_dict :
    (strings : List String)
    → length strings ≤ 2 ^ 32
    → decode_dict (build_dict strings).0 (build_dict strings).1 ≡ some strings
decode_dict-build_dict strings small =
    let (d, valid, same, coded) = build_dict-Codes strings small in
    decode_dict-Codes _ strings _ coded

-- For at most 2^32 strings, two entries of the table of `build_dict` that are equal stand at one
-- place: a string has one code.
pub build_dict-distinct :
    (strings : List String) (a b : ℕ) {s t : String}
    → length strings ≤ 2 ^ 32
    → get_elem? (build_dict strings).0 a ≡ some s
    → get_elem? (build_dict strings).0 b ≡ some t
    → (a ≡ b) ↔ (s ≡ t)
build_dict-distinct strings a b small p q =
    let (d, (n, valid), same, coded) = build_dict-Codes strings small in
    number_iff valid.numbering (rw same p) (rw same q)
