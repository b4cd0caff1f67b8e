-- ===== src/Buffer/Dict/Nullable.antt =====
-- `build_dict_nullable` against `build_dict`.
use mathlib.Core.List.{append_assoc, append-nil}
use polars_metal.Base.{
  ℕ, ◌≡◌, refl, ap, ◌∙◌, none, some, List, [], ◌∷◌, ◌++◌, String, Option, Bool, true, false, map,
}
use polars_metal.Buffer.Dict.{
  Dictionary, code_of, encode_strings, encode_options, empty_dict, build_dict, build_dict_nullable,
}

-- The strings that are there.
abbrev pub present : List (Option String) → List String
present [] = []
present (some s ∷ strings) = s ∷ present strings
present (none ∷ strings) = present strings

abbrev pub is_some : Option String → Bool
is_some none = false
is_some (some s) = true

-- The codes of the present strings at their rows, and 0 at the others.
abbrev pub spread : List (Option String) → List ℕ → List ℕ
spread [] codes = []
spread (none ∷ strings) codes = 0 ∷ spread strings codes
spread (some s ∷ strings) [] = []
spread (some s ∷ strings) (c ∷ codes) = c ∷ spread strings codes

-- The codes gathered so far are only carried along.
encode_strings-append :
    (strings : List String) (d : Dictionary) (codes : List ℕ)
    → encode_strings strings d codes
      ≡ ((encode_strings strings d []).0, codes ++ (encode_strings strings d []).1)
unfolding encode_strings
encode_strings-append [] d codes = rw append-nil refl
encode_strings-append (s ∷ strings) d codes =
    let (d', code) = code_of s d in
    rw
      (
        encode_strings-append strings d' (codes ++ code ∷ []),
        encode_strings-append strings d' (code ∷ []),
      )
      (ap (λ l. ((encode_strings strings d' []).0, l))
        (append_assoc codes (code ∷ []) (encode_strings strings d' []).1))

encode_options-eq :
    (strings : List (Option String)) (d : Dictionary) (codes : List ℕ) (valid : List Bool)
    → encode_options strings d codes valid ≡ (
      (encode_strings (present strings) d []).0,
      codes ++ spread strings (encode_strings (present strings) d []).1,
      valid ++ map is_some strings,
    )
unfolding encode_options encode_strings
encode_options-eq [] d codes valid = rw (append-nil codes, append-nil valid) refl
encode_options-eq (none ∷ strings) d codes valid =
    encode_options-eq strings d (codes ++ 0 ∷ []) (valid ++ false ∷ [])
    ∙ rw
        (
          append_assoc codes (0 ∷ []) (spread strings (encode_strings (present strings) d []).1),
          append_assoc valid (false ∷ []) (map is_some strings),
        )
        refl
encode_options-eq (some s ∷ strings) d codes valid =
    let (d', code) = code_of s d in
    let rest = encode_strings (present strings) d' [] in
    let step : encode_strings (s ∷ present strings) d [] ≡ (rest.0, code ∷ rest.1) =
      encode_strings-append (present strings) d' (code ∷ []) in
    rw step (
      encode_options-eq strings d' (codes ++ code ∷ []) (valid ++ true ∷ [])
      ∙ rw
          (
            append_assoc codes (code ∷ []) (spread strings rest.1),
            append_assoc valid (true ∷ []) (map is_some strings),
          )
          refl)

-- `build_dict_nullable` enters the strings that are there as `build_dict` does, with one code to
-- each row that has a string, a 0 to each null, and a flag that tells the two apart.
pub build_dict_nullable-build_dict :
    (strings : List (Option String))
    → build_dict_nullable strings ≡ (
      (build_dict (present strings)).0,
      spread strings (build_dict (present strings)).1,
      map is_some strings,
    )
unfolding build_dict_nullable build_dict
build_dict_nullable-build_dict strings =
    ap (λ (r : Dictionary × List ℕ × List Bool). (r.0.dict, r.1, r.2))
      (encode_options-eq strings empty_dict [] [])
