-- ===== src/Buffer/Dict.antt =====
-- dict.rs: the strings of a column as codes into a table of distinct strings.
pub mod RoundTrip
pub mod Nullable
use polars_metal.Base.{
  ℕ, ◌+◌, ◌%◌, ◌^◌, String, Bool, true, false, Option, none, some, List, [], ◌∷◌, ◌++◌, length,
  get_elem?, lookup, insert, string_eq,
}

-- The table and the map of one call, `dict` and `seen`.
pub record Dictionary : Type 0 where
  pub dict : List String
  pub seen : List (String × ℕ)

-- The code of one string: the one it has, or the next, which is entered.
pub code_of : String → Dictionary → Dictionary × ℕ
code_of s d = elim (lookup s d.seen) [
  | some c ↦ (d, c)
  | none ↦
      let idx = length d.dict % 2 ^ 32 in
      (record { dict = d.dict ++ s ∷ []; seen = insert s idx d.seen }, idx)
]

abbrev pub empty_dict : Dictionary
empty_dict = record { dict = []; seen = [] }

-- The loop of `build_dict`.
pub encode_strings : List String → Dictionary → List ℕ → Dictionary × List ℕ
encode_strings [] d codes = (d, codes)
encode_strings (s ∷ strings) d codes =
    let (d', code) = code_of s d in encode_strings strings d' (codes ++ code ∷ [])

unfoldable pub build_dict : List String → List String × List ℕ
unfolding encode_strings code_of lookup insert
build_dict strings = let (d, codes) = encode_strings strings empty_dict [] in (d.dict, codes)

-- The loop of `build_dict_nullable`.
pub encode_options :
    List (Option String) → Dictionary → List ℕ → List Bool → Dictionary × List ℕ × List Bool
encode_options [] d codes valid = (d, codes, valid)
encode_options (some s ∷ strings) d codes valid =
    let (d', code) = code_of s d in
    encode_options strings d' (codes ++ code ∷ []) (valid ++ true ∷ [])
encode_options (none ∷ strings) d codes valid =
    encode_options strings d (codes ++ 0 ∷ []) (valid ++ false ∷ [])

unfoldable pub build_dict_nullable : List (Option String) → List String × List ℕ × List Bool
unfolding encode_options code_of lookup insert
build_dict_nullable strings =
    let (d, codes, valid) = encode_options strings empty_dict [] [] in (d.dict, codes, valid)

-- `none` where the source panics on a code out of range.
unfoldable pub decode_dict : List String → List ℕ → Option (List String)
decode_dict dict [] = some []
decode_dict dict (c ∷ codes) = elim (get_elem? dict c) [
  | none ↦ none
  | some s ↦ elim (decode_dict dict codes) [ none ↦ none | some rest ↦ some (s ∷ rest) ]
]
