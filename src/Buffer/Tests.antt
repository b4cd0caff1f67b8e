-- ===== src/Buffer/Tests.antt =====
-- The dictionaries, the bitmaps and the staging pool run on small inputs, and the theorems
-- applied to them.
use polars_metal.Base.{
  ℕ, ◌≡◌, ◌%◌, ◌^◌, ◌↔◌, refl, true, false, Option, none, some, List, [], ◌∷◌, ok, err, arith,
  length, replicate, String, map, if◌then◌else◌, nat_beq, length-replicate,
}
use polars_metal.Buffer.Errors.{BufferError}
use polars_metal.Buffer.Dict.{build_dict, build_dict_nullable, decode_dict}
use polars_metal.Buffer.Dict.RoundTrip.{decode_dict-build_dict}
use polars_metal.Buffer.Dict.Nullable.{present, spread, is_some, build_dict_nullable-build_dict}
use polars_metal.Buffer.Bitmap.{validity_bytes, get_valid, set_valid, count_valid, load_chunk_8}
use polars_metal.Buffer.Bitmap.Count.{naive_count_valid, count_valid-naive}
use polars_metal.Buffer.Bitmap.Set.{get_valid-set_valid}
use polars_metal.Buffer.Alignment.{is_aligned, is_page_aligned, is_aligned_iff}
use polars_metal.Buffer.Staging.{StagingPool, stage, IsStaged, stage-IsStaged}

abbrev words : List String
words = "b" ∷ "a" ∷ "b" ∷ []

words_encoded : build_dict words ≡ ("b" ∷ "a" ∷ [], 0 ∷ 1 ∷ 0 ∷ [])
unfolding build_dict
words_encoded = refl

decode_dict-build_dict_example : decode_dict (build_dict words).0 (build_dict words).1 ≡ some words
decode_dict-build_dict_example = decode_dict-build_dict words (omega arith)

abbrev words_with_null : List (Option String)
words_with_null = some "b" ∷ none ∷ some "a" ∷ some "b" ∷ []

words_with_null_encoded :
    build_dict_nullable words_with_null
    ≡ ("b" ∷ "a" ∷ [], 0 ∷ 0 ∷ 1 ∷ 0 ∷ [], true ∷ false ∷ true ∷ true ∷ [])
unfolding build_dict_nullable
words_with_null_encoded = refl

build_dict_nullable-build_dict_example : build_dict_nullable words_with_null ≡ (
  (build_dict (present words_with_null)).0,
  spread words_with_null (build_dict (present words_with_null)).1,
  map is_some words_with_null,
)
build_dict_nullable-build_dict_example = build_dict_nullable-build_dict words_with_null

nine_bits : count_valid (255 ∷ 7 ∷ []) 9 ≡ 9
unfolding count_valid
nine_bits = refl

tenth_bit : get_valid (255 ∷ 5 ∷ []) 9 ≡ false
unfolding get_valid
tenth_bit = refl

cleared : set_valid (255 ∷ 5 ∷ []) 8 false ≡ some (255 ∷ 4 ∷ [])
unfolding set_valid
cleared = refl

out_of_range : set_valid (255 ∷ []) 8 true ≡ none
unfolding set_valid
out_of_range = refl

nine_rows : validity_bytes 9 ≡ 2
unfolding validity_bytes
nine_rows = refl

second_chunk : load_chunk_8 (255 ∷ 5 ∷ []) 8 ≡ 5
unfolding load_chunk_8
second_chunk = refl

count_valid-naive_example : count_valid (255 ∷ 7 ∷ []) 9 ≡ naive_count_valid (255 ∷ 7 ∷ []) 9
count_valid-naive_example = count_valid-naive (255 ∷ 7 ∷ []) 9

get_valid-set_valid_example :
    (after : List ℕ) × (set_valid (255 ∷ 5 ∷ []) 8 false ≡ some after)
    × (get_valid after 10 ≡ (if nat_beq 8 10 then false else get_valid (255 ∷ 5 ∷ []) 10))
get_valid-set_valid_example = get_valid-set_valid (255 ∷ 5 ∷ []) 8 10 false (omega arith)

page : is_page_aligned 4096 8192 100 ≡ false
unfolding is_page_aligned
page = refl

is_aligned_iff_example : (is_aligned 48 (2 ^ 4) ≡ true) ↔ (48 % 2 ^ 4 ≡ 0)
is_aligned_iff_example = is_aligned_iff 48 4

-- A device that always has memory.
abbrev device : ℕ → Option (List ℕ)
device n = some (replicate n 0)

abbrev pool : StagingPool
pool = record { buf = some (1 ∷ 2 ∷ 3 ∷ []) }

reused_pool :
    stage device pool (9 ∷ []) ≡ (record { buf = some (9 ∷ 2 ∷ 3 ∷ []) }, ok (9 ∷ 2 ∷ 3 ∷ []))
unfolding stage
reused_pool = refl

nothing_staged : stage device pool [] ≡ (pool, err (BufferError.allocation_failed 0))
unfolding stage
nothing_staged = refl

device_sized : (n : ℕ) (b : List ℕ) → device n ≡ some b → length b ≡ n
device_sized n b h = cc (length-replicate {A = ℕ} n 0, h)

stage-IsStaged_example :
    (after : StagingPool) × (result : List ℕ) × (stage device pool (9 ∷ []) ≡ (after, ok result))
    × IsStaged pool after (9 ∷ []) result
stage-IsStaged_example =
    stage-IsStaged device device_sized pool (9 ∷ []) (omega arith) (λ grows refused. cc)
