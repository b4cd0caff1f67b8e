-- ===== src/Compaction/Words.antt =====
-- 64-bit slots and their bytes.
use polars_metal.Base.{
  ℕ, zero, suc, ◌+◌, ◌*◌, ◌/◌, ◌%◌, ◌≤◌, ◌<◌, ◌≡◌, refl, ap, ap₂, ◌∙◌, List, [], ◌∷◌, ◌++◌, All,
  take, drop, concat, length, nat_beq, Bool-cases, inl, inr, arith,
}
use polars_metal.Filter.Ranks.{survivors}
use polars_metal.Compaction.{word, words, word_bytes, words_bytes}

abbrev pub AreBytes : List ℕ → Type 0
AreBytes = All (λ b. b < 256)

-- A buffer in pieces of eight bytes.
abbrev pub chunks : ℕ → List ℕ → List (List ℕ)
chunks zero bytes = []
chunks (suc n) bytes = take 8 bytes ∷ chunks n (drop 8 bytes)

word_bytes-word :
    (k : ℕ) (bytes : List ℕ)
    → k ≤ length bytes
    → AreBytes bytes
    → word_bytes k (word k bytes) ≡ take k bytes
word_bytes-word zero bytes h small = refl
word_bytes-word (suc k) [] h small = absurd (omega arith)
word_bytes-word (suc k) (b ∷ bytes) h small =
    let low : (b + 256 * word k bytes) % 256 ≡ b = omega (arith, small.0) in
    let high : (b + 256 * word k bytes) / 256 ≡ word k bytes = omega (arith, small.0) in
    ap₂ ◌∷◌ low (ap (word_bytes k) high ∙ word_bytes-word k bytes (omega arith) small.1)

pub drop-AreBytes : (k : ℕ) (bytes : List ℕ) → AreBytes bytes → AreBytes (drop k bytes)
drop-AreBytes zero bytes small = small
drop-AreBytes (suc k) [] small = tt
drop-AreBytes (suc k) (b ∷ bytes) small = drop-AreBytes k bytes small.1

length-drop : (k : ℕ) (bytes : List ℕ) → length bytes ≤ length (drop k bytes) + k
length-drop zero bytes = omega arith
length-drop (suc k) [] = omega arith
length-drop (suc k) (b ∷ bytes) = omega (arith, length-drop k bytes)

pub length-words : (n : ℕ) (bytes : List ℕ) → length (words n bytes) ≡ n
unfolding words
length-words zero bytes = refl
length-words (suc n) bytes = ap suc (length-words n (drop 8 bytes))

-- The bytes of the surviving words are the surviving pieces of the buffer.
pub words_bytes-survivors :
    (keep : List ℕ) (n : ℕ) (bytes : List ℕ)
    → n * 8 ≤ length bytes
    → AreBytes bytes
    → words_bytes (survivors keep (words n bytes)) ≡ concat (survivors keep (chunks n bytes))
unfolding words words_bytes survivors
words_bytes-survivors [] n bytes h small = refl
words_bytes-survivors (k ∷ keep) zero bytes h small = refl
words_bytes-survivors (k ∷ keep) (suc n) bytes h small =
    let later =
      words_bytes-survivors keep n (drop 8 bytes) (omega (arith, length-drop 8 bytes))
        (drop-AreBytes 8 bytes small) in
    elim (Bool-cases (nat_beq k 0)) [
      | inl dropped ↦ rw (dropped, survivors) later
      | inr taken ↦
          rw (taken, survivors) (ap₂ ◌++◌ (word_bytes-word 8 bytes (omega arith) small) later)
    ]
