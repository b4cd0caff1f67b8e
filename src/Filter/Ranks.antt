-- ===== src/Filter/Ranks.antt =====
-- The inclusive prefix sums of keep flags number the rows that are kept.
use polars_metal.Base.{
  ℕ, zero, suc, ◌+◌, ◌-◌, ◌≤◌, ◌<◌, ◌≡◌, ◌≢◌, refl, ap, List, [], ◌∷◌, All, get_or, length, nat_beq,
  if◌then◌else◌, Bool-cases, inl, inr, arith,
}

-- The documented result of MLX's inclusive cumsum on flags whose sum fits.
unfoldable pub prefix_sums : ℕ → List ℕ → List ℕ
prefix_sums acc [] = []
prefix_sums acc (k ∷ keep) = (acc + k) ∷ prefix_sums (acc + k) keep

-- The values of the rows that are kept, in their order.
unfoldable pub survivors {ℓ} : {A : Type ℓ} → List ℕ → List A → List A
survivors [] xs = []
survivors (k ∷ keep) [] = []
survivors (k ∷ keep) (x ∷ xs) =
    let rest = survivors keep xs in if nat_beq k 0 then rest else x ∷ rest

abbrev pub AreFlags : List ℕ → Type 0
AreFlags = All (λ k. k ≤ 1)

pub length-prefix_sums : (acc : ℕ) (keep : List ℕ) → length (prefix_sums acc keep) ≡ length keep
unfolding prefix_sums
length-prefix_sums acc [] = refl
length-prefix_sums acc (k ∷ keep) = ap suc (length-prefix_sums (acc + k) keep)

module _ {ℓ} {A : Type ℓ} (d : A) where
  -- A kept row stands where its prefix sum says.
  pub record IsRanked (acc : ℕ) (keep : List ℕ) (xs : List A) (gid : ℕ) : Type ℓ where
    pub above : acc < get_or (prefix_sums acc keep) gid 0
    pub below : get_or (prefix_sums acc keep) gid 0 ≤ acc + length (survivors keep xs)
    pub stands :
        get_or (survivors keep xs) (get_or (prefix_sums acc keep) gid 0 - 1 - acc) d
        ≡ get_or xs gid d

  pub rank-IsRanked :
      (acc : ℕ) (keep : List ℕ) (xs : List A) (gid : ℕ)
      → AreFlags keep
      → length keep ≡ length xs
      → gid < length keep
      → get_or keep gid 0 ≢ 0
      → IsRanked acc keep xs gid
  unfolding prefix_sums survivors
  rank-IsRanked acc [] xs gid flags same h kept = absurd (omega arith)
  rank-IsRanked acc (k ∷ keep) [] gid flags same h kept = absurd (omega arith)
  rank-IsRanked acc (k ∷ keep) (x ∷ xs) zero flags same h kept =
      let one : k ≡ 1 = omega (arith, flags.0, kept) in
      record {
        above = omega arith;
        below = rw (one, survivors) (omega arith);
        stands = rw (one, survivors) (let e : acc + 1 - 1 - acc ≡ 0 = omega arith in rw e refl);
      }
  rank-IsRanked acc (k ∷ keep) (x ∷ xs) (suc gid) flags same h kept =
      let later = rank-IsRanked (acc + k) keep xs gid flags.1 (omega arith) (omega arith) kept in
      elim (Bool-cases (nat_beq k 0)) [
        | inl dropped ↦
            let nought : k ≡ 0 = ground arith in
            let e : get_or (prefix_sums (acc + k) keep) gid 0 - 1 - acc
                ≡ get_or (prefix_sums (acc + k) keep) gid 0 - 1 - (acc + k) =
              omega arith in
            record {
              above = omega (arith, later.above);
              below = rw (dropped, survivors) (omega (arith, later.below));
              stands = rw (e, dropped, survivors) later.stands;
            }
        | inr taken ↦
            let one : k ≡ 1 = ground (arith, flags.0) in
            let e : get_or (prefix_sums (acc + k) keep) gid 0 - 1 - acc
                ≡ suc (get_or (prefix_sums (acc + k) keep) gid 0 - 1 - (acc + k)) =
              omega (arith, later.above) in
            record {
              above = omega (arith, later.above);
              below = rw (taken, survivors) (omega (arith, later.below));
              stands = rw (e, taken, survivors) later.stands;
            }
      ]

  -- Every place has its row.
  pub place-row :
      (acc : ℕ) (keep : List ℕ) (xs : List A) (i : ℕ)
      → AreFlags keep
      → i < length (survivors keep xs)
      → (gid : ℕ) × (gid < length keep)
        × (get_or keep gid 0 ≢ 0)
        × (get_or (prefix_sums acc keep) gid 0 ≡ acc + suc i)
  unfolding prefix_sums survivors
  place-row acc [] xs i flags h = absurd (omega arith)
  place-row acc (k ∷ keep) [] i flags h = absurd (omega arith)
  place-row acc (k ∷ keep) (x ∷ xs) zero flags h = elim (Bool-cases (nat_beq k 0)) [
    | inl dropped ↦
        let (gid, inside, kept, at) =
          place-row (acc + k) keep xs zero flags.1 (rw (dropped, survivors) at h) in
        (suc gid, omega arith, kept, ground (arith, at))
    | inr taken ↦
        let one : k ≡ 1 = ground (arith, flags.0) in (0, omega arith, omega arith, omega arith)
  ]
  place-row acc (k ∷ keep) (x ∷ xs) (suc i) flags h = elim (Bool-cases (nat_beq k 0)) [
    | inl dropped ↦
        let (gid, inside, kept, at) =
          place-row (acc + k) keep xs (suc i) flags.1 (rw (dropped, survivors) at h) in
        (suc gid, omega arith, kept, ground (arith, at))
    | inr taken ↦
        let one : k ≡ 1 = ground (arith, flags.0) in
        let (gid, inside, kept, at) =
          place-row (acc + k) keep xs i flags.1 (omega (arith, rw (taken, survivors) at h)) in
        (suc gid, omega arith, kept, omega arith)
  ]

  -- The last prefix sum is the number of the rows that are kept.
  pub last-prefix :
      (acc k : ℕ) (keep : List ℕ) (x : A) (xs : List A)
      → AreFlags (k ∷ keep)
      → length keep ≡ length xs
      → get_or (prefix_sums acc (k ∷ keep)) (length keep) 0
        ≡ acc + length (survivors (k ∷ keep) (x ∷ xs))
  unfolding prefix_sums survivors
  last-prefix acc k [] x [] flags same = ground (arith, flags.0)
  last-prefix acc k [] x (y ∷ xs) flags same = absurd (omega arith)
  last-prefix acc k (j ∷ keep) x [] flags same = absurd (omega arith)
  last-prefix acc k (j ∷ keep) x (y ∷ xs) flags same =
      ground (arith, last-prefix (acc + k) j keep y xs flags.1 (omega arith), flags.0)

  pub length-survivors : (keep : List ℕ) (xs : List A) → length (survivors keep xs) ≤ length keep
  unfolding survivors
  length-survivors [] xs = omega arith
  length-survivors (k ∷ keep) [] = omega arith
  length-survivors (k ∷ keep) (x ∷ xs) = ground (arith, length-survivors keep xs)

-- The number of rows kept does not depend on what is kept.
pub length-survivors-ext {ℓ κ} :
    {A : Type ℓ} {B : Type κ} (keep : List ℕ) (xs : List A) (ys : List B)
    → length xs ≡ length ys
    → length (survivors keep xs) ≡ length (survivors keep ys)
unfolding survivors
length-survivors-ext [] xs ys same = refl
length-survivors-ext (k ∷ keep) [] [] same = refl
length-survivors-ext (k ∷ keep) [] (y ∷ ys) same = absurd (omega arith)
length-survivors-ext (k ∷ keep) (x ∷ xs) [] same = absurd (omega arith)
length-survivors-ext (k ∷ keep) (x ∷ xs) (y ∷ ys) same =
    let later = length-survivors-ext keep xs ys (omega arith) in
    elim (Bool-cases (nat_beq k 0)) [
      | inl dropped ↦ rw (dropped, survivors) later
      | inr taken ↦ rw (taken, survivors) (ap suc later)
    ]
