-- ===== src/Groupby/Partitioned/Capacity.antt =====
-- The size of a partition's table: a power of two above the number of its rows.
use native.Mathlib.Nat.{pow-succ'}
use polars_metal.Base.{
  ℕ, zero, suc, ◌+◌, ◌*◌, ◌^◌, ◌≤◌, ◌<◌, ◌≡◌, refl, ◌∙◌, inl, inr, List, length, leb, Bool-cases,
  arith,
}
use polars_metal.Groupby.Partitioned.{double_until, next_power_of_two, capacity}

pub record IsPower (n cap : ℕ) : Type 0 where
  pub log : ℕ
  pub power : cap ≡ 2 ^ log
  pub enough : n ≤ cap

double_until-IsPower : (fuel b n : ℕ) → n ≤ 2 ^ (b + fuel) → IsPower n (double_until fuel (2 ^ b) n)
unfolding double_until
double_until-IsPower zero b n h =
    let e : b + 0 ≡ b = omega arith in record { log = b; power = refl; enough = rw e at h }
double_until-IsPower (suc fuel) b n h = elim (Bool-cases (leb n (2 ^ b))) [
  | inl reached ↦
      rw (reached, double_until) (record { log = b; power = refl; enough = ground arith })
  | inr more ↦
      let e : b + suc fuel ≡ suc b + fuel = omega arith in
      let doubled : 2 ^ suc b ≡ 2 * 2 ^ b = pow-succ' 2 b in
      let later = double_until-IsPower fuel (suc b) n (rw (← e) h) in
      rw (more, double_until, ← doubled) later
]

-- It is more than the number of rows.
pub capacity-IsPower :
    (rows : List ℕ) → length rows < 2 ^ 32 → IsPower (suc (length rows)) (capacity rows)
capacity-IsPower rows small =
    let p = double_until-IsPower 64 0 (length rows * 2) (omega (arith, small)) in
    elim (Bool-cases (leb 8 (next_power_of_two (length rows * 2)))) [
      | inl large ↦
          let e : capacity rows ≡ next_power_of_two (length rows * 2) = ground arith in
          record { log = p.log; power = e ∙ p.power; enough = ground (arith, p.enough) }
      | inr tiny ↦
          let e : capacity rows ≡ 8 = ground arith in
          record { log = 3; power = e; enough = ground (arith, p.enough) }
    ]
