-- ===== src/Router/PnlVesting/Fraction.antt =====
-- The haircut that programs/router/src/state/pnl_vesting.rs asks for to cover a shortfall.
use native.Mathlib.Nat.{div-le_of_le-mul, mul-le-mul_left, mul-div-le}
use barista_dex_perc.Prelude.{
  ℕ, ◌-◌, ◌*◌, ◌/◌, ◌≤◌, ◌<◌, min, ◌≡◌, refl, inl, inr, arith, leb, leb→le, ◌==◌, ◌||◌, Bool-cases,
}
use barista_dex_perc.Prelude.Int.{pos, ◌-ℤ◌}
use barista_dex_perc.Math.{u128_max, sat_i128, mul_u128, div_u128, u128_to_i128, sub_i128, min_i128}
use barista_dex_perc.Math.Bounds.{u128_to_i128_lem}
use barista_dex_perc.Router.Portfolio.{fp_one}
use barista_dex_perc.Router.PnlVesting.{haircut_raw, calculate_haircut_fraction}

quotient : (d t : ℕ) → 0 < t → div_u128 (mul_u128 d fp_one) t ≡ min (d * fp_one) u128_max / t
unfolding div_u128 mul_u128
quotient d t p = ground arith

cap-eq :
    (bps : ℕ)
    → bps < 65_536
    → u128_to_i128 (div_u128 (mul_u128 bps fp_one) 10_000) ≡ pos (bps * fp_one / 10_000)
unfolding div_u128 mul_u128 u128_to_i128
cap-eq bps b = ground arith

kept-eq :
    (r m : ℕ)
    → r ≤ fp_one
    → sub_i128 (pos fp_one) (min_i128 (pos r) (pos m)) ≡ pos (fp_one - min r m)
unfolding sub_i128 min_i128 sat_i128 ◌-ℤ◌
kept-eq r m h = ground arith

-- The haircut before the cap takes at most all, and at most the shortfall.
haircut_raw-bound :
    (d t : ℕ) → 0 < t → (r : ℕ) × (haircut_raw d t ≡ pos r) × (r ≤ fp_one) × (t * r ≤ d * fp_one)
unfolding haircut_raw
haircut_raw-bound d t p = elim (Bool-cases (leb t d)) [
  | inl y ↦ (fp_one, rw y refl, omega arith, omega (arith, leb→le _ _ y))
  | inr n ↦
      let x = min (d * fp_one) u128_max in
      let q : div_u128 (mul_u128 d fp_one) t ≡ x / t = quotient d t p in
      let le : x / t ≤ fp_one = div-le_of_le-mul t {m = x} {n = fp_one} (ground arith) in
      (
        x / t,
        rw (n, q) (u128_to_i128_lem (x / t) (omega (arith, le))),
        le,
        omega (arith, mul-div-le x t),
      )
]

-- The fraction that users keep is between nothing and all; what it cuts is at most the event's cap,
-- and of the total positive PnL no more than the shortfall, where the cap is a u16.
calculate_haircut_fraction-bound :
    (shortfall total bps : ℕ)
    → bps < 65_536
    → (kept : ℕ) × (calculate_haircut_fraction shortfall total bps ≡ pos kept)
      × (kept ≤ fp_one)
      × (fp_one - kept ≤ bps * fp_one / 10_000)
      × (total * (fp_one - kept) ≤ shortfall * fp_one)
unfolding calculate_haircut_fraction
calculate_haircut_fraction-bound d t bps b = elim (Bool-cases (t == 0 || d == 0)) [
  | inl y ↦ (fp_one, rw y refl, omega arith, omega arith, omega arith)
  | inr n ↦
      let (r, e, le, covers) = haircut_raw-bound d t (ground arith) in
      let m = bps * fp_one / 10_000 in
      let c : u128_to_i128 (div_u128 (mul_u128 bps fp_one) 10_000) ≡ pos m = cap-eq bps b in
      let k : fp_one - (fp_one - min r m) ≡ min r m = omega (arith, le) in
      (
        fp_one - min r m,
        rw (n, e, c) (kept-eq r m le),
        omega arith,
        omega arith,
        rw k (omega (arith, covers, mul-le-mul_left t (let x : min r m ≤ r = omega arith in x))),
      )
]
