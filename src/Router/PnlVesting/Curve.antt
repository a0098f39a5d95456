-- ===== src/Router/PnlVesting/Curve.antt =====
-- The vesting curve of programs/router/src/state/pnl_vesting.rs.
use native.Mathlib.Nat.{div-eq_of_eq-mul_left}
use barista_dex_perc.Prelude.{
  ℕ, ◌*◌, ◌/◌, ◌≤◌, ◌<◌, ◌≡◌, refl, true, false, some, inl, inr, arith, leb, leb→le, ◌==◌,
  Bool-cases,
}
use barista_dex_perc.Prelude.Int.{ℤ, pos, ◌≤ℤ◌, ◌+ℤ◌, ◌-ℤ◌}
use barista_dex_perc.Math.{u64_max, min_i128, max_i128}
use barista_dex_perc.Router.Portfolio.{fp_one}
use barista_dex_perc.Router.PnlVesting.{
  twenty, interpolated, tail_curve, taylor_curve, one_minus_exp_neg,
}

-- The fraction that vests is at least nothing and at most all.
abbrev pub IsFraction : ℤ → Type 0
IsFraction x = (pos 0 ≤ℤ x) × (x ≤ℤ pos fp_one)

clamped-IsFraction : (z : ℤ) → IsFraction (min_i128 (max_i128 z (pos 0)) (pos fp_one))
unfolding min_i128 max_i128
clamped-IsFraction z = ground arith

taylor_curve-IsFraction : (x : ℕ) → IsFraction (taylor_curve x)
unfolding taylor_curve
taylor_curve-IsFraction x = clamped-IsFraction _

tail_curve-le : (x : ℕ) → 3 * fp_one ≤ x → tail_curve x ≤ fp_one
unfolding tail_curve interpolated
tail_curve-le x h = ground arith

-- The fraction is computed without a panic and lies between nothing and all, as long as 20 time
-- constants fit a u64.
pub one_minus_exp_neg-IsFraction :
    (dt tau : ℕ) → 20 * tau ≤ u64_max → (r : ℤ) × (one_minus_exp_neg dt tau ≡ some r) × IsFraction r
unfolding one_minus_exp_neg twenty
one_minus_exp_neg-IsFraction dt tau h =
    let x = dt * fp_one / tau in
    elim (Bool-cases (tau == 0)) [
      | inl y ↦ (pos fp_one, rw y refl, omega arith)
      | inr n ↦
          let fits : leb (20 * tau) u64_max ≡ true = ground arith in
          elim (Bool-cases (leb (20 * tau) dt)) [
            | inl y ↦ (pos fp_one, rw (n, fits, y) refl, omega arith)
            | inr m ↦ elim (Bool-cases (leb (3 * fp_one) x)) [
              | inl y ↦ (
                pos (tail_curve x),
                rw (n, fits, m, y) refl,
                omega (arith, tail_curve-le x (leb→le _ _ y)),
              )
              | inr o ↦ (taylor_curve x, rw (n, fits, m, o) refl, taylor_curve-IsFraction x)
            ]
          ]
    ]

-- The curve is not monotone: two and a half time constants vest all, three vest 95.02 percent.
pub one_minus_exp_neg_falls :
    (n : ℕ)
    → 0 < n
    → 40 * n ≤ u64_max
    → (one_minus_exp_neg (5 * n) (2 * n) ≡ some (pos fp_one))
      × (one_minus_exp_neg (6 * n) (2 * n) ≡ some (pos 950_200_000))
unfolding one_minus_exp_neg twenty taylor_curve tail_curve interpolated min_i128 max_i128 ◌+ℤ◌ ◌-ℤ◌
one_minus_exp_neg_falls n p h =
    let x : 5 * n * fp_one / (2 * n) ≡ 2_500_000_000 =
      div-eq_of_eq-mul_left {n = 2 * n} {m = 5 * n * fp_one} {k = 2_500_000_000} (omega arith)
        (omega arith) in
    let y : 6 * n * fp_one / (2 * n) ≡ 3_000_000_000 =
      div-eq_of_eq-mul_left {n = 2 * n} {m = 6 * n * fp_one} {k = 3_000_000_000} (omega arith)
        (omega arith) in
    let z : (2 * n == 0) ≡ false = ground arith in
    let f : leb (20 * (2 * n)) u64_max ≡ true = ground arith in
    let a : leb (20 * (2 * n)) (5 * n) ≡ false = ground arith in
    let b : leb (20 * (2 * n)) (6 * n) ≡ false = ground arith in
    (rw (z, f, a, x) refl, rw (z, f, b, y) refl)
