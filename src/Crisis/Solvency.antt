-- ===== src/Crisis/Solvency.antt =====
-- That a crisis of crates/model_safety/src/crisis/haircut.rs leaves no deficit where equity bears it.
use native.Mathlib.Nat.{lt-mul-div-succ, div-lt_iff_lt-mul, mul-add, mul-sub}
use barista_dex_perc.Prelude.{
  ℕ, ◌+◌, ◌-◌, ◌*◌, ◌/◌, ◌^◌, ◌≤◌, ◌<◌, min, ◌≡◌, refl, ap, ◌∙◌, true, some, arith, dec_lt,
}
use barista_dex_perc.Prelude.Int.{pos}
use barista_dex_perc.Crisis.Ratio.{one, ratio}
use barista_dex_perc.Crisis.Limbs.{ratio-eq, ratio_wide}
use barista_dex_perc.Crisis.Accums.{Accums, deficit}
use barista_dex_perc.Crisis.Haircut.{CrisisOutcome, crisis_apply_haircuts}
use barista_dex_perc.Crisis.Funds.{
  Funds, accums_of, IsBounded, shortfall, equity_of, rho_of, cut, deficit-eq,
}
use barista_dex_perc.Crisis.Waterfall.{
  keep-le, absorbed, resolved, outcome, crisis-eq, crisis_none, resolved-IsBounded,
}

-- A cut by the rounded ratio of a loss to what bears it leaves no more than the rest.
cut_bound :
    (d e r : ℕ)
    → d ≤ e
    → 0 < e
    → e ≤ one
    → r ≡ min one (d * 2 ^ 64 / e)
    → e * (one - r) / 2 ^ 64 ≤ e - d
cut_bound d e r le p small eq =
    let Q = d * 2 ^ 64 / e in
    let q = lt-mul-div-succ (d * 2 ^ 64) {b = e} p in
    let lt : e * (one - r) / 2 ^ 64 < e - d + 1 =
      (div-lt_iff_lt-mul {k = 2 ^ 64} {x = e * (one - r)} {y = e - d + 1} (omega arith)).1
        (elim (dec_lt one Q) [
          | yes b ↦ let z : one - r ≡ 0 = omega (arith, eq) in rw z (omega arith)
          | no b ↦
              let z : r ≡ Q = omega (arith, eq) in
              rw z (omega (arith, q, mul-sub e one Q, mul-add e Q 1))
        ]) in
    omega (arith, lt)

-- The ratio of a loss to the equity that bears it.
rho_bound : (d e : ℕ) → d ≤ e → 0 < e → e ≤ one → ratio (pos d) (pos e) ≡ min one (d * 2 ^ 64 / e)
rho_bound d e le p small = elim (dec_lt d one) [
  | yes lt ↦ ratio-eq d e p lt
  | no ge ↦
      let x : d ≡ one = omega arith in
      let y : e ≡ one = omega arith in ratio_wide d e p (omega arith) (omega arith) ∙ rw (x, y) refl
]

keep_sum : (p r k : ℕ) → p * k / 2 ^ 64 + r * k / 2 ^ 64 ≤ (p + r) * k / 2 ^ 64
keep_sum p r k = omega arith

cut-covers :
    (f : Funds) → f.warming ≡ 0 → 0 < equity_of f → equity_of f ≤ one → shortfall (cut f) ≡ 0
cut-covers f w p small =
    let r = rho_of f in
    let le : shortfall f ≤ equity_of f = omega arith in
    omega (
      arith,
      keep_sum f.principal f.realized (one - r),
      cut_bound (shortfall f) (equity_of f) r le p small
          (rho_bound (shortfall f) (equity_of f) le p small),
    )

resolved-covers : (f : Funds) → 0 < equity_of f → equity_of f ≤ one → shortfall (resolved f) ≡ 0
resolved-covers f p small = elim (dec_lt f.warming (shortfall f)) [
  | yes less ↦ cut-covers (absorbed f) (omega arith) p small
  | no more ↦
      omega
        (arith, keep-le (rho_of (absorbed f)) f.principal, keep-le (rho_of (absorbed f)) f.realized)
]

-- After a crisis no deficit is left and the outcome says so, where some equity bears it, the equity
-- is at most 2^64, no aggregate is negative and both sides of the balance are i128 values.
pub crisis-solvent :
    (f : Funds)
    → IsBounded f
    → 0 < equity_of f
    → equity_of f ≤ one
    → (out : Accums × CrisisOutcome) × (crisis_apply_haircuts (accums_of f) ≡ some out)
      × (deficit out.0 ≡ pos 0)
      × (out.1.is_solvent ≡ true)
crisis-solvent f b p small = elim (dec_lt 0 (shortfall f)) [
  | no no_loss ↦
      let z : shortfall f ≡ 0 = omega arith in
      (_, crisis_none f b z, deficit-eq f b ∙ ap pos z, refl)
  | yes loss ↦
      let d : deficit (accums_of (resolved f)) ≡ pos 0 =
        deficit-eq (resolved f) (resolved-IsBounded f b) ∙ ap pos (resolved-covers f p small) in
      ((accums_of (resolved f), outcome f), crisis-eq f b loss, d, rw d refl)
]
