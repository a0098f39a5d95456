-- ===== src/Crisis/Funds.antt =====
-- The steps of crates/model_safety/src/crisis/haircut.rs in natural numbers, for aggregates that are
-- not negative.
use native.Mathlib.Nat.{mul-div_cancel}
use barista_dex_perc.Prelude.{
  ℕ, ◌+◌, ◌-◌, ◌*◌, ◌/◌, ◌^◌, ◌≤◌, min, ◌≡◌, refl, ap, ◌∙◌, some, arith, dec_lt,
}
use barista_dex_perc.Prelude.Int.{ℤ, pos, ◌+ℤ◌, ◌-ℤ◌}
use barista_dex_perc.Math.{i128_max, add_i128, sub_i128, sat_i128}
use barista_dex_perc.Crisis.Ratio.{one, ratio, one_minus, mul_scale}
use barista_dex_perc.Crisis.Limbs.{wide_mul_shr64-scaled, mul_scaled-eq, one_minus-eq}
use barista_dex_perc.Crisis.Accums.{Accums, assets, liabilities, deficit}
use barista_dex_perc.Crisis.Haircut.{least, burn_warming, draw_insurance, cut_equity}

pub record Funds : Type 0 where
  pub principal : ℕ
  pub realized : ℕ
  pub warming : ℕ
  pub collateral : ℕ
  pub insurance : ℕ
  pub equity_scale : ℕ
  pub warming_scale : ℕ
  pub epoch : ℕ

abbrev pub accums_of : Funds → Accums
accums_of f = record {
  sigma_principal = pos f.principal;
  sigma_realized = pos f.realized;
  sigma_warming = pos f.warming;
  sigma_collateral = pos f.collateral;
  sigma_insurance = pos f.insurance;
  equity_scale = f.equity_scale;
  warming_scale = f.warming_scale;
  epoch = f.epoch;
}

-- Both sides of the balance are i128 values, and the scales are fractions.
pub record IsBounded (f : Funds) : Type 0 where
  pub owed : f.principal + f.realized + f.warming ≤ i128_max
  pub held : f.collateral + f.insurance ≤ i128_max
  pub equity_fraction : f.equity_scale ≤ one
  pub warming_fraction : f.warming_scale ≤ one

-- What is owed beyond what is held.
abbrev pub shortfall : Funds → ℕ
shortfall f = f.principal + f.realized + f.warming - (f.collateral + f.insurance)

abbrev pub equity_of : Funds → ℕ
equity_of f = f.principal + f.realized

-- What is left of an amount after a cut by a ratio.
abbrev pub keep : ℕ → ℕ → ℕ
keep r n = n * (one - r) / 2 ^ 64

abbrev pub burn_of : Funds → ℕ
burn_of f = min (shortfall f) f.warming

abbrev pub gamma_of : Funds → ℕ
gamma_of f = ratio (pos (burn_of f)) (pos f.warming)

abbrev pub burnt : Funds → Funds
burnt f = record f {
  warming = f.warming - burn_of f;
  warming_scale = keep (gamma_of f) f.warming_scale;
}

abbrev pub draw_of : Funds → ℕ
draw_of f = min (shortfall f) f.insurance

abbrev pub drawn : Funds → Funds
drawn f = record f { insurance = f.insurance - draw_of f }

abbrev pub rho_of : Funds → ℕ
rho_of f = ratio (pos (shortfall f)) (pos (equity_of f))

abbrev pub cut : Funds → Funds
cut f = record f {
  principal = keep (rho_of f) f.principal;
  realized = keep (rho_of f) f.realized;
  equity_scale = keep (rho_of f) f.equity_scale;
}

pub add_pos : (m n : ℕ) → m + n ≤ i128_max → add_i128 (pos m) (pos n) ≡ pos (m + n)
unfolding add_i128 sat_i128 ◌+ℤ◌
add_pos m n h = ground arith

pub sub_pos : (m n : ℕ) → n ≤ m → m ≤ i128_max → sub_i128 (pos m) (pos n) ≡ pos (m - n)
unfolding sub_i128 sat_i128 ◌-ℤ◌
sub_pos m n h k = ground arith

pub deficit-eq : (f : Funds) → IsBounded f → deficit (accums_of f) ≡ pos (shortfall f)
unfolding deficit liabilities assets sub_i128 sat_i128 ◌-ℤ◌
deficit-eq f b =
    rw
      (
        add_pos f.principal f.realized (omega (arith, b.owed)),
        add_pos (f.principal + f.realized) f.warming b.owed,
        add_pos f.collateral f.insurance b.held,
      )
      (ground (arith, b.owed, b.held))

pub least_pos : (m n : ℕ) → least (pos m) (pos n) ≡ pos (min m n)
unfolding least
least_pos m n = ground arith

-- A ratio of nothing is nothing, and a cut by nothing keeps all.
ratio_none : (n : ℕ) → ratio (pos 0) (pos n) ≡ 0
unfolding ratio
ratio_none n = ground arith

pub keep_none : (n : ℕ) → keep 0 n ≡ n
keep_none n = mul-div_cancel n {n = 2 ^ 64} (omega arith)

mul_scale-keep : (s r : ℕ) → s ≤ one → mul_scale s (one_minus r) ≡ keep r s
unfolding mul_scale
mul_scale-keep s r h =
    rw (one_minus-eq r) (wide_mul_shr64-scaled s (one - r) (omega arith) (omega arith))

-- What each step gives.
abbrev pub burn_out : Funds → Accums × ℤ
burn_out f = (accums_of (burnt f), pos (burn_of f))

abbrev pub draw_out : Funds → Accums × ℤ
draw_out f = (accums_of (drawn f), pos (draw_of f))

abbrev pub cut_out : Funds → Accums × ℕ
cut_out f = (accums_of (cut f), rho_of f)

burnt_none : (f : Funds) → burn_of f ≡ 0 → burn_out f ≡ (accums_of f, pos 0)
burnt_none f e = rw (e, ratio_none f.warming, keep_none f.warming_scale) (ground arith)

drawn_none : (f : Funds) → draw_of f ≡ 0 → draw_out f ≡ (accums_of f, pos 0)
drawn_none f e = rw e (ground arith)

cut_none : (f : Funds) → rho_of f ≡ 0 → cut_out f ≡ (accums_of f, 0)
cut_none f e = rw (e, keep_none f.principal, keep_none f.realized, keep_none f.equity_scale) refl

pub burn_warming-eq : (f : Funds) → IsBounded f → burn_warming (accums_of f) ≡ burn_out f
unfolding burn_warming
burn_warming-eq f b = ground (
  arith,
  deficit-eq f b,
  least_pos (shortfall f) f.warming,
  mul_scale-keep f.warming_scale (gamma_of f) b.warming_fraction,
  sub_pos f.warming (burn_of f) (omega arith) (omega (arith, b.owed)),
  burnt_none f,
)

pub draw_insurance-eq : (f : Funds) → IsBounded f → draw_insurance (accums_of f) ≡ draw_out f
unfolding draw_insurance
draw_insurance-eq f b = ground (
  arith,
  deficit-eq f b,
  least_pos (shortfall f) f.insurance,
  sub_pos f.insurance (draw_of f) (omega arith) (omega (arith, b.held)),
  drawn_none f,
)

ratio_of_none : (m : ℕ) → ratio (pos m) (pos 0) ≡ 0
unfolding ratio
ratio_of_none m = ground arith

pub cut_equity-eq : (f : Funds) → IsBounded f → cut_equity (accums_of f) ≡ some (cut_out f)
unfolding cut_equity
cut_equity-eq f b =
    let e = deficit-eq f b in
    let t = add_pos f.principal f.realized (omega (arith, b.owed)) in
    let r = rho_of f in
    let o = one_minus-eq r in
    elim (dec_lt 0 (shortfall f)) [
      | no z ↦
          let y : shortfall f ≡ 0 = omega arith in
          rw e (
            ground (
              arith,
              y,
              cut_none f
                  (ap (λ (n : ℕ). ratio (pos n) (pos (equity_of f))) y ∙ ratio_none (equity_of f)),
            ))
      | yes p ↦ elim (dec_lt 0 (equity_of f)) [
        | no z ↦
            let y : equity_of f ≡ 0 = omega arith in
            rw (e, t)
              (ground (
                arith,
                y,
                cut_none f (
                    ap (λ (n : ℕ). ratio (pos (shortfall f)) (pos n)) y
                    ∙ ratio_of_none (shortfall f)),
              ))
        | yes q ↦
            rw (e, t)
              (ground (
                arith,
                o,
                mul_scaled-eq (one - r) f.principal (omega arith) (omega (arith, b.owed)),
                mul_scaled-eq (one - r) f.realized (omega arith) (omega (arith, b.owed)),
                mul_scale-keep f.equity_scale r b.equity_fraction,
              ))
      ]
    ]
