-- ===== src/Crisis/Waterfall.antt =====
-- The order in which crates/model_safety/src/crisis/haircut.rs absorbs a loss, and what is left.
use barista_dex_perc.Prelude.{
  ℕ, ◌+◌, ◌-◌, ◌%◌, ◌^◌, ◌≤◌, ◌<◌, min, ◌≡◌, ◌⊎◌, refl, ap, ◌∙◌, true, some, inl, inr, arith,
  dec_lt,
}
use barista_dex_perc.Prelude.Int.{pos, ◌==ℤ◌}
use barista_dex_perc.Crisis.Ratio.{one, ratio}
use barista_dex_perc.Crisis.Limbs.{scaled-le}
use barista_dex_perc.Crisis.Accums.{Accums, deficit}
use barista_dex_perc.Crisis.Haircut.{CrisisOutcome, crisis_apply_haircuts}
use barista_dex_perc.Crisis.Funds.{
  Funds, accums_of, IsBounded, shortfall, equity_of, keep, burn_of, gamma_of, burnt, draw_of, drawn,
  rho_of, cut, deficit-eq, burn_warming-eq, draw_insurance-eq, cut_equity-eq, keep_none,
}

pub keep-le : (r n : ℕ) → keep r n ≤ n
keep-le r n = scaled-le n (one - r) (omega arith)

pub burnt-IsBounded : (f : Funds) → IsBounded f → IsBounded (burnt f)
burnt-IsBounded f b = record {
  owed = omega (arith, b.owed);
  held = b.held;
  equity_fraction = b.equity_fraction;
  warming_fraction = omega (arith, b.warming_fraction, keep-le (gamma_of f) f.warming_scale);
}

pub drawn-IsBounded : (f : Funds) → IsBounded f → IsBounded (drawn f)
drawn-IsBounded f b = record {
  owed = b.owed;
  held = omega (arith, b.held);
  equity_fraction = b.equity_fraction;
  warming_fraction = b.warming_fraction;
}

-- The aggregates after the burn and the draw, and at the end.
abbrev pub absorbed : Funds → Funds
absorbed f = drawn (burnt f)

abbrev pub resolved : Funds → Funds
resolved f = record (cut (absorbed f)) { epoch = (f.epoch + 1) % 2 ^ 64 }

pub resolved-IsBounded : (f : Funds) → IsBounded f → IsBounded (resolved f)
resolved-IsBounded f b =
    let r = rho_of (absorbed f) in
    record {
      owed = omega (arith, b.owed, keep-le r f.principal, keep-le r f.realized);
      held = omega (arith, b.held);
      equity_fraction = omega (arith, b.equity_fraction, keep-le r f.equity_scale);
      warming_fraction = omega (arith, b.warming_fraction, keep-le (gamma_of f) f.warming_scale);
    }

abbrev pub outcome : Funds → CrisisOutcome
outcome f = record {
  burned_warming = pos (burn_of f);
  insurance_draw = pos (draw_of (burnt f));
  equity_haircut_ratio = rho_of (absorbed f);
  is_solvent = deficit (accums_of (resolved f)) ==ℤ pos 0;
}

pub crisis-eq :
    (f : Funds)
    → IsBounded f
    → 0 < shortfall f
    → crisis_apply_haircuts (accums_of f) ≡ some (accums_of (resolved f), outcome f)
unfolding crisis_apply_haircuts
crisis-eq f b p =
    let b1 = burnt-IsBounded f b in
    let b2 = drawn-IsBounded (burnt f) b1 in
    rw
      (
        deficit-eq f b,
        burn_warming-eq f b,
        draw_insurance-eq (burnt f) b1,
        cut_equity-eq (absorbed f) b2,
      )
      (ground arith)

pub crisis_none :
    (f : Funds)
    → IsBounded f
    → shortfall f ≡ 0
    → crisis_apply_haircuts (accums_of f)
      ≡ some (
        accums_of f,
        record {
          burned_warming = pos 0;
          insurance_draw = pos 0;
          equity_haircut_ratio = 0;
          is_solvent = true;
        },
      )
unfolding crisis_apply_haircuts
crisis_none f b z = rw (deficit-eq f b, z) refl

-- What a crisis leaves: warming PnL pays first, then the insurance fund is drawn on, and equity is
-- cut only if the warming PnL did not do. Nothing grows, collateral stays.
pub record Absorbs (f : Funds) (out : Accums × CrisisOutcome) : Type 0 where
  pub left : Funds
  pub is_left : out.0 ≡ accums_of left
  pub burned : out.1.burned_warming ≡ pos (min (shortfall f) f.warming)
  pub warming_left : left.warming + min (shortfall f) f.warming ≡ f.warming
  pub drew : out.1.insurance_draw ≡ pos (min (shortfall f - f.warming) f.insurance)
  pub insurance_left : left.insurance + min (shortfall f - f.warming) f.insurance ≡ f.insurance
  pub collateral_kept : left.collateral ≡ f.collateral
  pub equity_last :
      (f.warming < shortfall f)
      ⊎ ((left.principal ≡ f.principal)
          × (left.realized ≡ f.realized)
          × (left.equity_scale ≡ f.equity_scale))
  pub no_gain : (left.principal ≤ f.principal) × (left.realized ≤ f.realized)
  pub scales_fall : (left.equity_scale ≤ f.equity_scale) × (left.warming_scale ≤ f.warming_scale)

ratio_zero : (n d : ℕ) → n ≡ 0 → ratio (pos n) (pos d) ≡ 0
unfolding ratio
ratio_zero n d z = ground arith

equity_kept : (f : Funds) → shortfall f ≤ f.warming → (n : ℕ) → keep (rho_of (absorbed f)) n ≡ n
equity_kept f h n =
    ap (λ (r : ℕ). keep r n) (ratio_zero (shortfall (absorbed f)) (equity_of f) (omega arith))
    ∙ keep_none n

resolved-Absorbs : (f : Funds) → Absorbs f (accums_of (resolved f), outcome f)
resolved-Absorbs f = record {
  left = resolved f;
  is_left = refl;
  burned = refl;
  warming_left = omega arith;
  drew = ap pos (omega arith);
  insurance_left = omega arith;
  collateral_kept = refl;
  equity_last = elim (dec_lt f.warming (shortfall f)) [
    | yes p ↦ inl p
    | no p ↦ inr (
      equity_kept f (omega arith) f.principal,
      equity_kept f (omega arith) f.realized,
      equity_kept f (omega arith) f.equity_scale,
    )
  ];
  no_gain = (keep-le (rho_of (absorbed f)) f.principal, keep-le (rho_of (absorbed f)) f.realized);
  scales_fall =
      (keep-le (rho_of (absorbed f)) f.equity_scale, keep-le (gamma_of f) f.warming_scale);
}

-- A crisis ends, and absorbs the loss in the order of `Absorbs`, where both sides of the balance
-- are i128 values, no aggregate is negative, and the scales are at most one.
pub crisis-Absorbs :
    (f : Funds)
    → IsBounded f
    → (out : Accums × CrisisOutcome) × (crisis_apply_haircuts (accums_of f) ≡ some out)
      × Absorbs f out
crisis-Absorbs f b = elim (dec_lt 0 (shortfall f)) [
  | yes p ↦ ((accums_of (resolved f), outcome f), crisis-eq f b p, resolved-Absorbs f)
  | no p ↦
      let z : shortfall f ≡ 0 = omega arith in
      (
        _,
        crisis_none f b z,
        record {
          left = f;
          is_left = refl;
          burned = ap pos (omega arith);
          warming_left = omega arith;
          drew = ap pos (omega arith);
          insurance_left = omega arith;
          collateral_kept = refl;
          equity_last = inr (refl, refl, refl);
          no_gain = (omega arith, omega arith);
          scales_fall = (omega arith, omega arith);
        },
      )
]

-- The part of equity that is cut is taken for the loss that the warming PnL leaves, and for the draw
-- on the insurance fund once more: the draw lowers the assets as much as it covers.
pub crisis-haircut :
    (f : Funds)
    → IsBounded f
    → f.warming < shortfall f
    → (out : Accums × CrisisOutcome) × (crisis_apply_haircuts (accums_of f) ≡ some out)
      × (out.1.equity_haircut_ratio
          ≡ ratio
              (pos (shortfall f - f.warming + min (shortfall f - f.warming) f.insurance))
              (pos (equity_of f)))
crisis-haircut f b p = (
  (accums_of (resolved f), outcome f),
  crisis-eq f b (omega arith),
  ap (λ (n : ℕ). ratio (pos n) (pos (equity_of f))) (omega arith),
)
