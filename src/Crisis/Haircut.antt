-- ===== src/Crisis/Haircut.antt =====
-- crates/model_safety/src/crisis/haircut.rs: the waterfall of a crisis, in its three steps.
use barista_dex_perc.Prelude.{ℕ, ◌+◌, ◌%◌, ◌^◌, Bool, true, Option, some, if◌then◌else◌}
use barista_dex_perc.Prelude.Int.{ℤ, pos, ltb_ℤ, ◌==ℤ◌}
use barista_dex_perc.Prelude.Options.{◌>>=◌}
use barista_dex_perc.Math.{add_i128, sub_i128}
use barista_dex_perc.Crisis.Ratio.{mul_scaled, ratio, one_minus, mul_scale}
use barista_dex_perc.Crisis.Accums.{Accums, deficit}

pub record CrisisOutcome : Type 0 where
  pub burned_warming : ℤ
  pub insurance_draw : ℤ
  pub equity_haircut_ratio : ℕ
  pub is_solvent : Bool

-- `core::cmp::min`.
unfoldable pub least : ℤ → ℤ → ℤ
least a b = if ltb_ℤ b a then b else a

-- Step 1: the new aggregates and the warming PnL that was burned.
unfoldable pub burn_warming : Accums → Accums × ℤ
burn_warming a =
    if ltb_ℤ (pos 0) a.sigma_warming
    then (if ltb_ℤ (pos 0) (deficit a)
        then (let burn = least (deficit a) a.sigma_warming in
            let gamma = ratio burn a.sigma_warming in
            (
              record a {
                warming_scale = mul_scale a.warming_scale (one_minus gamma);
                sigma_warming = sub_i128 a.sigma_warming burn;
              },
              burn,
            ))
        else (a, pos 0))
    else (a, pos 0)

-- Step 2: the draw on the insurance fund.
unfoldable pub draw_insurance : Accums → Accums × ℤ
draw_insurance a =
    if ltb_ℤ (pos 0) (deficit a)
    then (if ltb_ℤ (pos 0) a.sigma_insurance
        then (let draw = least (deficit a) a.sigma_insurance in
            (record a { sigma_insurance = sub_i128 a.sigma_insurance draw }, draw))
        else (a, pos 0))
    else (a, pos 0)

-- Step 3: the haircut of equity and its ratio.
unfoldable pub cut_equity : Accums → Option (Accums × ℕ)
cut_equity a =
    if ltb_ℤ (pos 0) (deficit a)
    then (let equity_total = add_i128 a.sigma_principal a.sigma_realized in
        if ltb_ℤ (pos 0) equity_total
        then (let rho = ratio (deficit a) equity_total in
            do
              new_principal ← mul_scaled (one_minus rho) a.sigma_principal
              new_realized ← mul_scaled (one_minus rho) a.sigma_realized
              some (
                record a {
                  equity_scale = mul_scale a.equity_scale (one_minus rho);
                  sigma_principal = new_principal;
                  sigma_realized = new_realized;
                },
                rho,
              ))
        else some (a, 0))
    else some (a, 0)

-- `none` where the haircut of equity panics.
unfoldable pub crisis_apply_haircuts : Accums → Option (Accums × CrisisOutcome)
crisis_apply_haircuts a =
    if deficit a ==ℤ pos 0
    then some (
      a,
      record {
        burned_warming = pos 0;
        insurance_draw = pos 0;
        equity_haircut_ratio = 0;
        is_solvent = true;
      },
    )
    else do
      let burnt = burn_warming a
      let drawn = draw_insurance burnt.0
      cut ← cut_equity drawn.0
      let a' = record cut.0 { epoch = (cut.0.epoch + 1) % 2 ^ 64 }
      some (
        a',
        record {
          burned_warming = burnt.1;
          insurance_draw = drawn.1;
          equity_haircut_ratio = cut.1;
          is_solvent = deficit a' ==ℤ pos 0;
        },
      )
