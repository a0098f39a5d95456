-- ===== src/Crisis/Tests.antt =====
-- Runs of crates/model_safety/src/crisis: a shortfall of 300 against warming PnL, insurance and equity.
use barista_dex_perc.Prelude.{◌*◌, ◌/◌, ◌^◌, ◌≡◌, refl, true, some, arith}
use barista_dex_perc.Prelude.Int.{pos, ◌+ℤ◌, ◌-ℤ◌, ◌*ℤ◌, ◌/ℤ◌}
use barista_dex_perc.Math.{add_u128, mul_u128, add_i128, sub_i128, sat_i128, fit_i128}
use barista_dex_perc.Crisis.Ratio.{one, ratio, wide_mul_shr64, mul_scaled}
use barista_dex_perc.Crisis.Limbs.{wide_mul_shr64-exact}
use barista_dex_perc.Crisis.Accums.{Accums, UserPortfolio, deficit}
use barista_dex_perc.Crisis.Haircut.{CrisisOutcome, crisis_apply_haircuts, least}
use barista_dex_perc.Crisis.Funds.{Funds, accums_of, IsBounded}
use barista_dex_perc.Crisis.Waterfall.{Absorbs, crisis-Absorbs, crisis-haircut}
use barista_dex_perc.Crisis.Solvency.{crisis-solvent}
use barista_dex_perc.Crisis.Materialize.{
  MaterializeParams, default_params, scale_delta, burn_equity, apply_equity_scale_delta, vest,
  vested_in, vest_warming_to_realized, reconcile_equity, reconcile_warming, materialize_user,
}
use barista_dex_perc.Crisis.Reconcile.{materialize_user-idempotent}

wide_mul_shr64-exact_example :
    wide_mul_shr64 (3 * 2 ^ 70) (5 * 2 ^ 62) ≡ 3 * 2 ^ 70 * (5 * 2 ^ 62) / 2 ^ 64
wide_mul_shr64-exact_example =
    wide_mul_shr64-exact (3 * 2 ^ 70) (5 * 2 ^ 62) (omega arith) (omega arith) (omega arith)

abbrev short : Funds
short = record {
  principal = 900;
  realized = 100;
  warming = 200;
  collateral = 850;
  insurance = 50;
  equity_scale = one;
  warming_scale = one;
  epoch = 0;
}

short-IsBounded : IsBounded short
short-IsBounded = record {
  owed = omega arith;
  held = omega arith;
  equity_fraction = omega arith;
  warming_fraction = omega arith;
}

crisis-Absorbs_example :
    (out : Accums × CrisisOutcome) × (crisis_apply_haircuts (accums_of short) ≡ some out)
    × Absorbs short out
crisis-Absorbs_example = crisis-Absorbs short short-IsBounded

crisis-solvent_example :
    (out : Accums × CrisisOutcome) × (crisis_apply_haircuts (accums_of short) ≡ some out)
    × (deficit out.0 ≡ pos 0)
    × (out.1.is_solvent ≡ true)
crisis-solvent_example = crisis-solvent short short-IsBounded (omega arith) (omega arith)

-- A loss of 100 after the warming PnL is charged to equity as 150, since 50 came from insurance.
crisis-haircut_example :
    (out : Accums × CrisisOutcome) × (crisis_apply_haircuts (accums_of short) ≡ some out)
    × (out.1.equity_haircut_ratio ≡ ratio (pos 150) (pos 1_000))
crisis-haircut_example = crisis-haircut short short-IsBounded (omega arith)

abbrev global : Accums
global = record (accums_of short) { equity_scale = 2 ^ 63; epoch = 1 }

abbrev user : UserPortfolio
user = record {
  principal = pos 90;
  realized = pos 10;
  warming = pos 45;
  equity_scale_snap = one;
  warming_scale_snap = one;
  last_epoch_applied = 0;
  last_touch_slot = 0;
}

abbrev at_slot_100 : MaterializeParams
at_slot_100 = record default_params { now_slot = 100 }

-- The user at slot 100: half of the equity, and the PnL that vested.
abbrev user' : UserPortfolio
user' = record user {
  principal = pos 50;
  realized = pos 1;
  warming = pos 44;
  equity_scale_snap = 2 ^ 63;
  last_epoch_applied = 1;
  last_touch_slot = 100;
}

abbrev global' : Accums
global' = record global { sigma_warming = pos 199; sigma_realized = pos 101 }

materialize_user-idempotent_example :
    materialize_user user' global' at_slot_100 ≡ some (user', global')
unfolding materialize_user reconcile_equity reconcile_warming apply_equity_scale_delta burn_equity
    vest_warming_to_realized vested_in vest scale_delta mul_scaled wide_mul_shr64 least add_i128
    sub_i128 sat_i128 fit_i128 add_u128 mul_u128 ◌+ℤ◌ ◌-ℤ◌ ◌*ℤ◌ ◌/ℤ◌
materialize_user-idempotent_example =
    materialize_user-idempotent user global at_slot_100 user' global' refl
