-- ===== src/Router/Liquidation/Tests.antt =====
-- A run of programs/router/src/liquidation: a plan for a long and a short position.
use barista_dex_perc.Prelude.{◌≤◌, ◌≡◌, refl, false, List, [], ◌∷◌, arith, length}
use barista_dex_perc.Prelude.Int.{pos, neg_ℤ, ◌+ℤ◌, ◌-ℤ◌}
use barista_dex_perc.Prelude.Outcome.{ok}
use barista_dex_perc.Math.{fit_i64, min_i128, max_i128}
use barista_dex_perc.Matcher.{as_i64, signed_64}
use barista_dex_perc.Router.Portfolio.{Portfolio, new_portfolio}
use barista_dex_perc.Router.Registry.{new_registry}
use barista_dex_perc.Router.Position.{abs_i64}
use barista_dex_perc.Router.Liquidation.{validate_oracle_alignment, sat_i64, calculate_price_band}
use barista_dex_perc.Router.Liquidation.Planner.{
  LiquidationPlan, add_split, OraclePrice, SlabInfo, find_oracle_price, aligned_slab, reduce_split,
  plan_exposure, plan_exposures, plan_reduce_only,
}
use barista_dex_perc.Router.Liquidation.Reduce.{Plans}
use barista_dex_perc.Router.Liquidation.Plans.{total, plan_reduce_only-Plans}

abbrev owner : Portfolio
owner = record (new_portfolio 1 7) {
  exposures =
      record { slab_idx = 0; instrument_idx = 0; qty = pos 1_000 }
      ∷ record { slab_idx = 1; instrument_idx = 1; qty = neg_ℤ (pos 500) }
      ∷ [];
}

abbrev prices : List OraclePrice
prices =
    record { instrument_idx = 0; price = pos 2_000_000 }
    ∷ record { instrument_idx = 1; price = pos 1_000_000 }
    ∷ []

abbrev slabs : List SlabInfo
slabs =
    record { slab_id = 30; slab_idx = 0; instrument_idx = 0; mark_price = pos 2_001_000 }
    ∷ record { slab_id = 31; slab_idx = 1; instrument_idx = 1; mark_price = pos 1_000_000 }
    ∷ []

abbrev plan : LiquidationPlan
plan = record {
  splits =
      record { slab_id = 30; qty = pos 1_000; side = 1; limit_px = pos 1_960_000 }
      ∷ record { slab_id = 31; qty = pos 500; side = 0; limit_px = pos 1_020_000 }
      ∷ [];
  expected_reduction = pos 1_500;
  band_px_low = pos 980_000;
  band_px_high = pos 1_020_000;
}

planned : plan_reduce_only owner (new_registry 1 2) prices slabs false ≡ ok plan
unfolding plan_reduce_only plan_exposures plan_exposure add_split find_oracle_price aligned_slab
    reduce_split validate_oracle_alignment sat_i64 calculate_price_band abs_i64 fit_i64 min_i128
    max_i128 as_i64 signed_64 ◌+ℤ◌ ◌-ℤ◌
planned = refl

plan_reduce_only-Plans_example :
    Plans (new_registry 1 2) prices slabs 200 owner.exposures plan.splits
    × (plan.expected_reduction ≡ total plan.splits (pos 0))
    × (length plan.splits ≤ 8)
plan_reduce_only-Plans_example =
    plan_reduce_only-Plans owner (new_registry 1 2) prices slabs false plan (omega arith)
      (omega arith) (omega arith) planned
