-- ===== src/Router/Liquidation/Planner.antt =====
-- programs/router/src/liquidation/planner.rs. An array with a count is the list of its places in use.
use barista_dex_perc.Prelude.{
  ℕ, Bool, true, false, ◌&&◌, Option, none, some, List, [], ◌∷◌, ◌++◌, leb, ◌==◌, if◌then◌else◌,
  length,
}
use barista_dex_perc.Prelude.Int.{ℤ, pos, ltb_ℤ, ◌==ℤ◌, ◌+ℤ◌}
use barista_dex_perc.Prelude.Outcome.{Outcome, ok, err, ◌>>=◌, or_abort}
use barista_dex_perc.Math.{fit_i64, min_i128}
use barista_dex_perc.Matcher.{PercolatorError, as_i64}
use barista_dex_perc.Router.Portfolio.{Exposure, Portfolio}
use barista_dex_perc.Router.Registry.{SlabRegistry}
use barista_dex_perc.Router.Position.{abs_i64}
use barista_dex_perc.Router.Order.{SlabSplit}
use barista_dex_perc.Router.Liquidation.{validate_oracle_alignment, calculate_price_band}

abbrev pub max_liquidation_splits : ℕ
max_liquidation_splits = 8

pub record LiquidationPlan : Type 0 where
  pub splits : List SlabSplit
  pub expected_reduction : ℤ
  pub band_px_low : ℤ
  pub band_px_high : ℤ

abbrev pub new_plan : LiquidationPlan
new_plan = record {
  splits = [];
  expected_reduction = pos 0;
  band_px_low = pos 0;
  band_px_high = pos 0;
}

unfoldable pub add_split : LiquidationPlan → SlabSplit → Outcome PercolatorError LiquidationPlan
add_split plan split =
    if leb max_liquidation_splits (length plan.splits) then err PercolatorError.pool_full else do
      reduction ← or_abort (fit_i64 (plan.expected_reduction +ℤ split.qty))
      ok (record plan { splits = plan.splits ++ (split ∷ []); expected_reduction = reduction })

pub record OraclePrice : Type 0 where
  pub instrument_idx : ℕ
  pub price : ℤ

pub record SlabInfo : Type 0 where
  pub slab_id : ℕ
  pub slab_idx : ℕ
  pub instrument_idx : ℕ
  pub mark_price : ℤ

unfoldable pub find_oracle_price : List OraclePrice → ℕ → ℤ
find_oracle_price [] instrument_idx = pos 0
find_oracle_price (o ∷ os) instrument_idx =
    if o.instrument_idx == instrument_idx then o.price else find_oracle_price os instrument_idx

-- The first slab of an exposure whose mark price is near the oracle's.
unfoldable pub aligned_slab : List SlabInfo → Exposure → ℤ → ℕ → Option (Option SlabInfo)
aligned_slab [] e oracle_price tolerance_bps = some none
aligned_slab (info ∷ infos) e oracle_price tolerance_bps =
    elim (info.slab_idx == e.slab_idx && info.instrument_idx == e.instrument_idx) [
      | false ↦ aligned_slab infos e oracle_price tolerance_bps
      | true ↦ elim (validate_oracle_alignment info.mark_price oracle_price tolerance_bps) [
        | none ↦ none
        | some true ↦ some (some info)
        | some false ↦ aligned_slab infos e oracle_price tolerance_bps
      ]
    ]

-- The split for a quantity at a slab.
unfoldable pub reduce_split : SlabInfo → ℤ → ℕ → ℤ × ℤ → ℕ → SlabSplit
reduce_split info qty size band cap = record {
  slab_id = info.slab_id;
  qty = min_i128 (pos size) (as_i64 (pos cap));
  side = if ltb_ℤ (pos 0) qty then 1 else 0;
  limit_px = if ltb_ℤ (pos 0) qty then band.0 else band.1;
}

-- The body of the loop over the exposures.
unfoldable pub plan_exposure :
    SlabRegistry
    → List OraclePrice
    → List SlabInfo
    → ℕ
    → LiquidationPlan
    → Exposure
    → Outcome PercolatorError LiquidationPlan
plan_exposure r oracle_prices slab_infos band_bps plan e =
    let oracle_price = find_oracle_price oracle_prices e.instrument_idx in
    if e.qty ==ℤ pos 0 then ok plan else if oracle_price ==ℤ pos 0 then ok plan else do
      band ← or_abort (calculate_price_band oracle_price band_bps)
      let banded = record plan { band_px_low = band.0; band_px_high = band.1 }
      size ← or_abort (abs_i64 e.qty)
      found ← or_abort (aligned_slab slab_infos e oracle_price r.oracle_tolerance_bps)
      elim found [
        | none ↦ ok banded
        | some info ↦ add_split banded (reduce_split info e.qty size band r.router_cap_per_slab)
      ]

unfoldable pub plan_exposures :
    SlabRegistry
    → List OraclePrice
    → List SlabInfo
    → ℕ
    → LiquidationPlan
    → List Exposure
    → Outcome PercolatorError LiquidationPlan
plan_exposures r oracle_prices slab_infos band_bps plan [] = ok plan
plan_exposures r oracle_prices slab_infos band_bps plan (e ∷ es) = do
  next ← plan_exposure r oracle_prices slab_infos band_bps plan e
  plan_exposures r oracle_prices slab_infos band_bps next es

unfoldable pub plan_reduce_only :
    Portfolio
    → SlabRegistry
    → List OraclePrice
    → List SlabInfo
    → Bool
    → Outcome PercolatorError LiquidationPlan
plan_reduce_only p r oracle_prices slab_infos is_preliq =
    plan_exposures r oracle_prices slab_infos
      (if is_preliq then r.preliq_band_bps else r.liq_band_bps) new_plan p.exposures
