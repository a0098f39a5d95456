-- ===== src/Router/Liquidation.antt =====
-- programs/router/src/liquidation/oracle.rs. `none` is a panic of i64 arithmetic.
pub mod Planner
pub mod Reduce
pub mod Plans
mod Tests
use barista_dex_perc.Prelude.{ℕ, ◌*◌, ◌/◌, Bool, false, Option, some, leb, ◌==◌, if◌then◌else◌}
use barista_dex_perc.Prelude.Int.{
  ℤ, pos, negsuc, pos_part, neg_part, ltb_ℤ, leb_ℤ, ◌==ℤ◌, ◌+ℤ◌, ◌-ℤ◌,
}
use barista_dex_perc.Prelude.Options.{◌>>=◌}
use barista_dex_perc.Math.{i64_max, fit_i64, min_i128, max_i128}
use barista_dex_perc.Matcher.{as_i64}
use barista_dex_perc.Router.Position.{abs_i64}

-- Whether a mark price is near the oracle's.
unfoldable pub validate_oracle_alignment : ℤ → ℤ → ℕ → Option Bool
validate_oracle_alignment slab_mark oracle_price tolerance_bps =
    if oracle_price ==ℤ pos 0 then some false else do
      difference ← fit_i64 (slab_mark -ℤ oracle_price)
      diff ← abs_i64 difference
      size ← abs_i64 oracle_price
      some (leb_ℤ (pos diff) (as_i64 (pos (size * tolerance_bps / 10_000))))

-- The nearest i64.
unfoldable pub sat_i64 : ℤ → ℤ
sat_i64 x = min_i128 (max_i128 x (negsuc i64_max)) (pos i64_max)

unfoldable pub calculate_price_band : ℤ → ℕ → Option (ℤ × ℤ)
calculate_price_band oracle_price band_bps =
    if oracle_price ==ℤ pos 0 then some (pos 0, pos 0) else do
      size ← abs_i64 oracle_price
      let band_amount = as_i64 (pos (size * band_bps / 10_000))
      some (
          if ltb_ℤ (pos 0) oracle_price
          then (sat_i64 (oracle_price -ℤ band_amount), sat_i64 (oracle_price +ℤ band_amount))
          else (sat_i64 (oracle_price +ℤ band_amount), sat_i64 (oracle_price -ℤ band_amount)))
