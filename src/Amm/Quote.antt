-- ===== src/Amm/Quote.antt =====
-- crates/amm_model/src/lib.rs and math.rs. An i64 is an integer; i64 arithmetic that leaves its range
-- aborts, and so does the i128 arithmetic of the fee and of the price. The i128 sums and differences
-- of two i64 values cannot leave their range and are written plain.
use barista_dex_perc.Prelude.{◌||◌}
use barista_dex_perc.Prelude.Int.{ℤ, pos, ◌+ℤ◌, ◌-ℤ◌, ◌*ℤ◌, ◌/ℤ◌, ltb_ℤ, leb_ℤ}
use barista_dex_perc.Prelude.Outcome.{Outcome, ok, ◌>>=◌, ◌>>◌, reject_if, ok_or, or_abort}
use barista_dex_perc.Math.{i64_max, fit_i64, fit_i128}

abbrev pub scale : ℤ
scale = pos 1_000_000

abbrev pub bps_scale : ℤ
bps_scale = pos 10_000

pub data AmmError : Type 0 where
  invalid_reserves invalid_amount insufficient_liquidity overflow : AmmError

pub record QuoteResult : Type 0 where
  pub quote_amount : ℤ
  pub vwap_px : ℤ
  pub new_x : ℤ
  pub new_y : ℤ

-- The overflow checks that end both quotes.
unfoldable pub fit_quote : ℤ → ℤ → ℤ → ℤ → Outcome AmmError QuoteResult
fit_quote amount vwap x1 new_y = do
  reject_if (ltb_ℤ (pos i64_max) amount || ltb_ℤ (pos i64_max) vwap) overflow
  reject_if (ltb_ℤ (pos i64_max) x1 || ltb_ℤ (pos i64_max) new_y) overflow
  ok (record { quote_amount = amount; vwap_px = vwap; new_x = x1; new_y = new_y })

-- The quote in, fees included, and its price: the part of `quote_buy` after the curve.
unfoldable pub charge_fee : ℤ → ℤ → ℤ → Outcome AmmError (ℤ × ℤ)
charge_fee fee_bps dx dy_gross = do
  reject_if (leb_ℤ (bps_scale -ℤ fee_bps) (pos 0)) invalid_amount
  with_fee ← or_abort (fit_i128 (dy_gross *ℤ bps_scale))
  let dy_in = with_fee /ℤ (bps_scale -ℤ fee_bps)
  scaled ← or_abort (fit_i128 (dy_in *ℤ scale))
  ok (dy_in, scaled /ℤ dx)

-- The validation of a purchase and the gross quote that keeps it on the curve.
unfoldable pub curve_buy : ℤ → ℤ → ℤ → ℤ → Outcome AmmError ℤ
curve_buy x_reserve y_reserve dx_out min_liquidity = do
  reject_if (leb_ℤ x_reserve (pos 0) || leb_ℤ y_reserve (pos 0)) invalid_reserves
  reject_if (leb_ℤ dx_out (pos 0)) invalid_amount
  room ← or_abort (fit_i64 (x_reserve -ℤ min_liquidity))
  reject_if (leb_ℤ room dx_out) insufficient_liquidity
  reject_if (leb_ℤ (x_reserve -ℤ dx_out) (pos 0)) insufficient_liquidity
  k ← ok_or (fit_i128 (x_reserve *ℤ y_reserve)) overflow
  let dy_gross = k /ℤ (x_reserve -ℤ dx_out) -ℤ y_reserve
  reject_if (leb_ℤ dy_gross (pos 0)) invalid_amount
  ok dy_gross

unfoldable pub quote_buy : ℤ → ℤ → ℤ → ℤ → ℤ → Outcome AmmError QuoteResult
quote_buy x_reserve y_reserve fee_bps dx_out min_liquidity = do
  dy_gross ← curve_buy x_reserve y_reserve dx_out min_liquidity
  priced ← charge_fee fee_bps dx_out dy_gross
  fit_quote priced.0 priced.1 (x_reserve -ℤ dx_out) (y_reserve +ℤ priced.0)

-- The validation of a sale, the reserve after it and the quote's new reserve.
unfoldable pub curve_sell : ℤ → ℤ → ℤ → ℤ → ℤ → Outcome AmmError (ℤ × ℤ)
curve_sell x_reserve y_reserve fee_bps dx_in min_liquidity = do
  reject_if (leb_ℤ x_reserve (pos 0) || leb_ℤ y_reserve (pos 0)) invalid_reserves
  reject_if (leb_ℤ dx_in (pos 0)) invalid_amount
  fee_multiplier ← or_abort (fit_i64 (bps_scale -ℤ fee_bps))
  reject_if (ltb_ℤ fee_multiplier (pos 0)) invalid_amount
  let x1 = x_reserve +ℤ (dx_in *ℤ fee_multiplier) /ℤ bps_scale
  k ← ok_or (fit_i128 (x_reserve *ℤ y_reserve)) overflow
  let y1 = k /ℤ x1
  reject_if (leb_ℤ (y_reserve -ℤ y1) (pos 0)) invalid_amount
  room ← or_abort (fit_i64 (y_reserve -ℤ min_liquidity))
  reject_if (leb_ℤ room (y_reserve -ℤ y1)) insufficient_liquidity
  ok (x1, y1)

unfoldable pub quote_sell : ℤ → ℤ → ℤ → ℤ → ℤ → Outcome AmmError QuoteResult
quote_sell x_reserve y_reserve fee_bps dx_in min_liquidity = do
  moved ← curve_sell x_reserve y_reserve fee_bps dx_in min_liquidity
  let dy_out = y_reserve -ℤ moved.1
  fit_quote dy_out ((dy_out *ℤ scale) /ℤ dx_in) moved.0 moved.1
