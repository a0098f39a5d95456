-- ===== src/Common.antt =====
-- programs/common/src/math.rs. A `none` is a panic.
pub mod Rounding
mod Tests
use barista_dex_perc.Prelude.{
  ℕ, ◌+◌, ◌-◌, ◌*◌, ◌/◌, ◌%◌, ◌^◌, Bool, Option, none, some, if◌then◌else◌, ◌==◌,
}
use barista_dex_perc.Prelude.Int.{ℤ, pos, ◌-ℤ◌, ◌*ℤ◌}
use barista_dex_perc.Prelude.Options.{◌>>=◌}
use barista_dex_perc.Math.{fit_i128}
use barista_dex_perc.Router.Position.{abs_i64, fit_u128}
use barista_dex_perc.Router.Funds.{fit_u64}

-- The products of two u64 values are u128 values.
unfoldable pub mul_u64 : ℕ → ℕ → ℕ
mul_u64 a b = a * b

unfoldable pub mul_u64_u128 : ℕ → ℕ → Option ℕ
mul_u64_u128 a b = fit_u128 (a * b)

-- With both arguments 0 the subtraction panics, and otherwise the division by 0.
unfoldable pub div_ceil_u128 : ℕ → ℕ → Option ℕ
div_ceil_u128 numerator denominator =
    if denominator == 0
    then none
    else do sum ← fit_u128 (numerator + denominator); some ((sum - 1) / denominator)

unfoldable pub div_floor_u128 : ℕ → ℕ → Option ℕ
div_floor_u128 numerator denominator =
    if denominator == 0 then none else some (numerator / denominator)

unfoldable pub calculate_vwap : ℕ → ℕ → ℕ
calculate_vwap total_notional total_qty =
    if total_qty == 0 then 0 else (total_notional / total_qty) % 2 ^ 64

unfoldable pub update_vwap : ℕ → ℕ → ℕ → ℕ → Option (ℕ × ℕ)
update_vwap current_qty current_notional fill_qty fill_price = do
  new_qty ← fit_u64 (current_qty + fill_qty)
  new_notional ← fit_u128 (current_notional + mul_u64 fill_qty fill_price)
  some (new_qty, new_notional)

unfoldable pub calculate_pnl : ℤ → ℕ → ℕ → Option ℤ
calculate_pnl qty entry_price current_price = do
  difference ← fit_i128 (pos current_price -ℤ pos entry_price)
  fit_i128 (qty *ℤ difference)

unfoldable pub calculate_funding_payment : ℤ → ℤ → ℤ → Option ℤ
calculate_funding_payment qty cum_funding_current cum_funding_entry = do
  difference ← fit_i128 (cum_funding_current -ℤ cum_funding_entry)
  fit_i128 (qty *ℤ difference)

unfoldable pub is_tick_aligned : ℕ → ℕ → Option Bool
is_tick_aligned price tick = if tick == 0 then none else some (price % tick == 0)

unfoldable pub is_lot_aligned : ℕ → ℕ → Option Bool
is_lot_aligned qty lot = if lot == 0 then none else some (qty % lot == 0)

unfoldable pub round_to_tick : ℕ → ℕ → Option ℕ
round_to_tick price tick = if tick == 0 then none else some (price / tick * tick)

unfoldable pub round_to_lot : ℕ → ℕ → Option ℕ
round_to_lot qty lot = if lot == 0 then none else some (qty / lot * lot)

unfoldable pub calculate_im : ℤ → ℕ → ℕ → ℕ → Option ℕ
calculate_im qty contract_size mark_price imr_bps = do
  abs_qty ← abs_i64 qty
  notional_value ← mul_u64_u128 mark_price (mul_u64 abs_qty contract_size)
  scaled ← fit_u128 (notional_value * imr_bps)
  some (scaled / 10_000)

unfoldable pub calculate_mm : ℤ → ℕ → ℕ → ℕ → Option ℕ
calculate_mm qty contract_size mark_price mmr_bps = do
  abs_qty ← abs_i64 qty
  notional_value ← mul_u64_u128 mark_price (mul_u64 abs_qty contract_size)
  scaled ← fit_u128 (notional_value * mmr_bps)
  some (scaled / 10_000)
