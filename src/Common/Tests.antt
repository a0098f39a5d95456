-- ===== src/Common/Tests.antt =====
-- Runs of programs/common/src/math.rs, from its own tests.
use barista_dex_perc.Prelude.{◌≡◌, refl, some, none}
use barista_dex_perc.Prelude.Int.{negsuc, ◌-ℤ◌, ◌*ℤ◌}
use barista_dex_perc.Math.{fit_i128}
use barista_dex_perc.Router.Position.{abs_i64, fit_u128}
use barista_dex_perc.Router.Funds.{fit_u64}
use barista_dex_perc.Common.{
  mul_u64, mul_u64_u128, div_floor_u128, calculate_vwap, update_vwap, calculate_pnl, calculate_im,
}

-- 100 at 50,000.
first_fill : update_vwap 0 0 100 50_000 ≡ some (100, 5_000_000)
unfolding update_vwap mul_u64 fit_u64 fit_u128
first_fill = refl

-- 50 at 51,000 on top of it.
average_price : calculate_vwap 7_550_000 150 ≡ 50_333
unfolding calculate_vwap
average_price = refl

-- A short of 10 loses when the price rises.
short_loss : calculate_pnl (negsuc 9) 50_000 51_000 ≡ some (negsuc 9_999)
unfolding calculate_pnl ◌-ℤ◌ ◌*ℤ◌ fit_i128
short_loss = refl

short_margin : calculate_im (negsuc 99) 1 50_000 1_000 ≡ some 500_000
unfolding calculate_im abs_i64 mul_u64_u128 mul_u64 fit_u128
short_margin = refl

by_zero : div_floor_u128 7 0 ≡ none
unfolding div_floor_u128
by_zero = refl
