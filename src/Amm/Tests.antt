-- ===== src/Amm/Tests.antt =====
-- Quotes of crates/amm_model on small pools.
use barista_dex_perc.Prelude.{◌+◌, ◌*◌, ◌-◌, ◌/◌, ◌≤◌, ◌<◌, ◌≡◌, refl, arith}
use barista_dex_perc.Prelude.Int.{pos, ◌+ℤ◌, ◌-ℤ◌, ◌*ℤ◌, ◌/ℤ◌, ◌≤ℤ◌}
use barista_dex_perc.Prelude.Outcome.{ok}
use barista_dex_perc.Math.{fit_i64, fit_i128}
use barista_dex_perc.Amm.Quote.{
  QuoteResult, fit_quote, charge_fee, curve_buy, quote_buy, curve_sell, quote_sell,
}
use barista_dex_perc.Amm.Buy.{quote_buy-curve}
use barista_dex_perc.Amm.Sell.{quote_sell-curve}

-- 1,000 base and 60,000 quote at a fee of 5 bps.
abbrev bought : QuoteResult
bought = record {
  quote_amount = pos 6_669;
  vwap_px = pos 66_690_000;
  new_x = pos 900;
  new_y = pos 66_669;
}

abbrev sold : QuoteResult
sold = record {
  quote_amount = pos 5_405;
  vwap_px = pos 54_050_000;
  new_x = pos 1_099;
  new_y = pos 54_595;
}

quote_buy_run : quote_buy (pos 1_000) (pos 60_000) (pos 5) (pos 100) (pos 10) ≡ ok bought
unfolding quote_buy curve_buy charge_fee fit_quote fit_i64 fit_i128 ◌+ℤ◌ ◌-ℤ◌ ◌*ℤ◌ ◌/ℤ◌
quote_buy_run = refl

quote_sell_run : quote_sell (pos 1_000) (pos 60_000) (pos 5) (pos 100) (pos 10) ≡ ok sold
unfolding quote_sell curve_sell fit_quote fit_i64 fit_i128 ◌+ℤ◌ ◌-ℤ◌ ◌*ℤ◌ ◌/ℤ◌
quote_sell_run = refl

quote_buy-curve_example :
    (pos 1 +ℤ pos 10 ≤ℤ pos 900)
    × (900 + 100 ≡ 1_000)
    × (66_669 ≡ 60_000 + 6_669)
    × (1_000 * 60_000 < 900 * (66_669 + 1))
quote_buy-curve_example =
    quote_buy-curve (pos 1_000) (pos 60_000) (pos 5) (pos 100) (pos 10) bought (omega arith)
      quote_buy_run

quote_sell-curve_example :
    (pos 1 +ℤ pos 10 ≤ℤ pos 54_595)
    × (1_099 ≡ 1_000 + 100 * (10_000 - 5) / 10_000)
    × (54_595 + 5_405 ≡ 60_000)
    × (1 ≤ 5_405)
    × (1_099 * 54_595 ≤ 1_000 * 60_000)
    × (1_000 * 60_000 < 1_099 * (54_595 + 1))
quote_sell-curve_example =
    quote_sell-curve (pos 1_000) (pos 60_000) (pos 5) (pos 100) (pos 10) sold (omega arith)
      quote_sell_run
