-- ===== src/Router/Chooser/Tests.antt =====
-- Runs of programs/router/src/chooser.rs.
use barista_dex_perc.Prelude.{arith, inl, inr, ◌≡◌, refl, none, some, List, [], ◌∷◌}
use barista_dex_perc.Prelude.Int.{pos, negsuc, ◌+ℤ◌, ◌-ℤ◌, ◌*ℤ◌, ◌/ℤ◌}
use barista_dex_perc.Math.{i64_max, fit_i64, fit_i128, min_i128}
use barista_dex_perc.Matcher.{QuoteCache, as_i64, no_levels, signed_64}
use barista_dex_perc.Router.Position.{quotient}
use barista_dex_perc.Router.Chooser.{
  SlabQuote, walk_levels, vwap_of, calculate_buy_vwap, calculate_sell_vwap, scan, cheaper,
  choose_best_buy, dearer, choose_best_sell,
}
use barista_dex_perc.Router.Chooser.Walk.{ArePriced}
use barista_dex_perc.Router.Chooser.Average.{AverageOf, calculate_vwap-AverageOf}
use barista_dex_perc.Router.Chooser.Best.{IsChosen, choose_best-IsChosen}

-- The cheapest quote is too small for five, and two of the others have one price.
abbrev three_quotes : List SlabQuote
three_quotes =
    record { slab_id = 1; vwap_px = pos 99; max_qty = pos 4; slab_type = 0 }
    ∷ record { slab_id = 2; vwap_px = pos 101; max_qty = pos 9; slab_type = 1 }
    ∷ record { slab_id = 3; vwap_px = pos 101; max_qty = pos 5; slab_type = 0 }
    ∷ record { slab_id = 4; vwap_px = pos 103; max_qty = pos 5; slab_type = 0 }
    ∷ []

buys : choose_best_buy three_quotes (pos 5) ≡ some 1
unfolding choose_best_buy scan
buys = refl

sells : choose_best_sell three_quotes (pos 5) ≡ some 3
unfolding choose_best_sell scan
sells = refl

none_fits : choose_best_buy three_quotes (pos 10) ≡ none
unfolding choose_best_buy scan
none_fits = refl

abbrev two_levels : QuoteCache
two_levels = record {
  seqno_snapshot = 3;
  best_bids = record { px = pos 98; avail_qty = pos 6 } ∷ no_levels;
  best_asks =
      record { px = pos 100; avail_qty = pos 10 }
      ∷ record { px = pos 103; avail_qty = pos 5 }
      ∷ record { px = pos 0; avail_qty = pos 0 }
      ∷ record { px = pos 1; avail_qty = pos 7 }
      ∷ [];
}

-- Ten are taken at 100 and two at 103.
averages : calculate_buy_vwap two_levels (pos 12) ≡ some (some (pos 100, pos 12))
unfolding calculate_buy_vwap vwap_of walk_levels ◌+ℤ◌ ◌-ℤ◌ ◌*ℤ◌ ◌/ℤ◌ fit_i64 fit_i128 min_i128
    quotient as_i64 signed_64
averages = refl

-- More than there is gives what there is.
partial : calculate_sell_vwap two_levels (pos 20) ≡ some (some (pos 98, pos 6))
unfolding calculate_sell_vwap vwap_of walk_levels ◌+ℤ◌ ◌-ℤ◌ ◌*ℤ◌ ◌/ℤ◌ fit_i64 fit_i128 min_i128
    quotient as_i64 signed_64
partial = refl

choose_best-IsChosen_example :
    IsChosen cheaper three_quotes (pos 5) (pos i64_max) (choose_best_buy three_quotes (pos 5))
    × IsChosen dearer three_quotes (pos 5) (negsuc i64_max) (choose_best_sell three_quotes (pos 5))
choose_best-IsChosen_example = choose_best-IsChosen three_quotes (pos 5)

calculate_vwap-AverageOf_example :
    AverageOf 98 103 two_levels.best_asks 12 (calculate_buy_vwap two_levels (pos 12))
    × AverageOf 98 103 two_levels.best_bids 12 (calculate_sell_vwap two_levels (pos 12))
unfolding ArePriced
calculate_vwap-AverageOf_example =
    calculate_vwap-AverageOf two_levels 98 103 12 (omega arith) (omega arith) (omega arith)
      (inr (
        100,
        10,
        refl,
        omega arith,
        omega arith,
        inr (103, 5, refl, omega arith, omega arith, inl refl),
      ))
      (inr (98, 6, refl, omega arith, omega arith, inl refl))
