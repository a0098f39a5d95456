-- ===== src/Keeper/Tests.antt =====
-- Runs of keeper/src/health.rs and priority_queue.rs.
use barista_dex_perc.Prelude.{ℕ, ◌≡◌, refl, true, Option, some, none, [], ◌∷◌}
use barista_dex_perc.Prelude.Int.{ℤ, pos, negsuc, ◌+ℤ◌, ◌-ℤ◌, ◌*ℤ◌, ◌/ℤ◌}
use barista_dex_perc.Math.{fit_i128}
use barista_dex_perc.Router.Portfolio.{as_i128}
use barista_dex_perc.Keeper.{
  Portfolio, add_notionals, calculate_equity, calculate_health, UserHealth, needs_liquidation,
  in_preliq_zone, get_liquidatable, liquidation_threshold, preliq_buffer,
}

-- $95 of equity and $100 of maintenance margin, as in the tests of health.rs.
abbrev below : Portfolio
below = record {
  equity = pos 95_000_000;
  im = 110_000_000;
  mm = 100_000_000;
  exposures = [];
  exposure_count = 0;
}

abbrev no_prices : ℕ → Option ℤ
no_prices instrument = none

below_margin : calculate_health below no_prices ≡ some (negsuc 4_999_999)
unfolding calculate_health calculate_equity add_notionals as_i128 fit_i128 ◌-ℤ◌
below_margin = refl

-- Two units at a price of $50, with two more exposures counted than there are.
abbrev one_exposure : Portfolio
one_exposure = record below {
  exposures = record { slab_idx = 0; instrument_idx = 0; qty = pos 2_000_000 } ∷ [];
  exposure_count = 3;
}

whole_value :
    calculate_equity one_exposure (λ instrument. some (pos 50_000_000)) ≡ some (pos 195_000_000)
unfolding calculate_equity add_notionals fit_i128 ◌+ℤ◌ ◌*ℤ◌ ◌/ℤ◌
whole_value = refl

abbrev healthy : UserHealth
healthy = record {
  user = 1;
  portfolio = 2;
  health = pos 5_000_000;
  equity = pos 105_000_000;
  mm = 100_000_000;
  last_update = 9;
}

-- A user in the zone before liquidation is not among those that the keeper liquidates.
in_zone : in_preliq_zone healthy preliq_buffer ≡ true
unfolding in_preliq_zone
in_zone = refl

left_alone : get_liquidatable (healthy ∷ []) liquidation_threshold ≡ []
unfolding get_liquidatable needs_liquidation
left_alone = refl
