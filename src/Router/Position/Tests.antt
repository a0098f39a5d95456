-- ===== src/Router/Position/Tests.antt =====
-- Runs of programs/router/src/state/position_details.rs: a long that grows and shrinks, and a short.
use barista_dex_perc.Prelude.{ℕ, ◌+◌, ◌≤◌, ◌≡◌, refl, some, inl, arith}
use barista_dex_perc.Prelude.Int.{pos, neg_part, neg_ℤ, ◌+ℤ◌, ◌-ℤ◌, ◌*ℤ◌, ◌/ℤ◌}
use barista_dex_perc.Math.{fit_i64, fit_i128, sat_i128, add_i128, add_u128, sub_u128}
use barista_dex_perc.Matcher.{as_i64, signed_64}
use barista_dex_perc.Router.Position.{
  PositionDetails, new_position, abs_i64, as_u128, fit_u128, next_count, quotient, add_to_position,
  closing_pnl, remaining_qty, margin_to_release, reduce_position,
}
use barista_dex_perc.Router.Position.Margin.{
  size, Reduced, reduce_position-Reduced, reduce_position_short,
}
use barista_dex_perc.Router.Position.Average.{add_to_position_average}

abbrev long : PositionDetails
long = new_position 100 0 0 (pos 2_000_000) (pos 1_000) (pos 0) 1_000_000 1

abbrev grown : PositionDetails
grown = record long {
  avg_entry_price = pos 2_250_000;
  total_qty = pos 2_000;
  trade_count = 2;
  last_update_ts = pos 5;
  margin_held = 2_000_000;
}

grows : add_to_position long (pos 2_500_000) (pos 1_000) (pos 0) (pos 5) 1_000_000 ≡ some grown
unfolding add_to_position abs_i64 fit_i64 quotient next_count as_i64 signed_64 add_i128 sat_i128
    add_u128 ◌+ℤ◌ ◌*ℤ◌ ◌/ℤ◌ new_position
grows = refl

add_to_position_average_example :
    (n : ℕ) × (grown.avg_entry_price ≡ pos n)
    × (2_000_000 ≤ n)
    × (n ≤ 2_500_000)
    × (size grown.total_qty ≡ 2_000)
    × (grown.margin_held ≡ 2_000_000)
unfolding new_position add_u128
add_to_position_average_example =
    add_to_position_average long 2_000_000 2_500_000 (pos 1_000) (pos 0) (pos 5) 1_000_000 grown
      refl (omega arith) (omega arith) (inl (refl, refl)) grows

abbrev shrunk : PositionDetails
shrunk = record long {
  total_qty = pos 600;
  trade_count = 2;
  last_update_ts = pos 6;
  margin_held = 600_000;
}

shrinks :
    reduce_position long (pos 2_000_000) (neg_ℤ (pos 400)) (pos 0) (pos 6)
    ≡ some (shrunk, pos 0, pos 600, 400_000)
unfolding reduce_position abs_i64 closing_pnl quotient next_count remaining_qty margin_to_release
    as_u128 fit_u128 sub_u128 fit_i128 add_i128 sat_i128 ◌+ℤ◌ ◌-ℤ◌ ◌*ℤ◌ ◌/ℤ◌ new_position
shrinks = refl

reduce_position-Reduced_example :
    (shrunk.total_qty ≡ pos 600)
    × (shrunk.margin_held + 400_000 ≡ long.margin_held)
    × Reduced long.margin_held long.total_qty (pos 600) 400 400_000
unfolding new_position
reduce_position-Reduced_example =
    reduce_position-Reduced long (pos 2_000_000) (neg_ℤ (pos 400)) (pos 0) (pos 6) shrunk (pos 0)
      (pos 600) 400_000 shrinks

abbrev short : PositionDetails
short = new_position 100 0 0 (pos 2_000_000) (neg_ℤ (pos 1_000)) (pos 0) 1_000_000 1

abbrev cut : PositionDetails
cut = record short { total_qty = neg_ℤ (pos 600); trade_count = 2; last_update_ts = pos 6 }

covers :
    reduce_position short (pos 2_000_000) (pos 400) (pos 0) (pos 6)
    ≡ some (cut, pos 0, neg_ℤ (pos 600), 0)
unfolding reduce_position abs_i64 closing_pnl quotient next_count remaining_qty margin_to_release
    as_u128 fit_u128 sub_u128 fit_i128 add_i128 sat_i128 ◌+ℤ◌ ◌-ℤ◌ ◌*ℤ◌ ◌/ℤ◌ new_position
covers = refl

abbrev released : ℕ
released = 0

reduce_position_short_example :
    (released ≡ 0) × (cut.margin_held ≡ short.margin_held) × (600 + 400 ≡ neg_part short.total_qty)
unfolding new_position
reduce_position_short_example =
    reduce_position_short short (pos 2_000_000) (pos 400) (pos 0) (pos 6) cut (pos 0)
      (neg_ℤ (pos 600)) 0 (omega arith) covers
