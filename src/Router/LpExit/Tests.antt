-- ===== src/Router/LpExit/Tests.antt =====
-- Runs of programs/router/src/instructions/burn_lp_shares.rs and cancel_lp_orders.rs.
use barista_dex_perc.Prelude.{◌≡◌, refl, true, none, some, [], ◌∷◌}
use barista_dex_perc.Prelude.Int.{pos, ◌+ℤ◌, ◌*ℤ◌, ◌/ℤ◌}
use barista_dex_perc.Prelude.Outcome.{ok, value_or}
use barista_dex_perc.Math.{fit_i128, add_i128, sat_i128, sub_u128, max_u128}
use barista_dex_perc.Router.LpBucket.{
  new_slab_venue, new_amm_venue, is_stale, found_order, LpBucket, is_amm, is_slab,
}
use barista_dex_perc.Router.Position.{fit_u128}
use barista_dex_perc.Router.Portfolio.{Portfolio, new_portfolio, as_i128, found_bucket}
use barista_dex_perc.Router.LpExit.{
  proportion, remaining_margin, replace_bucket, process_burn_lp_shares, cancel_ids, freed_ratio,
  less_freed, process_cancel_lp_orders,
}
use barista_dex_perc.Router.LpExit.Burns.{Burnt, process_burn_lp_shares-Burnt}
use barista_dex_perc.Router.LpExit.Cancels.{Cancelled, process_cancel_lp_orders-Cancelled}

abbrev pool_bucket : LpBucket
pool_bucket = record {
  venue = new_amm_venue 50;
  amm = some (record { lp_shares = 300; share_price_cached = pos 1_000_000; last_update_ts = 90 });
  slab = none;
  im = 200;
  mm = 100;
  active = true;
}

abbrev book_bucket : LpBucket
book_bucket = record {
  venue = new_slab_venue 50;
  amm = none;
  slab = some (record { reserved_quote = 800; reserved_base = 40; open_order_ids = 5 ∷ 6 ∷ [] });
  im = 80;
  mm = 40;
  active = true;
}

abbrev provider : Portfolio
provider = record (new_portfolio 1 7) { lp_buckets = pool_bucket ∷ book_bucket ∷ [] }

abbrev burnt : Portfolio
burnt = value_or provider (process_burn_lp_shares provider 50 100 (pos 2_000_000) 100 60)

burns : process_burn_lp_shares provider 50 100 (pos 2_000_000) 100 60 ≡ ok burnt
unfolding process_burn_lp_shares found_bucket is_amm is_stale remaining_margin proportion fit_u128
    fit_i128 as_i128 sub_u128 add_i128 sat_i128 replace_bucket ◌+ℤ◌ ◌*ℤ◌ ◌/ℤ◌
burns = refl

process_burn_lp_shares-Burnt_example : Burnt provider 50 100 (pos 2_000_000) 100 (λ b. b.mm) burnt
process_burn_lp_shares-Burnt_example =
    process_burn_lp_shares-Burnt provider 50 100 (pos 2_000_000) 100 60 (λ b. b.mm) burnt burns

abbrev cancelled : Portfolio
cancelled = value_or provider (process_cancel_lp_orders provider 50 (5 ∷ []) 1 400 10)

cancels : process_cancel_lp_orders provider 50 (5 ∷ []) 1 400 10 ≡ ok cancelled
unfolding process_cancel_lp_orders found_bucket is_slab cancel_ids found_order freed_ratio
    less_freed proportion fit_u128 sub_u128 max_u128 replace_bucket
cancels = refl

process_cancel_lp_orders-Cancelled_example :
    Cancelled provider 50 (5 ∷ []) 400 10 5 (λ b. b.mm) cancelled
process_cancel_lp_orders-Cancelled_example =
    process_cancel_lp_orders-Cancelled provider 50 (5 ∷ []) 1 400 10 5 (λ b. b.mm) cancelled cancels
