-- ===== src/Router/SlabVenue/Tests.antt =====
-- A run of a trade on a slab: the purchase of the trades' tests.
use barista_dex_perc.Prelude.{◌≡◌, refl, inl, some, true, [], ◌∷◌, arith}
use barista_dex_perc.Prelude.Int.{pos, ◌+ℤ◌, ◌-ℤ◌, ◌*ℤ◌, ◌/ℤ◌}
use barista_dex_perc.Prelude.Outcome.{ok, value_or}
use barista_dex_perc.Math.{fit_i64, sat_i128, add_i128, sub_i128, add_u128, mul_u128, div_u128}
use barista_dex_perc.Matcher.{is_used, as_i64, signed_64}
use barista_dex_perc.Router.Portfolio.{
  has_key, found_exposure, updated, update_exposure, exposure_in, get_exposure, update_margin,
  as_i128, has_sufficient_margin,
}
use barista_dex_perc.Router.PnlVesting.{
  on_user_touch, catch_up, vesting_fraction, clamp_vested, vest_gap, one_minus_exp_neg, scaled_by,
}
use barista_dex_perc.Router.Insurance.{accrue_from_fill}
use barista_dex_perc.Router.Registry.{SlabRegistry, register_slab, found_slab, find_slab}
use barista_dex_perc.Router.Position.{new_position, abs_i64, quotient, next_count, add_to_position}
use barista_dex_perc.Router.Funds.{
  Accounts, fit_u64, pay_dlp, receive, give, transfer_collateral_margin, settle_pnl,
}
use barista_dex_perc.Router.Order.{
  Leg, first_leg, with_pnl, touch, check_counts, auto_entry, slab_index, same_address, address_of,
  create_position, load_or_create, created, trade_margin,
}
use barista_dex_perc.Router.CrossSlab.{
  add_fill, apply_fill, saved, settle_fill, accrue_insurance, margin_in, margin_at,
  calculate_portfolio_margin_from_exposures, check_margin, process_execute_cross_slab,
}
use barista_dex_perc.Router.CrossSlab.Track.{Tracks}
use barista_dex_perc.Matcher.{new_cache, write_receipt}
use barista_dex_perc.Matcher.Slab.{
  SlabState, next_seqno, signed_qty, fill_notional, fill_fee, check_fill, process_commit_fill,
}
use barista_dex_perc.Router.CrossSlab.Tests.{start, buy, start-IsMap}
use barista_dex_perc.Router.SlabVenue.{side_of, commit_fill}
use barista_dex_perc.Router.SlabVenue.Trades.{OnSlab, execute-OnSlab}

abbrev book : SlabState
book = record {
  header = record {
    seqno = 4;
    program_id = 1;
    lp_owner = 8;
    router_id = 90;
    instrument = 0;
    contract_size = pos 1;
    tick = pos 1;
    lot = pos 1;
    mark_px = pos 2_000_000;
    taker_fee_bps = pos 5;
  };
  quote_cache = new_cache;
}

abbrev filled : Accounts
filled = value_or start (process_execute_cross_slab (commit_fill book true 90) start buy)

fills_order : process_execute_cross_slab (commit_fill book true 90) start buy ≡ ok filled
unfolding process_execute_cross_slab touch with_pnl on_user_touch catch_up vest_gap clamp_vested
    vesting_fraction one_minus_exp_neg scaled_by check_counts first_leg settle_fill is_used
    slab_index find_slab found_slab register_slab get_exposure exposure_in load_or_create
    create_position same_address address_of created apply_fill add_fill abs_i64 trade_margin
    new_position add_to_position fit_i64 quotient next_count as_i64 signed_64
    transfer_collateral_margin pay_dlp fit_u64 give receive sub_i128 add_i128 sat_i128
    update_exposure updated found_exposure has_key saved settle_pnl accrue_insurance add_u128
    accrue_from_fill mul_u128 div_u128 check_margin calculate_portfolio_margin_from_exposures
    margin_at margin_in update_margin has_sufficient_margin as_i128 ◌+ℤ◌ ◌-ℤ◌ ◌*ℤ◌ ◌/ℤ◌ commit_fill
    side_of process_commit_fill check_fill next_seqno fill_notional fill_fee signed_qty
    write_receipt
fills_order = refl

abbrev leg : Leg
leg = record {
  slab_id = 30;
  oracle = record { oracle_id = 40; price = some (pos 2_000_000) };
  split = record { slab_id = 30; qty = pos 1_000; side = 0; limit_px = pos 2_000_000 };
}

first : first_leg buy.slabs buy.oracles buy.splits ≡ some leg
unfolding first_leg
first = refl

abbrev listed : SlabRegistry
listed = record start.registry { slabs = auto_entry 30 40 ∷ [] }

lists_first : slab_index start.registry leg ≡ some (listed, 0)
unfolding slab_index find_slab found_slab register_slab
lists_first = refl

start-Tracks : Tracks (get_exposure start.user 0 0) start.position
unfolding get_exposure exposure_in
start-Tracks = Tracks.nothing refl

execute-OnSlab_example : OnSlab book 90 start leg 0 filled
unfolding get_exposure exposure_in
execute-OnSlab_example =
    execute-OnSlab book true 90 start buy filled leg listed 0 first lists_first start-IsMap
      (omega arith) start-Tracks (inl (inl (refl, refl))) fills_order
