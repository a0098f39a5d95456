-- ===== src/Router/CrossSlab/Tests.antt =====
-- Runs of programs/router/src/instructions/execute_cross_slab.rs: a purchase by a new account, a sale of a part
-- of it, and a sale beyond it.
use barista_dex_perc.Prelude.{
  Bool, false, ◌≡◌, ℕ, refl, some, inr, true, [], ◌∷◌, arith, ◌==◌, if◌then◌else◌,
}
use barista_dex_perc.Prelude.Int.{ℤ, pos, neg_ℤ, ◌+ℤ◌, ◌-ℤ◌, ◌*ℤ◌, ◌/ℤ◌}
use barista_dex_perc.Prelude.Outcome.{Outcome, ok, err, value_or}
use barista_dex_perc.Math.{
  fit_i64, fit_i128, sat_i128, add_i128, sub_i128, add_u128, sub_u128, mul_u128, div_u128,
}
use barista_dex_perc.Matcher.{PercolatorError, FillReceipt, is_used, as_i64, signed_64}
use barista_dex_perc.Router.Portfolio.{
  new_portfolio, has_key, found_exposure, updated, update_exposure, exposure_in, get_exposure,
  update_margin, as_i128, has_sufficient_margin,
}
use barista_dex_perc.Router.Portfolio.Exposures.{IsMap}
use barista_dex_perc.Router.PnlVesting.{
  on_user_touch, catch_up, vesting_fraction, clamp_vested, vest_gap, one_minus_exp_neg, scaled_by,
}
use barista_dex_perc.Router.Insurance.{accrue_from_fill}
use barista_dex_perc.Router.Registry.{
  SlabRegistry, new_registry, register_slab, found_slab, find_slab,
}
use barista_dex_perc.Router.Position.{
  new_position, abs_i64, quotient, next_count, add_to_position, closing_pnl, remaining_qty,
  margin_to_release, as_u128, fit_u128, reduce_position,
}
use barista_dex_perc.Router.Funds.{
  PositionAccount, Accounts, fit_u64, pay_dlp, pay_user, receive, give, transfer_collateral_margin,
  return_margin_to_user, settle_pnl,
}
use barista_dex_perc.Router.Order.{
  Vacancy, Order, Leg, first_leg, with_pnl, touch, check_counts, auto_entry, slab_index,
  same_address, address_of, create_position, load_or_create, created, trade_margin,
}
use barista_dex_perc.Router.CrossSlab.{
  add_fill, reduce_fill, reverse_fill, apply_fill, saved, settle_fill, accrue_insurance, margin_in,
  margin_at, calculate_portfolio_margin_from_exposures, check_margin, process_execute_cross_slab,
}
use barista_dex_perc.Router.CrossSlab.Safety.{Safe, execute-Safe, Filled, execute-Filled}
use barista_dex_perc.Router.CrossSlab.Track.{Tracks, settle_fill-Tracks}
use barista_dex_perc.Router.CrossSlab.Turn.{Fails, settle_fill_turn}

-- A venue that fills every order whole, at its price.
abbrev fills : ℕ → ℕ → ℤ → ℤ → Outcome PercolatorError FillReceipt
fills slab side qty px = ok (record {
  used = 1;
  seqno_committed = 1;
  filled_qty = if side == 0 then qty else neg_ℤ qty;
  vwap_px = px;
  notional = pos 0;
  fee = pos 0;
  pnl_delta = pos 0;
})

abbrev pub start : Accounts
start = record {
  user = record (new_portfolio 1 7) { equity = pos 10_000_000; principal = pos 10_000_000 };
  user_key = 100;
  user_lamports = 50_000_000;
  dlp = new_portfolio 1 8;
  dlp_lamports = 50_000_000;
  registry = new_registry 1 2;
  position_at = record { portfolio = 100; slab_index = 0; instrument_index = 0 };
  position = PositionAccount.unfunded;
}

-- The system program creates an account that no program has.
abbrev pub creates : Vacancy → Bool
creates Vacancy.no_owner = true
creates Vacancy.just_closed = false

-- A market order for 1,000 units without leverage.
abbrev pub buy : Order
buy = record {
  user_account = 7;
  authority_ok = true;
  can_create = creates;
  current_slot = 0;
  timestamp = pos 1_700_000_000;
  slabs = 30 ∷ [];
  receipts = 1;
  oracles = record { oracle_id = 40; price = some (pos 2_000_000) } ∷ [];
  positions = 1;
  splits = record { slab_id = 30; qty = pos 1_000; side = 0; limit_px = pos 2_000_000 } ∷ [];
  order_type = 0;
  leverage = 1;
}

abbrev bought : Accounts
bought = value_or start (process_execute_cross_slab fills start buy)

buys : process_execute_cross_slab fills start buy ≡ ok bought
unfolding process_execute_cross_slab touch with_pnl on_user_touch catch_up vest_gap clamp_vested
    vesting_fraction one_minus_exp_neg scaled_by check_counts first_leg settle_fill is_used
    slab_index find_slab found_slab register_slab get_exposure exposure_in load_or_create
    create_position same_address address_of created apply_fill add_fill abs_i64 trade_margin
    new_position add_to_position fit_i64 quotient next_count as_i64 signed_64
    transfer_collateral_margin pay_dlp fit_u64 give receive sub_i128 add_i128 sat_i128
    update_exposure updated found_exposure has_key saved settle_pnl accrue_insurance add_u128
    accrue_from_fill mul_u128 div_u128 check_margin calculate_portfolio_margin_from_exposures
    margin_at margin_in update_margin has_sufficient_margin as_i128 ◌+ℤ◌ ◌-ℤ◌ ◌*ℤ◌ ◌/ℤ◌
buys = refl

execute-Safe_example : Safe start buy bought
execute-Safe_example = execute-Safe fills start buy bought buys

pub start-IsMap : IsMap start.user.exposures
unfolding IsMap
start-IsMap s i = omega arith

execute-Filled_example : Filled fills start buy bought 0 0
execute-Filled_example = execute-Filled fills start buy bought 0 0 start-IsMap (omega arith) buys

-- An account that has bought.
abbrev held : Accounts
held = record start {
  user = record start.user {
    exposures = record { slab_idx = 0; instrument_idx = 0; qty = pos 1_000 } ∷ [];
  };
  position =
      PositionAccount.holds (record (new_position 100 0 0 (pos 2_000_000) (pos 1_000) (pos 0) 0 1) {
        margin_held = 1_000_000;
      });
}

abbrev sale : ℕ → Leg
sale qty = record {
  slab_id = 30;
  oracle = record { oracle_id = 40; price = some (pos 2_000_000) };
  split = record { slab_id = 30; qty = pos qty; side = 1; limit_px = pos 2_000_000 };
}

abbrev sold : ℕ → FillReceipt
sold qty = record {
  used = 1;
  seqno_committed = 2;
  filled_qty = neg_ℤ (pos qty);
  vwap_px = pos 2_000_000;
  notional = pos 0;
  fee = pos 0;
  pnl_delta = pos 0;
}

abbrev outcome : ℕ → Accounts × ℤ
outcome qty = value_or (start, pos 0) (settle_fill held buy (sale qty) (pos 2_000_000) (sold qty))

abbrev listed : SlabRegistry
listed = record held.registry { slabs = auto_entry 30 40 ∷ [] }

lists : (qty : ℕ) → slab_index held.registry (sale qty) ≡ some (listed, 0)
unfolding slab_index find_slab found_slab register_slab
lists qty = refl

sells_part : settle_fill held buy (sale 400) (pos 2_000_000) (sold 400) ≡ ok (outcome 400)
unfolding settle_fill is_used slab_index find_slab found_slab register_slab get_exposure exposure_in
    load_or_create created apply_fill reduce_fill abs_i64 new_position reduce_position closing_pnl
    remaining_qty margin_to_release as_u128 fit_u128 sub_u128 fit_i128 fit_i64 quotient next_count
    as_i64 signed_64 return_margin_to_user pay_user fit_u64 give receive sub_i128 add_i128 sat_i128
    update_exposure updated found_exposure has_key saved ◌+ℤ◌ ◌-ℤ◌ ◌*ℤ◌ ◌/ℤ◌
sells_part = refl

held-Tracks : Tracks (get_exposure held.user 0 0) held.position
unfolding get_exposure exposure_in has_key new_position
held-Tracks = Tracks.holding _ refl

settle_fill-Tracks_example :
    Tracks (get_exposure held.user 0 0 +ℤ neg_ℤ (pos 400)) (outcome 400).0.position
unfolding get_exposure exposure_in has_key
settle_fill-Tracks_example =
    settle_fill-Tracks held buy (sale 400) (pos 2_000_000) (sold 400) (outcome 400).0
      (outcome 400).1 listed 0 (lists 400) (inr (refl, refl)) held-Tracks (inr (omega arith))
      sells_part

turn_refused :
    settle_fill held buy (sale 1_500) (pos 2_000_000) (sold 1_500)
    ≡ err PercolatorError.invalid_account
unfolding settle_fill is_used slab_index find_slab found_slab register_slab get_exposure exposure_in
    load_or_create create_position same_address address_of created apply_fill reverse_fill
    trade_margin add_to_position abs_i64 new_position reduce_position closing_pnl remaining_qty
    margin_to_release as_u128 fit_u128 sub_u128 fit_i128 fit_i64 quotient next_count as_i64
    signed_64 transfer_collateral_margin pay_dlp return_margin_to_user pay_user fit_u64 give receive
    sub_i128 add_i128 add_u128 sat_i128 update_exposure updated found_exposure has_key saved ◌+ℤ◌
    ◌-ℤ◌ ◌*ℤ◌ ◌/ℤ◌
turn_refused = refl

settle_fill_turn_example : Fails (settle_fill held buy (sale 1_500) (pos 2_000_000) (sold 1_500))
unfolding get_exposure exposure_in has_key
settle_fill_turn_example =
    settle_fill_turn held buy (sale 1_500) (pos 2_000_000) (sold 1_500) listed 0 (lists 1_500)
      (inr (refl, omega arith)) (omega arith) refl
