-- ===== src/Router/Tests.antt =====
-- Runs of programs/router/src/state: a vault with a pledge, and an insurance fund with bad debt.
use barista_dex_perc.Prelude.{◌≡◌, refl, true, none, some, List, [], ◌∷◌, arith}
use barista_dex_perc.Math.{mul_u128, div_u128}
use barista_dex_perc.Prelude.Int.{pos}
use barista_dex_perc.Prelude.Options.{◌>>=◌}
use barista_dex_perc.Router.LpBucket.{
  SlabLp, LpBucket, new_slab_venue, new_amm_venue, new_slab, add_reservation, remove_reservation,
}
use barista_dex_perc.Router.LpBucket.Reservations.{times, remove-add_reservation}
use barista_dex_perc.Router.Portfolio.{Portfolio, new_portfolio, has_key}
use barista_dex_perc.Router.Portfolio.Exposures.{IsMap}
use barista_dex_perc.Router.Portfolio.Totals.{TotalsFit}
use barista_dex_perc.Router.Vault.{Vault}
use barista_dex_perc.Router.Vault.Escrow.{Call, Escrow, IsCovered, view, spec_run, run-spec}
use barista_dex_perc.Router.Vault.Escrow
use barista_dex_perc.Router.Insurance.{
  InsuranceState, default_params, default_state, settle_bad_debt, roll_day, is_new_day, daily_cap,
}
use barista_dex_perc.Router.Insurance.Payout.{Settled, settle_bad_debt-Settled}
use barista_dex_perc.Router.Insurance.History.{Event, IsAccounted, run-IsAccounted}
use barista_dex_perc.Router.Insurance.History

abbrev small_vault : Vault
small_vault = record {
  router_id = 1;
  mint = 2;
  token_account = 3;
  balance = 100;
  total_pledged = 30;
  bump = 0;
}

abbrev calls : List Call
calls = Call.deposits 50 ∷ Call.pledges 90 ∷ Call.withdraws 40 ∷ Call.unpledges 20 ∷ []

run-spec_example :
    IsCovered (Escrow.run small_vault calls)
    × (view (Escrow.run small_vault calls) ≡ record { free = 50; pledged = 100 })
run-spec_example =
    run-spec small_vault calls (record { covered = omega arith; fits = omega arith }) (omega arith)

-- A fund on its first day.
abbrev fund : InsuranceState
fund = record default_state { vault_balance = 1_000_000; total_fees_accrued = 1_000_000 }

settle_bad_debt-Settled_example :
    Settled fund 80_000 10_000_000 default_params 86_500
      (settle_bad_debt fund 80_000 10_000_000 default_params 86_500)
unfolding roll_day is_new_day daily_cap
settle_bad_debt-Settled_example =
    settle_bad_debt-Settled fund 80_000 10_000_000 default_params 86_500 (omega arith) (omega arith)
      (omega arith)

abbrev events : List Event
events =
    Event.fills 5_000_000
    ∷ Event.settles 80_000 10_000_000 86_500
    ∷ Event.tops_up 300
    ∷ Event.withdraws 10
    ∷ []

run-IsAccounted_example :
    let (st', taken') = History.run default_params fund 0 events in
    IsAccounted default_params st' taken'
unfolding daily_cap mul_u128 div_u128
run-IsAccounted_example =
    run-IsAccounted default_params fund 0 events
      (record { balanced = refl; capped = omega arith; fits = omega arith }) (omega arith)

abbrev orders : SlabLp
orders = record { reserved_quote = 500; reserved_base = 7; open_order_ids = 11 ∷ 12 ∷ [] }

remove-add_reservation_example :
    (s' : SlabLp) × (add_reservation orders 13 40 2 >>= (λ t. remove_reservation t 13 40 2)
      ≡ some s')
    × (s'.reserved_quote ≡ 500)
    × (s'.reserved_base ≡ 7)
    × (times 12 s'.open_order_ids ≡ 1)
remove-add_reservation_example =
    remove-add_reservation orders 13 40 2 12 (omega arith) (omega arith) (omega arith)

abbrev trader : Portfolio
trader = record (new_portfolio 1 2) {
  mm = 10;
  im = 20;
  exposures =
      record { slab_idx = 0; instrument_idx = 0; qty = pos 5 }
      ∷ record { slab_idx = 1; instrument_idx = 0; qty = pos 9 }
      ∷ [];
  lp_buckets = record (new_slab (new_slab_venue 4)) { mm = 3; im = 6 } ∷ [];
}

trader-IsMap : IsMap trader.exposures
unfolding IsMap has_key
trader-IsMap = λ s i. ground arith

trader-TotalsFit : TotalsFit trader
unfolding new_slab
trader-TotalsFit = record { mm_fits = omega arith; im_fits = omega arith }

abbrev pool_bucket : LpBucket
pool_bucket = record {
  venue = new_amm_venue 4;
  amm = some (record { lp_shares = 8; share_price_cached = pos 60; last_update_ts = 0 });
  slab = none;
  im = 2;
  mm = 1;
  active = true;
}
