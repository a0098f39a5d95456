-- ===== src/Safety/Tests.antt =====
-- Runs of crates/model_safety: a book with a winner and a loser that holds a position.
use barista_dex_perc.Prelude.{◌≡◌, refl, true, false, List, [], ◌∷◌, arith, replicate}
use barista_dex_perc.Prelude.Int.{pos, negsuc, ◌-ℤ◌}
use barista_dex_perc.Math.{
  add_u128, sub_u128, mul_u128, min_u128, clamp_pos_i128, sub_i128, sat_i128, u128_to_i128,
}
use barista_dex_perc.Safety.State.{Account, Params, State}
use barista_dex_perc.Safety.Helpers.{
  effective_positive_pnl, conservation_ok, is_liquidatable, withdrawable_pnl,
}
use barista_dex_perc.Safety.Transitions.{
  deposit, socialize_losses, withdraw_pnl, trade_settle, warmed_pnl, actual_withdraw,
  margin_limited_withdraw,
}
use barista_dex_perc.Safety.Step.{Op, step, run}
use barista_dex_perc.Safety.Conservation.{IsSound}
use barista_dex_perc.Safety.Socialize.{Socializes, socialize_losses-Socializes}
use barista_dex_perc.Safety.Liquidation.{liquidatable, liquidate_one-drains}
use barista_dex_perc.Safety.Margin.{FitsMargin, Withdrawn, withdraw_pnl-Withdrawn}
use barista_dex_perc.Safety.Breaches.{Settles, trade_settle-breach}
use barista_dex_perc.Safety.History.{run-conservation_ok}

abbrev winner : Account
winner = record {
  principal = 100;
  pnl_ledger = pos 50;
  reserved_pnl = 10;
  warmup_state = record { started_at_slot = 0; slope_per_step = 5 };
  position_size = 0;
}

abbrev loser : Account
loser = record {
  principal = 200;
  pnl_ledger = negsuc 29;
  reserved_pnl = 0;
  warmup_state = record { started_at_slot = 0; slope_per_step = 5 };
  position_size = 5_000;
}

abbrev margin_params : Params
margin_params = record {
  max_users = 2;
  withdraw_cap_per_step = 1_000;
  maintenance_margin_bps = 50_000;
}

abbrev book : State
book = record {
  vault = 360;
  insurance_fund = 20;
  fees_outstanding = 10;
  users = winner ∷ loser ∷ [];
  params = margin_params;
  authorized_router = true;
}

book-IsSound : IsSound book
book-IsSound = record {
  ranges = ((omega arith, omega arith), ((omega arith, omega arith), tt));
  fits = omega arith;
  balanced = refl;
}

winner-FitsMargin : FitsMargin margin_params winner
winner-FitsMargin = record {
  range = (omega arith, omega arith);
  scaled = omega arith;
  required = omega arith;
}

gain-Settles : Settles book 0 (pos 7) winner
gain-Settles = record {
  sound = book-IsSound;
  found = refl;
  authorized = refl;
  gains = omega arith;
  losses = omega arith;
  vault_fits = omega arith;
  vault_pays = omega arith;
}

recovery-Settles : Settles book 1 (pos 7) loser
recovery-Settles = record {
  sound = book-IsSound;
  found = refl;
  authorized = refl;
  gains = omega arith;
  losses = omega arith;
  vault_fits = omega arith;
  vault_pays = omega arith;
}

socialize_losses-Socializes_example : Socializes book 30 (socialize_losses book 30)
socialize_losses-Socializes_example = socialize_losses-Socializes book 30 book-IsSound (omega arith)

abbrev history : List Op
history = Op.deposits 0 40 ∷ Op.withdraws_principal 1 50 ∷ Op.ticks 3 ∷ Op.noise ∷ []

run-conservation_ok_example : conservation_ok (run book history) ≡ true
unfolding step deposit add_u128
run-conservation_ok_example =
    run-conservation_ok book history book-IsSound (omega arith, (omega arith, (tt, (tt, tt))))

withdraw_pnl-Withdrawn_example :
    Withdrawn margin_params winner 20 3 (record winner { pnl_ledger = pos 35 })
unfolding withdraw_pnl actual_withdraw margin_limited_withdraw warmed_pnl withdrawable_pnl
    effective_positive_pnl min_u128 mul_u128 sub_u128 clamp_pos_i128 sub_i128 sat_i128 ◌-ℤ◌
    u128_to_i128
withdraw_pnl-Withdrawn_example =
    withdraw_pnl-Withdrawn book 0 20 3 winner (record winner { pnl_ledger = pos 35 })
      winner-FitsMargin refl refl

liquidate_one-drains_example : liquidatable (run book (replicate 3 Op.liquidates_one)) ≡ 0
unfolding is_liquidatable mul_u128 add_u128 clamp_pos_i128
liquidate_one-drains_example = liquidate_one-drains book 3 refl (omega arith)

trade_settle-breach_example : conservation_ok (trade_settle book 1 (pos 7)) ≡ false
trade_settle-breach_example =
    trade_settle-breach book 1 7 loser recovery-Settles (omega arith) (omega arith) refl
