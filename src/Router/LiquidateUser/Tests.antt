-- ===== src/Router/LiquidateUser/Tests.antt =====
-- A run of programs/router/src/instructions/liquidate_user.rs: a portfolio under its margin whose exposure has no price.
use barista_dex_perc.Prelude.{ℕ, ◌≡◌, refl, true, false, [], ◌∷◌}
use barista_dex_perc.Prelude.Int.{ℤ, pos, ◌-ℤ◌}
use barista_dex_perc.Prelude.Outcome.{Outcome, ok, err}
use barista_dex_perc.Math.{sub_i128, sat_i128}
use barista_dex_perc.Matcher.{PercolatorError, FillReceipt}
use barista_dex_perc.Router.CrossSlab.Tests.{creates}
use barista_dex_perc.Router.Portfolio.{new_portfolio, as_i128}
use barista_dex_perc.Router.Vault.{Vault}
use barista_dex_perc.Router.Registry.{new_registry}
use barista_dex_perc.Router.Funds.{PositionAccount, Accounts}
use barista_dex_perc.Router.Liquidation.Planner.{
  find_oracle_price, plan_exposure, plan_exposures, plan_reduce_only,
}
use barista_dex_perc.Router.LiquidateUser.{
  determine_mode, Request, read_oracles, read_slabs, health_of, choose_mode, check_cooldown,
  process_liquidate_user,
}
use barista_dex_perc.Router.LiquidateUser.Stops.{Stopped, process_liquidate_user-Stopped}

abbrev refuses : ℕ → ℕ → ℤ → ℤ → Outcome PercolatorError FillReceipt
refuses slab side qty px = err PercolatorError.insufficient_liquidity

abbrev under : Accounts
under = record {
  user = record (new_portfolio 1 7) {
    equity = pos 100;
    mm = 500;
    exposures = record { slab_idx = 0; instrument_idx = 0; qty = pos 1_000 } ∷ [];
  };
  user_key = 100;
  user_lamports = 50_000_000;
  dlp = new_portfolio 1 8;
  dlp_lamports = 50_000_000;
  registry = new_registry 1 2;
  position_at = record { portfolio = 100; slab_index = 0; instrument_index = 0 };
  position = PositionAccount.unfunded;
}

abbrev vault : Vault
vault = record {
  router_id = 1;
  mint = 2;
  token_account = 3;
  balance = 100;
  total_pledged = 0;
  bump = 0;
}

abbrev request : Request
request = record {
  oracles = [];
  slabs = [];
  receipts = 0;
  is_preliq = false;
  current_ts = 1_700_000_000;
  authority_ok = true;
  can_create = creates;
  current_slot = 0;
  timestamp = pos 1_700_000_000;
}

abbrev noted : Accounts
noted = record under { user = record under.user { health = health_of under.user } }

notes : process_liquidate_user refuses under vault request ≡ ok noted
unfolding process_liquidate_user health_of choose_mode determine_mode check_cooldown
    plan_reduce_only plan_exposures plan_exposure find_oracle_price read_oracles read_slabs sub_i128
    sat_i128 as_i128 ◌-ℤ◌
notes = refl

process_liquidate_user-Stopped_example : Stopped refuses under request noted
process_liquidate_user-Stopped_example =
    process_liquidate_user-Stopped refuses under vault request noted notes
