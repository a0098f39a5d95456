-- ===== src/Router/Funds.antt =====
-- How programs/router/src/instructions/execute_cross_slab.rs moves lamports, equity and principal between
-- the portfolio of a user and that of the liquidity provider, which are two accounts. `abort` is a panic.
pub mod Conserve
use barista_dex_perc.Prelude.{
  ℕ, ◌+◌, ◌-◌, ◌%◌, ◌^◌, Option, none, some, ltb, leb, ◌==◌, if◌then◌else◌,
}
use barista_dex_perc.Prelude.Int.{ℤ, pos, pos_part, neg_part, ltb_ℤ, ◌==ℤ◌, neg_ℤ}
use barista_dex_perc.Prelude.Outcome.{Outcome, ok, ◌>>=◌, ◌>>◌, reject_if, or_abort}
use barista_dex_perc.Math.{u64_max, fit_i128, add_i128, sub_i128}
use barista_dex_perc.Matcher.{PercolatorError}
use barista_dex_perc.Router.Portfolio.{Portfolio}
use barista_dex_perc.Router.Position.{PositionDetails}
use barista_dex_perc.Router.Registry.{SlabRegistry}

-- The seeds of a position's address.
pub record PositionAddress : Type 0 where
  pub portfolio : ℕ
  pub slab_index : ℕ
  pub instrument_index : ℕ

-- An account for a position that no program has and that has no lamports, one that was created and not
-- written, or one with data.
pub data PositionAccount : Type 0 where
  unfunded blank : PositionAccount
  holds : PositionDetails → PositionAccount

-- The accounts that a trade changes. The rent of the position's account is left out.
pub record Accounts : Type 0 where
  pub user : Portfolio
  pub user_key : ℕ
  pub user_lamports : ℕ
  pub dlp : Portfolio
  pub dlp_lamports : ℕ
  pub registry : SlabRegistry
  pub position_at : PositionAddress
  pub position : PositionAccount

unfoldable pub fit_u64 : ℕ → Option ℕ
fit_u64 n = if leb n u64_max then some n else none

-- The part of `settle_pnl` and of the transfers that moves lamports, to the provider and from it.
unfoldable pub pay_dlp : Accounts → ℕ → Outcome PercolatorError Accounts
pay_dlp s amount = do
  reject_if (ltb s.user_lamports amount) PercolatorError.insufficient_funds
  balance ← or_abort (fit_u64 (s.dlp_lamports + amount))
  ok (record s { user_lamports = s.user_lamports - amount; dlp_lamports = balance })

unfoldable pub pay_user : Accounts → ℕ → Outcome PercolatorError Accounts
pay_user s amount = do
  reject_if (ltb s.dlp_lamports amount) PercolatorError.insufficient_funds
  balance ← or_abort (fit_u64 (s.user_lamports + amount))
  ok (record s { user_lamports = balance; dlp_lamports = s.dlp_lamports - amount })

-- Equity and principal of a portfolio that receives capital, and of one that gives it.
unfoldable pub receive : Portfolio → ℕ → Portfolio
receive p amount = record p {
  equity = add_i128 p.equity (pos amount);
  principal = add_i128 p.principal (pos amount);
}

unfoldable pub give : Portfolio → ℕ → Portfolio
give p amount = record p {
  equity = sub_i128 p.equity (pos amount);
  principal = sub_i128 p.principal (pos amount);
}

unfoldable pub transfer_collateral_margin : Accounts → ℕ → Outcome PercolatorError Accounts
transfer_collateral_margin s margin_lamports = if margin_lamports == 0 then ok s else do
  let margin = margin_lamports % 2 ^ 64
  paid ← pay_dlp s margin
  ok (record paid { user = give s.user margin; dlp = receive s.dlp margin })

unfoldable pub return_margin_to_user : Accounts → ℕ → Outcome PercolatorError Accounts
return_margin_to_user s margin_lamports = if margin_lamports == 0 then ok s else do
  let margin = margin_lamports % 2 ^ 64
  paid ← pay_user s margin
  ok (record paid { user = receive s.user margin; dlp = give s.dlp margin })

-- The books of `settle_pnl`, before lamports move.
unfoldable pub book_pnl : Accounts → ℤ → Accounts
book_pnl s realized_pnl = record s {
  user = record s.user {
    pnl = add_i128 s.user.pnl realized_pnl;
    equity = add_i128 s.user.equity realized_pnl;
  };
  dlp = record s.dlp {
    pnl = sub_i128 s.dlp.pnl realized_pnl;
    equity = sub_i128 s.dlp.equity realized_pnl;
  };
}

unfoldable pub settle_pnl : Accounts → ℤ → Outcome PercolatorError Accounts
settle_pnl s realized_pnl =
    if realized_pnl ==ℤ pos 0
    then ok s
    else if ltb_ℤ (pos 0) realized_pnl
    then pay_user (book_pnl s realized_pnl) (pos_part realized_pnl % 2 ^ 64)
    else do
      loss ← or_abort (fit_i128 (neg_ℤ realized_pnl))
      pay_dlp (book_pnl s realized_pnl) (pos_part loss % 2 ^ 64)
