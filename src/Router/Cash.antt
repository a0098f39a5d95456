-- ===== src/Router/Cash.antt =====
-- programs/router/src/instructions/deposit.rs and withdraw.rs, with the limit on withdrawals of
-- programs/router/src/state/portfolio.rs and pnl_vesting.rs. What a program that is invoked with a transfer does
-- to the lamports of the two accounts is an argument.
pub mod Deposits
pub mod Limits
mod Tests
use barista_dex_perc.Prelude.{
  ℕ, ◌+◌, ◌-◌, ◌*◌, ◌/◌, ◌%◌, ◌^◌, Bool, true, false, not, Option, none, some, ltb, leb, ◌==◌,
  if◌then◌else◌,
}
use barista_dex_perc.Prelude.Int.{
  ℤ, pos, negsuc, pos_part, neg_part, leb_ℤ, ltb_ℤ, ◌+ℤ◌, ◌-ℤ◌, ◌*ℤ◌, ◌/ℤ◌,
}
use barista_dex_perc.Prelude.Options
use barista_dex_perc.Prelude.Outcome.{Outcome, ok, ◌>>=◌, ◌>>◌, reject_if, ok_or, or_abort}
use barista_dex_perc.Math.{u64_max, fit_i128, add_i128}
use barista_dex_perc.Warmup.{q_scale, qmul}
use barista_dex_perc.Matcher.{PercolatorError}
use barista_dex_perc.Router.Portfolio.{Portfolio}
use barista_dex_perc.Router.Registry.{SlabRegistry}
use barista_dex_perc.Router.Funds.{fit_u64}

-- `none` is a panic of i128 arithmetic.
unfoldable pub calculate_withdrawable_pnl : ℤ → ℤ → Option ℤ
calculate_withdrawable_pnl vested_pnl unlocked_frac =
    if leb_ℤ vested_pnl (pos 0)
    then some (pos 0)
    else Options.◌>>=◌ (fit_i128 (vested_pnl *ℤ q_scale))
        (λ vested. Options.◌>>=◌ (qmul vested unlocked_frac) (λ scaled. some (scaled /ℤ q_scale)))

unfoldable pub max_withdrawable_with_warmup : Portfolio → ℤ → Option ℤ
max_withdrawable_with_warmup p unlocked_frac =
    Options.◌>>=◌ (calculate_withdrawable_pnl p.vested_pnl unlocked_frac)
      (λ pnl. some (add_i128 p.principal pnl))

-- The accounts of the instruction: the portfolio's with its lamports, the user's, and the program that
-- is invoked.
pub record CashAccounts : Type 0 where
  pub portfolio : Portfolio
  pub portfolio_lamports : ℕ
  pub user_key : ℕ
  pub user_signs : Bool
  pub user_lamports : ℕ
  pub system_program : ℕ

abbrev pub min_rent_exempt : ℕ
min_rent_exempt = 1_000_000_000

-- Checked additions and subtractions of i128 values, with an error of the source's.
unfoldable pub checked : ℤ → PercolatorError → Outcome PercolatorError ℤ
checked x e = ok_or (fit_i128 x) e

-- The amount that a withdrawal is compared with, as a u64.
unfoldable pub limit_u64 : ℤ → ℕ
limit_u64 x = pos_part x % 2 ^ 64

-- `invoke` is what a program does to the lamports of the accounts of a transfer: the program, whether
-- the account that gives is a signer, the amount, and the lamports of the two accounts.
module _ (invoke : ℕ → Bool → ℕ → ℕ → ℕ → Outcome PercolatorError (ℕ × ℕ)) where
  unfoldable pub process_deposit : CashAccounts → ℕ → Outcome PercolatorError CashAccounts
  process_deposit a amount = do
    reject_if (amount == 0) PercolatorError.invalid_quantity
    reject_if (not a.user_signs) PercolatorError.unauthorized
    reject_if (not (a.portfolio.user == a.user_key)) PercolatorError.unauthorized
    moved ← invoke a.system_program true amount a.user_lamports a.portfolio_lamports
    principal ← checked (a.portfolio.principal +ℤ pos amount) PercolatorError.overflow
    equity ← checked (a.portfolio.equity +ℤ pos amount) PercolatorError.overflow
    ok (record a {
      portfolio = record a.portfolio { principal = principal; equity = equity };
      user_lamports = moved.0;
      portfolio_lamports = moved.1;
    })

  unfoldable pub process_withdraw :
      CashAccounts → SlabRegistry → ℕ → Outcome PercolatorError CashAccounts
  process_withdraw a r amount = do
    reject_if (amount == 0) PercolatorError.invalid_quantity
    reject_if (not a.user_signs) PercolatorError.unauthorized
    reject_if (not (a.portfolio.user == a.user_key)) PercolatorError.unauthorized
    limit ← or_abort (max_withdrawable_with_warmup a.portfolio r.warmup_state.unlocked_frac)
    reject_if (ltb (limit_u64 limit) amount) PercolatorError.insufficient_funds
    needed ← or_abort (fit_u64 (amount + min_rent_exempt))
    reject_if (ltb a.portfolio_lamports needed) PercolatorError.insufficient_funds
    moved ← invoke a.system_program false amount a.portfolio_lamports a.user_lamports
    principal ← checked (a.portfolio.principal -ℤ pos amount) PercolatorError.underflow
    equity ← checked (a.portfolio.equity -ℤ pos amount) PercolatorError.underflow
    ok (record a {
      portfolio = record a.portfolio { principal = principal; equity = equity };
      portfolio_lamports = moved.0;
      user_lamports = moved.1;
    })
