-- ===== src/Router/Cash/Tests.antt =====
-- Runs of programs/router/src/instructions/deposit.rs and withdraw.rs, with the system program's transfer.
use barista_dex_perc.Prelude.{
  ℕ, ◌+◌, ◌-◌, ◌*◌, ◌/◌, ◌^◌, ◌≤◌, ◌≡◌, refl, Bool, true, arith, leb, if◌then◌else◌,
}
use barista_dex_perc.Prelude.Int.{pos, ◌≤ℤ◌, ◌+ℤ◌, ◌-ℤ◌, ◌*ℤ◌, ◌/ℤ◌}
use barista_dex_perc.Prelude.Outcome.{Outcome, ok, err}
use barista_dex_perc.Math.{fit_i128, add_i128, sat_i128}
use barista_dex_perc.Warmup.{qmul}
use barista_dex_perc.Matcher.{PercolatorError}
use barista_dex_perc.Router.Portfolio.{new_portfolio}
use barista_dex_perc.Router.Registry.{SlabRegistry, new_registry}
use barista_dex_perc.Router.Funds.{fit_u64}
use barista_dex_perc.Router.Cash.{
  calculate_withdrawable_pnl, max_withdrawable_with_warmup, CashAccounts, min_rent_exempt, checked,
  limit_u64, process_deposit, process_withdraw,
}
use barista_dex_perc.Router.Cash.Deposits.{process_deposit_backed}
use barista_dex_perc.Router.Cash.Limits.{process_withdraw_limit}

-- A transfer of what the account that gives holds. Which of the accounts sign it does not ask.
abbrev moves : ℕ → Bool → ℕ → ℕ → ℕ → Outcome PercolatorError (ℕ × ℕ)
moves program signs n from to =
    if leb n from then ok (from - n, to + n) else err PercolatorError.insufficient_funds

moves-moves :
    (signs : Bool) (n from to : ℕ) (after : ℕ × ℕ)
    → moves 1 signs n from to ≡ ok after
    → (after.0 + n ≡ from) × (after.1 ≡ to + n)
moves-moves signs n from to after h = ground arith

abbrev before : CashAccounts
before = record {
  portfolio = new_portfolio 1 7;
  portfolio_lamports = 2_000_000_000;
  user_key = 7;
  user_signs = true;
  user_lamports = 500;
  system_program = 1;
}

abbrev deposited : CashAccounts
deposited = record before {
  portfolio = record before.portfolio { principal = pos 300; equity = pos 300 };
  portfolio_lamports = 2_000_000_300;
  user_lamports = 200;
}

deposits : process_deposit moves before 300 ≡ ok deposited
unfolding process_deposit checked fit_i128 ◌+ℤ◌
deposits = refl

process_deposit_backed_example :
    (before.user_signs ≡ true)
    × (before.portfolio.user ≡ 7)
    × (deposited.portfolio.principal ≡ pos 0 +ℤ pos 300)
    × (deposited.portfolio.equity ≡ pos 0 +ℤ pos 300)
    × (deposited.portfolio_lamports ≡ 2_000_000_000 + 300)
    × (deposited.user_lamports + 300 ≡ 500)
process_deposit_backed_example =
    process_deposit_backed moves before 300 deposited moves-moves deposits

-- A portfolio with a vested gain, half of which is unlocked.
abbrev gained : CashAccounts
gained = record deposited {
  portfolio = record deposited.portfolio { vested_pnl = pos 101; equity = pos 401 };
}

abbrev half_open : SlabRegistry
half_open = record (new_registry 1 2) {
  warmup_state = record (new_registry 1 2).warmup_state { unlocked_frac = pos (2 ^ 31) };
}

abbrev withdrawn : CashAccounts
withdrawn = record gained {
  portfolio = record gained.portfolio {
    principal = pos 300 -ℤ pos 350;
    equity = pos 401 -ℤ pos 350;
  };
  portfolio_lamports = 1_999_999_950;
  user_lamports = 550;
}

withdraws : process_withdraw moves gained half_open 350 ≡ ok withdrawn
unfolding process_withdraw max_withdrawable_with_warmup calculate_withdrawable_pnl qmul checked
    fit_i128 fit_u64 limit_u64 add_i128 sat_i128 ◌+ℤ◌ ◌-ℤ◌ ◌*ℤ◌ ◌/ℤ◌
withdraws = refl

process_withdraw_limit_example :
    (gained.user_signs ≡ true)
    × (gained.portfolio.user ≡ 7)
    × (pos 350 ≤ℤ pos 300 +ℤ pos (101 * 2 ^ 31 / 2 ^ 32))
    × (101 * 2 ^ 31 / 2 ^ 32 ≤ 101)
    × (350 + min_rent_exempt ≤ gained.portfolio_lamports)
    × (withdrawn.portfolio.principal ≡ pos 300 -ℤ pos 350)
    × (withdrawn.portfolio.equity ≡ pos 401 -ℤ pos 350)
    × (withdrawn.portfolio.vested_pnl ≡ pos 101)
process_withdraw_limit_example =
    process_withdraw_limit moves gained half_open 350 withdrawn 101 (2 ^ 31) refl refl (omega arith)
      (omega arith) withdraws
