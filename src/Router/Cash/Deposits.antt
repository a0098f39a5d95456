-- ===== src/Router/Cash/Deposits.antt =====
-- What deposits of programs/router/src/instructions/deposit.rs do to the books and the lamports.
use barista_dex_perc.Prelude.{
  ℕ, ◌+◌, ◌<◌, ◌≡◌, refl, subst, Bool, true, false, not, some, ◌==◌, arith,
}
use barista_dex_perc.Prelude.Int.{ℤ, pos, ◌+ℤ◌}
use barista_dex_perc.Prelude.Outcome.{
  Outcome, ok, reject_if, >>=-eq-ok, >>-eq-ok, reject_if-eq-ok, ok_injective,
}
use barista_dex_perc.Math.{fit_i128}
use barista_dex_perc.Matcher.{PercolatorError}
use barista_dex_perc.Router.Cash.{CashAccounts, checked, process_deposit}

pub checked_same : (x : ℤ) (e : PercolatorError) (y : ℤ) → checked x e ≡ ok y → y ≡ x
unfolding checked fit_i128
checked_same x e y h = ground arith

module _ (invoke : ℕ → Bool → ℕ → ℕ → ℕ → Outcome PercolatorError (ℕ × ℕ)) where
  -- What a deposit that succeeds went through.
  pub record Deposited (a : CashAccounts) (amount : ℕ) (a' : CashAccounts) : Type 0 where
    pub some_amount : 0 < amount
    pub signs : a.user_signs ≡ true
    pub owner : a.portfolio.user ≡ a.user_key
    pub moved :
        invoke a.system_program true amount a.user_lamports a.portfolio_lamports
        ≡ ok (a'.user_lamports, a'.portfolio_lamports)
    pub principal : a'.portfolio.principal ≡ a.portfolio.principal +ℤ pos amount
    pub equity : a'.portfolio.equity ≡ a.portfolio.equity +ℤ pos amount

  process_deposit-Deposited :
      (a : CashAccounts) (amount : ℕ) (a' : CashAccounts)
      → process_deposit invoke a amount ≡ ok a'
      → Deposited a amount a'
  unfolding process_deposit
  process_deposit-Deposited a amount a' h =
      let (x, h1) = >>-eq-ok (reject_if (amount == 0) _) _ h in
      let (y, h2) = >>-eq-ok (reject_if (not a.user_signs) _) _ h1 in
      let (z, h3) = >>-eq-ok (reject_if (not (a.portfolio.user == a.user_key)) _) _ h2 in
      let (m, em, h4) =
        >>=-eq-ok (invoke a.system_program true amount a.user_lamports a.portfolio_lamports) _ h3 in
      let (p, ep, h5) =
        >>=-eq-ok (checked (a.portfolio.principal +ℤ pos amount) PercolatorError.overflow) _ h4 in
      let (q, eq, h6) =
        >>=-eq-ok (checked (a.portfolio.equity +ℤ pos amount) PercolatorError.overflow) _ h5 in
      let nonzero = reject_if-eq-ok _ _ x in
      let signs = reject_if-eq-ok _ _ y in
      let owns = reject_if-eq-ok _ _ z in
      subst (Deposited a amount) (ok_injective h6) (record {
        some_amount = ground arith;
        signs = ground arith;
        owner = ground arith;
        moved = em;
        principal = checked_same _ _ p ep;
        equity = checked_same _ _ q eq;
      })

  -- A deposit through a program that moves what a transfer says is on a portfolio of a user who signs,
  -- and adds to principal, equity and lamports of the portfolio what it takes from the user's lamports.
  pub process_deposit_backed :
      (a : CashAccounts) (amount : ℕ) (a' : CashAccounts)
      (moves : (signs : Bool) (n from to : ℕ) (after : ℕ × ℕ)
        → invoke a.system_program signs n from to ≡ ok after
        → (after.0 + n ≡ from) × (after.1 ≡ to + n))
      → process_deposit invoke a amount ≡ ok a'
      → (a.user_signs ≡ true)
        × (a.portfolio.user ≡ a.user_key)
        × (a'.portfolio.principal ≡ a.portfolio.principal +ℤ pos amount)
        × (a'.portfolio.equity ≡ a.portfolio.equity +ℤ pos amount)
        × (a'.portfolio_lamports ≡ a.portfolio_lamports + amount)
        × (a'.user_lamports + amount ≡ a.user_lamports)
  process_deposit_backed a amount a' moves h =
      let d = process_deposit-Deposited a amount a' h in
      let (from, to) =
        moves true amount a.user_lamports a.portfolio_lamports
          (a'.user_lamports, a'.portfolio_lamports) d.moved in
      (d.signs, d.owner, d.principal, d.equity, to, from)

  -- A deposit through a program that moves nothing is let through all the same: it adds to principal and
  -- equity of the portfolio, and takes from nobody.
  pub process_deposit_unbacked :
      (a : CashAccounts) (amount : ℕ)
      (idle : (n from to : ℕ) → invoke a.system_program true n from to ≡ ok (from, to))
      → 0 < amount
      → a.user_signs ≡ true
      → a.portfolio.user ≡ a.user_key
      → fit_i128 (a.portfolio.principal +ℤ pos amount) ≡ some (a.portfolio.principal +ℤ pos amount)
      → fit_i128 (a.portfolio.equity +ℤ pos amount) ≡ some (a.portfolio.equity +ℤ pos amount)
      → (a' : CashAccounts) × (process_deposit invoke a amount ≡ ok a')
        × (a'.portfolio.equity ≡ a.portfolio.equity +ℤ pos amount)
        × (a'.portfolio_lamports ≡ a.portfolio_lamports)
        × (a'.user_lamports ≡ a.user_lamports)
  unfolding process_deposit checked
  process_deposit_unbacked a amount idle some_amount signs owner fp fe =
      let nonzero : (amount == 0) ≡ false = ground arith in
      let owns : (a.portfolio.user == a.user_key) ≡ true = ground arith in
      (
        record a {
          portfolio = record a.portfolio {
            principal = a.portfolio.principal +ℤ pos amount;
            equity = a.portfolio.equity +ℤ pos amount;
          };
        },
        rw (nonzero, signs, owns, idle amount a.user_lamports a.portfolio_lamports, fp, fe) refl,
        refl,
        refl,
        refl,
      )
