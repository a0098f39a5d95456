-- ===== src/Router/Cash/Limits.antt =====
-- What withdrawals of programs/router/src/instructions/withdraw.rs do to the books and the lamports.
use mathlib.Core.Option.{some-injective}
use native.Mathlib.Nat.{mul-le-mul, le_refl}
use barista_dex_perc.Prelude.{
  ℕ, ◌+◌, ◌*◌, ◌/◌, ◌^◌, ◌≤◌, ◌<◌, ◌≡◌, refl, sym, subst, Bool, true, false, not, some, ltb, ◌==◌,
  inl, inr, arith, Bool-cases,
}
use barista_dex_perc.Prelude.Int.{ℤ, pos, pos_part, ◌≤ℤ◌, leb_ℤ, ◌+ℤ◌, ◌-ℤ◌, ◌*ℤ◌, ◌/ℤ◌}
use barista_dex_perc.Prelude.Outcome.{
  Outcome, ok, err, reject_if, or_abort, >>=-eq-ok, >>-eq-ok, or_abort-eq-ok, reject_if-eq-ok,
  ok_injective,
}
use barista_dex_perc.Math.{i128_max, fit_i128, add_i128, sat_i128}
use barista_dex_perc.Warmup.{q_scale}
use barista_dex_perc.Warmup.Unlock.{qmul_pos}
use barista_dex_perc.Matcher.{PercolatorError}
use barista_dex_perc.Router.Registry.{SlabRegistry}
use barista_dex_perc.Router.Funds.{fit_u64}
use barista_dex_perc.Router.Cash.{
  calculate_withdrawable_pnl, max_withdrawable_with_warmup, CashAccounts, min_rent_exempt, checked,
  limit_u64, process_withdraw,
}
use barista_dex_perc.Router.Cash.Deposits.{checked_same}

scale_pos : (v : ℕ) → v * 2 ^ 32 ≤ i128_max → fit_i128 (pos v *ℤ q_scale) ≡ some (pos (v * 2 ^ 32))
unfolding fit_i128 ◌*ℤ◌
scale_pos v h = ground arith

unscale_pos : (n : ℕ) → pos n /ℤ q_scale ≡ pos (n / 2 ^ 32)
unfolding ◌/ℤ◌
unscale_pos n = ground arith

shift_back : (v f : ℕ) → v * 2 ^ 32 * f / 2 ^ 32 / 2 ^ 32 ≡ v * f / 2 ^ 32
shift_back v f = omega arith

-- What can be withdrawn of a vested gain is the gain times the fraction that is unlocked, rounded down,
-- and no more than the gain.
withdrawable_pos :
    (v f : ℕ)
    → f ≤ 2 ^ 32
    → v * 2 ^ 32 * 2 ^ 32 ≤ i128_max
    → (calculate_withdrawable_pnl (pos v) (pos f) ≡ some (pos (v * f / 2 ^ 32)))
      × (v * f / 2 ^ 32 ≤ v)
unfolding calculate_withdrawable_pnl
withdrawable_pos v f h fits =
    let all = mul-le-mul (le_refl v) h in
    let large = mul-le-mul (le_refl (v * 2 ^ 32)) h in
    let n = v * f / 2 ^ 32 in
    (
      elim (Bool-cases (leb_ℤ (pos v) (pos 0))) [
        | inl none_there ↦ let z : v ≡ 0 = ground arith in rw z (ground arith)
        | inr some_there ↦
            rw
              (
                some_there,
                scale_pos v (omega arith),
                qmul_pos (v * 2 ^ 32) f (omega (arith, large)),
                unscale_pos (v * 2 ^ 32 * f / 2 ^ 32),
                shift_back v f,
              )
              refl
      ],
      omega (arith, all),
    )

module _ (invoke : ℕ → Bool → ℕ → ℕ → ℕ → Outcome PercolatorError (ℕ × ℕ)) where
  -- What a withdrawal that succeeds went through.
  pub record Withdrawn (a : CashAccounts) (r : SlabRegistry) (amount : ℕ) (a' : CashAccounts)
      : Type 0 where
    pub some_amount : 0 < amount
    pub signs : a.user_signs ≡ true
    pub owner : a.portfolio.user ≡ a.user_key
    pub limit : ℤ
    pub is_limit :
        max_withdrawable_with_warmup a.portfolio r.warmup_state.unlocked_frac ≡ some limit
    pub within : amount ≤ pos_part limit
    pub rent : amount + min_rent_exempt ≤ a.portfolio_lamports
    pub moved :
        invoke a.system_program false amount a.portfolio_lamports a.user_lamports
        ≡ ok (a'.portfolio_lamports, a'.user_lamports)
    pub principal : a'.portfolio.principal ≡ a.portfolio.principal -ℤ pos amount
    pub equity : a'.portfolio.equity ≡ a.portfolio.equity -ℤ pos amount
    pub vested : a'.portfolio.vested_pnl ≡ a.portfolio.vested_pnl

  under_limit :
      (limit : ℤ) (amount : ℕ) → ltb (limit_u64 limit) amount ≡ false → amount ≤ pos_part limit
  unfolding limit_u64
  under_limit limit amount h = ground arith

  fit_u64-same : (n m : ℕ) → fit_u64 n ≡ some m → m ≡ n
  unfolding fit_u64
  fit_u64-same n m h = ground arith

  process_withdraw-Withdrawn :
      (a : CashAccounts) (r : SlabRegistry) (amount : ℕ) (a' : CashAccounts)
      → process_withdraw invoke a r amount ≡ ok a'
      → Withdrawn a r amount a'
  unfolding process_withdraw
  process_withdraw-Withdrawn a r amount a' h =
      let (x, h1) = >>-eq-ok (reject_if (amount == 0) _) _ h in
      let (y, h2) = >>-eq-ok (reject_if (not a.user_signs) _) _ h1 in
      let (z, h3) = >>-eq-ok (reject_if (not (a.portfolio.user == a.user_key)) _) _ h2 in
      let (l, el, h4) =
        >>=-eq-ok (or_abort (max_withdrawable_with_warmup a.portfolio r.warmup_state.unlocked_frac))
          _ h3 in
      let (u, h5) = >>-eq-ok (reject_if (ltb (limit_u64 l) amount) _) _ h4 in
      let (n, en, h6) = >>=-eq-ok (or_abort (fit_u64 (amount + min_rent_exempt))) _ h5 in
      let (v, h7) = >>-eq-ok (reject_if (ltb a.portfolio_lamports n) _) _ h6 in
      let (m, em, h8) =
        >>=-eq-ok (invoke a.system_program false amount a.portfolio_lamports a.user_lamports) _
          h7 in
      let (p, ep, h9) =
        >>=-eq-ok (checked (a.portfolio.principal -ℤ pos amount) PercolatorError.underflow) _ h8 in
      let (q, eq, h10) =
        >>=-eq-ok (checked (a.portfolio.equity -ℤ pos amount) PercolatorError.underflow) _ h9 in
      let nonzero = reject_if-eq-ok _ _ x in
      let signs = reject_if-eq-ok _ _ y in
      let owns = reject_if-eq-ok _ _ z in
      let needed = fit_u64-same _ n (or_abort-eq-ok _ en) in
      let rent = reject_if-eq-ok _ _ v in
      subst (Withdrawn a r amount) (ok_injective h10) (record {
        some_amount = ground arith;
        signs = ground arith;
        owner = ground arith;
        limit = l;
        is_limit = or_abort-eq-ok _ el;
        within = under_limit l amount (reject_if-eq-ok _ _ u);
        rent = ground arith;
        moved = em;
        principal = checked_same _ _ p ep;
        equity = checked_same _ _ q eq;
        vested = refl;
      })

  sat_within : (x : ℤ) (n : ℕ) → 0 < n → n ≤ pos_part (sat_i128 x) → pos n ≤ℤ x
  unfolding sat_i128
  sat_within x n some_n h = ground arith

  -- A withdrawal that is let through is by the user whose portfolio it is, of no more than the principal
  -- and the unlocked part of the vested gain, rounded down, leaves the rent's lamports in the portfolio's
  -- account by its own count, and takes the amount off principal and equity. The gain and the fraction
  -- are not negative, the fraction is at most one, and the gain fits the fixed point.
  pub process_withdraw_limit :
      (a : CashAccounts) (r : SlabRegistry) (amount : ℕ) (a' : CashAccounts) (v f : ℕ)
      → a.portfolio.vested_pnl ≡ pos v
      → r.warmup_state.unlocked_frac ≡ pos f
      → f ≤ 2 ^ 32
      → v * 2 ^ 32 * 2 ^ 32 ≤ i128_max
      → process_withdraw invoke a r amount ≡ ok a'
      → (a.user_signs ≡ true)
        × (a.portfolio.user ≡ a.user_key)
        × (pos amount ≤ℤ a.portfolio.principal +ℤ pos (v * f / 2 ^ 32))
        × (v * f / 2 ^ 32 ≤ v)
        × (amount + min_rent_exempt ≤ a.portfolio_lamports)
        × (a'.portfolio.principal ≡ a.portfolio.principal -ℤ pos amount)
        × (a'.portfolio.equity ≡ a.portfolio.equity -ℤ pos amount)
        × (a'.portfolio.vested_pnl ≡ a.portfolio.vested_pnl)
  unfolding max_withdrawable_with_warmup add_i128
  process_withdraw_limit a r amount a' v f ev ef hf fits h =
      let d = process_withdraw-Withdrawn a r amount a' h in
      let (share, bound) = withdrawable_pos v f hf fits in
      let e : some (sat_i128 (a.portfolio.principal +ℤ pos (v * f / 2 ^ 32))) ≡ some d.limit =
        rw (ev, ef, share) at d.is_limit in
      (
        d.signs,
        d.owner,
        sat_within (a.portfolio.principal +ℤ pos (v * f / 2 ^ 32)) amount d.some_amount
            (subst (λ z. amount ≤ pos_part z) (sym (some-injective _ _ e)) d.within),
        bound,
        d.rent,
        d.principal,
        d.equity,
        d.vested,
      )

  -- A program that takes from an account only if it signs refuses every withdrawal, as the transfer
  -- names the portfolio's account as one that does not sign.
  pub process_withdraw-refused :
      (a : CashAccounts) (r : SlabRegistry) (amount : ℕ) (a' : CashAccounts) (why : PercolatorError)
      (wants_signature : (n from to : ℕ) → invoke a.system_program false n from to ≡ err why)
      → process_withdraw invoke a r amount ≡ ok a'
      → ⊥
  process_withdraw-refused a r amount a' why wants_signature h =
      let d = process_withdraw-Withdrawn a r amount a' h in
      let no = wants_signature amount a.portfolio_lamports a.user_lamports in cc (no, d.moved)
