-- ===== src/Keeper/Zones.antt =====
-- The zones of health that the keeper tells apart (keeper/src/main.rs, priority_queue.rs).
use mathlib.Core.Option.{some-injective, none-ne-some}
use barista_dex_perc.Prelude.{
  inl, inr, subst, ltb, ℕ, zero, suc, ◌≡◌, refl, true, false, Option, some, List, [], ◌∷◌, arith,
  Bool-cases, get_elem?,
}
use barista_dex_perc.Prelude.Int.{ℤ, pos, ◌-ℤ◌}
use barista_dex_perc.Math.{fit_i128}
use barista_dex_perc.Router.Portfolio.{as_i128}
use barista_dex_perc.Keeper.{
  Portfolio, add_notionals, calculate_equity, calculate_health, parse_portfolio, UserHealth,
  needs_liquidation, get_liquidatable, is_preliq, liquidation_threshold,
}

-- Users who need liquidation, one put before the others.
before_others :
    (u0 : UserHealth) (users : List UserHealth) (threshold : ℤ)
    → needs_liquidation u0 threshold ≡ true
    → ((i : ℕ) (u : UserHealth) → get_elem? users i ≡ some u → needs_liquidation u threshold ≡ true)
    → (i : ℕ) (u : UserHealth) → get_elem? (u0 ∷ users) i ≡ some u
    → needs_liquidation u threshold ≡ true
before_others u0 users threshold needs others zero u h =
    subst (λ x. needs_liquidation x threshold ≡ true) (some-injective _ _ h) needs
before_others u0 users threshold needs others (suc i) u h = others i u h

-- A user to liquidate needs it.
get_liquidatable-needs :
    (users : List UserHealth) (threshold : ℤ) (i : ℕ) (u : UserHealth)
    → get_elem? (get_liquidatable users threshold) i ≡ some u
    → needs_liquidation u threshold ≡ true
unfolding get_liquidatable
get_liquidatable-needs [] threshold i u h = cc
get_liquidatable-needs (u0 ∷ users) threshold i u h =
    elim (Bool-cases (needs_liquidation u0 threshold)) [
      | inl needs ↦
          before_others u0 (get_liquidatable users threshold) threshold needs
            (λ j v. get_liquidatable-needs users threshold j v) i u
            (rw (needs, get_liquidatable) at h)
      | inr n ↦ get_liquidatable-needs users threshold i u (rw (n, get_liquidatable) at h)
    ]

-- With the default threshold, no user whom the keeper liquidates is asked to be pre-liquidated, whatever
-- the buffer.
pub is_preliq-never :
    (users : List UserHealth) (buffer : ℤ) (i : ℕ) (u : UserHealth)
    → get_elem? (get_liquidatable users liquidation_threshold) i ≡ some u
    → is_preliq u buffer ≡ false
unfolding is_preliq needs_liquidation
is_preliq-never users buffer i u h =
    let n = get_liquidatable-needs users liquidation_threshold i u h in grind arith

-- Every portfolio that is read from an account has health 0, whatever the prices.
pub parsed_health :
    (data_len : ℕ) (p : Portfolio) (prices : ℕ → Option ℤ)
    → parse_portfolio data_len ≡ some p
    → calculate_health p prices ≡ some (pos 0)
unfolding parse_portfolio calculate_health calculate_equity add_notionals fit_i128 as_i128 ◌-ℤ◌
parsed_health data_len p prices h = elim (Bool-cases (ltb data_len 1_024)) [
  | inl small ↦ absurd (none-ne-some _ (rw small at h))
  | inr large ↦
      subst (λ q. calculate_health q prices ≡ some (pos 0)) (some-injective _ _ (rw large at h))
        refl
]
