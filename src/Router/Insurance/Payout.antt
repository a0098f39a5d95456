-- ===== src/Router/Insurance/Payout.antt =====
-- What the insurance fund of programs/router/src/state/insurance.rs pays, and its caps.
use barista_dex_perc.Prelude.{ℕ, ◌+◌, ◌-◌, ◌≤◌, ◌≡◌, arith}
use barista_dex_perc.Math.{u128_max, sub_u128, min_u128, mul_u128, div_u128}
use barista_dex_perc.Math.Bounds.{add_u128_lem, sub_u128_lem, min_u128_lem}
use barista_dex_perc.Router.Insurance.{
  InsuranceParams, InsuranceState, roll_day, daily_cap, per_event_cap, payout_of, pay,
  book_uncovered, settle_bad_debt,
}

-- What a settlement of bad debt did, from the fund with its day rolled.
pub record Settled (st : InsuranceState) (bad_debt event_notional : ℕ) (params : InsuranceParams)
    (now : ℕ) (out : InsuranceState × ℕ × ℕ) : Type 0 where
  pub split : out.1 + out.2 ≡ bad_debt
  pub within_event : out.1 ≤ per_event_cap event_notional params
  pub from_vault : out.0.vault_balance + out.1 ≡ st.vault_balance
  pub within_day : out.0.daily_payout_accum ≤ daily_cap (roll_day st now) params
  pub counted : out.0.daily_payout_accum ≡ (roll_day st now).daily_payout_accum + out.1
  pub recorded : out.0.total_payouts ≡ st.total_payouts + out.1
  pub uncovered_booked : out.0.uncovered_bad_debt ≡ st.uncovered_bad_debt + out.2
  pub fees_kept : out.0.total_fees_accrued ≡ st.total_fees_accrued

pub roll_day-keeps :
    (st : InsuranceState) (now : ℕ)
    → let st' = roll_day st now in
      (st'.vault_balance ≡ st.vault_balance)
      × (st'.total_payouts ≡ st.total_payouts)
      × (st'.uncovered_bad_debt ≡ st.uncovered_bad_debt)
      × (st'.total_fees_accrued ≡ st.total_fees_accrued)
unfolding roll_day
roll_day-keeps st now = ground arith

pub daily_cap-le : (st : InsuranceState) (params : InsuranceParams) → daily_cap st params ≤ u128_max
unfolding daily_cap div_u128 mul_u128
daily_cap-le st params = omega arith

pub payout_of-le :
    (r : InsuranceState) (b n : ℕ) (params : InsuranceParams)
    → let p = payout_of r b n params in
      (p ≤ b)
      × (p ≤ r.vault_balance)
      × (p ≤ per_event_cap n params)
      × (p ≤ daily_cap r params - r.daily_payout_accum)
unfolding payout_of
payout_of-le r b n params =
    let v = r.vault_balance in
    let e = per_event_cap n params in
    let d = sub_u128 (daily_cap r params) r.daily_payout_accum in
    omega (
      arith,
      min_u128_lem b (min_u128 (min_u128 v e) d),
      min_u128_lem (min_u128 v e) d,
      min_u128_lem v e,
      sub_u128_lem (daily_cap r params) r.daily_payout_accum,
    )

pub pay-eq :
    (r : InsuranceState) (p now : ℕ)
    → p ≤ r.vault_balance
    → r.daily_payout_accum + p ≤ u128_max
    → r.total_payouts + p ≤ u128_max
    → let r' = pay r p now in
      (r'.vault_balance + p ≡ r.vault_balance)
      × (r'.daily_payout_accum ≡ r.daily_payout_accum + p)
      × (r'.total_payouts ≡ r.total_payouts + p)
      × (r'.uncovered_bad_debt ≡ r.uncovered_bad_debt)
      × (r'.total_fees_accrued ≡ r.total_fees_accrued)
      × (r'.day_start_vault_balance ≡ r.day_start_vault_balance)
      × (r'.last_day ≡ r.last_day)
unfolding pay
pay-eq r p now a b c = ground (
  arith,
  sub_u128_lem r.vault_balance p,
  add_u128_lem r.daily_payout_accum p,
  add_u128_lem r.total_payouts p,
)

book_uncovered-eq :
    (r : InsuranceState) (u : ℕ)
    → r.uncovered_bad_debt + u ≤ u128_max
    → let r' = book_uncovered r u in
      (r'.uncovered_bad_debt ≡ r.uncovered_bad_debt + u)
      × (r'.vault_balance ≡ r.vault_balance)
      × (r'.daily_payout_accum ≡ r.daily_payout_accum)
      × (r'.total_payouts ≡ r.total_payouts)
      × (r'.total_fees_accrued ≡ r.total_fees_accrued)
      × (r'.day_start_vault_balance ≡ r.day_start_vault_balance)
      × (r'.last_day ≡ r.last_day)
unfolding book_uncovered
book_uncovered-eq r u a = ground (arith, add_u128_lem r.uncovered_bad_debt u)

-- A settlement splits the bad debt into a payout and an uncovered rest, and books both. The payout
-- comes out of the vault and keeps within the cap on the event and within the cap on the day, as
-- long as the day's payouts kept within it before and the running totals fit a u128.
pub settle_bad_debt-Settled :
    (st : InsuranceState) (bad_debt event_notional : ℕ) (params : InsuranceParams) (now : ℕ)
    → (roll_day st now).daily_payout_accum ≤ daily_cap (roll_day st now) params
    → st.total_payouts + bad_debt ≤ u128_max
    → st.uncovered_bad_debt + bad_debt ≤ u128_max
    → Settled st bad_debt event_notional params now
        (settle_bad_debt st bad_debt event_notional params now)
unfolding settle_bad_debt
settle_bad_debt-Settled st b n params now cap t u =
    let r = roll_day st now in
    let p = payout_of r b n params in
    let k = roll_day-keeps st now in
    let l = payout_of-le r b n params in
    let s = sub_u128_lem b p in
    let q = pay-eq r p now l.1 (omega (arith, l, daily_cap-le r params)) (omega (arith, k, l)) in
    let w = book_uncovered-eq (pay r p now) (sub_u128 b p) (omega (arith, q, k, s)) in
    record {
      split = omega (arith, l, s);
      within_event = l.2;
      from_vault = omega (arith, w, q, k);
      within_day = omega (arith, w, q, l);
      counted = omega (arith, w, q);
      recorded = omega (arith, w, q, k);
      uncovered_booked = omega (arith, w, q, k);
      fees_kept = omega (arith, w, q, k);
    }
