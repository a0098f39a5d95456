-- ===== src/Router/Insurance.antt =====
-- programs/router/src/state/insurance.rs.
pub mod Payout
pub mod History
use barista_dex_perc.Prelude.{ℕ, ◌/◌, Bool, Option, none, some, ltb, ◌==◌, ◌&&◌, if◌then◌else◌}
use barista_dex_perc.Math.{add_u128, sub_u128, mul_u128, div_u128, min_u128}

pub record InsuranceParams : Type 0 where
  pub fee_bps_to_insurance : ℕ
  pub max_payout_bps_of_oi : ℕ
  pub max_daily_payout_bps_of_vault : ℕ
  pub cooloff_secs : ℕ

abbrev pub default_params : InsuranceParams
default_params = record {
  fee_bps_to_insurance = 10;
  max_payout_bps_of_oi = 50;
  max_daily_payout_bps_of_vault = 300;
  cooloff_secs = 0;
}

pub record InsuranceState : Type 0 where
  pub vault_balance : ℕ
  pub last_payout_ts : ℕ
  pub daily_payout_accum : ℕ
  pub total_payouts : ℕ
  pub total_fees_accrued : ℕ
  pub uncovered_bad_debt : ℕ
  pub last_day : ℕ
  pub day_start_vault_balance : ℕ

abbrev pub default_state : InsuranceState
default_state = record {
  vault_balance = 0;
  last_payout_ts = 0;
  daily_payout_accum = 0;
  total_payouts = 0;
  total_fees_accrued = 0;
  uncovered_bad_debt = 0;
  last_day = 0;
  day_start_vault_balance = 0;
}

abbrev pub seconds_per_day : ℕ
seconds_per_day = 86400

unfoldable pub is_new_day : InsuranceState → ℕ → Bool
is_new_day st now = ltb st.last_day (now / seconds_per_day)

unfoldable pub accrue_from_fill : InsuranceState → ℕ → InsuranceParams → InsuranceState × ℕ
accrue_from_fill st notional params =
    let accrual = div_u128 (mul_u128 notional params.fee_bps_to_insurance) 10_000 in
    (
      record st {
        vault_balance = add_u128 st.vault_balance accrual;
        total_fees_accrued = add_u128 st.total_fees_accrued accrual;
      },
      accrual,
    )

-- The daily housekeeping that begins `settle_bad_debt`.
unfoldable pub roll_day : InsuranceState → ℕ → InsuranceState
roll_day st now =
    let st' =
      if is_new_day st now
      then record st {
        daily_payout_accum = 0;
        last_day = now / seconds_per_day;
        day_start_vault_balance = st.vault_balance;
      }
      else st in
    if st'.day_start_vault_balance == 0 && ltb 0 st'.vault_balance
    then record st' { day_start_vault_balance = st'.vault_balance }
    else st'

unfoldable pub daily_cap : InsuranceState → InsuranceParams → ℕ
daily_cap st params =
    div_u128 (mul_u128 st.day_start_vault_balance params.max_daily_payout_bps_of_vault) 10_000

unfoldable pub per_event_cap : ℕ → InsuranceParams → ℕ
per_event_cap event_notional params =
    div_u128 (mul_u128 event_notional params.max_payout_bps_of_oi) 10_000

-- The payout from a fund whose day has been rolled.
unfoldable pub payout_of : InsuranceState → ℕ → ℕ → InsuranceParams → ℕ
payout_of st bad_debt event_notional params = min_u128 bad_debt (
    min_u128 (min_u128 st.vault_balance (per_event_cap event_notional params))
      (sub_u128 (daily_cap st params) st.daily_payout_accum))

unfoldable pub pay : InsuranceState → ℕ → ℕ → InsuranceState
pay st payout now =
    if ltb 0 payout
    then record st {
      vault_balance = sub_u128 st.vault_balance payout;
      daily_payout_accum = add_u128 st.daily_payout_accum payout;
      total_payouts = add_u128 st.total_payouts payout;
      last_payout_ts = now;
    }
    else st

unfoldable pub book_uncovered : InsuranceState → ℕ → InsuranceState
book_uncovered st uncovered =
    if ltb 0 uncovered
    then record st { uncovered_bad_debt = add_u128 st.uncovered_bad_debt uncovered }
    else st

-- The new state with the payout and what stays uncovered.
unfoldable pub settle_bad_debt :
    InsuranceState → ℕ → ℕ → InsuranceParams → ℕ → InsuranceState × ℕ × ℕ
settle_bad_debt st bad_debt event_notional params now =
    let st' = roll_day st now in
    let payout = payout_of st' bad_debt event_notional params in
    let uncovered = sub_u128 bad_debt payout in
    (book_uncovered (pay st' payout now) uncovered, payout, uncovered)

unfoldable pub top_up : InsuranceState → ℕ → InsuranceState
top_up st amount = record st {
  vault_balance = add_u128 st.vault_balance amount;
  total_fees_accrued = add_u128 st.total_fees_accrued amount;
}

-- `none` is Err(()), after which the state is as it was.
unfoldable pub withdraw_surplus : InsuranceState → ℕ → Option InsuranceState
withdraw_surplus st amount =
    if ltb 0 st.uncovered_bad_debt
    then none
    else if ltb st.vault_balance amount
    then none
    else some (record st { vault_balance = sub_u128 st.vault_balance amount })
