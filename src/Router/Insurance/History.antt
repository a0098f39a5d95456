-- ===== src/Router/Insurance/History.antt =====
-- The insurance fund of programs/router/src/state/insurance.rs over any history of calls.
use barista_dex_perc.Prelude.{ℕ, ◌+◌, ◌≤◌, ◌≡◌, List, [], ◌∷◌, none, some, Option, arith}
use barista_dex_perc.Math.{u128_max, sub_u128, mul_u128, div_u128}
use barista_dex_perc.Math.Bounds.{add_u128_lem, sub_u128_lem}
use barista_dex_perc.Router.Insurance.{
  InsuranceParams, InsuranceState, accrue_from_fill, roll_day, daily_cap, payout_of, pay,
  book_uncovered, settle_bad_debt, top_up, withdraw_surplus,
}
use barista_dex_perc.Router.Insurance.Payout.{roll_day-keeps, daily_cap-le, payout_of-le, pay-eq}

pub data Event : Type 0 where
  fills tops_up withdraws : ℕ → Event
  settles : ℕ → ℕ → ℕ → Event

abbrev surplus_taken : InsuranceState → ℕ → Option InsuranceState → InsuranceState × ℕ
surplus_taken st amount none = (st, 0)
surplus_taken st amount (some st') = (st', amount)

-- The state after an event, and what governance took out in it.
pub apply : InsuranceParams → InsuranceState → Event → InsuranceState × ℕ
apply params st (Event.fills notional) = ((accrue_from_fill st notional params).0, 0)
apply params st (Event.tops_up amount) = (top_up st amount, 0)
apply params st (Event.withdraws amount) = surplus_taken st amount (withdraw_surplus st amount)
apply params st (Event.settles bad_debt notional now) =
    ((settle_bad_debt st bad_debt notional params now).0, 0)

-- The state after a history, and all that governance took out.
pub run : InsuranceParams → InsuranceState → ℕ → List Event → InsuranceState × ℕ
run params st taken [] = (st, taken)
run params st taken (e ∷ es) =
    let (st', more) = apply params st e in run params st' (taken + more) es

-- What a history pays in: the fees on its fills and the top-ups.
abbrev pub paid_in : InsuranceParams → List Event → ℕ
paid_in params [] = 0
paid_in params (Event.fills notional ∷ es) =
    div_u128 (mul_u128 notional params.fee_bps_to_insurance) 10_000 + paid_in params es
paid_in params (Event.tops_up amount ∷ es) = amount + paid_in params es
paid_in params (_ ∷ es) = paid_in params es

-- All that came in is in the vault, was paid out or was taken by governance; and the day's payouts
-- keep within the day's cap.
pub record IsAccounted (params : InsuranceParams) (st : InsuranceState) (taken : ℕ) : Type 0 where
  pub balanced : st.total_fees_accrued ≡ st.vault_balance + st.total_payouts + taken
  pub capped : st.daily_payout_accum ≤ daily_cap st params
  pub fits : st.total_fees_accrued ≤ u128_max

daily_cap-same :
    (st st' : InsuranceState) (params : InsuranceParams)
    → st.day_start_vault_balance ≡ st'.day_start_vault_balance
    → daily_cap st params ≡ daily_cap st' params
unfolding daily_cap
daily_cap-same st st' params e = rw e

roll_day-capped :
    (st : InsuranceState) (params : InsuranceParams) (now : ℕ)
    → st.daily_payout_accum ≤ daily_cap st params
    → (roll_day st now).daily_payout_accum ≤ daily_cap (roll_day st now) params
unfolding roll_day daily_cap mul_u128 div_u128
roll_day-capped st params now h = ground arith

book_uncovered-keeps :
    (r : InsuranceState) (u : ℕ)
    → let r' = book_uncovered r u in
      (r'.vault_balance ≡ r.vault_balance)
      × (r'.daily_payout_accum ≡ r.daily_payout_accum)
      × (r'.total_payouts ≡ r.total_payouts)
      × (r'.total_fees_accrued ≡ r.total_fees_accrued)
      × (r'.day_start_vault_balance ≡ r.day_start_vault_balance)
unfolding book_uncovered
book_uncovered-keeps r u = ground arith

settled-IsAccounted :
    (params : InsuranceParams) (st : InsuranceState) (taken b n now : ℕ)
    → IsAccounted params st taken
    → IsAccounted params (settle_bad_debt st b n params now).0 taken
unfolding settle_bad_debt
settled-IsAccounted params st taken b n now a =
    let r = roll_day st now in
    let p = payout_of r b n params in
    let out = book_uncovered (pay r p now) (sub_u128 b p) in
    let c = roll_day-capped st params now a.capped in
    let k = roll_day-keeps st now in
    let l = payout_of-le r b n params in
    let q =
      pay-eq r p now l.1 (omega (arith, l, daily_cap-le r params))
        (omega (arith, k, l, a.balanced, a.fits)) in
    let w = book_uncovered-keeps (pay r p now) (sub_u128 b p) in
    record {
      balanced = omega (arith, a.balanced, w, q, k);
      capped = omega (arith, w, q, l, c, daily_cap-same out r params);
      fits = omega (arith, a.fits, w, q, k);
    }

settled_fees :
    (params : InsuranceParams) (st : InsuranceState) (b n now : ℕ)
    → (settle_bad_debt st b n params now).0.total_fees_accrued ≤ st.total_fees_accrued + 0
unfolding settle_bad_debt pay
settled_fees params st b n now =
    let r = roll_day st now in
    ground (
      arith,
      roll_day-keeps st now,
      book_uncovered-keeps (pay r (payout_of r b n params) now)
          (sub_u128 b (payout_of r b n params)),
    )

apply-IsAccounted :
    (params : InsuranceParams) (st : InsuranceState) (taken : ℕ) (e : Event)
    → IsAccounted params st taken
    → st.total_fees_accrued + paid_in params (e ∷ []) ≤ u128_max
    → let (st', more) = apply params st e in
      IsAccounted params st' (taken + more)
      × (st'.total_fees_accrued ≤ st.total_fees_accrued + paid_in params (e ∷ []))
unfolding apply accrue_from_fill top_up withdraw_surplus daily_cap
apply-IsAccounted params st taken (Event.fills n) a h =
    let x = div_u128 (mul_u128 n params.fee_bps_to_insurance) 10_000 in
    ground (
      arith,
      a.balanced,
      a.capped,
      add_u128_lem st.vault_balance x,
      add_u128_lem st.total_fees_accrued x,
    )
apply-IsAccounted params st taken (Event.tops_up x) a h = ground (
  arith,
  a.balanced,
  a.capped,
  add_u128_lem st.vault_balance x,
  add_u128_lem st.total_fees_accrued x,
)
apply-IsAccounted params st taken (Event.withdraws x) a h =
    ground (arith, a.balanced, a.capped, sub_u128_lem st.vault_balance x)
apply-IsAccounted params st taken (Event.settles b n now) a h =
    let i = settled-IsAccounted params st taken b n now a in
    (
      record { balanced = omega (arith, i.balanced); capped = i.capped; fits = i.fits },
      settled_fees params st b n now,
    )

paid_in-cons :
    (params : InsuranceParams) (e : Event) (es : List Event)
    → paid_in params (e ∷ es) ≡ paid_in params (e ∷ []) + paid_in params es
paid_in-cons params (Event.fills n) es = omega arith
paid_in-cons params (Event.tops_up x) es = omega arith
paid_in-cons params e es = omega arith

-- Any history that pays in no more than fits keeps every unit accounted for and every day capped.
pub run-IsAccounted :
    (params : InsuranceParams) (st : InsuranceState) (taken : ℕ) (es : List Event)
    → IsAccounted params st taken
    → st.total_fees_accrued + paid_in params es ≤ u128_max
    → let (st', taken') = run params st taken es in IsAccounted params st' taken'
unfolding run
run-IsAccounted params st taken [] a h = a
run-IsAccounted params st taken (e ∷ es) a h =
    let (b, le) = apply-IsAccounted params st taken e a (omega (arith, paid_in-cons params e es)) in
    run-IsAccounted params (apply params st e).0 (taken + (apply params st e).1) es b
      (omega (arith, le, paid_in-cons params e es))
