-- ===== src/Router/CrossSlab.antt =====
-- process_execute_cross_slab of programs/router/src/instructions/execute_cross_slab.rs. Addresses that are
-- derived from seeds are told apart by these. What other programs answer is an argument: the prices of the
-- oracles, whether the system program creates an account, and the receipt that a slab's fill leaves.
pub mod Settle
pub mod Fill
pub mod Trade
pub mod Held
pub mod Safety
pub mod Track
pub mod Turn
pub mod Listing
pub mod Tests
use barista_dex_perc.Prelude.{
  ℕ, ◌+◌, ◌-◌, ◌*◌, ◌/◌, Bool, not, ◌&&◌, ◌||◌, Option, none, some, List, [], ◌∷◌, ltb, leb, ◌==◌,
  if◌then◌else◌, length, foldl, true,
}
use barista_dex_perc.Prelude.Int.{ℤ, pos, pos_part, neg_part, ltb_ℤ, leb_ℤ, ◌==ℤ◌, neg_ℤ, ◌+ℤ◌}
use barista_dex_perc.Prelude.Outcome.{Outcome, ok, err, ◌>>=◌, ◌>>◌, reject_if, ok_or, or_abort}
use barista_dex_perc.Math.{u128_max, fit_i64, add_i128, add_u128}
use barista_dex_perc.Matcher.{PercolatorError, FillReceipt, is_used}
use barista_dex_perc.Router.Portfolio.{
  Exposure, Portfolio, get_exposure, update_exposure, update_margin, has_sufficient_margin,
}
use barista_dex_perc.Router.PnlVesting.{PnlState, on_user_touch}
use barista_dex_perc.Router.Insurance.{accrue_from_fill}
use barista_dex_perc.Router.Registry.{SlabEntry, SlabRegistry, find_slab, register_slab}
use barista_dex_perc.Router.Position.{
  PositionDetails, new_position, abs_i64, add_to_position, reduce_position,
}
use barista_dex_perc.Router.Funds.{
  PositionAddress, PositionAccount, Accounts, transfer_collateral_margin, return_margin_to_user,
  settle_pnl,
}
use barista_dex_perc.Router.Order.{
  SlabSplit, OracleAccount, Vacancy, Order, Leg, first_leg, with_pnl, touch, check_counts,
  auto_entry, slab_index, same_address, address_of, create_position, load_or_create, created,
  trade_margin,
}

-- What a fill makes of the accounts and of the position at hand, and the realised PnL.
pub record FillEffect : Type 0 where
  pub accounts : Accounts
  pub position : PositionDetails
  pub pnl : ℤ

unfoldable pub add_fill :
    Accounts → Order → PositionDetails → FillReceipt → Outcome PercolatorError FillEffect
add_fill s o p receipt = do
  quantity ← or_abort (abs_i64 receipt.filled_qty)
  margin ← or_abort (trade_margin quantity o.leverage)
  grown ← or_abort (add_to_position p receipt.vwap_px receipt.filled_qty (pos 0) o.timestamp margin)
  moved ← transfer_collateral_margin s margin
  ok (record { accounts = moved; position = grown; pnl = pos 0 })

-- An account that is closed here has no lamports and ends with the transaction, which leaves it `unfunded`.
unfoldable pub reduce_fill :
    Accounts → Order → PositionDetails → FillReceipt → ℤ → Outcome PercolatorError FillEffect
reduce_fill s o p receipt oracle_px = do
  reduced ← or_abort (reduce_position p oracle_px receipt.filled_qty (pos 0) o.timestamp)
  returned ← return_margin_to_user s reduced.3
  ok (record {
    accounts = record returned {
      position =
          if reduced.2 ==ℤ pos 0 then PositionAccount.unfunded else PositionAccount.holds reduced.0;
    };
    position = reduced.0;
    pnl = reduced.1;
  })

-- The fill beyond the exposure closes the position and opens one on the other side, in the account that
-- the first step has just closed.
unfoldable pub reverse_fill :
    Accounts
    → Order
    → PositionDetails
    → FillReceipt
    → ℤ
    → ℕ
    → ℤ
    → ℕ
    → Bool
    → Outcome PercolatorError FillEffect
reverse_fill s o p receipt oracle_px slab_idx exposure remaining is_buy = do
  closed ← or_abort (reduce_position p oracle_px (neg_ℤ exposure) (pos 0) o.timestamp)
  returned ← return_margin_to_user s closed.3
  create_position returned o slab_idx Vacancy.just_closed
  let new_qty = if is_buy then pos remaining else neg_ℤ (pos remaining)
  margin ← or_abort (trade_margin remaining o.leverage)
  let opened = new_position s.user_key slab_idx 0 receipt.vwap_px new_qty o.timestamp 0 o.leverage
  updated ← or_abort (add_to_position opened receipt.vwap_px new_qty (pos 0) o.timestamp margin)
  moved ← transfer_collateral_margin returned margin
  ok (record {
    accounts = record moved { position = PositionAccount.holds updated };
    position = updated;
    pnl = closed.1;
  })

-- Which of the three the fill is.
unfoldable pub apply_fill :
    Accounts
    → Order
    → Leg
    → FillReceipt
    → ℤ
    → ℕ
    → ℤ
    → PositionDetails
    → Outcome PercolatorError FillEffect
apply_fill s o leg receipt oracle_px slab_idx exposure p =
    let is_buy = leg.split.side == 0 in
    if (is_buy && leb_ℤ (pos 0) exposure)
      || (not is_buy && leb_ℤ exposure (pos 0))
      || exposure ==ℤ pos 0
    then add_fill s o p receipt
    else do
      current_abs ← or_abort (abs_i64 exposure)
      filled_abs ← or_abort (abs_i64 receipt.filled_qty)
      if leb filled_abs current_abs
          then reduce_fill s o p receipt oracle_px
          else reverse_fill s o p receipt oracle_px slab_idx exposure (filled_abs - current_abs)
              is_buy

-- What the position's account holds at the end of the round: a position at hand that is closed is
-- not written.
unfoldable pub saved : PositionAccount → PositionDetails → ℤ → PositionAccount
saved account p new_exposure =
    if new_exposure ==ℤ pos 0 || p.total_qty ==ℤ pos 0 then account else PositionAccount.holds p

-- Phase 3 for a receipt: the accounts and the realised PnL.
unfoldable pub settle_fill :
    Accounts → Order → Leg → ℤ → FillReceipt → Outcome PercolatorError (Accounts × ℤ)
settle_fill s o leg oracle_px receipt = do
  reject_if (not (is_used receipt)) PercolatorError.invalid_receipt
  registered ← ok_or (slab_index s.registry leg) PercolatorError.invalid_account
  let exposure = get_exposure s.user registered.1 0
  p ← load_or_create s.position s o registered.1 receipt.vwap_px
  effect ←
      apply_fill (record s { registry = registered.0; position = created s.position }) o leg receipt
        oracle_px registered.1 exposure p
  new_exposure ← or_abort (fit_i64 (exposure +ℤ receipt.filled_qty))
  let t = effect.accounts
  ok (
    record t {
      user = update_exposure t.user registered.1 0 new_exposure;
      position = saved t.position effect.position new_exposure;
    },
    add_i128 (pos 0) effect.pnl,
  )

-- Phase 3.5, for one split.
unfoldable pub accrue_insurance : Accounts → SlabSplit → Outcome PercolatorError Accounts
accrue_insurance s split = do
  quantity ← or_abort (abs_i64 split.qty)
  price ← or_abort (abs_i64 split.limit_px)
  let total_notional = add_u128 0 (quantity * price / 1_000_000)
  let r = s.registry
  ok (
      if ltb 0 total_notional
      then record s {
        registry = record r {
          insurance_state =
              (accrue_from_fill r.insurance_state total_notional r.insurance_params).0;
        };
      }
      else s)

unfoldable pub margin_in : PositionAccount → ℕ
margin_in (PositionAccount.holds p) = p.margin_held
margin_in PositionAccount.blank = 0
margin_in PositionAccount.unfunded = 0

unfoldable pub margin_at : Accounts → Exposure → ℕ
margin_at s e =
    if e.qty ==ℤ pos 0
    then 0
    else if same_address s.position_at (record {
      portfolio = s.user_key;
      slab_index = e.slab_idx;
      instrument_index = e.instrument_idx;
    })
    then margin_in s.position
    else 0

unfoldable pub calculate_portfolio_margin_from_exposures : Accounts → ℕ
calculate_portfolio_margin_from_exposures s =
    foldl (λ total e. add_u128 total (margin_at s e)) 0 s.user.exposures

-- Phases 4 and 5.
unfoldable pub check_margin : Accounts → Outcome PercolatorError Accounts
check_margin s = do
  let im_required = calculate_portfolio_margin_from_exposures s
  let user = update_margin s.user im_required (im_required / 2)
  reject_if (not (has_sufficient_margin user)) PercolatorError.portfolio_insufficient_margin
  ok (record s { user = user })

module _ (venue : ℕ → ℕ → ℤ → ℤ → Outcome PercolatorError FillReceipt) where
  -- `venue` is what the fill of a slab, a side, a quantity and a price leaves in the receipt's account.
  unfoldable pub process_execute_cross_slab : Accounts → Order → Outcome PercolatorError Accounts
  process_execute_cross_slab s o = do
    reject_if (not (s.user.user == o.user_account)) PercolatorError.invalid_portfolio
    touched ← touch s o.current_slot
    check_counts o
    leg ← ok_or (first_leg o.slabs o.oracles o.splits) PercolatorError.invalid_instruction
    oracle_px ← ok_or leg.oracle.price PercolatorError.invalid_oracle
    let execution_price = if o.order_type == 0 then oracle_px else leg.split.limit_px
    receipt ← venue leg.slab_id leg.split.side leg.split.qty execution_price
    filled ← settle_fill touched o leg oracle_px receipt
    settled ← settle_pnl filled.0 filled.1
    accrued ← accrue_insurance settled leg.split
    check_margin accrued
