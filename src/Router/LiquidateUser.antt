-- ===== src/Router/LiquidateUser.antt =====
-- programs/router/src/instructions/liquidate_user.rs. Every account can be borrowed. Of an oracle's and of a
-- slab's account the code reads a price, unless it is too small. What is compiled for hosts only logs.
pub mod Stops
mod Tests
use barista_dex_perc.Prelude.{
  ℕ, suc, ◌+◌, ◌-◌, ◌*◌, ◌/◌, ◌^◌, Bool, true, false, not, ◌&&◌, Option, none, some, List, [], ◌∷◌,
  ltb, leb, ◌==◌, if◌then◌else◌, length, foldl, take, map,
}
use barista_dex_perc.Prelude.Int.{ℤ, pos, pos_part, neg_part, ltb_ℤ, leb_ℤ, ◌*ℤ◌, ◌/ℤ◌}
use barista_dex_perc.Prelude.Outcome.{Outcome, ok, err, ◌>>=◌, ◌>>◌, reject_if, ok_or, or_abort}
use barista_dex_perc.Math.{i128_max, fit_i128, add_u128, sub_u128, add_i128, sub_i128, max_i128}
use barista_dex_perc.Matcher.{PercolatorError, FillReceipt}
use barista_dex_perc.Router.Portfolio.{Portfolio, as_i128}
use barista_dex_perc.Router.Insurance.{settle_bad_debt}
use barista_dex_perc.Router.Vault.{Vault}
use barista_dex_perc.Router.Registry.{SlabRegistry}
use barista_dex_perc.Router.Position.{abs_i64}
use barista_dex_perc.Router.Funds.{Accounts}
use barista_dex_perc.Router.Order.{Vacancy, SlabSplit, OracleAccount, Order}
use barista_dex_perc.Router.CrossSlab.{process_execute_cross_slab}
use barista_dex_perc.Router.Liquidation.Planner.{
  LiquidationPlan, OraclePrice, SlabInfo, plan_reduce_only,
}

pub data LiquidationMode : Type 0 where
  pre_liquidation hard_liquidation : LiquidationMode

abbrev pub is_pre : LiquidationMode → Bool
is_pre LiquidationMode.pre_liquidation = true
is_pre LiquidationMode.hard_liquidation = false

unfoldable pub get_band_bps : LiquidationMode → SlabRegistry → ℕ
get_band_bps LiquidationMode.pre_liquidation r = r.preliq_band_bps
get_band_bps LiquidationMode.hard_liquidation r = r.liq_band_bps

unfoldable pub determine_mode : ℤ → ℤ → Option LiquidationMode
determine_mode health preliq_buffer =
    if ltb_ℤ health (pos 0)
    then some LiquidationMode.hard_liquidation
    else if leb_ℤ (pos 0) health && ltb_ℤ health preliq_buffer
    then some LiquidationMode.pre_liquidation
    else none

-- An oracle's account as the trade sees it, and the price that it holds if it has 128 bytes.
pub record OracleData : Type 0 where
  pub account : OracleAccount
  pub price : Option ℤ

-- A slab's account, and the mark price that it holds if it has 96 bytes.
pub record SlabData : Type 0 where
  pub slab_key : ℕ
  pub mark_price : Option ℤ

-- The arguments of the instruction and what the trade that it makes reads elsewhere.
pub record Request : Type 0 where
  pub oracles : List OracleData
  pub slabs : List SlabData
  pub receipts : ℕ
  pub is_preliq : Bool
  pub current_ts : ℕ
  pub authority_ok : Bool
  pub can_create : Vacancy → Bool
  pub current_slot : ℕ
  pub timestamp : ℤ

abbrev pub max_oracles : ℕ
max_oracles = 16

abbrev pub max_slabs_for_liq : ℕ
max_slabs_for_liq = 8

-- The prices from an index on; an account that is too small keeps its index.
unfoldable pub read_oracles : ℕ → List OracleData → List OraclePrice
read_oracles i [] = []
read_oracles i (o ∷ os) =
    let rest = read_oracles (suc i) os in
    if leb max_oracles i then [] else elim o.price [
      | none ↦ rest
      | some price ↦ record { instrument_idx = i; price = price } ∷ rest
    ]

unfoldable pub read_slabs : ℕ → List SlabData → List SlabInfo
read_slabs i [] = []
read_slabs i (s ∷ ss) =
    let rest = read_slabs (suc i) ss in
    if leb max_slabs_for_liq i then [] else elim s.mark_price [
      | none ↦ rest
      | some mark ↦
          record { slab_id = s.slab_key; slab_idx = i; instrument_idx = i; mark_price = mark }
          ∷ rest
    ]

unfoldable pub health_of : Portfolio → ℤ
health_of p = sub_i128 p.equity (as_i128 p.mm)

-- Step 2.
unfoldable pub choose_mode : SlabRegistry → Bool → ℤ → Outcome PercolatorError LiquidationMode
choose_mode r is_preliq health =
    if is_preliq
    then (if leb_ℤ r.preliq_buffer health
        then err PercolatorError.portfolio_healthy
        else ok LiquidationMode.pre_liquidation)
    else ok_or (determine_mode health r.preliq_buffer) PercolatorError.portfolio_healthy

-- Step 3.
unfoldable pub check_cooldown : Portfolio → LiquidationMode → ℕ → Outcome PercolatorError (Unit {0})
check_cooldown p mode current_ts =
    reject_if (is_pre mode && ltb (sub_u128 current_ts p.last_liquidation_ts) p.cooldown_seconds)
      PercolatorError.liquidation_cooldown

-- `&xs[..n]`
unfoldable pub slice : {A : Type 0} → List A → ℕ → Option (List A)
slice xs n = if leb n (length xs) then some (take n xs) else none

-- The order that step 6 passes on, with no position accounts and the portfolio's account as the user's.
unfoldable pub liquidation_order : Accounts → Request → LiquidationPlan → Option Order
liquidation_order s q plan =
    let n = length plan.splits in
    if leb n q.receipts
    then elim (slice q.slabs n) [
      | none ↦ none
      | some slabs ↦ elim (slice q.oracles n) [
        | none ↦ none
        | some oracles ↦ some (record {
          user_account = s.user_key;
          authority_ok = q.authority_ok;
          can_create = q.can_create;
          current_slot = q.current_slot;
          timestamp = q.timestamp;
          slabs = map (λ (d : SlabData). d.slab_key) slabs;
          receipts = n;
          oracles = map (λ (d : OracleData). d.account) oracles;
          positions = 0;
          splits = plan.splits;
          order_type = 1;
          leverage = 10;
        })
      ]
    ]
    else none

-- The notional of the fills, saturating.
unfoldable pub event_notional : ℕ → List SlabSplit → Outcome PercolatorError ℕ
event_notional total [] = ok total
event_notional total (split ∷ splits) = do
  quantity ← or_abort (abs_i64 split.qty)
  price ← or_abort (abs_i64 split.limit_px)
  event_notional (add_u128 total (quantity * price / 1_000_000)) splits

-- The index after a loss that the fund does not cover.
unfoldable pub haircut_index : ℤ → ℤ → ℕ → Outcome PercolatorError ℤ
haircut_index pnl_index tvl uncovered = if leb_ℤ tvl (pos 0) then ok pnl_index else do
  let left = max_i128 (sub_i128 tvl (as_i128 uncovered)) (pos 1)
  scaled ← or_abort (fit_i128 (pnl_index *ℤ left))
  ok (scaled /ℤ tvl)

-- Step 7.5.
unfoldable pub cover_bad_debt :
    Accounts → Vault → LiquidationPlan → ℕ → Outcome PercolatorError Accounts
cover_bad_debt s vault plan current_ts = if leb_ℤ (pos 0) s.user.equity then ok s else do
  bad_debt ←
      or_abort
        (if leb (neg_part s.user.equity) i128_max then some (neg_part s.user.equity) else none)
  notional ← event_notional 0 plan.splits
  let r = s.registry
  let settled = settle_bad_debt r.insurance_state bad_debt notional r.insurance_params current_ts
  let payout = settled.1
  let uncovered = settled.2
  index ←
      (if ltb 0 uncovered
        then haircut_index r.global_haircut.pnl_index (as_i128 vault.balance) uncovered
        else ok r.global_haircut.pnl_index)
  ok (record s {
    user = record s.user {
      equity = if ltb 0 payout then add_i128 s.user.equity (as_i128 payout) else s.user.equity;
    };
    registry = record r {
      insurance_state = settled.0;
      global_haircut = record r.global_haircut { pnl_index = index };
    };
  })

module _ (venue : ℕ → ℕ → ℤ → ℤ → Outcome PercolatorError FillReceipt) where
  unfoldable pub process_liquidate_user :
      Accounts → Vault → Request → Outcome PercolatorError Accounts
  process_liquidate_user s vault q = do
    let health = health_of s.user
    let seen = record s { user = record s.user { health = health } }
    mode ← choose_mode s.registry q.is_preliq health
    check_cooldown s.user mode q.current_ts
    plan ←
        plan_reduce_only seen.user s.registry (read_oracles 0 q.oracles) (read_slabs 0 q.slabs)
          (is_pre mode)
    if length plan.splits == 0 then ok seen else do
      order ← or_abort (liquidation_order seen q plan)
      traded ← process_execute_cross_slab venue seen order
      let user = record traded.user {
        health = health_of traded.user;
        last_liquidation_ts = q.current_ts;
      }
      cover_bad_debt (record traded { user = user }) vault plan q.current_ts
