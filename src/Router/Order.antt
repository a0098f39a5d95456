-- ===== src/Router/Order.antt =====
-- What a trade of programs/router/src/instructions/execute_cross_slab.rs is asked for, and the steps before
-- its fill is applied. Addresses that are derived from seeds are told apart by these.
use barista_dex_perc.Prelude.{
  ℕ, ◌*◌, ◌/◌, Bool, not, ◌&&◌, ◌||◌, Option, none, some, List, ◌∷◌, ltb, ◌==◌, if◌then◌else◌,
  length, true,
}
use barista_dex_perc.Prelude.Int.{ℤ, pos}
use barista_dex_perc.Prelude.Outcome.{Outcome, ok, err, ◌>>=◌, ◌>>◌, reject_if, or_abort}
use barista_dex_perc.Math.{u128_max}
use barista_dex_perc.Matcher.{PercolatorError}
use barista_dex_perc.Router.PnlVesting.{PnlState, on_user_touch}
use barista_dex_perc.Router.Registry.{SlabEntry, SlabRegistry, find_slab, register_slab}
use barista_dex_perc.Router.Position.{PositionDetails, new_position}
use barista_dex_perc.Router.Funds.{PositionAddress, PositionAccount, Accounts}

pub record SlabSplit : Type 0 where
  pub slab_id : ℕ
  pub qty : ℤ
  pub side : ℕ
  pub limit_px : ℤ

-- An oracle's account, with the price that its adapter reads.
pub record OracleAccount : Type 0 where
  pub oracle_id : ℕ
  pub price : Option ℤ

-- How an account stands that the system program is asked to create: it is no program's and has no data,
-- or the router has just closed it, so that it is still the router's and has its data, set to zero.
pub data Vacancy : Type 0 where
  no_owner just_closed : Vacancy

-- The arguments of the instruction. Of receipts and positions it says how many accounts are passed.
pub record Order : Type 0 where
  pub user_account : ℕ
  pub authority_ok : Bool
  pub can_create : Vacancy → Bool
  pub current_slot : ℕ
  pub timestamp : ℤ
  pub slabs : List ℕ
  pub receipts : ℕ
  pub oracles : List OracleAccount
  pub positions : ℕ
  pub splits : List SlabSplit
  pub order_type : ℕ
  pub leverage : ℕ

-- One round of the loops, of which there is one: the first slab with its oracle and split.
pub record Leg : Type 0 where
  pub slab_id : ℕ
  pub oracle : OracleAccount
  pub split : SlabSplit

unfoldable pub first_leg : List ℕ → List OracleAccount → List SlabSplit → Option Leg
first_leg (slab ∷ _) (oracle ∷ _) (split ∷ _) =
    some (record { slab_id = slab; oracle = oracle; split = split })
first_leg _ _ _ = none

-- The catch-up of the user's PnL.
unfoldable pub with_pnl : Accounts → PnlState → Accounts
with_pnl s t = record s {
  user = record s.user {
    pnl = t.pnl;
    vested_pnl = t.vested_pnl;
    last_slot = t.last_slot;
    pnl_index_checkpoint = t.pnl_index_checkpoint;
  };
}

unfoldable pub touch : Accounts → ℕ → Outcome PercolatorError Accounts
touch s slot = do
  touched ← or_abort (
      on_user_touch
        (record {
          pnl = s.user.pnl;
          vested_pnl = s.user.vested_pnl;
          last_slot = s.user.last_slot;
          pnl_index_checkpoint = s.user.pnl_index_checkpoint;
        })
        s.registry.global_haircut s.registry.pnl_vesting_params slot)
  ok (with_pnl s touched)

unfoldable pub check_counts : Order → Outcome PercolatorError (Unit {0})
check_counts o = do
  reject_if (not (length o.slabs == 1)) PercolatorError.invalid_instruction
  reject_if
      (not (length o.slabs == o.receipts)
        || not (length o.slabs == length o.oracles)
        || not (length o.slabs == o.positions)
        || not (length o.slabs == length o.splits))
      PercolatorError.invalid_instruction
  reject_if (ltb 1 o.order_type) PercolatorError.invalid_order_type
  reject_if (not o.authority_ok) PercolatorError.invalid_account
  ok tt

-- The entry of a slab that registers itself.
abbrev pub auto_entry : ℕ → ℕ → SlabEntry
auto_entry slab_id oracle_id = record {
  slab_id = slab_id;
  version_hash = 0;
  oracle_id = oracle_id;
  imr = 1000;
  mmr = 500;
  maker_fee_cap = 10;
  taker_fee_cap = 10;
  latency_sla_ms = 1000;
  max_exposure = u128_max;
  registered_ts = 0;
  active = true;
}

unfoldable pub slab_index : SlabRegistry → Leg → Option (SlabRegistry × ℕ)
slab_index r leg = elim (find_slab r leg.slab_id) [
  | some at ↦ some (r, at.0)
  | none ↦ register_slab r (auto_entry leg.slab_id leg.oracle.oracle_id)
]

unfoldable pub same_address : PositionAddress → PositionAddress → Bool
same_address a b =
    a.portfolio == b.portfolio
    && a.slab_index == b.slab_index
    && a.instrument_index == b.instrument_index

unfoldable pub address_of : Accounts → ℕ → PositionAddress
address_of s slab_idx = record {
  portfolio = s.user_key;
  slab_index = slab_idx;
  instrument_index = 0;
}

-- The address check and the creation that precede a new position.
unfoldable pub create_position : Accounts → Order → ℕ → Vacancy → Outcome PercolatorError (Unit {0})
create_position s o slab_idx vacancy = do
  reject_if (not (same_address s.position_at (address_of s slab_idx)))
      PercolatorError.invalid_account
  reject_if (not (o.can_create vacancy)) PercolatorError.invalid_account
  ok tt

-- The position that is loaded, or a new one without quantity and margin.
unfoldable pub load_or_create :
    PositionAccount → Accounts → Order → ℕ → ℤ → Outcome PercolatorError PositionDetails
load_or_create (PositionAccount.holds p) s o slab_idx vwap_px = ok p
load_or_create PositionAccount.blank s o slab_idx vwap_px = err PercolatorError.invalid_account
load_or_create PositionAccount.unfunded s o slab_idx vwap_px = do
  create_position s o slab_idx Vacancy.no_owner
  ok (new_position s.user_key slab_idx 0 vwap_px (pos 0) o.timestamp 0 o.leverage)

-- The account that a position at hand has been loaded from or created in.
unfoldable pub created : PositionAccount → PositionAccount
created (PositionAccount.holds p) = PositionAccount.holds p
created PositionAccount.blank = PositionAccount.blank
created PositionAccount.unfunded = PositionAccount.blank

-- The margin for a quantity; a leverage of zero panics.
unfoldable pub trade_margin : ℕ → ℕ → Option ℕ
trade_margin quantity leverage =
    if leverage == 1
    then some (quantity * 1_000)
    else if leverage == 0
    then none
    else some (quantity * 10_000 / leverage)
