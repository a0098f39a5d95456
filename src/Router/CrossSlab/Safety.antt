-- ===== src/Router/CrossSlab/Safety.antt =====
-- What a trade of programs/router/src/instructions/execute_cross_slab.rs leaves of lamports, margins and
-- exposures.
use barista_dex_perc.Prelude.{
  ℕ, ◌/◌, ◌<◌, ◌≡◌, ap, sym, subst, ◌∙◌, some, inl, ◌==◌, if◌then◌else◌, arith, length,
}
use barista_dex_perc.Prelude.Int.{ℤ, ◌≤ℤ◌, ◌+ℤ◌}
use barista_dex_perc.Prelude.Outcome.{Outcome, ok}
use barista_dex_perc.Matcher.{PercolatorError, FillReceipt}
use barista_dex_perc.Router.Portfolio.{
  max_exposures, exposure_in, get_exposure, updated, update_exposure, as_i128,
}
use barista_dex_perc.Router.Portfolio.Exposures.{IsMap, same_key}
use barista_dex_perc.Router.Portfolio.Lookup.{get_exposure-update}
use barista_dex_perc.Router.Registry.{SlabRegistry}
use barista_dex_perc.Router.Funds.{Accounts}
use barista_dex_perc.Router.Funds.Conserve.{all_lamports}
use barista_dex_perc.Router.Order.{Order, Leg, first_leg, with_pnl, touch, slab_index}
use barista_dex_perc.Router.CrossSlab.{process_execute_cross_slab}
use barista_dex_perc.Router.CrossSlab.Held.{IsHeld, calculate-IsHeld}
use barista_dex_perc.Router.CrossSlab.Trade.{Keeps-margin, execute-Traded}

pub touch-registry :
    (s : Accounts) (slot : ℕ) (t : Accounts) → touch s slot ≡ ok t → t.registry ≡ s.registry
unfolding touch with_pnl
touch-registry s slot t h = ground arith

-- What a trade that is let through leaves.
pub record Safe (s : Accounts) (o : Order) (t : Accounts) : Type 0 where
  pub owner : s.user.user ≡ o.user_account
  pub lamports : all_lamports t ≡ all_lamports s
  pub im : IsHeld t t.user.im
  pub mm : t.user.mm ≡ t.user.im / 2
  pub covered : as_i128 t.user.im ≤ℤ t.user.equity

-- Whatever a venue answers, a trade that is let through is on a portfolio of the account that asks
-- for it, neither makes nor destroys lamports of the user and the provider, and leaves a portfolio
-- whose initial margin is what the one position account of the order holds, once for every exposure at
-- its key that is not zero and cut to a u128, or zero if the account is another portfolio's, whose
-- maintenance margin is half of it, and whose equity is at least the initial margin, read as an i128.
pub execute-Safe :
    (venue : ℕ → ℕ → ℤ → ℤ → Outcome PercolatorError FillReceipt) (s : Accounts) (o : Order)
    (t : Accounts)
    → process_execute_cross_slab venue s o ≡ ok t
    → Safe s o t
execute-Safe venue s o t h =
    let d = execute-Traded venue s o t h in
    record {
      owner = d.owner;
      lamports =
          d.covered.keeps.lamports ∙ d.books.lamports ∙ d.moves.lamports ∙ d.round.lamports
          ∙ d.kept.lamports;
      im =
          subst (IsHeld t) (sym (d.covered.im ∙ Keeps-margin d.accrued t d.covered.keeps))
            (calculate-IsHeld t);
      mm = d.covered.mm;
      covered = d.covered.sufficient;
    }

-- What a trade that is let through does to the exposure of a key.
pub record Filled (venue : ℕ → ℕ → ℤ → ℤ → Outcome PercolatorError FillReceipt) (s : Accounts)
    (o : Order) (t : Accounts) (i j : ℕ) : Type 0 where
  pub leg : Leg
  pub found : first_leg o.slabs o.oracles o.splits ≡ some leg
  pub px : ℤ
  pub price : leg.oracle.price ≡ some px
  pub receipt : FillReceipt
  pub filled_by :
      venue leg.slab_id leg.split.side leg.split.qty
        (if o.order_type == 0 then px else leg.split.limit_px)
      ≡ ok receipt
  pub registry : SlabRegistry
  pub index : ℕ
  pub listed : slab_index s.registry leg ≡ some (registry, index)
  pub exposure : get_exposure t.user i j ≡ (
      if same_key index 0 i j
      then get_exposure s.user index 0 +ℤ receipt.filled_qty
      else get_exposure s.user i j)
  pub distinct : IsMap t.user.exposures

-- A trade that is let through, on a portfolio in which no key stands twice and that has room, changes
-- the exposure at the index of the order's slab by the quantity that the venue filled, at the price
-- of the oracle for a market order and at the limit for a limit order, and no other exposure.
pub execute-Filled :
    (venue : ℕ → ℕ → ℤ → ℤ → Outcome PercolatorError FillReceipt) (s : Accounts) (o : Order)
    (t : Accounts) (i j : ℕ)
    → IsMap s.user.exposures
    → length s.user.exposures < max_exposures
    → process_execute_cross_slab venue s o ≡ ok t
    → Filled venue s o t i j
unfolding get_exposure update_exposure
execute-Filled venue s o t i j m room h =
    let d = execute-Traded venue s o t h in
    let r = d.round in
    let same : (t.user.exposures)
        ≡ updated s.user.exposures r.index 0
            (get_exposure s.user r.index 0 +ℤ d.receipt.filled_qty) =
      d.covered.keeps.exposures
      ∙ d.books.exposures
      ∙ d.moves.exposures
      ∙ r.exposures
      ∙ ap (λ es. updated es r.index 0 (exposure_in es r.index 0 +ℤ d.receipt.filled_qty))
          d.kept.exposures in
    let q = get_exposure s.user r.index 0 +ℤ d.receipt.filled_qty in
    let (new, map) = get_exposure-update s.user r.index 0 q i j m (inl room) in
    record {
      leg = d.leg;
      found = d.found;
      px = d.px;
      price = d.price;
      receipt = d.receipt;
      filled_by = d.filled_by;
      registry = r.registry;
      index = r.index;
      listed =
          subst (λ z. slab_index z d.leg ≡ some (r.registry, r.index))
            (touch-registry s o.current_slot d.touched d.caught_up) r.found;
      exposure = ap (λ es. exposure_in es i j) same ∙ new;
      distinct = rw same map;
    }
