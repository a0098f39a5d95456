-- ===== src/Router/CrossSlab/Trade.antt =====
-- A trade that process_execute_cross_slab of programs/router/src/instructions/execute_cross_slab.rs lets through.
use barista_dex_perc.Prelude.{
  ℕ, ◌/◌, ◌≡◌, refl, sym, ◌∙◌, not, List, some, ◌==◌, if◌then◌else◌, arith, foldl,
}
use barista_dex_perc.Prelude.Int.{ℤ, pos, ◌==ℤ◌, ◌≤ℤ◌}
use barista_dex_perc.Prelude.Outcome.{
  Outcome, ok, ok_or, reject_if, >>=-eq-ok, >>-eq-ok, ok_or-eq-ok, reject_if-eq-ok,
}
use barista_dex_perc.Math.{add_u128}
use barista_dex_perc.Matcher.{PercolatorError, FillReceipt}
use barista_dex_perc.Router.Portfolio.{Exposure, as_i128, update_margin, has_sufficient_margin}
use barista_dex_perc.Router.Position.{abs_i64}
use barista_dex_perc.Router.Funds.{PositionAddress, PositionAccount, Accounts, settle_pnl}
use barista_dex_perc.Router.Funds.Conserve.{all_lamports, Moves, settle_pnl-Moves}
use barista_dex_perc.Router.Order.{
  same_address, SlabSplit, Order, Leg, first_leg, with_pnl, touch, check_counts,
}
use barista_dex_perc.Router.CrossSlab.{
  margin_in, margin_at, settle_fill, accrue_insurance, calculate_portfolio_margin_from_exposures,
  check_margin, process_execute_cross_slab,
}
use barista_dex_perc.Router.CrossSlab.Fill.{Round, settle_fill-Round}

-- Only the user's PnL, the books of the registry and the margins change.
pub record Keeps (s t : Accounts) : Type 0 where
  pub lamports : all_lamports t ≡ all_lamports s
  pub exposures : t.user.exposures ≡ s.user.exposures
  pub key : t.user_key ≡ s.user_key
  pub address : t.position_at ≡ s.position_at
  pub position : t.position ≡ s.position

touch-Keeps : (s : Accounts) (slot : ℕ) (t : Accounts) → touch s slot ≡ ok t → Keeps s t
unfolding touch with_pnl
touch-Keeps s slot t h = ground arith

accrue-Keeps :
    (s : Accounts) (split : SlabSplit) (t : Accounts) → accrue_insurance s split ≡ ok t → Keeps s t
unfolding accrue_insurance abs_i64
accrue-Keeps s split t h = ground arith

-- A portfolio whose margin is what its positions hold, and is covered.
pub record Covered (s t : Accounts) : Type 0 where
  pub keeps : Keeps s t
  pub im : t.user.im ≡ calculate_portfolio_margin_from_exposures s
  pub mm : t.user.mm ≡ t.user.im / 2
  pub sufficient : as_i128 t.user.im ≤ℤ t.user.equity

check_margin-Covered : (s t : Accounts) → check_margin s ≡ ok t → Covered s t
unfolding check_margin update_margin has_sufficient_margin
check_margin-Covered s t h = ground arith

-- The margin is read off the exposures and the position's account.
margin_of : List Exposure → ℕ → PositionAddress → PositionAccount → ℕ
margin_of es key address position =
    foldl
      (λ total e. add_u128 total (
        if e.qty ==ℤ pos 0
        then 0
        else if same_address address (record {
          portfolio = key;
          slab_index = e.slab_idx;
          instrument_index = e.instrument_idx;
        })
        then margin_in position
        else 0))
      0 es

calculate-margin_of :
    (s : Accounts)
    → calculate_portfolio_margin_from_exposures s
      ≡ margin_of s.user.exposures s.user_key s.position_at s.position
unfolding calculate_portfolio_margin_from_exposures margin_at margin_of
calculate-margin_of s = refl

pub Keeps-margin :
    (s t : Accounts)
    → Keeps s t
    → calculate_portfolio_margin_from_exposures s ≡ calculate_portfolio_margin_from_exposures t
Keeps-margin s t k =
    calculate-margin_of s
    ∙ cc (k.exposures, k.key, k.address, k.position)
    ∙ sym (calculate-margin_of t)

module _ (venue : ℕ → ℕ → ℤ → ℤ → Outcome PercolatorError FillReceipt) (s : Accounts)
    (o : Order) where
  -- What a trade went through.
  pub record Traded (t : Accounts) : Type 0 where
    pub owner : s.user.user ≡ o.user_account
    pub touched : Accounts
    pub caught_up : touch s o.current_slot ≡ ok touched
    pub kept : Keeps s touched
    pub leg : Leg
    pub found : first_leg o.slabs o.oracles o.splits ≡ some leg
    pub px : ℤ
    pub price : leg.oracle.price ≡ some px
    pub receipt : FillReceipt
    pub filled_by :
        venue leg.slab_id leg.split.side leg.split.qty
          (if o.order_type == 0 then px else leg.split.limit_px)
        ≡ ok receipt
    pub filled : Accounts
    pub pnl : ℤ
    pub round : Round touched o leg px receipt filled pnl
    pub settled : Accounts
    pub moves : Moves filled settled
    pub accrued : Accounts
    pub books : Keeps settled accrued
    pub covered : Covered accrued t

  pub execute-Traded : (t : Accounts) → process_execute_cross_slab venue s o ≡ ok t → Traded t
  unfolding process_execute_cross_slab
  execute-Traded t h =
      let (a, h1) = >>-eq-ok (reject_if (not (s.user.user == o.user_account)) _) _ h in
      let (u, eu, h2) = >>=-eq-ok (touch s o.current_slot) _ h1 in
      let (c, h3) = >>-eq-ok (check_counts o) _ h2 in
      let (l, el, h4) = >>=-eq-ok (ok_or (first_leg o.slabs o.oracles o.splits) _) _ h3 in
      let (px, ex, h5) = >>=-eq-ok (ok_or l.oracle.price _) _ h4 in
      let (r, er, h6) =
        >>=-eq-ok
          (venue l.slab_id l.split.side l.split.qty
            (if o.order_type == 0 then px else l.split.limit_px))
          _ h5 in
      let (f, ef, h7) = >>=-eq-ok (settle_fill u o l px r) _ h6 in
      let (d, ed, h8) = >>=-eq-ok (settle_pnl f.0 f.1) _ h7 in
      let (b, eb, h9) = >>=-eq-ok (accrue_insurance d l.split) _ h8 in
      let owns = reject_if-eq-ok _ _ a in
      record {
        owner = ground arith;
        touched = u;
        caught_up = eu;
        kept = touch-Keeps s o.current_slot u eu;
        leg = l;
        found = ok_or-eq-ok _ _ el;
        px = px;
        price = ok_or-eq-ok _ _ ex;
        receipt = r;
        filled_by = er;
        filled = f.0;
        pnl = f.1;
        round = settle_fill-Round u o l px r f.0 f.1 ef;
        settled = d;
        moves = settle_pnl-Moves f.0 f.1 d ed;
        accrued = b;
        books = accrue-Keeps d l.split b eb;
        covered = check_margin-Covered b t h9;
      }
