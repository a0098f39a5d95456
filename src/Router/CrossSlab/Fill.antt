-- ===== src/Router/CrossSlab/Fill.antt =====
-- The round of a fill in programs/router/src/instructions/execute_cross_slab.rs: the case it falls into, and
-- what it leaves of lamports, exposures and position.
use barista_dex_perc.Prelude.{
  ℕ, ◌-◌, ◌≤◌, ◌<◌, ◌≡◌, ◌⊎◌, refl, subst, ap, ◌∙◌, Bool, true, false, not, ◌&&◌, ◌||◌, some, inl,
  inr, leb, ◌==◌, arith, Bool-cases,
}
use barista_dex_perc.Prelude.Int.{ℤ, pos, pos_part, neg_part, leb_ℤ, ◌==ℤ◌, ◌+ℤ◌}
use barista_dex_perc.Prelude.Outcome.{
  ok, ok_or, or_abort, reject_if, >>=-eq-ok, >>-eq-ok, or_abort-eq-ok, ok_or-eq-ok, ok_injective,
}
use barista_dex_perc.Math.{fit_i64, add_i128}
use barista_dex_perc.Matcher.{FillReceipt, is_used}
use barista_dex_perc.Router.Portfolio.{get_exposure, updated, update_exposure}
use barista_dex_perc.Router.Registry.{SlabRegistry}
use barista_dex_perc.Router.Position.{PositionDetails, abs_i64}
use barista_dex_perc.Router.Position.Margin.{size}
use barista_dex_perc.Router.Funds.{Accounts}
use barista_dex_perc.Router.Funds.Conserve.{all_lamports}
use barista_dex_perc.Router.Order.{Order, Leg, slab_index, load_or_create, created}
use barista_dex_perc.Router.CrossSlab.{FillEffect, apply_fill, saved, settle_fill}
use barista_dex_perc.Router.CrossSlab.Settle.{
  Shifts, Adds, add_fill-Adds, Cuts, reduce_fill-Cuts, Turns, reverse_fill-Turns,
}

-- A side that is against an exposure.
abbrev pub Against : Bool → ℤ → Type 0
Against is_buy x = ((is_buy ≡ true) × (1 ≤ neg_part x)) ⊎ ((is_buy ≡ false) × (1 ≤ pos_part x))

-- A side that goes with an exposure.
abbrev pub Along : Bool → ℤ → Type 0
Along is_buy x = ((is_buy ≡ true) × (neg_part x ≡ 0)) ⊎ ((is_buy ≡ false) × (pos_part x ≡ 0))

module _ (s : Accounts) (o : Order) (leg : Leg) (receipt : FillReceipt) (px : ℤ) (idx : ℕ) (x : ℤ)
    (p : PositionDetails) where
  abbrev pub buys : Bool
  buys = leg.split.side == 0

  abbrev pub beyond : ℕ
  beyond = size receipt.filled_qty - size x

  -- The case that a fill falls into.
  unfoldable pub Falls : FillEffect → Type 0
  Falls e =
      (Along buys x × Adds s o p receipt e)
      ⊎ (Against buys x × (size receipt.filled_qty ≤ size x) × Cuts s o p receipt px e)
      ⊎ (Against buys x
          × (size x < size receipt.filled_qty)
          × Turns s o p receipt px idx x beyond buys e)

  apply_fill-Falls : (e : FillEffect) → apply_fill s o leg receipt px idx x p ≡ ok e → Falls e
  unfolding apply_fill Falls abs_i64
  apply_fill-Falls e h =
      let along = (buys && leb_ℤ (pos 0) x) || (not buys && leb_ℤ x (pos 0)) || x ==ℤ pos 0 in
      elim (Bool-cases along) [
        | inl y ↦ inl (ground arith, add_fill-Adds s o p receipt e (rw y at h))
        | inr n ↦
            let against : Against buys x = ground arith in
            elim (Bool-cases (leb (size receipt.filled_qty) (size x))) [
              | inl y ↦
                  inr (
                    inl (against, ground arith, reduce_fill-Cuts s o p receipt px e (ground arith)))
              | inr z ↦ inr (
                  inr (
                    against,
                    ground arith,
                    reverse_fill-Turns s o p receipt px idx x beyond buys e (ground arith),
                  ))
            ]
      ]

  Falls-Shifts : (e : FillEffect) → Falls e → Shifts s e.accounts
  unfolding Falls
  Falls-Shifts e f = elim f [
    | inl a ↦ a.1.shifts
    | inr (inl c) ↦ c.2.shifts
    | inr (inr t) ↦ t.2.shifts
  ]

-- The accounts in which the case is settled.
abbrev pub at_hand : Accounts → SlabRegistry → Accounts
at_hand s r = record s { registry = r; position = created s.position }

module _ (s : Accounts) (o : Order) (leg : Leg) (px : ℤ) (receipt : FillReceipt) where
  -- What a round went through.
  pub record Round (t : Accounts) (pnl : ℤ) : Type 0 where
    pub registry : SlabRegistry
    pub index : ℕ
    pub found : slab_index s.registry leg ≡ some (registry, index)
    pub position : PositionDetails
    pub loaded : load_or_create s.position s o index receipt.vwap_px ≡ ok position
    pub effect : FillEffect
    pub falls :
        Falls
          (at_hand s registry)
          o
          leg
          receipt
          px
          index
          (get_exposure s.user index 0)
          position
          effect
    pub lamports : all_lamports t ≡ all_lamports s
    pub address : t.position_at ≡ s.position_at
    pub key : t.user_key ≡ s.user_key
    pub listed : t.registry ≡ registry
    pub exposures :
        t.user.exposures
        ≡ updated s.user.exposures index 0 (get_exposure s.user index 0 +ℤ receipt.filled_qty)
    pub account :
        t.position
        ≡ saved effect.accounts.position effect.position
            (get_exposure s.user index 0 +ℤ receipt.filled_qty)
    pub gain : pnl ≡ add_i128 (pos 0) effect.pnl

  fit_i64-same : (a b : ℤ) → fit_i64 a ≡ some b → b ≡ a
  unfolding fit_i64
  fit_i64-same a b h = ground arith

  pub settle_fill-Round :
      (t : Accounts) (pnl : ℤ) → settle_fill s o leg px receipt ≡ ok (t, pnl) → Round t pnl
  unfolding settle_fill update_exposure
  settle_fill-Round t pnl h =
      let (u, h1) = >>-eq-ok (reject_if (not (is_used receipt)) _) _ h in
      let (r, er, h2) = >>=-eq-ok (ok_or (slab_index s.registry leg) _) _ h1 in
      let x = get_exposure s.user r.1 0 in
      let (p, ep, h3) = >>=-eq-ok (load_or_create s.position s o r.1 receipt.vwap_px) _ h2 in
      let (e, ee, h4) = >>=-eq-ok (apply_fill (at_hand s r.0) o leg receipt px r.1 x p) _ h3 in
      let (n, en, h5) = >>=-eq-ok (or_abort (fit_i64 (x +ℤ receipt.filled_qty))) _ h4 in
      let falls = apply_fill-Falls (at_hand s r.0) o leg receipt px r.1 x p e ee in
      let shifts = Falls-Shifts (at_hand s r.0) o leg receipt px r.1 x p e falls in
      let same = fit_i64-same _ n (or_abort-eq-ok _ en) in
      subst (λ (z : Accounts × ℤ). Round z.0 z.1) (ok_injective h5)
        (record {
          registry = r.0;
          index = r.1;
          found = ok_or-eq-ok _ _ er;
          position = p;
          loaded = ep;
          effect = e;
          falls = falls;
          lamports = shifts.lamports;
          address = shifts.address;
          key = shifts.key;
          listed = shifts.registry;
          exposures =
              ap (λ es. updated es r.1 0 n) shifts.exposures
              ∙ ap (λ k. updated s.user.exposures r.1 0 k) same;
          account = ap (λ k. saved e.accounts.position e.position k) same;
          gain = refl;
        })
