-- ===== src/Router/CrossSlab/Track.antt =====
-- How the position's account follows the portfolio's exposure over a fill of
-- programs/router/src/instructions/execute_cross_slab.rs.
use barista_dex_perc.Prelude.{
  ℕ, ◌≤◌, ◌<◌, min, ◌≡◌, ◌⊎◌, ap, sym, subst, ◌∙◌, Bool, true, false, some, inl, inr, ◌||◌, ◌==◌,
  if◌then◌else◌, arith, Bool-cases,
}
use barista_dex_perc.Prelude.Int.{ℤ, pos, pos_part, neg_part, ◌==ℤ◌, ◌+ℤ◌, +ℤ_parts, eq_of_parts}
use barista_dex_perc.Prelude.Outcome.{ok, >>-eq-ok, ok_injective}
use barista_dex_perc.Matcher.{FillReceipt}
use barista_dex_perc.Router.Portfolio.{get_exposure}
use barista_dex_perc.Router.Position.{PositionDetails, new_position}
use barista_dex_perc.Router.Position.Margin.{size, Reduced, reduce_position-Reduced}
use barista_dex_perc.Router.Funds.{PositionAccount, Accounts}
use barista_dex_perc.Router.Registry.{SlabRegistry}
use barista_dex_perc.Router.Order.{Vacancy, Order, Leg, slab_index, create_position, load_or_create}
use barista_dex_perc.Router.CrossSlab.{FillEffect, saved, settle_fill}
use barista_dex_perc.Router.CrossSlab.Settle.{Adds, Cuts}
use barista_dex_perc.Router.CrossSlab.Fill.{
  Against, Along, buys, Falls, at_hand, Round, settle_fill-Round,
}

-- An account that holds the position of an exposure, or is empty as there is none.
pub data Tracks (x : ℤ) : PositionAccount → Type 0 where
  nothing : x ≡ pos 0 → Tracks x PositionAccount.unfunded
  holding : (p : PositionDetails) → p.total_qty ≡ x → Tracks x (PositionAccount.holds p)

-- A quantity of the sign that a side has.
abbrev pub Fits : Bool → ℤ → Type 0
Fits is_buy q = ((is_buy ≡ true) × (neg_part q ≡ 0)) ⊎ ((is_buy ≡ false) × (pos_part q ≡ 0))

Along-Against : (b : Bool) (x : ℤ) → Along b x → Against b x → ⊥
Along-Against b x a g = ground arith

-- The position at hand is that of the exposure.
loaded_qty :
    (a : PositionAccount) (s : Accounts) (o : Order) (idx : ℕ) (px x : ℤ) (p : PositionDetails)
    → Tracks x a
    → load_or_create a s o idx px ≡ ok p
    → p.total_qty ≡ x
unfolding load_or_create new_position
loaded_qty _ s o idx px x p (Tracks.nothing e) h =
    let (u, h1) = >>-eq-ok (create_position s o idx Vacancy.no_owner) _ h in
    ap (λ (z : PositionDetails). z.total_qty) (sym (ok_injective h1)) ∙ sym e
loaded_qty _ s o idx px x p (Tracks.holding r e) h =
    ap (λ (z : PositionDetails). z.total_qty) (sym (ok_injective h)) ∙ e

saved_some :
    (a : PositionAccount) (p : PositionDetails) (x : ℤ)
    → p.total_qty ≡ x
    → 0 < size x
    → Tracks x (saved a p x)
unfolding saved
saved_some a p x e h =
    let one : (x ==ℤ pos 0 || p.total_qty ==ℤ pos 0) ≡ false = ground arith in
    rw one (Tracks.holding p e)

-- What is left of an exposure after a fill against it.
cut_left :
    (b : Bool) (x q r : ℤ) (held m : ℕ)
    → Against b x
    → Fits b q
    → size q ≤ size x
    → Reduced held x r (min (size q) (size x)) m
    → r ≡ x +ℤ q
cut_left b x q r held m a f le d =
    eq_of_parts _ _ (ground (arith, +ℤ_parts x q, d.size_left, d.side_kept))

cut_Tracks :
    (p : PositionDetails) (r x : ℤ)
    → p.total_qty ≡ r
    → r ≡ x
    → Tracks x
        (saved (if r ==ℤ pos 0 then PositionAccount.unfunded else PositionAccount.holds p) p x)
unfolding saved
cut_Tracks p r x e h = elim (Bool-cases (x ==ℤ pos 0)) [
  | inl y ↦ rw (h, y) (Tracks.nothing (ground arith))
  | inr n ↦
      let m : (p.total_qty ==ℤ pos 0) ≡ false = rw (e, h) n in
      rw (h, n, m) (Tracks.holding p (e ∙ h))
]

too_small : (b : Bool) (x : ℤ) (n : ℕ) → Against b x → size x < n → Along b x ⊎ (n ≤ size x) → ⊥
too_small b x n a l w = ground arith

module _ (s : Accounts) (o : Order) (leg : Leg) (receipt : FillReceipt) (px : ℤ) (idx : ℕ) (x : ℤ)
    (p : PositionDetails) (e : FillEffect) where
  abbrev next : ℤ
  next = x +ℤ receipt.filled_qty

  Adds-Tracks :
      p.total_qty ≡ x
      → Adds s o p receipt e
      → Tracks next (saved e.accounts.position e.position next)
  Adds-Tracks total a =
      let g = a.grown in
      saved_some e.accounts.position e.position _
        (g.quantity ∙ ap (λ z. z +ℤ receipt.filled_qty) total)
        (subst (λ z. 0 < size (z +ℤ receipt.filled_qty)) total g.some_size)

  Cuts-Tracks :
      p.total_qty ≡ x
      → Against (buys s o leg receipt px idx x p) x
      → Fits (buys s o leg receipt px idx x p) receipt.filled_qty
      → size receipt.filled_qty ≤ size x
      → Cuts s o p receipt px e
      → Tracks next (saved e.accounts.position e.position next)
  Cuts-Tracks total against fits le k =
      let (q, held, u) =
        reduce_position-Reduced p px receipt.filled_qty (pos 0) o.timestamp e.position e.pnl k.left
          k.release k.reduced in
      let c = size receipt.filled_qty in
      let u' = subst (λ z. Reduced p.margin_held z k.left (min c (size z)) k.release) total u in
      let l =
        cut_left (leg.split.side == 0) x receipt.filled_qty k.left p.margin_held k.release against
          fits le u' in
      subst (λ a. Tracks next (saved a e.position next)) (sym k.account)
        (cut_Tracks e.position k.left next q l)

  pub Falls-Tracks :
      p.total_qty ≡ x
      → Fits (buys s o leg receipt px idx x p) receipt.filled_qty
      → Along (buys s o leg receipt px idx x p) x ⊎ (size receipt.filled_qty ≤ size x)
      → Falls s o leg receipt px idx x p e
      → Tracks next (saved e.accounts.position e.position next)
  unfolding Falls
  Falls-Tracks total fits small f = elim f [
    | inl a ↦ Adds-Tracks total a.1
    | inr (inl c) ↦ Cuts-Tracks total c.0 fits c.1 c.2
    | inr (inr r) ↦
        absurd (too_small (leg.split.side == 0) x (size receipt.filled_qty) r.0 r.1 small)
  ]

-- What a round went through keeps the account in step.
pub Round-Tracks :
    (s : Accounts) (o : Order) (leg : Leg) (px : ℤ) (receipt : FillReceipt) (t : Accounts) (pnl : ℤ)
    (d : Round s o leg px receipt t pnl)
    → Fits (leg.split.side == 0) receipt.filled_qty
    → Tracks (get_exposure s.user d.index 0) s.position
    → Along (leg.split.side == 0) (get_exposure s.user d.index 0)
      ⊎ (size receipt.filled_qty ≤ size (get_exposure s.user d.index 0))
    → Tracks (get_exposure s.user d.index 0 +ℤ receipt.filled_qty) t.position
Round-Tracks s o leg px receipt t pnl d fits track small =
    let x = get_exposure s.user d.index 0 in
    let q = loaded_qty s.position s o d.index receipt.vwap_px x d.position track d.loaded in
    let a =
      Falls-Tracks (at_hand s d.registry) o leg receipt px d.index x d.position d.effect q fits
        small d.falls in
    subst (Tracks (x +ℤ receipt.filled_qty)) (sym d.account) a

module _ (s : Accounts) (o : Order) (leg : Leg) (px : ℤ) (receipt : FillReceipt) (t : Accounts)
    (pnl : ℤ) (r : SlabRegistry) (idx : ℕ) (at : slab_index s.registry leg ≡ some (r, idx))
    (fits : Fits (leg.split.side == 0) receipt.filled_qty) where
  -- A fill of the side's sign that goes with the exposure, or is no more than the exposure against it,
  -- keeps the position's account in step: if it held the exposure, or was empty as there was none, it
  -- holds the new exposure, or is empty as none is left.
  pub settle_fill-Tracks :
      Tracks (get_exposure s.user idx 0) s.position
      → Along (leg.split.side == 0) (get_exposure s.user idx 0)
        ⊎ (size receipt.filled_qty ≤ size (get_exposure s.user idx 0))
      → settle_fill s o leg px receipt ≡ ok (t, pnl)
      → Tracks (get_exposure s.user idx 0 +ℤ receipt.filled_qty) t.position
  settle_fill-Tracks track small h =
      let d = settle_fill-Round s o leg px receipt t pnl h in
      let same : idx ≡ d.index = ground (arith, at, d.found) in
      let track' = subst (λ i. Tracks (get_exposure s.user i 0) s.position) same track in
      let small' =
        subst
          (λ i.
            Along (leg.split.side == 0) (get_exposure s.user i 0)
            ⊎ (size receipt.filled_qty ≤ size (get_exposure s.user i 0)))
          same small in
      subst (λ i. Tracks (get_exposure s.user i 0 +ℤ receipt.filled_qty) t.position) (sym same)
        (Round-Tracks s o leg px receipt t pnl d fits track' small')
