-- ===== src/Router/SlabVenue/Trades.antt =====
-- A trade of programs/router/src/instructions/execute_cross_slab.rs that a slab of programs/slab fills.
use mathlib.Core.Option.{some-injective}
use barista_dex_perc.Prelude.{
  ℕ, ◌≤◌, ◌<◌, ◌≡◌, ◌⊎◌, ap, sym, subst, ◌∙◌, Bool, true, some, ◌==◌, if◌then◌else◌, arith, length,
}
use barista_dex_perc.Prelude.Int.{ℤ, pos, neg_ℤ, ◌≤ℤ◌, ◌+ℤ◌}
use barista_dex_perc.Prelude.Outcome.{Outcome, ok, ok_or, >>=-eq-ok, ok_or-eq-ok, ok_injective}
use barista_dex_perc.Matcher.{Side, PercolatorError, FillReceipt}
use barista_dex_perc.Matcher.Slab.{SlabState, signed_qty, process_commit_fill}
use barista_dex_perc.Matcher.Fills.{process_commit_fill-Fills}
use barista_dex_perc.Router.Portfolio.{max_exposures, exposure_in, get_exposure}
use barista_dex_perc.Router.Portfolio.Exposures.{IsMap, same_key}
use barista_dex_perc.Router.Position.Margin.{size}
use barista_dex_perc.Router.Registry.{SlabRegistry}
use barista_dex_perc.Router.Funds.{Accounts}
use barista_dex_perc.Router.Order.{Order, Leg, first_leg, slab_index}
use barista_dex_perc.Router.CrossSlab.{process_execute_cross_slab}
use barista_dex_perc.Router.CrossSlab.Fill.{Along}
use barista_dex_perc.Router.CrossSlab.Trade.{Traded, execute-Traded}
use barista_dex_perc.Router.CrossSlab.Safety.{touch-registry, Filled, execute-Filled}
use barista_dex_perc.Router.CrossSlab.Track.{Tracks, Fits, Round-Tracks}
use barista_dex_perc.Router.SlabVenue.{side_of, commit_fill}

-- The quantity of a side, with its sign.
abbrev pub signed : ℕ → ℤ → ℤ
signed side qty = if side == 0 then qty else neg_ℤ qty

side_of-signed :
    (side : ℕ) (k : Side) (qty : ℤ) → side_of side ≡ some k → signed_qty k qty ≡ signed side qty
unfolding side_of signed_qty
side_of-signed side k qty h = ground arith

-- The receipt of a slab has the whole quantity, with the side's sign, and the price that was sent.
commit_fill-receipt :
    (slab : SlabState) (fits : Bool) (authority id side : ℕ) (qty px : ℤ) (receipt : FillReceipt)
    → commit_fill slab fits authority id side qty px ≡ ok receipt
    → (receipt.filled_qty ≡ signed side qty)
      × (receipt.vwap_px ≡ px)
      × (pos 1 ≤ℤ qty)
      × (slab.header.router_id ≡ authority)
unfolding commit_fill
commit_fill-receipt slab fits authority id side qty px receipt h =
    let (k, ek, h1) = >>=-eq-ok (ok_or (side_of side) PercolatorError.invalid_side) _ h in
    let (out, eo, h2) =
      >>=-eq-ok (process_commit_fill slab fits authority slab.header.seqno k qty px) _ h1 in
    let (may, fills) =
      process_commit_fill-Fills slab fits authority slab.header.seqno k qty px out eo in
    let same = ok_injective h2 in
    (
      ap (λ (r : FillReceipt). r.filled_qty) (sym same)
          ∙ fills.quantity
          ∙ side_of-signed side k qty (ok_or-eq-ok _ _ ek),
      ap (λ (r : FillReceipt). r.vwap_px) (sym same) ∙ fills.price,
      may.some_qty,
      may.router,
    )

signed-Fits : (side : ℕ) (qty : ℤ) → pos 1 ≤ℤ qty → Fits (side == 0) (signed side qty)
signed-Fits side qty h = ground arith

signed-size : (side : ℕ) (qty : ℤ) → size (signed side qty) ≡ size qty
signed-size side qty = ground arith

-- What a trade that a slab fills does at the index of the slab.
pub record OnSlab (slab : SlabState) (authority : ℕ) (s : Accounts) (leg : Leg) (idx : ℕ)
    (t : Accounts) : Type 0 where
  pub router : slab.header.router_id ≡ authority
  pub some_qty : pos 1 ≤ℤ leg.split.qty
  pub exposure :
      get_exposure t.user idx 0 ≡ get_exposure s.user idx 0 +ℤ signed leg.split.side leg.split.qty
  pub tracks : Tracks (get_exposure t.user idx 0) t.position
  pub distinct : IsMap t.user.exposures

same_index : (idx : ℕ) → (idx == idx) ≡ true
same_index idx = ground arith

module _ (slab : SlabState) (fits : Bool) (authority : ℕ) (s : Accounts) (o : Order) (t : Accounts)
    (leg : Leg) (r : SlabRegistry) (idx : ℕ)
    (first : first_leg o.slabs o.oracles o.splits ≡ some leg)
    (at : slab_index s.registry leg ≡ some (r, idx)) where
  abbrev venue : ℕ → ℕ → ℤ → ℤ → Outcome PercolatorError FillReceipt
  venue = commit_fill slab fits authority

  listed_same :
      (l : Leg) (r' : SlabRegistry) (i : ℕ)
      → l ≡ leg
      → slab_index s.registry l ≡ some (r', i)
      → i ≡ idx
  listed_same l r' i e h =
      let h' = subst (λ z. slab_index s.registry z ≡ some (r', i)) e h in ground (arith, at, h')

  Filled-exposure :
      Filled venue s o t idx 0
      → get_exposure t.user idx 0 ≡ get_exposure s.user idx 0 +ℤ signed leg.split.side leg.split.qty
  Filled-exposure f =
      let e : f.leg ≡ leg = some-injective _ _ (sym f.found ∙ first) in
      let i = listed_same f.leg f.registry f.index e f.listed in
      let q =
        (commit_fill-receipt slab fits authority f.leg.slab_id f.leg.split.side f.leg.split.qty _
          f.receipt f.filled_by).0
        ∙ ap (λ (l : Leg). signed l.split.side l.split.qty) e in
      let here =
        subst
          (λ k. get_exposure t.user idx 0 ≡ (
            if same_key k 0 idx 0
            then get_exposure s.user k 0 +ℤ f.receipt.filled_qty
            else get_exposure s.user idx 0))
          i f.exposure in
      here ∙ rw (same_index idx) (ap (λ z. get_exposure s.user idx 0 +ℤ z) q)

  Traded-Tracks :
      (d : Traded venue s o t)
      → Tracks (get_exposure s.user idx 0) s.position
      → Along (leg.split.side == 0) (get_exposure s.user idx 0)
        ⊎ (size leg.split.qty ≤ size (get_exposure s.user idx 0))
      → Tracks (get_exposure s.user idx 0 +ℤ signed leg.split.side leg.split.qty) t.position
  unfolding get_exposure
  Traded-Tracks d track small =
      let x = get_exposure s.user idx 0 in
      let e : d.leg ≡ leg = some-injective _ _ (sym d.found ∙ first) in
      let k = d.round in
      let i = listed_same d.leg k.registry k.index e (
        subst (λ z. slab_index z d.leg ≡ some (k.registry, k.index))
          (touch-registry s o.current_slot d.touched d.caught_up) k.found) in
      let (rq, rp, some_qty, router) =
        commit_fill-receipt slab fits authority d.leg.slab_id d.leg.split.side d.leg.split.qty _
          d.receipt d.filled_by in
      let q = d.receipt.filled_qty in
      let e1 : get_exposure d.touched.user k.index 0 ≡ x =
        ap (λ es. exposure_in es k.index 0) d.kept.exposures
        ∙ ap (λ n. exposure_in s.user.exposures n 0) i in
      let fit =
        subst (Fits (d.leg.split.side == 0)) (sym rq)
          (signed-Fits d.leg.split.side d.leg.split.qty some_qty) in
      let before =
        subst (λ z. Tracks z d.touched.position) (sym e1)
          (subst (Tracks x) (sym d.kept.position) track) in
      let on_leg =
        subst (λ (l : Leg). Along (l.split.side == 0) x ⊎ (size l.split.qty ≤ size x)) (sym e)
          small in
      let sized =
        subst (λ n. Along (d.leg.split.side == 0) x ⊎ (n ≤ size x))
          (sym (ap size rq ∙ signed-size d.leg.split.side d.leg.split.qty)) on_leg in
      let small' =
        subst (λ z. Along (d.leg.split.side == 0) z ⊎ (size q ≤ size z)) (sym e1) sized in
      let after =
        Round-Tracks d.touched o d.leg d.px d.receipt d.filled d.pnl k fit before small' in
      let moved : t.position ≡ d.filled.position =
        d.covered.keeps.position ∙ d.books.position ∙ d.moves.position in
      let value : get_exposure d.touched.user k.index 0 +ℤ q
          ≡ x +ℤ signed leg.split.side leg.split.qty =
        ap (λ z. z +ℤ q) e1
        ∙ ap (λ z. x +ℤ z) (rq ∙ ap (λ (l : Leg). signed l.split.side l.split.qty) e) in
      subst (λ z. Tracks z t.position) value
        (subst (Tracks (get_exposure d.touched.user k.index 0 +ℤ q)) (sym moved) after)

-- A trade on a slab that is let through, on a portfolio in which no key stands twice and that has room,
-- whose order goes with the exposure or is no more than the exposure against it, is filled whole: the
-- exposure at the index of the slab changes by the order's quantity, which is positive, with the sign
-- of its side, and the position's account, if it was in step with the exposure, is in step with the
-- new one.
pub execute-OnSlab :
    (slab : SlabState) (fits : Bool) (authority : ℕ) (s : Accounts) (o : Order) (t : Accounts)
    (leg : Leg) (r : SlabRegistry) (idx : ℕ)
    → first_leg o.slabs o.oracles o.splits ≡ some leg
    → slab_index s.registry leg ≡ some (r, idx)
    → IsMap s.user.exposures
    → length s.user.exposures < max_exposures
    → Tracks (get_exposure s.user idx 0) s.position
    → Along (leg.split.side == 0) (get_exposure s.user idx 0)
      ⊎ (size leg.split.qty ≤ size (get_exposure s.user idx 0))
    → process_execute_cross_slab (commit_fill slab fits authority) s o ≡ ok t
    → OnSlab slab authority s leg idx t
execute-OnSlab slab fits authority s o t leg r idx first at m room track small h =
    let d = execute-Traded (commit_fill slab fits authority) s o t h in
    let f = execute-Filled (commit_fill slab fits authority) s o t idx 0 m room h in
    let e : d.leg ≡ leg = some-injective _ _ (sym d.found ∙ first) in
    let (rq, rp, some_qty, router) =
      commit_fill-receipt slab fits authority d.leg.slab_id d.leg.split.side d.leg.split.qty _
        d.receipt d.filled_by in
    let x = Filled-exposure slab fits authority s o t leg r idx first at f in
    record {
      router = router;
      some_qty = subst (λ (l : Leg). pos 1 ≤ℤ l.split.qty) e some_qty;
      exposure = x;
      tracks =
          subst (λ z. Tracks z t.position) (sym x)
            (Traded-Tracks slab fits authority s o t leg r idx first at d track small);
      distinct = f.distinct;
    }
