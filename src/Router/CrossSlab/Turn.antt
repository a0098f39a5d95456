-- ===== src/Router/CrossSlab/Turn.antt =====
-- A fill against an exposure and beyond it, in programs/router/src/instructions/execute_cross_slab.rs.
use barista_dex_perc.Prelude.{ℕ, ◌<◌, ◌≡◌, refl, subst, false, some, inl, inr, arith, ◌==◌}
use barista_dex_perc.Prelude.Int.{ℤ}
use barista_dex_perc.Prelude.Outcome.{Outcome, ok, err, abort}
use barista_dex_perc.Matcher.{PercolatorError, FillReceipt}
use barista_dex_perc.Router.Portfolio.{get_exposure}
use barista_dex_perc.Router.Position.Margin.{size}
use barista_dex_perc.Router.Funds.{Accounts}
use barista_dex_perc.Router.Registry.{SlabRegistry}
use barista_dex_perc.Router.Order.{Vacancy, Order, Leg, slab_index}
use barista_dex_perc.Router.CrossSlab.{settle_fill}
use barista_dex_perc.Router.CrossSlab.Fill.{Against, Falls, at_hand, Round, settle_fill-Round}

-- An error or a panic, which the host undoes.
pub data Fails {A : Type 0} : Outcome PercolatorError A → Type 0 where
  refused : (e : PercolatorError) → Fails (err e)
  panicked : Fails abort

module _ (s : Accounts) (o : Order) (leg : Leg) (px : ℤ) (receipt : FillReceipt) (r : SlabRegistry)
    (idx : ℕ) (at : slab_index s.registry leg ≡ some (r, idx)) where
  no_turn :
      (t : Accounts) (pnl : ℤ)
      → Against (leg.split.side == 0) (get_exposure s.user idx 0)
      → size (get_exposure s.user idx 0) < size receipt.filled_qty
      → o.can_create Vacancy.just_closed ≡ false
      → Round s o leg px receipt t pnl
      → ⊥
  unfolding Falls
  no_turn t pnl against large refuses d =
      let same : d.index ≡ idx = ground (arith, at, d.found) in
      let f =
        subst
          (λ i.
            Falls (at_hand s d.registry) o leg receipt px i (get_exposure s.user i 0) d.position
              d.effect)
          same d.falls in
      elim f [
        | inl a ↦ let along = a.0 in ground arith
        | inr (inl c) ↦ let le = c.1 in omega arith
        | inr (inr k) ↦ let yes_it_can = k.2.created_anew in cc
      ]

  never_ok :
      (out : Outcome PercolatorError (Accounts × ℤ))
      → settle_fill s o leg px receipt ≡ out
      → ((t : Accounts) (pnl : ℤ) → Round s o leg px receipt t pnl → ⊥)
      → Fails out
  never_ok abort h none = Fails.panicked
  never_ok (err e) h none = Fails.refused e
  never_ok (ok (t, pnl)) h none = absurd (none t pnl (settle_fill-Round s o leg px receipt t pnl h))

  -- A fill on a side against an exposure, and beyond it, at a slab that is in the registry or has room
  -- there, always fails: it closes the account of the position and then has the system program create
  -- that account, which is still the router's, and which the system program, by hypothesis, does not
  -- create.
  pub settle_fill_turn :
      Against (leg.split.side == 0) (get_exposure s.user idx 0)
      → size (get_exposure s.user idx 0) < size receipt.filled_qty
      → o.can_create Vacancy.just_closed ≡ false
      → Fails (settle_fill s o leg px receipt)
  settle_fill_turn against large refuses =
      never_ok (settle_fill s o leg px receipt) refl (λ t pnl. no_turn t pnl against large refuses)
