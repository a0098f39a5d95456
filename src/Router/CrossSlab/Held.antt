-- ===== src/Router/CrossSlab/Held.antt =====
-- The initial margin of a portfolio (calculate_portfolio_margin_from_exposures of
-- programs/router/src/instructions/execute_cross_slab.rs), by what the account of a position holds.
use native.Mathlib.Nat.{add-mul}
use barista_dex_perc.Prelude.{
  ℕ, ◌+◌, ◌*◌, ◌≤◌, min, ◌≡◌, refl, ◌∙◌, true, false, List, [], ◌∷◌, foldl, sum_by, ◌==◌, ◌&&◌,
  if◌then◌else◌, arith, Bool-cases, inl, inr,
}
use barista_dex_perc.Prelude.Int.{pos, ◌==ℤ◌}
use barista_dex_perc.Math.{u128_max, add_u128}
use barista_dex_perc.Router.Portfolio.{Exposure}
use barista_dex_perc.Router.Position.{PositionDetails}
use barista_dex_perc.Router.Funds.{PositionAccount, Accounts}
use barista_dex_perc.Router.Order.{same_address}
use barista_dex_perc.Router.CrossSlab.{
  margin_in, margin_at, calculate_portfolio_margin_from_exposures,
}

-- The margin that an account holds.
pub data HoldsMargin : PositionAccount → ℕ → Type 0 where
  none_there : HoldsMargin PositionAccount.unfunded 0
  unwritten : HoldsMargin PositionAccount.blank 0
  held_by : (p : PositionDetails) → HoldsMargin (PositionAccount.holds p) p.margin_held

-- The exposures of a key that are not zero.
abbrev pub open_here : ℕ → ℕ → Exposure → ℕ
open_here slab instrument e =
    if e.qty ==ℤ pos 0
    then 0
    else if e.slab_idx == slab && e.instrument_idx == instrument
    then 1
    else 0

abbrev pub open_entries : Accounts → ℕ
open_entries t =
    sum_by (open_here t.position_at.slab_index t.position_at.instrument_index) t.user.exposures

-- A portfolio's initial margin: what the position's account holds for every exposure at its key that
-- is not zero, cut to a u128, and nothing if the account is another portfolio's.
pub record IsHeld (t : Accounts) (im : ℕ) : Type 0 where
  pub held : ℕ
  pub account : HoldsMargin t.position held
  pub adds_up :
      im
      ≡ (if t.position_at.portfolio == t.user_key then min (open_entries t * held) u128_max else 0)

margin_in-HoldsMargin : (a : PositionAccount) → HoldsMargin a (margin_in a)
unfolding margin_in
margin_in-HoldsMargin PositionAccount.unfunded = HoldsMargin.none_there
margin_in-HoldsMargin PositionAccount.blank = HoldsMargin.unwritten
margin_in-HoldsMargin (PositionAccount.holds p) = HoldsMargin.held_by p

module _ (s : Accounts) where
  -- One exposure's part.
  margin_at-mine :
      (e : Exposure)
      → (s.position_at.portfolio == s.user_key) ≡ true
      → margin_at s e
        ≡ open_here s.position_at.slab_index s.position_at.instrument_index e * margin_in s.position
  unfolding margin_at same_address
  margin_at-mine e h = ground arith

  margin_at-other :
      (e : Exposure) → (s.position_at.portfolio == s.user_key) ≡ false → margin_at s e ≡ 0
  unfolding margin_at same_address
  margin_at-other e h = ground arith

  -- The saturating sum from a total on.
  sum_mine :
      (es : List Exposure) (total : ℕ)
      → (s.position_at.portfolio == s.user_key) ≡ true
      → total ≤ u128_max
      → foldl (λ acc e. add_u128 acc (margin_at s e)) total es
        ≡ min
            (total
              + sum_by (open_here s.position_at.slab_index s.position_at.instrument_index) es
                * margin_in s.position)
            u128_max
  unfolding add_u128
  sum_mine [] total h fits = omega arith
  sum_mine (e ∷ es) total h fits =
      let mine = margin_at-mine e h in
      let rest = sum_mine es (min (total + margin_at s e) u128_max) h (omega arith) in
      let k = open_here s.position_at.slab_index s.position_at.instrument_index e in
      let n = sum_by (open_here s.position_at.slab_index s.position_at.instrument_index) es in
      rest ∙ omega (arith, mine, add-mul k n (margin_in s.position))

  sum_other :
      (es : List Exposure)
      → (s.position_at.portfolio == s.user_key) ≡ false
      → foldl (λ acc e. add_u128 acc (margin_at s e)) 0 es ≡ 0
  unfolding add_u128
  sum_other [] h = refl
  sum_other (e ∷ es) h = rw (margin_at-other e h) (sum_other es h)

  pub calculate-IsHeld : IsHeld s (calculate_portfolio_margin_from_exposures s)
  unfolding calculate_portfolio_margin_from_exposures
  calculate-IsHeld = record {
    held = margin_in s.position;
    account = margin_in-HoldsMargin s.position;
    adds_up = elim (Bool-cases (s.position_at.portfolio == s.user_key)) [
      | inl y ↦ rw y (sum_mine s.user.exposures 0 y (omega arith) ∙ omega arith)
      | inr n ↦ rw n (sum_other s.user.exposures n)
    ];
  }
