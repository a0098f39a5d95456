-- ===== src/Router/Chooser/Average.antt =====
-- The average price over levels, of programs/router/src/chooser.rs.
use barista_dex_perc.Prelude.{
  ◌∙◌, ℕ, ◌/◌, ◌≤◌, ◌<◌, ◌≡◌, ◌⊎◌, min, refl, false, Option, none, some, List, inl, inr, arith,
  Bool-cases,
}
use barista_dex_perc.Prelude.Int.{ℤ, pos, leb_ℤ, ◌==ℤ◌}
use barista_dex_perc.Prelude.Options.{◌>>=◌}
use barista_dex_perc.Math.{i64_max}
use barista_dex_perc.Matcher.{QuoteLevel, QuoteCache}
use barista_dex_perc.Router.Position.{quotient}
use barista_dex_perc.Router.Position.Average.{/ℤ_pos, as_i64-small}
use barista_dex_perc.Router.Chooser.{vwap_of, calculate_buy_vwap, calculate_sell_vwap}
use barista_dex_perc.Router.Chooser.Walk.{
  depth, ArePriced, zero_of, positive_of, average-between, Walked, walk_levels-Walked,
}

not_leb_zero : (n : ℕ) → 0 < n → leb_ℤ (pos n) (pos 0) ≡ false
not_leb_zero n h = ground arith

quotient_pos : (c n : ℕ) → pos n ==ℤ pos 0 ≡ false → quotient (pos c) (pos n) ≡ some (pos (c / n))
unfolding quotient
quotient_pos c n h = rw (h, /ℤ_pos c n) refl

module _ (lo hi : ℕ) where
  -- What the average of levels is, for a quantity that is positive.
  pub AverageOf : List QuoteLevel → ℕ → Option (Option (ℤ × ℤ)) → Type 0
  AverageOf levels n result =
      ((depth levels ≡ 0) × (result ≡ some none))
      ⊎ ((average : ℕ) × (result ≡ some (some (pos average, pos (min n (depth levels)))))
          × (0 < depth levels)
          × (lo ≤ average)
          × (average ≤ hi))

  vwap_of-AverageOf :
      (levels : List QuoteLevel) (n : ℕ)
      → 0 < n
      → n ≤ i64_max
      → hi ≤ i64_max
      → ArePriced lo hi levels
      → AverageOf levels n (vwap_of levels (pos n))
  unfolding AverageOf Walked vwap_of
  vwap_of-AverageOf levels n some_qty fits top a =
      let (cost, filled, ran, at, w) =
        walk_levels-Walked lo hi levels n 0 0 some_qty top (omega arith) a
          (record { at_least = omega arith; at_most = omega arith }) in
      elim (Bool-cases (pos filled ==ℤ pos 0)) [
        | inl z ↦
            let none_taken = zero_of filled z in
            inl (omega arith, rw (vwap_of, not_leb_zero n some_qty, ran, z, ◌>>=◌) refl)
        | inr s ↦
            let taken = positive_of filled s in
            let same : filled ≡ min n (depth levels) = at ∙ omega arith in
            let (low, high) = average-between lo hi cost filled taken w in
            inr (
              cost / filled,
              rw
                  (
                    vwap_of,
                    not_leb_zero n some_qty,
                    ran,
                    s,
                    quotient_pos cost filled s,
                    as_i64-small (cost / filled) (omega arith),
                    same,
                    ◌>>=◌,
                  )
                  refl,
              omega arith,
              low,
              high,
            )
      ]

-- Neither average of a cache panics for a positive quantity, when no price up to the end of the levels
-- is negative or above the largest i64 and no quantity is negative. There is an average unless the levels have
-- nothing; it lies between any bounds of their prices, and the quantity beside it is what was asked for or all
-- that the levels have, whichever is less.
pub calculate_vwap-AverageOf :
    (cache : QuoteCache) (lo hi n : ℕ)
    → 0 < n
    → n ≤ i64_max
    → hi ≤ i64_max
    → ArePriced lo hi cache.best_asks
    → ArePriced lo hi cache.best_bids
    → AverageOf lo hi cache.best_asks n (calculate_buy_vwap cache (pos n))
      × AverageOf lo hi cache.best_bids n (calculate_sell_vwap cache (pos n))
unfolding calculate_buy_vwap calculate_sell_vwap
calculate_vwap-AverageOf cache lo hi n some_qty fits top asks bids = (
  vwap_of-AverageOf lo hi cache.best_asks n some_qty fits top asks,
  vwap_of-AverageOf lo hi cache.best_bids n some_qty fits top bids,
)
