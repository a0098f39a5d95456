-- ===== src/Router/Chooser.antt =====
-- programs/router/src/chooser.rs. An inner `none` is the source's None, an outer one a panic of i64 or i128
-- arithmetic.
pub mod Average
pub mod Best
pub mod Walk
mod Tests
use barista_dex_perc.Prelude.{
  ℕ, suc, Bool, true, false, ◌||◌, Option, none, some, List, [], ◌∷◌, if◌then◌else◌, ◌==◌,
}
use barista_dex_perc.Prelude.Int.{
  ℤ, pos, negsuc, pos_part, neg_part, ltb_ℤ, leb_ℤ, ◌==ℤ◌, ◌+ℤ◌, ◌-ℤ◌, ◌*ℤ◌,
}
use barista_dex_perc.Prelude.Options.{◌>>=◌}
use barista_dex_perc.Math.{i64_max, fit_i64, fit_i128, min_i128}
use barista_dex_perc.Matcher.{QuoteLevel, QuoteCache, as_i64}
use barista_dex_perc.Router.Position.{quotient}

pub record SlabQuote : Type 0 where
  pub slab_id : ℕ
  pub vwap_px : ℤ
  pub max_qty : ℤ
  pub slab_type : ℕ

-- The loop over levels: what is left to take, the cost and the quantity so far.
unfoldable pub walk_levels : List QuoteLevel → ℤ → ℤ → ℤ → Option (ℤ × ℤ)
walk_levels [] remaining cost filled = some (cost, filled)
walk_levels (level ∷ levels) remaining cost filled =
    elim (level.px ==ℤ pos 0 || level.avail_qty ==ℤ pos 0) [
      | true ↦ some (cost, filled)
      | false ↦ (do
        let taken = min_i128 remaining level.avail_qty
        cost' ← fit_i128 (cost +ℤ taken *ℤ level.px)
        filled' ← fit_i64 (filled +ℤ taken)
        remaining' ← fit_i64 (remaining -ℤ taken)
        elim (remaining' ==ℤ pos 0) [
          | true ↦ some (cost', filled')
          | false ↦ walk_levels levels remaining' cost' filled'
        ])
    ]

-- The average price and the quantity that the levels give.
unfoldable pub vwap_of : List QuoteLevel → ℤ → Option (Option (ℤ × ℤ))
vwap_of levels qty = if leb_ℤ qty (pos 0) then some none else do
  walked ← walk_levels levels qty (pos 0) (pos 0)
  if walked.1 ==ℤ pos 0
      then some none
      else do average ← quotient walked.0 walked.1; some (some (as_i64 average, walked.1))

unfoldable pub calculate_buy_vwap : QuoteCache → ℤ → Option (Option (ℤ × ℤ))
calculate_buy_vwap cache qty = vwap_of cache.best_asks qty

unfoldable pub calculate_sell_vwap : QuoteCache → ℤ → Option (Option (ℤ × ℤ))
calculate_sell_vwap cache qty = vwap_of cache.best_bids qty

-- The loop over quotes, from an index on, with the best index and price so far.
unfoldable pub scan : (ℤ → ℤ → Bool) → List SlabQuote → ℤ → ℕ → Option ℕ → ℤ → Option ℕ
scan is_better [] qty idx best_idx best_vwap = best_idx
scan is_better (quote ∷ quotes) qty idx best_idx best_vwap = elim (ltb_ℤ quote.max_qty qty) [
  | true ↦ scan is_better quotes qty (suc idx) best_idx best_vwap
  | false ↦ elim (is_better quote.vwap_px best_vwap) [
    | true ↦ scan is_better quotes qty (suc idx) (some idx) quote.vwap_px
    | false ↦ scan is_better quotes qty (suc idx) best_idx best_vwap
  ]
]

-- Buyers look for the lowest price.
abbrev pub cheaper : ℤ → ℤ → Bool
cheaper vwap_px best_vwap = ltb_ℤ vwap_px best_vwap

unfoldable pub choose_best_buy : List SlabQuote → ℤ → Option ℕ
choose_best_buy quotes qty = scan cheaper quotes qty 0 none (pos i64_max)

-- Sellers look for the highest one.
abbrev pub dearer : ℤ → ℤ → Bool
dearer vwap_px best_vwap = ltb_ℤ best_vwap vwap_px

unfoldable pub choose_best_sell : List SlabQuote → ℤ → Option ℕ
choose_best_sell quotes qty = scan dearer quotes qty 0 none (negsuc i64_max)
