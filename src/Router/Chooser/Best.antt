-- ===== src/Router/Chooser/Best.antt =====
-- The choices of programs/router/src/chooser.rs.
use mathlib.Core.Option.{some-injective, none-ne-some}
use barista_dex_perc.Prelude.{
  ℕ, zero, suc, ◌+◌, ◌≡◌, ◌⊎◌, refl, ap, sym, subst, ◌∙◌, Bool, true, false, Option, none, some,
  List, [], ◌∷◌, inl, inr, arith, get_elem?, Bool-cases,
}
use barista_dex_perc.Prelude.Int.{ℤ, pos, negsuc, ltb_ℤ}
use barista_dex_perc.Math.{i64_max}
use barista_dex_perc.Router.Chooser.{
  SlabQuote, scan, cheaper, choose_best_buy, dearer, choose_best_sell,
}

-- A quote in a list that can fill a quantity.
pub record IsFit (quotes : List SlabQuote) (qty : ℤ) (k : ℕ) (q : SlabQuote) : Type 0 where
  pub here : get_elem? quotes k ≡ some q
  pub fills : ltb_ℤ q.max_qty qty ≡ false

module _ (is_better : ℤ → ℤ → Bool) where
  -- What a choice promises, given the price the scan starts from: the quote at a chosen index fits, beats that
  -- price, and no quote that fits beats it; when no index is chosen, no quote that fits beats that price.
  pub IsChosen : List SlabQuote → ℤ → ℤ → Option ℕ → Type 0
  IsChosen quotes qty start none =
      (j : ℕ) (q : SlabQuote) → IsFit quotes qty j q → is_better q.vwap_px start ≡ false
  IsChosen quotes qty start (some k) =
      (best : SlabQuote) × IsFit quotes qty k best
      × (is_better best.vwap_px start ≡ true)
      × ((j : ℕ) (q : SlabQuote) → IsFit quotes qty j q → is_better q.vwap_px best.vwap_px ≡ false)

  module _ (asym : (a b : ℤ) → is_better a b ≡ true → is_better b a ≡ false)
      (trans : (a b c : ℤ) → is_better a b ≡ false → is_better b c ≡ false → is_better a c ≡ false)
      (qty : ℤ) where
    IsLeast : List SlabQuote → ℤ → Type 0
    IsLeast quotes best =
        (j : ℕ) (q : SlabQuote) → IsFit quotes qty j q → is_better q.vwap_px best ≡ false

    IsWinner : List SlabQuote → ℕ → ℤ → ℤ → Option ℕ → Type 0
    IsWinner quotes idx px best after =
        (k : ℕ) × (q : SlabQuote) × (after ≡ some (idx + k))
        × IsFit quotes qty k q
        × (is_better q.vwap_px px ≡ true)
        × (best ≡ q.vwap_px)

    -- The first quote and the later ones.
    later :
        (q0 : SlabQuote) (quotes : List SlabQuote) (best : ℤ)
        → (ltb_ℤ q0.max_qty qty ≡ false → is_better q0.vwap_px best ≡ false)
        → IsLeast quotes best
        → IsLeast (q0 ∷ quotes) best
    unfolding IsLeast
    later q0 quotes best first rest zero q fit =
        let e : q0 ≡ q = some-injective _ _ fit.here in
        subst (λ x. is_better x.vwap_px best ≡ false) e
          (first (ap (λ x. ltb_ℤ x.max_qty qty) e ∙ fit.fills))
    later q0 quotes best first rest (suc j) q fit =
        rest j q (record { here = fit.here; fills = fit.fills })

    irrefl : (a : ℤ) → is_better a a ≡ false
    irrefl a = elim (Bool-cases (is_better a a)) [ inl e ↦ asym a a e | inr e ↦ e ]

    beats : (a b c : ℤ) → is_better a b ≡ true → is_better b c ≡ true → is_better a c ≡ true
    beats a b c ab bc = elim (Bool-cases (is_better a c)) [
      | inl ac ↦ ac
      | inr n ↦ let ab' = trans a c b n (asym b c bc) in cc
    ]

    Ends : List SlabQuote → ℕ → Option ℕ → ℤ → Option ℕ → Type 0
    Ends quotes idx before px after =
        (best : ℤ) × (is_better px best ≡ false)
        × (((after ≡ before) × (best ≡ px)) ⊎ IsWinner quotes idx px best after)
        × IsLeast quotes best

    -- What is found among the later quotes is found one place further on.
    later_found :
        (q0 : SlabQuote) (quotes : List SlabQuote) (idx : ℕ) (px best : ℤ) (after : Option ℕ)
        → IsWinner quotes (suc idx) px best after
        → IsWinner (q0 ∷ quotes) idx px best after
    unfolding IsWinner
    later_found q0 quotes idx px best after (k, q, at, fit, wins, e) = (
      suc k,
      q,
      at ∙ ap some (omega arith),
      record { here = fit.here; fills = fit.fills },
      wins,
      e,
    )

    -- A quote that is passed over: one that cannot fill, or that does not beat the price so far.
    passed :
        (q0 : SlabQuote) (quotes : List SlabQuote) (idx : ℕ) (before : Option ℕ) (px : ℤ)
        (after : Option ℕ)
        → (ltb_ℤ q0.max_qty qty ≡ false → is_better q0.vwap_px px ≡ false)
        → Ends quotes (suc idx) before px after
        → Ends (q0 ∷ quotes) idx before px after
    unfolding Ends
    passed q0 quotes idx before px after loses (best, lower, origin, least) = (
      best,
      lower,
      elim origin [ inl e ↦ inl e | inr f ↦ inr (later_found q0 quotes idx px best after f) ],
      later q0 quotes best (λ fits. trans _ px _ (loses fits) lower) least,
    )

    -- A quote that is taken as the best one so far.
    taken :
        (q0 : SlabQuote) (quotes : List SlabQuote) (idx : ℕ) (before : Option ℕ) (px : ℤ)
        (after : Option ℕ)
        → ltb_ℤ q0.max_qty qty ≡ false
        → is_better q0.vwap_px px ≡ true
        → Ends quotes (suc idx) (some idx) q0.vwap_px after
        → Ends (q0 ∷ quotes) idx before px after
    unfolding Ends IsWinner
    taken q0 quotes idx before px after fits wins (best, lower, origin, least) = (
      best,
      trans px q0.vwap_px best (asym _ _ wins) lower,
      inr (elim origin [
        | inl (at, e) ↦
            (zero, q0, at ∙ ap some (omega arith), record { here = refl; fills = fits }, wins, e)
        | inr (k, q, at, fit, over, e) ↦ (
          suc k,
          q,
          at ∙ ap some (omega arith),
          record { here = fit.here; fills = fit.fills },
          beats q.vwap_px q0.vwap_px px over wins,
          e,
        )
      ]),
      later q0 quotes best (λ _. lower) least,
    )

    scan-Ends :
        (quotes : List SlabQuote) (idx : ℕ) (before : Option ℕ) (px : ℤ)
        → Ends quotes idx before px (scan is_better quotes qty idx before px)
    unfolding scan Ends IsWinner IsLeast
    scan-Ends [] idx before px = (px, irrefl px, inl (refl, refl), λ j q fit. cc fit.here)
    scan-Ends (q0 ∷ quotes) idx before px = elim (Bool-cases (ltb_ℤ q0.max_qty qty)) [
      | inl small ↦
          rw (small, scan)
            (passed q0 quotes idx before px _ (λ fits. cc) (scan-Ends quotes (suc idx) before px))
      | inr fits ↦ elim (Bool-cases (is_better q0.vwap_px px)) [
        | inl wins ↦
            rw (fits, wins, scan)
              (taken q0 quotes idx before px _ fits wins
                (scan-Ends quotes (suc idx) (some idx) q0.vwap_px))
        | inr loses ↦
            rw (fits, loses, scan)
              (passed q0 quotes idx before px _ (λ _. loses) (scan-Ends quotes (suc idx) before px))
      ]
    ]

    ended :
        (quotes : List SlabQuote) (start : ℤ) (after : Option ℕ)
        → Ends quotes 0 none start after
        → IsChosen quotes qty start after
    unfolding IsChosen Ends IsWinner IsLeast
    ended quotes start none (best, lower, inl (at, e), least) =
        λ j q fit. subst (λ x. is_better q.vwap_px x ≡ false) e (least j q fit)
    ended quotes start none (best, lower, inr (k, q, at, fit, wins, e), least) =
        elim (none-ne-some _ at) [ ]
    ended quotes start (some i) (best, lower, inl (at, e), least) =
        elim (none-ne-some _ (sym at)) [ ]
    ended quotes start (some i) (best, lower, inr (k, q, at, fit, wins, e), least) =
        let ik : i ≡ k = some-injective _ _ at ∙ omega arith in
        (
          q,
          subst (λ x. IsFit quotes qty x q) (sym ik) fit,
          wins,
          λ j q' fit'. subst (λ x. is_better q'.vwap_px x ≡ false) e (least j q' fit'),
        )

    pub scan-IsChosen :
        (quotes : List SlabQuote) (start : ℤ)
        → IsChosen quotes qty start (scan is_better quotes qty 0 none start)
    scan-IsChosen quotes start = ended quotes start _ (scan-Ends quotes 0 none start)

-- Both choices of a slab are right, for any quotes and quantity. A buyer's is the cheapest of the quotes that can
-- fill the quantity, and a seller's the dearest: the chosen quote can fill, and no quote that can fill has a better
-- price. There is no choice only when no quote that can fill has a price below the largest i64, for a buyer, or above
-- the smallest one, for a seller.
pub choose_best-IsChosen :
    (quotes : List SlabQuote) (qty : ℤ)
    → IsChosen cheaper quotes qty (pos i64_max) (choose_best_buy quotes qty)
      × IsChosen dearer quotes qty (negsuc i64_max) (choose_best_sell quotes qty)
unfolding choose_best_buy choose_best_sell
choose_best-IsChosen quotes qty = (
  scan-IsChosen cheaper (λ a b h. grind arith) (λ a b c h k. grind arith) qty quotes (pos i64_max),
  scan-IsChosen dearer (λ a b h. grind arith) (λ a b c h k. grind arith) qty quotes
      (negsuc i64_max),
)
