-- ===== src/Router/Liquidation/Plans.antt =====
-- A whole plan of programs/router/src/liquidation/planner.rs.
use mathlib.Core.List.{append_assoc, append-nil}
use barista_dex_perc.Prelude.{
  ℕ, ◌≤◌, ◌<◌, ◌≡◌, ◌⊎◌, refl, ap, sym, subst, ◌∙◌, Bool, false, Option, none, some, List, [], ◌∷◌,
  ◌++◌, inl, inr, arith, if◌then◌else◌, length, length-append, Bool-cases,
}
use barista_dex_perc.Prelude.Int.{ℤ, pos, ◌==ℤ◌, ◌+ℤ◌}
use barista_dex_perc.Prelude.Outcome.{
  Outcome, ok, or_abort, >>=-eq-ok, or_abort-eq-ok, ok_injective,
}
use barista_dex_perc.Math.{i64_max, fit_i64}
use barista_dex_perc.Matcher.{PercolatorError}
use barista_dex_perc.Router.Portfolio.{Exposure, Portfolio}
use barista_dex_perc.Router.Registry.{SlabRegistry}
use barista_dex_perc.Router.Position.{abs_i64}
use barista_dex_perc.Router.Position.Margin.{size}
use barista_dex_perc.Router.Order.{SlabSplit}
use barista_dex_perc.Router.Liquidation.{calculate_price_band}
use barista_dex_perc.Router.Liquidation.Planner.{
  max_liquidation_splits, LiquidationPlan, new_plan, add_split, OraclePrice, SlabInfo,
  find_oracle_price, aligned_slab, reduce_split, plan_exposure, plan_exposures, plan_reduce_only,
}
use barista_dex_perc.Router.Liquidation.Reduce.{Reduces, Plans, reduce_split-Reduces}

-- The quantities of splits, added up.
abbrev pub total : List SlabSplit → ℤ → ℤ
total [] from = from
total (s ∷ splits) from = total splits (from +ℤ s.qty)

add_split-adds :
    (plan : LiquidationPlan) (split : SlabSplit) (plan' : LiquidationPlan)
    → add_split plan split ≡ ok plan'
    → (plan'.splits ≡ plan.splits ++ (split ∷ []))
      × (plan'.expected_reduction ≡ plan.expected_reduction +ℤ split.qty)
      × (length plan.splits < max_liquidation_splits)
unfolding add_split fit_i64
add_split-adds plan split plan' h = ground arith

module _ (r : SlabRegistry) (oracle_prices : List OraclePrice) (slab_infos : List SlabInfo)
    (bps : ℕ) (b : bps ≤ 10_000) (tol : r.oracle_tolerance_bps ≤ 10_000)
    (cap : r.router_cap_per_slab ≤ i64_max) where
  -- An exposure leaves the splits as they are or adds one that takes it back.
  Step : LiquidationPlan → Exposure → LiquidationPlan → Type 0
  Step plan e plan' =
      ((plan'.splits ≡ plan.splits) × (plan'.expected_reduction ≡ plan.expected_reduction))
      ⊎ ((split : SlabSplit) × Reduces r oracle_prices slab_infos bps e split
          × (plan'.splits ≡ plan.splits ++ (split ∷ []))
          × (plan'.expected_reduction ≡ plan.expected_reduction +ℤ split.qty)
          × (length plan.splits < max_liquidation_splits))

  found-Step :
      (plan : LiquidationPlan) (e : Exposure) (plan' : LiquidationPlan) (n : ℕ) (band : ℤ × ℤ)
      (found : Option SlabInfo)
      → n ≡ size e.qty
      → (e.qty ==ℤ pos 0) ≡ false
      → calculate_price_band (find_oracle_price oracle_prices e.instrument_idx) bps ≡ some band
      → aligned_slab slab_infos e
          (find_oracle_price oracle_prices e.instrument_idx)
          r.oracle_tolerance_bps
        ≡ some found
      → ◌≡◌ {A = Outcome PercolatorError LiquidationPlan}
          (elim found [
            | none ↦ ok (record plan { band_px_low = band.0; band_px_high = band.1 })
            | some info ↦
                add_split
                  (record plan { band_px_low = band.0; band_px_high = band.1 })
                  (reduce_split info e.qty n band r.router_cap_per_slab)
          ])
          (ok plan')
      → Step plan e plan'
  unfolding Step
  found-Step plan e plan' n band none en q hb hs h =
      let same = ok_injective h in
      inl (
        ap (λ (z : LiquidationPlan). z.splits) (sym same),
        ap (λ (z : LiquidationPlan). z.expected_reduction) (sym same),
      )
  found-Step plan e plan' n band (some info) en q hb hs h =
      let split = reduce_split info e.qty n band r.router_cap_per_slab in
      let px = find_oracle_price oracle_prices e.instrument_idx in
      let (a, x, l) =
        add_split-adds (record plan { band_px_low = band.0; band_px_high = band.1 }) split plan'
          h in
      inr (
        split,
        subst
            (λ m.
              Reduces r oracle_prices slab_infos bps e
                (reduce_split info e.qty m band r.router_cap_per_slab))
            (sym en)
            (reduce_split-Reduces r oracle_prices slab_infos bps e px band info q refl b tol cap hb
              hs),
        a,
        x,
        l,
      )

  size_of : (x : ℤ) (n : ℕ) → abs_i64 x ≡ some n → n ≡ size x
  unfolding abs_i64
  size_of x n h = ground arith

  plan_exposure-Step :
      (plan : LiquidationPlan) (e : Exposure) (plan' : LiquidationPlan)
      → plan_exposure r oracle_prices slab_infos bps plan e ≡ ok plan'
      → Step plan e plan'
  unfolding plan_exposure Step
  plan_exposure-Step plan e plan' h =
      let px = find_oracle_price oracle_prices e.instrument_idx in
      elim (Bool-cases (e.qty ==ℤ pos 0)) [
        | inl y ↦ inl (ground arith, ground arith)
        | inr some_qty ↦ elim (Bool-cases (px ==ℤ pos 0)) [
          | inl y ↦ inl (ground arith, ground arith)
          | inr some_px ↦
              let (band, eb, h1) =
                >>=-eq-ok (or_abort (calculate_price_band px bps)) _
                  (rw (some_qty, some_px) at h) in
              let (n, en, h2) = >>=-eq-ok (or_abort (abs_i64 e.qty)) _ h1 in
              let (found, ef, h3) =
                >>=-eq-ok (or_abort (aligned_slab slab_infos e px r.oracle_tolerance_bps)) _ h2 in
              found-Step plan e plan' n band found (size_of e.qty n (or_abort-eq-ok _ en)) some_qty
                (or_abort-eq-ok _ eb) (or_abort-eq-ok _ ef) h3
        ]
      ]

  -- The splits that the exposures add.
  record Grows (plan plan' : LiquidationPlan) (es : List Exposure) : Type 0 where
    splits : List SlabSplit
    behind : plan'.splits ≡ plan.splits ++ splits
    plans : Plans r oracle_prices slab_infos bps es splits
    reduction : plan'.expected_reduction ≡ total splits plan.expected_reduction
    few : length plan'.splits ≤ max_liquidation_splits

  plan_exposures-Grows :
      (es : List Exposure) (plan plan' : LiquidationPlan)
      → length plan.splits ≤ max_liquidation_splits
      → plan_exposures r oracle_prices slab_infos bps plan es ≡ ok plan'
      → Grows plan plan' es
  unfolding plan_exposures Step
  plan_exposures-Grows [] plan plan' few h =
      subst (λ z. Grows plan z []) (ok_injective h)
        (record {
          splits = [];
          behind = sym (append-nil plan.splits);
          plans = Plans.done;
          reduction = refl;
          few = few;
        })
  plan_exposures-Grows (e ∷ es) plan plan' few h =
      let (mid, em, h1) = >>=-eq-ok (plan_exposure r oracle_prices slab_infos bps plan e) _ h in
      elim (plan_exposure-Step plan e mid em) [
        | inl kept ↦
            let g = plan_exposures-Grows es mid plan' (ground arith) h1 in
            record {
              splits = g.splits;
              behind = g.behind ∙ ap (λ z. z ++ g.splits) kept.0;
              plans = Plans.skips e g.plans;
              reduction = g.reduction ∙ ap (total g.splits) kept.1;
              few = g.few;
            }
        | inr (split, reduces, added, more, room) ↦
            let g =
              plan_exposures-Grows es mid plan'
                (omega (arith, ap length added, length-append plan.splits (split ∷ []))) h1 in
            record {
              splits = split ∷ g.splits;
              behind =
                  g.behind
                  ∙ ap (λ z. z ++ g.splits) added
                  ∙ append_assoc plan.splits (split ∷ []) g.splits;
              plans = Plans.reduces reduces g.plans;
              reduction = g.reduction ∙ ap (total g.splits) more;
              few = g.few;
            }
      ]

-- A plan that is made takes exposures back only: its splits are, in the order of the exposures and at
-- most one for each, against the exposure, no more than it and than the cap of the registry, at one of
-- the given slabs that has the exposure's indices and whose mark price is within the tolerance of the oracle's, with a limit within the
-- band of the mode; they are at most eight, and the expected reduction is the sum of their quantities.
-- The band and the tolerance are at most the whole price, and the cap is an i64.
pub plan_reduce_only-Plans :
    (p : Portfolio) (r : SlabRegistry) (oracle_prices : List OraclePrice)
    (slab_infos : List SlabInfo) (is_preliq : Bool) (plan : LiquidationPlan)
    → (if is_preliq then r.preliq_band_bps else r.liq_band_bps) ≤ 10_000
    → r.oracle_tolerance_bps ≤ 10_000
    → r.router_cap_per_slab ≤ i64_max
    → plan_reduce_only p r oracle_prices slab_infos is_preliq ≡ ok plan
    → Plans r oracle_prices slab_infos
        (if is_preliq then r.preliq_band_bps else r.liq_band_bps)
        p.exposures
        plan.splits
      × (plan.expected_reduction ≡ total plan.splits (pos 0))
      × (length plan.splits ≤ max_liquidation_splits)
unfolding plan_reduce_only
plan_reduce_only-Plans p r oracle_prices slab_infos is_preliq plan b tol cap h =
    let bps = if is_preliq then r.preliq_band_bps else r.liq_band_bps in
    let g =
      plan_exposures-Grows r oracle_prices slab_infos bps b tol cap p.exposures new_plan plan
        (omega arith) h in
    (
      subst (Plans r oracle_prices slab_infos bps p.exposures) (sym g.behind) g.plans,
      g.reduction ∙ ap (λ z. total z (pos 0)) (sym g.behind),
      g.few,
    )
