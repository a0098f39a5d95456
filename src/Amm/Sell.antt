-- ===== src/Amm/Sell.antt =====
-- A sale to the pool (`quote_sell` of crates/amm_model/src/math.rs) in natural numbers.
use native.Mathlib.Nat.{div-mul-le_self, lt-mul-div-succ, mul_comm}
use barista_dex_perc.Prelude.{ℕ, ◌+◌, ◌-◌, ◌*◌, ◌/◌, ◌≤◌, ◌<◌, ◌≡◌, refl, ap, ◌∙◌, arith}
use barista_dex_perc.Prelude.Int.{
  ℤ, pos, pos_part, neg_part, ◌+ℤ◌, ◌-ℤ◌, ◌*ℤ◌, ◌/ℤ◌, ◌≤ℤ◌, +ℤ_parts, -ℤ_parts, *ℤ_nonneg,
  /ℤ_nonneg, sign_cases,
}
use barista_dex_perc.Prelude.Outcome.{ok, >>=-eq-ok}
use barista_dex_perc.Amm.Quote.{scale, bps_scale, QuoteResult, curve_sell, quote_sell}
use barista_dex_perc.Amm.Curve.{fit_i64-cases, fit_i128-cases, fit_quote-ok}
use barista_dex_perc.Amm.Buy.{nonneg}

-- What the curve grants a sale, in the integers of the source.
record SoldOnCurve (x y f dx m x1 y1 : ℤ) : Type 0 where
  x_pos : pos 1 ≤ℤ x
  y_pos : pos 1 ≤ℤ y
  dx_pos : pos 1 ≤ℤ dx
  fee_small : pos 0 ≤ℤ bps_scale -ℤ f
  x_new : x1 ≡ x +ℤ (dx *ℤ (bps_scale -ℤ f)) /ℤ bps_scale
  y_new : y1 ≡ (x *ℤ y) /ℤ x1
  out_pos : pos 1 ≤ℤ y -ℤ y1
  floor : pos 1 +ℤ (y -ℤ y1) ≤ℤ y -ℤ m

curve_sell-ok :
    (x y f dx m x1 y1 : ℤ) → curve_sell x y f dx m ≡ ok (x1, y1) → SoldOnCurve x y f dx m x1 y1
unfolding curve_sell
curve_sell-ok x y f dx m x1 y1 h =
    let x' = x +ℤ (dx *ℤ (bps_scale -ℤ f)) /ℤ bps_scale in
    ground (
      arith,
      fit_i64-cases (bps_scale -ℤ f),
      fit_i64-cases (y -ℤ m),
      fit_i128-cases (x *ℤ y),
      +ℤ_parts (pos 1) (y -ℤ (x *ℤ y) /ℤ x'),
    )

module _ (x y f dx m : ℤ) (q : QuoteResult) where
  quote_sell-ok :
      quote_sell x y f dx m ≡ ok q
      → (x1 : ℤ) × (y1 : ℤ) × SoldOnCurve x y f dx m x1 y1
        × (q ≡ record {
          quote_amount = y -ℤ y1;
          vwap_px = ((y -ℤ y1) *ℤ scale) /ℤ dx;
          new_x = x1;
          new_y = y1;
        })
  unfolding quote_sell
  quote_sell-ok h =
      let (r, e, h1) = >>=-eq-ok (curve_sell x y f dx m) _ h in
      (r.0, r.1, curve_sell-ok x y f dx m r.0 r.1 e, fit_quote-ok _ _ _ _ q h1)

  -- A sale pays out at least one unit of quote and keeps the liquidity floor. The base that enters
  -- the reserves is what is left after the fee, and the quote is rounded for the seller: the product
  -- of the reserves does not grow, and falls by less than one unit of quote for each unit of base.
  pub quote_sell-curve :
      pos 0 ≤ℤ f
      → quote_sell x y f dx m ≡ ok q
      → (pos 1 +ℤ m ≤ℤ q.new_y)
        × (pos_part q.new_x ≡ pos_part x + pos_part dx * (10_000 - pos_part f) / 10_000)
        × (pos_part q.new_y + pos_part q.quote_amount ≡ pos_part y)
        × (1 ≤ pos_part q.quote_amount)
        × (pos_part q.new_x * pos_part q.new_y ≤ pos_part x * pos_part y)
        × (pos_part x * pos_part y < pos_part q.new_x * (pos_part q.new_y + 1))
  quote_sell-curve nf h =
      let (x1, y1, c, e) = quote_sell-ok h in
      let nx = nonneg x (omega (arith, c.x_pos)) in
      let ny = nonneg y (omega (arith, c.y_pos)) in
      let nd = nonneg dx (omega (arith, c.dx_pos)) in
      let nm = nonneg (bps_scale -ℤ f) c.fee_small in
      let pd = *ℤ_nonneg dx (bps_scale -ℤ f) nd nm in
      let pr = /ℤ_nonneg (dx *ℤ (bps_scale -ℤ f)) bps_scale pd.1 refl in
      let net = (dx *ℤ (bps_scale -ℤ f)) /ℤ bps_scale in
      let em : pos_part (bps_scale -ℤ f) ≡ 10_000 - pos_part f =
        omega (arith, -ℤ_parts bps_scale f, nonneg f nf, nm) in
      let en : pos_part net ≡ pos_part dx * (10_000 - pos_part f) / 10_000 =
        pr.0 ∙ ap (λ (n : ℕ). n / 10_000) (pd.0 ∙ ap (λ (n : ℕ). pos_part dx * n) em) in
      let ex : pos_part x1 ≡ pos_part x + pos_part net =
        omega (arith, ap pos_part c.x_new, +ℤ_parts x net, nx, pr, sign_cases (x +ℤ net)) in
      let n1 : neg_part x1 ≡ 0 = omega (
        arith,
        ap neg_part c.x_new,
        ap pos_part c.x_new,
        +ℤ_parts x net,
        nx,
        pr,
        sign_cases (x +ℤ net),
      ) in
      let pk = *ℤ_nonneg x y nx ny in
      let py = /ℤ_nonneg (x *ℤ y) x1 pk.1 n1 in
      let ey : pos_part y1 ≡ pos_part x * pos_part y / pos_part x1 =
        ap pos_part c.y_new ∙ py.0 ∙ ap (λ (n : ℕ). n / pos_part x1) pk.0 in
      let n2 : neg_part y1 ≡ 0 = ap neg_part c.y_new ∙ py.1 in
      let k = pos_part x * pos_part y in
      rw e (
        omega (
          arith,
          c.floor,
          +ℤ_parts (pos 1) (y -ℤ y1),
          +ℤ_parts (pos 1) m,
          -ℤ_parts y y1,
          -ℤ_parts y m,
          n2,
          ny,
        ),
        ex ∙ ap (λ (n : ℕ). pos_part x + n) en,
        omega (arith, -ℤ_parts y y1, n2, ny, c.out_pos, sign_cases (y -ℤ y1)),
        omega (arith, c.out_pos),
        rw ey (
            omega
              (arith, div-mul-le_self k (pos_part x1), mul_comm (k / pos_part x1) (pos_part x1))),
        rw ey (lt-mul-div-succ k {b = pos_part x1} (omega (arith, ex, c.x_pos))),
      )
