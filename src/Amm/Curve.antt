-- ===== src/Amm/Curve.antt =====
-- The quotes of crates/amm_model/src/math.rs against the curve x * y = k.
use barista_dex_perc.Prelude.{◌≡◌, none, some, arith, ◌⊎◌}
use barista_dex_perc.Prelude.Int.{ℤ, pos, ◌+ℤ◌, ◌-ℤ◌, ◌*ℤ◌, ◌/ℤ◌, ◌≤ℤ◌, +ℤ_parts}
use barista_dex_perc.Prelude.Outcome.{ok, >>=-eq-ok}
use barista_dex_perc.Math.{fit_i64, fit_i128}
use barista_dex_perc.Amm.Quote.{
  scale, bps_scale, QuoteResult, fit_quote, charge_fee, curve_buy, quote_buy,
}

fit_i64-eq : {x y : ℤ} → fit_i64 x ≡ some y → x ≡ y
unfolding fit_i64
fit_i64-eq h = ground arith

fit_i128-eq : {x y : ℤ} → fit_i128 x ≡ some y → x ≡ y
unfolding fit_i128
fit_i128-eq h = ground arith

pub fit_quote-ok :
    (a v x y : ℤ) (q : QuoteResult)
    → fit_quote a v x y ≡ ok q
    → q ≡ record { quote_amount = a; vwap_px = v; new_x = x; new_y = y }
unfolding fit_quote
fit_quote-ok a v x y q h = ground arith

pub fit_i64-cases : (x : ℤ) → (fit_i64 x ≡ none) ⊎ (fit_i64 x ≡ some x)
unfolding fit_i64
fit_i64-cases x = ground arith

pub fit_i128-cases : (x : ℤ) → (fit_i128 x ≡ none) ⊎ (fit_i128 x ≡ some x)
unfolding fit_i128
fit_i128-cases x = ground arith

charge_fee-ok :
    (f dx g : ℤ) (r : ℤ × ℤ)
    → charge_fee f dx g ≡ ok r
    → (pos 1 ≤ℤ bps_scale -ℤ f)
      × (r.0 ≡ (g *ℤ bps_scale) /ℤ (bps_scale -ℤ f))
      × (r.1 ≡ (r.0 *ℤ scale) /ℤ dx)
unfolding charge_fee
charge_fee-ok f dx g r h = grind (arith, fit_i128-eq)

-- What the curve grants a purchase.
pub record OnCurve (x y dx m g : ℤ) : Type 0 where
  pub x_pos : pos 1 ≤ℤ x
  pub y_pos : pos 1 ≤ℤ y
  pub dx_pos : pos 1 ≤ℤ dx
  pub x1_pos : pos 1 ≤ℤ x -ℤ dx
  pub floor : pos 1 +ℤ dx ≤ℤ x -ℤ m
  pub gross : g ≡ (x *ℤ y) /ℤ (x -ℤ dx) -ℤ y
  pub gross_pos : pos 1 ≤ℤ g

curve_buy-ok : (x y dx m g : ℤ) → curve_buy x y dx m ≡ ok g → OnCurve x y dx m g
unfolding curve_buy
curve_buy-ok x y dx m g h =
    ground (arith, fit_i64-cases (x -ℤ m), fit_i128-cases (x *ℤ y), +ℤ_parts (pos 1) dx)

pub record Bought (x y f dx m g : ℤ) (q : QuoteResult) : Type 0 where
  pub curve : OnCurve x y dx m g
  pub fee_small : pos 1 ≤ℤ bps_scale -ℤ f
  pub amount : q.quote_amount ≡ (g *ℤ bps_scale) /ℤ (bps_scale -ℤ f)
  pub price : q.vwap_px ≡ (q.quote_amount *ℤ scale) /ℤ dx
  pub x1 : q.new_x ≡ x -ℤ dx
  pub y1 : q.new_y ≡ y +ℤ q.quote_amount

pub quote_buy-Bought :
    (x y f dx m : ℤ) (q : QuoteResult)
    → quote_buy x y f dx m ≡ ok q
    → (g : ℤ) × Bought x y f dx m g q
unfolding quote_buy
quote_buy-Bought x y f dx m q h =
    let (g, e, h1) = >>=-eq-ok (curve_buy x y dx m) _ h in
    let (r, e', h2) = >>=-eq-ok (charge_fee f dx g) _ h1 in
    let c = curve_buy-ok x y dx m g e in
    let d = charge_fee-ok f dx g r e' in
    let z = fit_quote-ok r.0 r.1 (x -ℤ dx) (y +ℤ r.0) q h2 in
    (
      g,
      record { curve = c; fee_small = d.0; amount = cc (d.1); price = cc (d.2); x1 = cc; y1 = cc },
    )
