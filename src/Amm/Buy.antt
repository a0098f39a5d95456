-- ===== src/Amm/Buy.antt =====
-- A purchase from the pool (`quote_buy` of crates/amm_model/src/math.rs) in natural numbers.
use native.Mathlib.Nat.{lt-mul-div-succ, mul-le-mul_left, mul-add, mul-sub, le-div_iff_mul-le}
use barista_dex_perc.Prelude.{ℕ, ◌+◌, ◌-◌, ◌*◌, ◌/◌, ◌≤◌, ◌<◌, ◌≡◌, refl, ap, ap₂, ◌∙◌, arith}
use barista_dex_perc.Prelude.Int.{
  ℤ, pos, pos_part, neg_part, ◌+ℤ◌, ◌-ℤ◌, ◌*ℤ◌, ◌/ℤ◌, ◌≤ℤ◌, +ℤ_parts, -ℤ_parts, *ℤ_nonneg,
  /ℤ_nonneg, sign_cases,
}
use barista_dex_perc.Prelude.Outcome.{ok}
use barista_dex_perc.Amm.Quote.{bps_scale, QuoteResult, quote_buy}
use barista_dex_perc.Amm.Curve.{Bought, quote_buy-Bought}

-- The pool after a purchase, in parts: `gross` is what the curve asks for and `paid` what is charged.
pub record BoughtParts (x y f dx m : ℤ) (q : QuoteResult) : Type 0 where
  pub paid : ℕ
  pub gross : ℕ
  pub dx_pos : 1 ≤ pos_part dx
  pub x_left : pos_part q.new_x + pos_part dx ≡ pos_part x
  pub x_some : 1 ≤ pos_part q.new_x
  pub floor_kept : pos 1 +ℤ m ≤ℤ q.new_x
  pub y_grown : pos_part q.new_y ≡ pos_part y + paid
  pub quoted : q.quote_amount ≡ pos paid
  pub on_curve : pos_part y + gross ≡ pos_part x * pos_part y / pos_part q.new_x
  pub gross_some : 1 ≤ gross
  pub fee_small : pos_part f < 10_000
  pub charged : paid ≡ gross * 10_000 / (10_000 - pos_part f)

pub nonneg : (a : ℤ) → pos 0 ≤ℤ a → neg_part a ≡ 0
nonneg a h = omega (arith, sign_cases a)

of_parts : (a : ℤ) → neg_part a ≡ 0 → a ≡ pos (pos_part a)
of_parts a h = ground arith

Bought-parts :
    (x y f dx m g : ℤ) (q : QuoteResult)
    → pos 0 ≤ℤ f
    → Bought x y f dx m g q
    → BoughtParts x y f dx m q
Bought-parts x y f dx m g q nf b =
    let c = b.curve in
    let x1 = x -ℤ dx in
    let k = x *ℤ y in
    let nx = nonneg x (omega (arith, c.x_pos)) in
    let ny = nonneg y (omega (arith, c.y_pos)) in
    let nd = nonneg dx (omega (arith, c.dx_pos)) in
    let n1 = nonneg x1 (omega (arith, c.x1_pos)) in
    let ng = nonneg g (omega (arith, c.gross_pos)) in
    let nf' = nonneg f nf in
    let d = bps_scale -ℤ f in
    let ndv = nonneg d (omega (arith, b.fee_small)) in
    let pk = *ℤ_nonneg x y nx ny in
    let pq = /ℤ_nonneg k x1 pk.1 n1 in
    let pg = *ℤ_nonneg g bps_scale ng refl in
    let pa = /ℤ_nonneg (g *ℤ bps_scale) d pg.1 ndv in
    let na : neg_part q.quote_amount ≡ 0 = ap neg_part b.amount ∙ pa.1 in
    let ex : pos_part q.new_x ≡ pos_part x1 = ap pos_part b.x1 in
    let enx : neg_part q.new_x ≡ neg_part x1 = ap neg_part b.x1 in
    let ed : pos_part d ≡ 10_000 - pos_part f = omega (arith, -ℤ_parts bps_scale f, nf', ndv) in
    record {
      paid = pos_part q.quote_amount;
      gross = pos_part g;
      dx_pos = omega (arith, c.dx_pos);
      x_left = omega (arith, ap pos_part b.x1, -ℤ_parts x dx, nx, nd, n1);
      x_some = omega (arith, ap pos_part b.x1, c.x1_pos);
      floor_kept = omega (
        arith,
        ex,
        enx,
        n1,
        c.floor,
        +ℤ_parts (pos 1) dx,
        +ℤ_parts (pos 1) m,
        -ℤ_parts x dx,
        -ℤ_parts x m,
      );
      y_grown = omega (
        arith,
        ap pos_part b.y1,
        +ℤ_parts y q.quote_amount,
        na,
        ny,
        sign_cases (y +ℤ q.quote_amount),
      );
      quoted = of_parts q.quote_amount na;
      on_curve = rw ex (
          omega (
            arith,
            ap pos_part c.gross,
            -ℤ_parts (k /ℤ x1) y,
            ap neg_part c.gross,
            ng,
            ny,
            pq,
            ap (λ (n : ℕ). n / pos_part x1) pk.0,
          ));
      gross_some = omega (arith, c.gross_pos);
      fee_small = omega (arith, b.fee_small, -ℤ_parts bps_scale f, nf', ndv);
      charged = ap pos_part b.amount ∙ pa.0 ∙ ap₂ (λ (a b' : ℕ). a / b') pg.0 ed;
    }

-- The rounded charge covers the gross quote, and a unit more where the fee is worth one.
charge_bound :
    (g f paid : ℕ)
    → f < 10_000
    → paid ≡ g * 10_000 / (10_000 - f)
    → (g ≤ paid) × (10_000 ≤ f * (g + 1) → g + 1 ≤ paid)
charge_bound g f paid h e = (
  rw e (
      (le-div_iff_mul-le {k = 10_000 - f} {x = g} {y = g * 10_000} (omega arith)).1
        (grind (arith, mul-sub g 10_000 f))),
  λ c. rw e (
      (le-div_iff_mul-le {k = 10_000 - f} {x = g + 1} {y = g * 10_000} (omega arith)).1
        (omega (arith, c, mul-sub (g + 1) 10_000 f))),
)

-- Reserves that are at least what the curve asks for keep the product.
product_bound : (k x1 y1 y2 : ℕ) → 1 ≤ x1 → y1 ≡ k / x1 → y1 < y2 → k < x1 * y2
product_bound k x1 y1 y2 p e h = omega (
  arith,
  lt-mul-div-succ k {b = x1} p,
  ap (λ (n : ℕ). x1 * (n + 1)) e,
  mul-le-mul_left x1 h,
  mul-add x1 y1 1,
)

module _ (x y f dx m : ℤ) (q : QuoteResult) where
  -- A purchase at a fee that is not negative keeps the liquidity floor, takes out the base that was
  -- asked for, adds the quote, and lowers the product of the reserves by less than one unit of quote
  -- for each unit of base left.
  pub quote_buy-curve :
      pos 0 ≤ℤ f
      → quote_buy x y f dx m ≡ ok q
      → (pos 1 +ℤ m ≤ℤ q.new_x)
        × (pos_part q.new_x + pos_part dx ≡ pos_part x)
        × (pos_part q.new_y ≡ pos_part y + pos_part q.quote_amount)
        × (pos_part x * pos_part y < pos_part q.new_x * (pos_part q.new_y + 1))
  quote_buy-curve nf h =
      let (g, b) = quote_buy-Bought x y f dx m q h in
      let p = Bought-parts x y f dx m g q nf b in
      (
        p.floor_kept,
        p.x_left,
        omega (arith, p.y_grown, ap pos_part p.quoted),
        product_bound (pos_part x * pos_part y) (pos_part q.new_x) (pos_part y + p.gross)
            (pos_part q.new_y + 1) p.x_some p.on_curve
            (omega
              (arith, p.y_grown, charge_bound p.gross (pos_part f) p.paid p.fee_small p.charged)),
      )

  -- If the fee on the gross quote is worth a unit, the product does not fall at all.
  pub quote_buy-fee :
      pos 0 ≤ℤ f
      → quote_buy x y f dx m ≡ ok q
      → 10_000
        ≤ pos_part f * (pos_part x * pos_part y / (pos_part x - pos_part dx) - pos_part y + 1)
      → pos_part x * pos_part y < pos_part q.new_x * pos_part q.new_y
  quote_buy-fee nf h fee =
      let (g, b) = quote_buy-Bought x y f dx m q h in
      let p = Bought-parts x y f dx m g q nf b in
      let k = pos_part x * pos_part y in
      let ex : pos_part x - pos_part dx ≡ pos_part q.new_x = omega (arith, p.x_left) in
      let eg : k / (pos_part x - pos_part dx) - pos_part y ≡ p.gross =
        rw ex (omega (arith, p.on_curve)) in
      let fee' : 10_000 ≤ pos_part f * (p.gross + 1) = rw eg at fee in
      product_bound k (pos_part q.new_x) (pos_part y + p.gross) (pos_part q.new_y) p.x_some
        p.on_curve
        (omega (
          arith,
          p.y_grown,
          (charge_bound p.gross (pos_part f) p.paid p.fee_small p.charged).1 fee',
        ))
