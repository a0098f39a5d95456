-- ===== src/Router/Position/Average.antt =====
-- The entry price of programs/router/src/state/position_details.rs over a fill on the same side.
use native.Mathlib.Nat.{le-div_iff_mul-le, div-le_of_le-mul, mul-le-mul, le_refl, mul-add, add-mul}
use barista_dex_perc.Prelude.{ℕ, ◌+◌, ◌*◌, ◌/◌, ◌≤◌, ◌<◌, min, max, ◌≡◌, ◌⊎◌, ap, ◌∙◌, some, arith}
use barista_dex_perc.Prelude.Int.{ℤ, pos, pos_part, neg_part, ◌+ℤ◌, ◌*ℤ◌, ◌/ℤ◌}
use barista_dex_perc.Math.{i64_max, fit_i64, add_u128}
use barista_dex_perc.Matcher.{as_i64, signed_64}
use barista_dex_perc.Router.Position.{PositionDetails, abs_i64, quotient, add_to_position}
use barista_dex_perc.Router.Position.Margin.{size}

-- The average of two prices, weighted by sizes, lies between them.
average_between :
    (a b s f : ℕ)
    → 0 < s + f
    → (min a b ≤ (a * s + b * f) / (s + f)) × ((a * s + b * f) / (s + f) ≤ max a b)
average_between a b s f h =
    let l = mul-le-mul {n₁ = min a b} {m₁ = s} {n₂ = a} {m₂ = s} (omega arith) (le_refl s) in
    let l' = mul-le-mul {n₁ = min a b} {m₁ = f} {n₂ = b} {m₂ = f} (omega arith) (le_refl f) in
    let u = mul-le-mul {n₁ = a} {m₁ = s} {n₂ = max a b} {m₂ = s} (omega arith) (le_refl s) in
    let u' = mul-le-mul {n₁ = b} {m₁ = f} {n₂ = max a b} {m₂ = f} (omega arith) (le_refl f) in
    (
      (le-div_iff_mul-le h).1 (omega (arith, l, l', mul-add (min a b) s f)),
      div-le_of_le-mul (s + f) (omega (arith, u, u', add-mul s f (max a b))),
    )

cost_sum : (a b s f : ℕ) → pos a *ℤ pos s +ℤ pos b *ℤ pos f ≡ pos (a * s + b * f)
unfolding ◌+ℤ◌ ◌*ℤ◌
cost_sum a b s f = ground arith

pub /ℤ_pos : (c n : ℕ) → pos c /ℤ pos n ≡ pos (c / n)
unfolding ◌/ℤ◌
/ℤ_pos c n = ground arith

pub as_i64-small : (n : ℕ) → n ≤ i64_max → as_i64 (pos n) ≡ pos n
unfolding as_i64 signed_64
as_i64-small n h = ground arith

-- Two quantities on one side.
abbrev pub SameSide : ℤ → ℤ → Type 0
SameSide t q = ((neg_part t ≡ 0) × (neg_part q ≡ 0)) ⊎ ((pos_part t ≡ 0) × (pos_part q ≡ 0))

SameSide-size : (t q : ℤ) → SameSide t q → size (t +ℤ q) ≡ size t + size q
unfolding ◌+ℤ◌
SameSide-size t q s = ground arith

-- What a growth went through.
pub record Grown (p : PositionDetails) (price qty : ℤ) (margin : ℕ) (p' : PositionDetails)
    : Type 0 where
  pub quantity : p'.total_qty ≡ p.total_qty +ℤ qty
  pub some_size : 0 < size (p.total_qty +ℤ qty)
  pub average :
      p'.avg_entry_price
      ≡ as_i64 (
          (p.avg_entry_price *ℤ pos (size p.total_qty) +ℤ price *ℤ pos (size qty))
          /ℤ pos (size (p.total_qty +ℤ qty)))
  pub held : p'.margin_held ≡ add_u128 p.margin_held margin

pub add_to_position-Grown :
    (p : PositionDetails) (price qty fee ts : ℤ) (margin : ℕ) (p' : PositionDetails)
    → add_to_position p price qty fee ts margin ≡ some p'
    → Grown p price qty margin p'
unfolding add_to_position abs_i64 fit_i64 quotient
add_to_position-Grown p price qty fee ts margin p' h = ground arith

-- A position that grows on its own side, at prices that are not negative i64 values, ends with the
-- sizes and, if they fit, the margins added up, and with an entry price between the old one and that
-- of the fill.
pub add_to_position_average :
    (p : PositionDetails) (a b : ℕ) (qty fee ts : ℤ) (margin : ℕ) (p' : PositionDetails)
    → p.avg_entry_price ≡ pos a
    → a ≤ i64_max
    → b ≤ i64_max
    → SameSide p.total_qty qty
    → add_to_position p (pos b) qty fee ts margin ≡ some p'
    → (n : ℕ) × (p'.avg_entry_price ≡ pos n)
      × (min a b ≤ n)
      × (n ≤ max a b)
      × (size p'.total_qty ≡ size p.total_qty + size qty)
      × (p'.margin_held ≡ add_u128 p.margin_held margin)
add_to_position_average p a b qty fee ts margin p' ea la lb side h =
    let g = add_to_position-Grown p (pos b) qty fee ts margin p' h in
    let s = size p.total_qty in
    let f = size qty in
    let e = SameSide-size p.total_qty qty side in
    let n = (a * s + b * f) / (s + f) in
    let (low, high) = average_between a b s f (omega (arith, e, g.some_size)) in
    (
      n,
      g.average
          ∙ rw (ea, e, cost_sum a b s f, /ℤ_pos (a * s + b * f) (s + f))
              (as_i64-small n (omega (arith, high))),
      low,
      high,
      omega (arith, e, ap pos_part g.quantity, ap neg_part g.quantity),
      g.held,
    )
