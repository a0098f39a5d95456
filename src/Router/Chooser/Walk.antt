-- ===== src/Router/Chooser/Walk.antt =====
-- The walk over the levels of a cache, of programs/router/src/chooser.rs.
use native.Mathlib.Nat.{le-div_iff_mul-le, div-le_of_le-mul, mul-le-mul, le_refl, mul-add, mul_comm}
use barista_dex_perc.Prelude.{
  ◌∙◌, sym, subst, ℕ, ◌+◌, ◌-◌, ◌*◌, ◌/◌, ◌≤◌, ◌<◌, ◌≡◌, ◌⊎◌, min, refl, Bool, true, false, some,
  List, [], ◌∷◌, inl, inr, arith, Bool-cases, if◌then◌else◌, ◌||◌,
}
use barista_dex_perc.Prelude.Int.{pos, pos_part, ◌==ℤ◌, ◌+ℤ◌, ◌-ℤ◌, ◌*ℤ◌}
use barista_dex_perc.Prelude.Options.{◌>>=◌}
use barista_dex_perc.Math.{i64_max, i128_max, fit_i64, fit_i128, min_i128}
use barista_dex_perc.Matcher.{QuoteLevel}
use barista_dex_perc.Router.Chooser.{walk_levels}

-- A level at which the levels end.
abbrev ends_at : QuoteLevel → Bool
ends_at l = l.px ==ℤ pos 0 || l.avail_qty ==ℤ pos 0

-- The quantity of the levels, up to their end.
pub depth : List QuoteLevel → ℕ
depth [] = 0
depth (l ∷ levels) = if ends_at l then 0 else pos_part l.avail_qty + depth levels

-- The prices of the levels, up to their end, lie within bounds, and no quantity is negative.
unfoldable pub ArePriced : ℕ → ℕ → List QuoteLevel → Type 0
ArePriced lo hi [] = Unit {0}
ArePriced lo hi (l ∷ levels) =
    (ends_at l ≡ true)
    ⊎ ((p : ℕ) × (q : ℕ) × (l ≡ record { px = pos p; avail_qty = pos q })
        × (lo ≤ p)
        × (p ≤ hi)
        × ArePriced lo hi levels)

fit_i64_pos : (n : ℕ) → n ≤ i64_max → fit_i64 (pos n) ≡ some (pos n)
unfolding fit_i64
fit_i64_pos n h = ground arith

fit_i128_pos : (n : ℕ) → n ≤ i128_max → fit_i128 (pos n) ≡ some (pos n)
unfolding fit_i128
fit_i128_pos n h = ground arith

min_i128_pos : (a b : ℕ) → min_i128 (pos a) (pos b) ≡ pos (min a b)
unfolding min_i128
min_i128_pos a b = ground arith

cost_pos : (c t p : ℕ) → pos c +ℤ pos t *ℤ pos p ≡ pos (c + t * p)
unfolding ◌+ℤ◌ ◌*ℤ◌
cost_pos c t p = ground arith

sum_pos : (a b : ℕ) → pos a +ℤ pos b ≡ pos (a + b)
unfolding ◌+ℤ◌
sum_pos a b = ground arith

less_pos : (a b : ℕ) → b ≤ a → pos a -ℤ pos b ≡ pos (a - b)
unfolding ◌-ℤ◌
less_pos a b h = ground arith

pub zero_of : (n : ℕ) → pos n ==ℤ pos 0 ≡ true → n ≡ 0
zero_of n h = ground arith

pub positive_of : (n : ℕ) → pos n ==ℤ pos 0 ≡ false → 0 < n
positive_of n h = ground arith

module _ (lo hi : ℕ) where
  pub record IsWithin (cost filled : ℕ) : Type 0 where
    pub at_least : lo * filled ≤ cost
    pub at_most : cost ≤ hi * filled

  -- A level within the bounds keeps the cost within them.
  cost-IsWithin : (c f t p : ℕ) → lo ≤ p → p ≤ hi → IsWithin c f → IsWithin (c + t * p) (f + t)
  cost-IsWithin c f t p l h w =
      let below = mul-le-mul {n₁ = t} {m₁ = lo} {n₂ = t} {m₂ = p} (le_refl t) l in
      let above = mul-le-mul {n₁ = t} {m₁ = p} {n₂ = t} {m₂ = hi} (le_refl t) h in
      record {
        at_least = omega (arith, below, w.at_least, mul-add lo f t);
        at_most = omega (arith, above, w.at_most, mul-add hi f t);
      }

  -- Such a cost fits.
  fits_cost : (c f : ℕ) → hi ≤ i64_max → f ≤ i64_max → IsWithin c f → c ≤ i128_max
  fits_cost c f h k w =
      let all = mul-le-mul {n₁ = hi} {m₁ = f} {n₂ = i64_max} {m₂ = i64_max} h k in
      omega (arith, all, w.at_most)

  pub average-between : (c f : ℕ) → 0 < f → IsWithin c f → (lo ≤ c / f) × (c / f ≤ hi)
  average-between c f some_filled w = (
    (le-div_iff_mul-le some_filled).1 w.at_least,
    div-le_of_le-mul f (omega (arith, w.at_most, mul_comm hi f)),
  )

  -- One level.
  walk_one :
      (p q : ℕ) (levels : List QuoteLevel) (r c f : ℕ)
      → ends_at (record { px = pos p; avail_qty = pos q }) ≡ false
      → c + min r q * p ≤ i128_max
      → f + min r q ≤ i64_max
      → r ≤ i64_max
      → walk_levels (record { px = pos p; avail_qty = pos q } ∷ levels) (pos r) (pos c) (pos f)
        ≡ (elim (pos (r - min r q) ==ℤ pos 0) [
          | true ↦ some (pos (c + min r q * p), pos (f + min r q))
          | false ↦
              walk_levels levels (pos (r - min r q)) (pos (c + min r q * p)) (pos (f + min r q))
        ])
  unfolding walk_levels
  walk_one p q levels r c f goes cf ff rf =
      rw
        (
          goes,
          min_i128_pos r q,
          cost_pos c (min r q) p,
          fit_i128_pos (c + min r q * p) cf,
          sum_pos f (min r q),
          fit_i64_pos (f + min r q) ff,
          less_pos r (min r q) (omega arith),
          fit_i64_pos (r - min r q) (omega arith),
          walk_levels,
          ◌>>=◌,
        )
        refl

  -- What a walk from a cost and a quantity ends with.
  unfoldable pub Walked : List QuoteLevel → ℕ → ℕ → ℕ → Type 0
  Walked levels r c f =
      (cost : ℕ) × (filled : ℕ) × (walk_levels levels (pos r) (pos c) (pos f)
        ≡ some (pos cost, pos filled))
      × (filled ≡ f + min r (depth levels))
      × IsWithin cost filled

  at_end :
      (l : QuoteLevel) (levels : List QuoteLevel) (r c f : ℕ)
      → ends_at l ≡ true
      → IsWithin c f
      → Walked (l ∷ levels) r c f
  unfolding Walked depth walk_levels
  at_end l levels r c f e w = (c, f, rw (e, walk_levels) refl, rw (e, depth) (omega arith), w)

  at_level :
      (p q : ℕ) (levels : List QuoteLevel) (r c f : ℕ)
      → ends_at (record { px = pos p; avail_qty = pos q }) ≡ false
      → lo ≤ p
      → p ≤ hi
      → hi ≤ i64_max
      → r + f ≤ i64_max
      → IsWithin c f
      → ((s c' f' : ℕ) → 0 < s → s + f' ≤ i64_max → IsWithin c' f' → Walked levels s c' f')
      → Walked (record { px = pos p; avail_qty = pos q } ∷ levels) r c f
  unfolding Walked depth
  at_level p q levels r c f goes l h top fits w rest =
      let t = min r q in
      let deep : depth (record { px = pos p; avail_qty = pos q } ∷ levels) ≡ q + depth levels =
        rw goes refl in
      let w' = cost-IsWithin c f t p l h w in
      let one =
        walk_one p q levels r c f goes (fits_cost _ _ top (omega arith) w') (omega arith)
          (omega arith) in
      elim (Bool-cases (pos (r - t) ==ℤ pos 0)) [
        | inl none_left ↦ (
          c + t * p,
          f + t,
          one ∙ rw none_left refl,
          let z = zero_of _ none_left in omega arith,
          w',
        )
        | inr left ↦
            let (cost, filled, ran, at, w2) =
              rest (r - t) (c + t * p) (f + t) (positive_of _ left) (omega arith) w' in
            (cost, filled, one ∙ rw left ran, omega (arith, at, positive_of _ left), w2)
      ]

  pub walk_levels-Walked :
      (levels : List QuoteLevel) (r c f : ℕ)
      → 0 < r
      → hi ≤ i64_max
      → r + f ≤ i64_max
      → ArePriced lo hi levels
      → IsWithin c f
      → Walked levels r c f
  unfolding Walked depth walk_levels ArePriced
  walk_levels-Walked [] r c f some_left top fits a w = (c, f, refl, omega arith, w)
  walk_levels-Walked (l ∷ levels) r c f some_left top fits (inl e) w = at_end l levels r c f e w
  walk_levels-Walked (l ∷ levels) r c f some_left top fits (inr (p, q, e, low, high, a)) w =
      subst (λ x. Walked (x ∷ levels) r c f) (sym e)
        (elim (Bool-cases (ends_at (record { px = pos p; avail_qty = pos q }))) [
          | inl over ↦ at_end (record { px = pos p; avail_qty = pos q }) levels r c f over w
          | inr goes ↦
              at_level p q levels r c f goes low high top fits w
                (λ s c' f' n k w'. walk_levels-Walked levels s c' f' n top k a w')
        ])
