-- ===== src/Common/Rounding.antt =====
-- The rounding of programs/common/src/math.rs.
use native.Mathlib.Nat.{div-mul-le_self, lt-mul-div-succ, mul_comm, add-mul-mod_self_right, mul-add}
use barista_dex_perc.Prelude.{ℕ, ◌+◌, ◌-◌, ◌*◌, ◌/◌, ◌≤◌, ◌<◌, ◌≡◌, true, some, arith}
use barista_dex_perc.Math.{u128_max}
use barista_dex_perc.Router.Position.{fit_u128}
use barista_dex_perc.Common.{div_ceil_u128, is_tick_aligned, round_to_tick}

-- A price is rounded down to the last multiple of a tick, which is aligned.
pub round_to_tick_lem :
    (price tick : ℕ)
    → 0 < tick
    → (r : ℕ) × (round_to_tick price tick ≡ some r)
      × (is_tick_aligned r tick ≡ some true)
      × (r ≤ price)
      × (price < r + tick)
unfolding round_to_tick is_tick_aligned
round_to_tick_lem price tick h = (
  price / tick * tick,
  ground arith,
  ground (arith, add-mul-mod_self_right 0 (price / tick) tick),
  div-mul-le_self price tick,
  omega
      (arith, lt-mul-div-succ price h, mul_comm (price / tick) tick, mul-add tick (price / tick) 1),
)

-- A quotient that is rounded up covers the numerator, and one less would not.
pub div_ceil_u128_lem :
    (numerator denominator : ℕ)
    → 0 < denominator
    → numerator + denominator ≤ u128_max
    → (k : ℕ) × (div_ceil_u128 numerator denominator ≡ some k)
      × (numerator ≤ k * denominator)
      × (k * denominator < numerator + denominator)
unfolding div_ceil_u128 fit_u128
div_ceil_u128_lem n d h fits =
    let k = (n + d - 1) / d in
    (
      k,
      ground arith,
      omega (arith, lt-mul-div-succ (n + d - 1) h, mul_comm k d, mul-add d k 1),
      omega (arith, div-mul-le_self (n + d - 1) d),
    )
