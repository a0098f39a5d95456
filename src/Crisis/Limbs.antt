-- ===== src/Crisis/Limbs.antt =====
-- The limb arithmetic of crates/model_safety/src/crisis/amount.rs against exact arithmetic.
use native.Mathlib.Nat.{mul-add-div, mul-le-mul_left, div-le_of_le-mul}
use barista_dex_perc.Prelude.{
  ℕ, ◌+◌, ◌-◌, ◌*◌, ◌/◌, ◌%◌, ◌^◌, ◌≤◌, ◌<◌, min, ◌≡◌, refl, ap, ap₂, sym, ◌∙◌, some, arith,
}
use barista_dex_perc.Prelude.Int.{pos}
use barista_dex_perc.Math.{u128_max, i128_max, add_u128, sub_u128, mul_u128}
use barista_dex_perc.Crisis.Ratio.{one, wide_mul_shr64, wide_div, mul_scaled, ratio, one_minus}

-- The product of two limbs fits.
limb_product : (a b : ℕ) → a < 2 ^ 64 → b < 2 ^ 64 → mul_u128 a b ≡ a * b
unfolding mul_u128
limb_product a b h k = grind arith

-- The shifted product in limbs.
shifted_product :
    (ah al bh bl : ℕ)
    → (ah * 2 ^ 64 + al) * (bh * 2 ^ 64 + bl) / 2 ^ 64
      ≡ ah * bh * 2 ^ 64 + ah * bl + al * bh + al * bl / 2 ^ 64
shifted_product ah al bh bl =
    let F = 2 ^ 64 in
    ap (λ (n : ℕ). n / F)
      (let e : (ah * F + al) * (bh * F + bl) ≡ F * (ah * bh * F + ah * bl + al * bh) + al * bl =
          omega arith in
        e)
    ∙ mul-add-div {m = F} (omega arith) (ah * bh * F + ah * bl + al * bh) (al * bl)

-- Sums that fit, after the shift of the first term.
limb_sum :
    (p q r t : ℕ)
    → p * 2 ^ 64 + q + r + t / 2 ^ 64 ≤ u128_max
    → add_u128 (add_u128 (add_u128 (p * 2 ^ 64 % 2 ^ 128) q) r) (t / 2 ^ 64)
      ≡ p * 2 ^ 64 + q + r + t / 2 ^ 64
unfolding add_u128
limb_sum p q r t h = omega arith

-- The limbs compute the product shifted by 64 bits exactly, wherever that fits.
pub wide_mul_shr64-exact :
    (a b : ℕ)
    → a ≤ u128_max
    → b ≤ u128_max
    → a * b / 2 ^ 64 ≤ u128_max
    → wide_mul_shr64 a b ≡ a * b / 2 ^ 64
unfolding wide_mul_shr64 add_u128
wide_mul_shr64-exact a b ha hb fits =
    let F = 2 ^ 64 in
    let ah = a / F in
    let al = a % F in
    let bh = b / F in
    let bl = b % F in
    let ea : ah * F + al ≡ a = omega arith in
    let eb : bh * F + bl ≡ b = omega arith in
    let s : a * b / F ≡ ah * bh * F + ah * bl + al * bh + al * bl / F =
      sym (ap₂ (λ (m n : ℕ). m * n / F) ea eb) ∙ shifted_product ah al bh bl in
    let pa : ah < F = omega arith in
    let pb : bh < F = omega arith in
    let la : al < F = omega arith in
    let lb : bl < F = omega arith in
    rw
      (
        wide_mul_shr64,
        limb_product ah bl pa lb,
        limb_product al bh la pb,
        limb_product al bl la lb,
        limb_product ah bh pa pb,
      )
      (limb_sum (ah * bh) (ah * bl) (al * bh) (al * bl) (omega (arith, s)) ∙ sym s)

-- A scale of at most one shrinks what it multiplies, rounding down.
pub scaled-le : (a scale : ℕ) → scale ≤ one → a * scale / 2 ^ 64 ≤ a
scaled-le a scale h = div-le_of_le-mul (2 ^ 64) (omega (arith, mul-le-mul_left a h))

pub wide_mul_shr64-scaled :
    (a scale : ℕ) → a ≤ u128_max → scale ≤ one → wide_mul_shr64 a scale ≡ a * scale / 2 ^ 64
wide_mul_shr64-scaled a scale ha h =
    wide_mul_shr64-exact a scale ha (omega arith) (omega (arith, scaled-le a scale h))

pub mul_scaled-eq :
    (scale n : ℕ)
    → scale ≤ one
    → n ≤ i128_max
    → mul_scaled scale (pos n) ≡ some (pos (n * scale / 2 ^ 64))
unfolding mul_scaled
mul_scaled-eq scale n h k =
    ground (arith, wide_mul_shr64-scaled n scale (omega arith) h, scaled-le n scale h)

pub one_minus-eq : (r : ℕ) → one_minus r ≡ one - r
unfolding one_minus sub_u128
one_minus-eq r = refl

-- A ratio of small numbers is the rounded quotient, and never more than one.
pub ratio-eq : (n d : ℕ) → 0 < d → n < one → ratio (pos n) (pos d) ≡ min one (n * 2 ^ 64 / d)
unfolding ratio wide_div
ratio-eq n d p h = ground arith

-- A numerator of 2^64 or more counts as the whole, whatever the denominator.
pub ratio_wide : (n d : ℕ) → 0 < d → one ≤ n → n ≤ i128_max → ratio (pos n) (pos d) ≡ one
unfolding ratio wide_div mul_u128 add_u128
ratio_wide n d p h k = ground arith
