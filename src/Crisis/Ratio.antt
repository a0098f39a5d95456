-- ===== src/Crisis/Ratio.antt =====
-- The Q64.64 numbers of crates/model_safety/src/crisis/amount.rs.
use barista_dex_perc.Prelude.{
  ℕ, ◌+◌, ◌*◌, ◌/◌, ◌%◌, ◌^◌, Option, none, some, ltb, leb, ◌==◌, ◌||◌, if◌then◌else◌,
}
use barista_dex_perc.Prelude.Int.{ℤ, pos, negsuc, pos_part, neg_part, neg_ℤ, ltb_ℤ, leb_ℤ, ◌==ℤ◌}
use barista_dex_perc.Math.{i128_max, add_u128, sub_u128, mul_u128, div_u128}

abbrev pub one : ℕ
one = 2 ^ 64

-- The exact product shifted by 64 bits, from the limbs. The shift of the first term drops the bits
-- that leave the 128.
unfoldable pub wide_mul_shr64 : ℕ → ℕ → ℕ
wide_mul_shr64 a b =
    let a_hi = a / 2 ^ 64 in
    let a_lo = a % 2 ^ 64 in
    let b_hi = b / 2 ^ 64 in
    let b_lo = b % 2 ^ 64 in
    let term1 = mul_u128 a_hi b_hi * 2 ^ 64 % 2 ^ 128 in
    let term2 = mul_u128 a_hi b_lo in
    let term3 = mul_u128 a_lo b_hi in
    let term4 = mul_u128 a_lo b_lo / 2 ^ 64 in
    add_u128 (add_u128 (add_u128 term1 term2) term3) term4

unfoldable pub wide_div : ℕ → ℕ → ℕ
wide_div n d =
    if d == 0
    then 0
    else if ltb n (2 ^ 64)
    then n * 2 ^ 64 / d
    else let n_hi = n / 2 ^ 64 in
      let n_lo = n % 2 ^ 64 in
      let term1 = mul_u128 n_hi (2 ^ 64) in
      let term2 = div_u128 (n_lo * 2 ^ 64) d in add_u128 term1 term2

-- A scale times an i128, rounded toward zero. `none` is the panic of `abs` on i128::MIN.
unfoldable pub mul_scaled : ℕ → ℤ → Option ℤ
mul_scaled scale x =
    if x ==ℤ pos 0 || scale == 0
    then some (pos 0)
    else if x ==ℤ negsuc i128_max
    then none
    else let result = wide_mul_shr64 (pos_part x + neg_part x) scale in
      if ltb i128_max result
      then some (pos i128_max)
      else some (if ltb_ℤ x (pos 0) then neg_ℤ (pos result) else pos result)

-- min(1, numer / denom), and zero where one of them is not positive.
unfoldable pub ratio : ℤ → ℤ → ℕ
ratio numer denom =
    if leb_ℤ numer (pos 0) || leb_ℤ denom (pos 0)
    then 0
    else let result = wide_div (pos_part numer) (pos_part denom) in
      if leb one result then one else result

unfoldable pub one_minus : ℕ → ℕ
one_minus scale = sub_u128 one scale

unfoldable pub mul_scale : ℕ → ℕ → ℕ
mul_scale a b = wide_mul_shr64 a b
