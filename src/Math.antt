-- ===== src/Math.antt =====
-- The saturating arithmetic of crates/model_safety/src/math.rs, on which the router's state rests.
-- A u128 is a natural number and an i128 an integer; each operation saturates at the ends.
pub mod Bounds
use barista_dex_perc.Prelude.{
  ℕ, suc, ◌+◌, ◌-◌, ◌*◌, ◌/◌, ◌^◌, min, Bool, Option, none, some, ltb, ◌==◌, ◌&&◌, if◌then◌else◌,
}
use barista_dex_perc.Prelude.Int.{
  ℤ, pos, negsuc, pos_part, ◌+ℤ◌, ◌-ℤ◌, ◌*ℤ◌, ◌/ℤ◌, ltb_ℤ, leb_ℤ, ◌==ℤ◌,
}

abbrev pub u128_max : ℕ
u128_max = 2 ^ 128 - 1

abbrev pub i128_max : ℕ
i128_max = 2 ^ 127 - 1

abbrev pub u64_max : ℕ
u64_max = 2 ^ 64 - 1

abbrev pub i64_max : ℕ
i64_max = 2 ^ 63 - 1

-- The nearest i128; `negsuc i128_max` is i128::MIN.
unfoldable pub sat_i128 : ℤ → ℤ
sat_i128 (pos n) = pos (min n i128_max)
sat_i128 (negsuc n) = negsuc (min n i128_max)

unfoldable pub add_u128 : ℕ → ℕ → ℕ
add_u128 a b = min (a + b) u128_max

unfoldable pub sub_u128 : ℕ → ℕ → ℕ
sub_u128 a b = a - b

unfoldable pub add_i128 : ℤ → ℤ → ℤ
add_i128 a b = sat_i128 (a +ℤ b)

unfoldable pub sub_i128 : ℤ → ℤ → ℤ
sub_i128 a b = sat_i128 (a -ℤ b)

unfoldable pub clamp_pos_i128 : ℤ → ℕ
clamp_pos_i128 x =
    if ltb_ℤ (pos 0) x then (if ltb_ℤ (pos i128_max) x then u128_max else pos_part x) else 0

unfoldable pub u128_to_i128 : ℕ → ℤ
u128_to_i128 x = if ltb i128_max x then pos i128_max else pos x

unfoldable pub mul_u128 : ℕ → ℕ → ℕ
mul_u128 a b = min (a * b) u128_max

unfoldable pub div_u128 : ℕ → ℕ → ℕ
div_u128 a b = if b == 0 then 0 else a / b

unfoldable pub min_u128 : ℕ → ℕ → ℕ
min_u128 a b = if ltb a b then a else b

unfoldable pub max_u128 : ℕ → ℕ → ℕ
max_u128 a b = if ltb b a then a else b

unfoldable pub min_i128 : ℤ → ℤ → ℤ
min_i128 a b = if ltb_ℤ a b then a else b

unfoldable pub max_i128 : ℤ → ℤ → ℤ
max_i128 a b = if ltb_ℤ b a then a else b

unfoldable pub mul_i128 : ℤ → ℤ → ℤ
mul_i128 a b = sat_i128 (a *ℤ b)

-- Rust's `/` panics on i128::MIN / -1, which has no i128 value: `none`.
unfoldable pub div_i128 : ℤ → ℤ → Option ℤ
div_i128 a b =
    if b ==ℤ pos 0
    then some (pos 0)
    else if a ==ℤ negsuc i128_max && b ==ℤ negsuc 0
    then none
    else some (a /ℤ b)

-- The value if it is an i64, and if it is an i128: what arithmetic that is not saturating gives.
unfoldable pub fit_i64 : ℤ → Option ℤ
fit_i64 x = if leb_ℤ (negsuc i64_max) x && leb_ℤ x (pos i64_max) then some x else none

unfoldable pub fit_i128 : ℤ → Option ℤ
fit_i128 x = if leb_ℤ (negsuc i128_max) x && leb_ℤ x (pos i128_max) then some x else none
