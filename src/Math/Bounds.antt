-- ===== src/Math/Bounds.antt =====
-- What the saturating operations give where nothing saturates, and at the ends.
use barista_dex_perc.Prelude.{ℕ, ◌+◌, ◌-◌, ◌≤◌, ◌≡◌, ◌⊎◌, arith}
use barista_dex_perc.Prelude.Int.{ℤ, pos, negsuc, pos_part, neg_part, ◌-ℤ◌, ◌+ℤ◌}
use barista_dex_perc.Math.{
  u128_max, i128_max, sat_i128, add_u128, sub_u128, add_i128, sub_i128, clamp_pos_i128,
  u128_to_i128, min_u128,
}

-- The range of an i128.
abbrev pub IsI128 : ℤ → Type 0
IsI128 x = (pos_part x ≤ i128_max) × (neg_part x ≤ i128_max + 1)

pub add_u128_lem : (a b : ℕ) → a + b ≤ u128_max → add_u128 a b ≡ a + b
unfolding add_u128
add_u128_lem a b h = omega arith

pub add_u128-le : (a b : ℕ) → (add_u128 a b ≤ u128_max) × (add_u128 a b ≤ a + b)
unfolding add_u128
add_u128-le a b = omega arith

pub sub_u128_lem : (a b : ℕ) → sub_u128 a b ≡ a - b
unfolding sub_u128
sub_u128_lem a b = omega arith

pub min_u128_lem :
    (a b : ℕ) → (min_u128 a b ≤ a) × (min_u128 a b ≤ b) × ((min_u128 a b ≡ a) ⊎ (min_u128 a b ≡ b))
unfolding min_u128
min_u128_lem a b = ground arith

pub clamp_pos_i128_lem : (x : ℤ) → pos_part x ≤ i128_max → clamp_pos_i128 x ≡ pos_part x
unfolding clamp_pos_i128
clamp_pos_i128_lem x h = ground arith

pub u128_to_i128_lem : (x : ℕ) → x ≤ i128_max → u128_to_i128 x ≡ pos x
unfolding u128_to_i128
u128_to_i128_lem x h = ground arith

pub sat_i128_lem : (x : ℤ) → IsI128 x → sat_i128 x ≡ x
unfolding sat_i128
sat_i128_lem (pos n) h = ground arith
sat_i128_lem (negsuc n) h = ground arith

pub sat_i128-IsI128 : (x : ℤ) → IsI128 (sat_i128 x)
unfolding sat_i128
sat_i128-IsI128 (pos n) = omega arith
sat_i128-IsI128 (negsuc n) = omega arith

-- Taking a part of a positive balance away saturates nowhere.
pub sub_i128_parts :
    (x : ℤ) (n : ℕ)
    → IsI128 x
    → n ≤ pos_part x
    → (pos_part (sub_i128 x (pos n)) + n ≡ pos_part x)
      × (neg_part (sub_i128 x (pos n)) ≡ neg_part x)
unfolding sub_i128 sat_i128 ◌-ℤ◌
sub_i128_parts (pos m) n h k = ground arith
sub_i128_parts (negsuc m) n h k = ground arith

-- Where nothing saturates, the parts of a sum.
pub add_i128_parts :
    (x y : ℤ)
    → pos_part x + pos_part y ≤ i128_max
    → neg_part x + neg_part y ≤ i128_max
    → (pos_part (add_i128 x y) ≡ (pos_part x + pos_part y) - (neg_part x + neg_part y))
      × (neg_part (add_i128 x y) ≡ (neg_part x + neg_part y) - (pos_part x + pos_part y))
unfolding add_i128 sat_i128 ◌+ℤ◌
add_i128_parts x y h k = ground arith

-- The size of a negative number, as the source computes it.
pub clamp_neg_i128 :
    (x : ℤ) → neg_part x ≤ i128_max → clamp_pos_i128 (sub_i128 (pos 0) x) ≡ neg_part x
unfolding clamp_pos_i128 sub_i128 sat_i128 ◌-ℤ◌
clamp_neg_i128 x h = ground arith
