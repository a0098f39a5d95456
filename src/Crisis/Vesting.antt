-- ===== src/Crisis/Vesting.antt =====
-- How crates/model_safety/src/crisis/materialize.rs vests warming PnL, for a user and in the sums.
use native.Mathlib.Nat.{div-le_of_le-mul, mul-le-mul_left, mul_comm}
use barista_dex_perc.Prelude.{
  ℕ, ◌+◌, ◌-◌, ◌*◌, ◌/◌, ◌≤◌, ◌<◌, ◌≡◌, refl, ap, ◌∙◌, true, some, inl, inr, arith, leb,
  if◌then◌else◌, max, dec_lt, Bool-cases,
}
use barista_dex_perc.Prelude.Int.{
  ℤ, pos, pos_part, ◌+ℤ◌, ◌-ℤ◌, ◌*ℤ◌, ◌/ℤ◌, leb_ℤ, eq_of_parts, +ℤ_parts, -ℤ_parts, sign_cases,
}
use barista_dex_perc.Math.{i128_max, add_i128, sub_i128, fit_i128}
use barista_dex_perc.Math.Bounds.{IsI128, sat_i128_lem}
use barista_dex_perc.Crisis.Accums.{Accums, UserPortfolio}
use barista_dex_perc.Crisis.Materialize.{vest, vested_in, vest_warming_to_realized}

-- A user's warming PnL is part of the sum, and what it can become realises without saturation.
pub record CanVest (u : UserPortfolio) (a : Accums) (tau : ℕ) : Type 0 where
  pub share : pos_part u.warming ≤ pos_part a.sigma_warming
  pub warming_range : IsI128 a.sigma_warming
  pub realized_room : pos_part u.realized + pos_part u.warming ≤ i128_max
  pub sigma_room : pos_part a.sigma_realized + pos_part u.warming ≤ i128_max
  pub realized_range : IsI128 u.realized
  pub sigma_range : IsI128 a.sigma_realized
  pub product : pos_part u.warming * tau ≤ i128_max

-- The same amount moves from warming to realised PnL for the user and in the sums.
pub record Vests (u : UserPortfolio) (a : Accums) (amount : ℕ) (out : UserPortfolio × Accums)
    : Type 0 where
  pub some_left : amount ≤ pos_part u.warming
  pub warming : out.0.warming ≡ u.warming -ℤ pos amount
  pub realized : out.0.realized ≡ u.realized +ℤ pos amount
  pub sigma_warming : out.1.sigma_warming ≡ a.sigma_warming -ℤ pos amount
  pub sigma_realized : out.1.sigma_realized ≡ a.sigma_realized +ℤ pos amount
  pub principal : out.0.principal ≡ u.principal

-- The amount that vests in `dt` slots, of a positive balance.
abbrev pub amount_in : ℕ → ℕ → ℕ → ℕ
amount_in w dt tau = if leb tau dt then w else w * dt / max tau 1

amount_in-le : (w dt tau : ℕ) → amount_in w dt tau ≤ w
amount_in-le w dt tau = elim (dec_lt dt tau) [
  | yes lt ↦ ground (
    arith,
    div-le_of_le-mul (max tau 1) {m = w * dt} {n = w} (
        omega (
          arith,
          mul_comm (max tau 1) w,
          mul-le-mul_left w (let e : dt ≤ max tau 1 = omega arith in e),
        )),
  )
  | no ge ↦ ground arith
]

vested_in-eq :
    (w dt tau : ℕ) → w * tau ≤ i128_max → vested_in (pos w) dt tau ≡ some (pos (amount_in w dt tau))
unfolding vested_in fit_i128 ◌*ℤ◌ ◌/ℤ◌
vested_in-eq w dt tau h = elim (dec_lt dt tau) [
  | yes lt ↦ ground (arith, mul-le-mul_left w (let e : dt ≤ tau = omega arith in e))
  | no ge ↦ ground arith
]

sub_i128-eq : (x : ℤ) (n : ℕ) → IsI128 x → n ≤ pos_part x → sub_i128 x (pos n) ≡ x -ℤ pos n
unfolding sub_i128
sub_i128-eq x n r h =
    sat_i128_lem (x -ℤ pos n)
      (omega (arith, -ℤ_parts x (pos n), sign_cases (x -ℤ pos n), sign_cases x))

add_i128-eq :
    (x : ℤ) (n : ℕ) → IsI128 x → pos_part x + n ≤ i128_max → add_i128 x (pos n) ≡ x +ℤ pos n
unfolding add_i128
add_i128-eq x n r h =
    sat_i128_lem (x +ℤ pos n)
      (omega (arith, +ℤ_parts x (pos n), sign_cases (x +ℤ pos n), sign_cases x))

same-Vests : (u : UserPortfolio) (a : Accums) → Vests u a 0 (u, a)
same-Vests u a = record {
  some_left = omega arith;
  warming = eq_of_parts u.warming (u.warming -ℤ pos 0) (omega (arith, -ℤ_parts u.warming (pos 0)));
  realized =
      eq_of_parts u.realized (u.realized +ℤ pos 0) (omega (arith, +ℤ_parts u.realized (pos 0)));
  sigma_warming =
      eq_of_parts a.sigma_warming (a.sigma_warming -ℤ pos 0)
        (omega (arith, -ℤ_parts a.sigma_warming (pos 0)));
  sigma_realized =
      eq_of_parts a.sigma_realized (a.sigma_realized +ℤ pos 0)
        (omega (arith, +ℤ_parts a.sigma_realized (pos 0)));
  principal = refl;
}

abbrev moved : UserPortfolio → Accums → ℕ → UserPortfolio × Accums
moved u a n = (
  record u { warming = sub_i128 u.warming (pos n); realized = add_i128 u.realized (pos n) },
  record a {
    sigma_warming = sub_i128 a.sigma_warming (pos n);
    sigma_realized = add_i128 a.sigma_realized (pos n);
  },
)

vest-moved : (u : UserPortfolio) (a : Accums) (n : ℕ) → 0 < n → vest u a (pos n) ≡ moved u a n
unfolding vest
vest-moved u a n p = ground arith

vest_none : (u : UserPortfolio) (a : Accums) (n : ℕ) → n ≡ 0 → vest u a (pos n) ≡ (u, a)
unfolding vest
vest_none u a n p = ground arith

vest-Vests :
    (u : UserPortfolio) (a : Accums) (tau n : ℕ)
    → CanVest u a tau
    → n ≤ pos_part u.warming
    → Vests u a n (vest u a (pos n))
vest-Vests u a tau n c le = elim (dec_lt 0 n) [
  | no z ↦ let e : n ≡ 0 = omega arith in rw (vest_none u a n e, e) (same-Vests u a)
  | yes p ↦ rw (vest-moved u a n p) (record {
    some_left = le;
    warming =
        sub_i128-eq u.warming n (omega (arith, c.share, c.warming_range, sign_cases u.warming)) le;
    realized = add_i128-eq u.realized n c.realized_range (omega (arith, c.realized_room));
    sigma_warming = sub_i128-eq a.sigma_warming n c.warming_range (omega (arith, c.share));
    sigma_realized = add_i128-eq a.sigma_realized n c.sigma_range (omega (arith, c.sigma_room));
    principal = refl;
  })
]

-- What vests of a user's warming PnL by a slot: all of it after `tau` slots, and before that the
-- rounded share of the time.
abbrev pub vesting : UserPortfolio → ℕ → ℕ → ℕ
vesting u now tau =
    if leb now u.last_touch_slot
    then 0
    else amount_in (pos_part u.warming) (now - u.last_touch_slot) tau

vesting_none :
    (u : UserPortfolio) (now tau : ℕ) → leb_ℤ u.warming (pos 0) ≡ true → vesting u now tau ≡ 0
vesting_none u now tau h =
    let z : pos_part u.warming ≡ 0 = ground (arith, sign_cases u.warming) in
    ground (arith, amount_in-le (pos_part u.warming) (now - u.last_touch_slot) tau)

-- Vesting ends without a panic, and moves the amount that is due, and no more than the user's warming
-- PnL, from warming to realised PnL, for the user and in the sums, under the ranges of `CanVest`.
pub vest-conserves :
    (u : UserPortfolio) (a : Accums) (now tau : ℕ)
    → CanVest u a tau
    → (out : UserPortfolio × Accums) × (vest_warming_to_realized u a now tau ≡ some out)
      × Vests u a (vesting u now tau) out
unfolding vest_warming_to_realized
vest-conserves u a now tau c =
    let w = pos_part u.warming in
    let dt = now - u.last_touch_slot in
    elim (Bool-cases (leb_ℤ u.warming (pos 0))) [
      | inl y ↦ ((u, a), rw y refl, rw (vesting_none u now tau y) (same-Vests u a))
      | inr n ↦ elim (Bool-cases (leb now u.last_touch_slot)) [
        | inl y ↦ ((u, a), rw (n, y) refl, rw y (same-Vests u a))
        | inr m ↦
            let e : u.warming ≡ pos w = ground arith in
            let v : vested_in u.warming dt tau ≡ some (pos (amount_in w dt tau)) =
              ap (λ x. vested_in x dt tau) e ∙ vested_in-eq w dt tau c.product in
            (
              vest u a (pos (amount_in w dt tau)),
              rw (n, m, v) refl,
              rw m (vest-Vests u a tau (amount_in w dt tau) c (amount_in-le w dt tau)),
            )
      ]
    ]
