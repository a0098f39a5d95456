-- ===== src/Router/PnlVesting.antt =====
-- programs/router/src/state/pnl_vesting.rs. `none` is a panic: a product of a u64 that leaves the u64, or
-- a division that leaves the i128.
pub mod Curve
pub mod Touch
pub mod Fraction
mod Tests
use barista_dex_perc.Prelude.{
  ℕ, ◌+◌, ◌-◌, ◌*◌, ◌/◌, min, Bool, Option, none, some, ltb, leb, ◌==◌, ◌&&◌, ◌||◌, if◌then◌else◌,
}
use barista_dex_perc.Prelude.Int.{ℤ, pos, ltb_ℤ, leb_ℤ, ◌==ℤ◌, ◌+ℤ◌, ◌-ℤ◌}
use barista_dex_perc.Prelude.Options.{◌>>=◌}
use barista_dex_perc.Math.{
  u64_max, mul_u128, div_u128, u128_to_i128, add_i128, sub_i128, min_i128, max_i128, mul_i128,
  div_i128,
}
use barista_dex_perc.Router.Portfolio.{fp_one}

pub record PnlVestingParams : Type 0 where
  pub tau_slots : ℕ
  pub cliff_slots : ℕ

abbrev pub default_vesting : PnlVestingParams
default_vesting = record { tau_slots = 216_000; cliff_slots = 0 }

pub record GlobalHaircut : Type 0 where
  pub pnl_index : ℤ
  pub last_event_id : ℕ
  pub cumulative_haircut : ℤ
  pub max_haircut_per_event_bps : ℕ
  pub max_haircut_per_day_bps : ℕ

abbrev pub default_haircut : GlobalHaircut
default_haircut = record {
  pnl_index = pos fp_one;
  last_event_id = 0;
  cumulative_haircut = pos 0;
  max_haircut_per_event_bps = 3000;
  max_haircut_per_day_bps = 5000;
}

-- The checked product `20 * tau`.
unfoldable pub twenty : ℕ → Option ℕ
twenty tau = if leb (20 * tau) u64_max then some (20 * tau) else none

-- A line from `v0` to `v1`, both in parts of 10,000.
unfoldable pub interpolated : ℕ → ℕ → ℕ → ℕ
interpolated v0 v1 t =
    fp_one * v0 / 10_000 + (fp_one * v1 / 10_000 - fp_one * v0 / 10_000) * t / fp_one

-- The part of the curve for x of 3 and more.
unfoldable pub tail_curve : ℕ → ℕ
tail_curve x =
    if leb (10 * fp_one) x
    then fp_one
    else if ltb x (4 * fp_one)
    then interpolated 9502 9817 (x - 3 * fp_one)
    else if ltb x (5 * fp_one)
    then interpolated 9817 9933 (x - 4 * fp_one)
    else fp_one * 9933 / 10_000
      + (fp_one - fp_one * 9933 / 10_000) * min (x - 5 * fp_one) (5 * fp_one) / (5 * fp_one)

-- The part of the curve for x below 3, which no intermediate result leaves the i128 for, clamped.
unfoldable pub taylor_curve : ℕ → ℤ
taylor_curve x =
    let x2 = x * x / fp_one in
    let x3 = x2 * x / fp_one in
    let x4 = x3 * x / fp_one in
    let x5 = x4 * x / fp_one in
    let result = pos x -ℤ pos (x2 / 2) +ℤ pos (x3 / 6) -ℤ pos (x4 / 24) +ℤ pos (x5 / 120) in
    min_i128 (max_i128 result (pos 0)) (pos fp_one)

unfoldable pub one_minus_exp_neg : ℕ → ℕ → Option ℤ
one_minus_exp_neg dt tau = if tau == 0 then some (pos fp_one) else do
  saturated ← twenty tau
  if leb saturated dt
      then some (pos fp_one)
      else let x = dt * fp_one / tau in
        if leb (3 * fp_one) x then some (pos (tail_curve x)) else some (taylor_curve x)

-- What `on_user_touch` changes.
pub record PnlState : Type 0 where
  pub pnl : ℤ
  pub vested_pnl : ℤ
  pub last_slot : ℕ
  pub pnl_index_checkpoint : ℤ

-- A balance times the ratio of the index to the checkpoint.
unfoldable pub scaled_by : ℤ → ℤ → ℤ → Option ℤ
scaled_by value num den = div_i128 (mul_i128 value num) den

unfoldable pub catch_up : PnlState → ℤ → Option PnlState
catch_up s index =
    if s.pnl_index_checkpoint ==ℤ index
    then some s
    else if ltb_ℤ (pos 0) s.pnl
    then (do
      let den = max_i128 s.pnl_index_checkpoint (pos 1)
      pnl' ← scaled_by s.pnl index den
      vested ← scaled_by s.vested_pnl index den
      some (record s {
        pnl = pnl';
        vested_pnl = min_i128 vested pnl';
        pnl_index_checkpoint = index;
      }))
    else some (record s { pnl_index_checkpoint = index })

unfoldable pub vesting_fraction : ℕ → ℕ → Option ℤ
vesting_fraction dt tau = do
  saturated ← twenty tau
  if leb saturated dt then some (pos fp_one) else one_minus_exp_neg dt tau

-- The last step of `on_user_touch`.
unfoldable pub clamp_vested : PnlState → PnlState
clamp_vested s = record s { vested_pnl = min_i128 s.vested_pnl s.pnl }

unfoldable pub vest_gap : PnlState → PnlVestingParams → ℕ → Option PnlState
vest_gap s params now_slot =
    let dt = now_slot - s.last_slot in
    if ltb 0 dt && ltb_ℤ s.vested_pnl s.pnl
    then (if ltb dt params.cliff_slots then some s else do
      rel ← vesting_fraction dt params.tau_slots
      delta ← div_i128 (mul_i128 (sub_i128 s.pnl s.vested_pnl) rel) (pos fp_one)
      some (
          clamp_vested
            (record s { vested_pnl = add_i128 s.vested_pnl delta; last_slot = now_slot })))
    else some (clamp_vested s)

unfoldable pub on_user_touch : PnlState → GlobalHaircut → PnlVestingParams → ℕ → Option PnlState
on_user_touch s global_haircut vesting_params now_slot = do
  caught ← catch_up s global_haircut.pnl_index
  vest_gap caught vesting_params now_slot

unfoldable pub haircut_raw : ℕ → ℕ → ℤ
haircut_raw shortfall total_positive_pnl =
    if leb total_positive_pnl shortfall
    then pos fp_one
    else u128_to_i128 (div_u128 (mul_u128 shortfall fp_one) total_positive_pnl)

-- The fraction that users keep.
unfoldable pub calculate_haircut_fraction : ℕ → ℕ → ℕ → ℤ
calculate_haircut_fraction shortfall total_positive_pnl max_haircut_bps =
    if total_positive_pnl == 0 || shortfall == 0
    then pos fp_one
    else let max_haircut_fp = u128_to_i128 (div_u128 (mul_u128 max_haircut_bps fp_one) 10_000) in
      sub_i128 (pos fp_one) (min_i128 (haircut_raw shortfall total_positive_pnl) max_haircut_fp)
