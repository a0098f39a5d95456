-- ===== src/Crisis/Materialize.antt =====
-- crates/model_safety/src/crisis/materialize.rs: the reconciliation of a user after a crisis.
use barista_dex_perc.Prelude.{
  ℕ, ◌*◌, ◌/◌, ◌%◌, ◌^◌, ◌-◌, Bool, false, Option, some, leb, ◌==◌, if◌then◌else◌, max,
}
use barista_dex_perc.Prelude.Int.{ℤ, pos, ltb_ℤ, leb_ℤ, ◌*ℤ◌, ◌/ℤ◌}
use barista_dex_perc.Prelude.Options.{◌>>=◌}
use barista_dex_perc.Math.{add_i128, sub_i128, fit_i128}
use barista_dex_perc.Crisis.Ratio.{one, mul_scaled}
use barista_dex_perc.Crisis.Accums.{Accums, UserPortfolio}
use barista_dex_perc.Crisis.Haircut.{least}

pub record MaterializeParams : Type 0 where
  pub now_slot : ℕ
  pub tau_slots : ℕ
  pub burn_principal_first : Bool

abbrev pub default_params : MaterializeParams
default_params = record { now_slot = 0; tau_slots = 4500; burn_principal_first = false }

-- The fraction of a balance to keep. The shift drops the bits that leave the 128.
unfoldable pub scale_delta : ℕ → ℕ → ℕ
scale_delta num den = if leb den num then one else num * 2 ^ 64 % 2 ^ 128 / den

-- The burn, from one balance and then from the other.
unfoldable pub burn_equity : UserPortfolio → ℤ → Bool → UserPortfolio
burn_equity u burn principal_first =
    if ltb_ℤ (pos 0) burn
    then (if principal_first
        then (let burn_p = least burn u.principal in
            record u {
              principal = sub_i128 u.principal burn_p;
              realized = sub_i128 u.realized (sub_i128 burn burn_p);
            })
        else (let burn_r = least burn u.realized in
            record u {
              realized = sub_i128 u.realized burn_r;
              principal = sub_i128 u.principal (sub_i128 burn burn_r);
            }))
    else u

unfoldable pub apply_equity_scale_delta : UserPortfolio → Accums → Bool → Option UserPortfolio
apply_equity_scale_delta u a burn_principal_first =
    if a.equity_scale == max u.equity_scale_snap 1 then some u else do
      let pre_equity = add_i128 u.principal u.realized
      post_equity ← mul_scaled (scale_delta a.equity_scale (max u.equity_scale_snap 1)) pre_equity
      let u' = burn_equity u (sub_i128 pre_equity post_equity) burn_principal_first
      some (record u' { equity_scale_snap = a.equity_scale; last_epoch_applied = a.epoch })

unfoldable pub apply_warming_scale_delta : UserPortfolio → Accums → Option UserPortfolio
apply_warming_scale_delta u a = if a.warming_scale == max u.warming_scale_snap 1 then some u else do
  post_warming ← mul_scaled (scale_delta a.warming_scale (max u.warming_scale_snap 1)) u.warming
  let kept = if ltb_ℤ (pos 0) (sub_i128 u.warming post_warming) then post_warming else u.warming
  some (record u { warming = kept; warming_scale_snap = a.warming_scale })

-- What vests after `dt` slots. The product is checked.
unfoldable pub vested_in : ℤ → ℕ → ℕ → Option ℤ
vested_in warming dt tau_slots =
    if leb tau_slots dt
    then some warming
    else do scaled ← fit_i128 (warming *ℤ pos dt); some (scaled /ℤ pos (max tau_slots 1))

unfoldable pub vest : UserPortfolio → Accums → ℤ → UserPortfolio × Accums
vest u a vested =
    if ltb_ℤ (pos 0) vested
    then (
      record u { warming = sub_i128 u.warming vested; realized = add_i128 u.realized vested },
      record a {
        sigma_warming = sub_i128 a.sigma_warming vested;
        sigma_realized = add_i128 a.sigma_realized vested;
      },
    )
    else (u, a)

unfoldable pub vest_warming_to_realized :
    UserPortfolio → Accums → ℕ → ℕ → Option (UserPortfolio × Accums)
vest_warming_to_realized u a now_slot tau_slots =
    if leb_ℤ u.warming (pos 0)
    then some (u, a)
    else if leb now_slot u.last_touch_slot
    then some (u, a)
    else do
      vested ← vested_in u.warming (now_slot - u.last_touch_slot) tau_slots
      some (vest u a vested)

unfoldable pub reconcile_equity : UserPortfolio → Accums → Bool → Option UserPortfolio
reconcile_equity u a burn_principal_first =
    if u.equity_scale_snap == a.equity_scale
    then some u
    else apply_equity_scale_delta u a burn_principal_first

unfoldable pub reconcile_warming : UserPortfolio → Accums → Option UserPortfolio
reconcile_warming u a =
    if u.warming_scale_snap == a.warming_scale then some u else apply_warming_scale_delta u a

-- `none` where a multiplication panics.
unfoldable pub materialize_user :
    UserPortfolio → Accums → MaterializeParams → Option (UserPortfolio × Accums)
materialize_user u a p = do
  u1 ← reconcile_equity u a p.burn_principal_first
  u2 ← reconcile_warming u1 a
  out ← vest_warming_to_realized u2 a p.now_slot p.tau_slots
  some (record out.0 { last_touch_slot = p.now_slot }, out.1)
