-- ===== src/Crisis/Accums.antt =====
-- crates/model_safety/src/crisis/accums.rs: the global aggregates and the state of a user.
use barista_dex_perc.Prelude.{ℕ, Bool, ltb, if◌then◌else◌}
use barista_dex_perc.Prelude.Int.{ℤ, pos, ltb_ℤ, ◌==ℤ◌}
use barista_dex_perc.Math.{add_i128, sub_i128}
use barista_dex_perc.Crisis.Ratio.{one}

pub record Accums : Type 0 where
  pub sigma_principal : ℤ
  pub sigma_realized : ℤ
  pub sigma_warming : ℤ
  pub sigma_collateral : ℤ
  pub sigma_insurance : ℤ
  pub equity_scale : ℕ
  pub warming_scale : ℕ
  pub epoch : ℕ

abbrev pub new_accums : Accums
new_accums = record {
  sigma_principal = pos 0;
  sigma_realized = pos 0;
  sigma_warming = pos 0;
  sigma_collateral = pos 0;
  sigma_insurance = pos 0;
  equity_scale = one;
  warming_scale = one;
  epoch = 0;
}

unfoldable pub assets : Accums → ℤ
assets a = add_i128 a.sigma_collateral a.sigma_insurance

unfoldable pub liabilities : Accums → ℤ
liabilities a = add_i128 (add_i128 a.sigma_principal a.sigma_realized) a.sigma_warming

unfoldable pub deficit : Accums → ℤ
deficit a = let d = sub_i128 (liabilities a) (assets a) in if ltb_ℤ (pos 0) d then d else pos 0

unfoldable pub is_solvent : Accums → Bool
is_solvent a = deficit a ==ℤ pos 0

pub record UserPortfolio : Type 0 where
  pub principal : ℤ
  pub realized : ℤ
  pub warming : ℤ
  pub equity_scale_snap : ℕ
  pub warming_scale_snap : ℕ
  pub last_epoch_applied : ℕ
  pub last_touch_slot : ℕ

abbrev pub new_user : UserPortfolio
new_user = record {
  principal = pos 0;
  realized = pos 0;
  warming = pos 0;
  equity_scale_snap = one;
  warming_scale_snap = one;
  last_epoch_applied = 0;
  last_touch_slot = 0;
}

unfoldable pub equity : UserPortfolio → ℤ
equity u = add_i128 u.principal u.realized

unfoldable pub total_balance : UserPortfolio → ℤ
unfolding equity
total_balance u = add_i128 (equity u) u.warming

unfoldable pub needs_materialization : UserPortfolio → ℕ → Bool
needs_materialization u global_epoch = ltb u.last_epoch_applied global_epoch
