-- ===== src/Safety/State.antt =====
-- The state of the safety model: crates/model_safety/src/state.rs.
use barista_dex_perc.Prelude.{ℕ, Bool, List}
use barista_dex_perc.Prelude.Int.{ℤ}

pub record Warmup : Type 0 where
  pub started_at_slot : ℕ
  pub slope_per_step : ℕ

pub record Account : Type 0 where
  pub principal : ℕ
  pub pnl_ledger : ℤ
  pub reserved_pnl : ℕ
  pub warmup_state : Warmup
  pub position_size : ℕ

pub record Params : Type 0 where
  pub max_users : ℕ
  pub withdraw_cap_per_step : ℕ
  pub maintenance_margin_bps : ℕ

pub record State : Type 0 where
  pub vault : ℕ
  pub insurance_fund : ℕ
  pub fees_outstanding : ℕ
  pub users : List Account
  pub params : Params
  pub authorized_router : Bool
