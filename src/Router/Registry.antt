-- ===== src/Router/Registry.antt =====
-- programs/router/src/state/registry.rs. Keys and hashes are numbers, bump and padding are left out,
-- and the array of slabs with its count is the list of its places in use. `none` is Err(()), or in
-- the update of the warm-up a panic.
use barista_dex_perc.Prelude.{
  ℕ, suc, Bool, true, false, Option, none, some, List, [], ◌∷◌, ◌++◌, ltb, leb, ◌==◌, ◌&&◌,
  if◌then◌else◌, length, set,
}
use barista_dex_perc.Prelude.Int.{ℤ, pos}
use barista_dex_perc.Prelude.Options.{◌>>=◌}
use barista_dex_perc.Math.{i64_max, add_i128, sub_i128, max_i128, min_i128}
use barista_dex_perc.Warmup.{
  AdaptiveWarmupConfig, default_warmup, AdaptiveWarmupState, new_warmup_state, q32, step,
}
use barista_dex_perc.Router.Insurance.{
  InsuranceParams, default_params, InsuranceState, default_state,
}
use barista_dex_perc.Router.PnlVesting.{
  PnlVestingParams, default_vesting, GlobalHaircut, default_haircut,
}

abbrev pub max_slabs : ℕ
max_slabs = 16

pub record SlabEntry : Type 0 where
  pub slab_id : ℕ
  pub version_hash : ℕ
  pub oracle_id : ℕ
  pub imr : ℕ
  pub mmr : ℕ
  pub maker_fee_cap : ℕ
  pub taker_fee_cap : ℕ
  pub latency_sla_ms : ℕ
  pub max_exposure : ℕ
  pub registered_ts : ℕ
  pub active : Bool

pub record SlabRegistry : Type 0 where
  pub router_id : ℕ
  pub governance : ℕ
  pub imr : ℕ
  pub mmr : ℕ
  pub liq_band_bps : ℕ
  pub preliq_buffer : ℤ
  pub preliq_band_bps : ℕ
  pub router_cap_per_slab : ℕ
  pub min_equity_to_quote : ℤ
  pub oracle_tolerance_bps : ℕ
  pub insurance_params : InsuranceParams
  pub insurance_state : InsuranceState
  pub pnl_vesting_params : PnlVestingParams
  pub global_haircut : GlobalHaircut
  pub warmup_config : AdaptiveWarmupConfig
  pub warmup_state : AdaptiveWarmupState
  pub total_deposits : ℤ
  pub slabs : List SlabEntry

-- `initialize_in_place`
abbrev pub new_registry : ℕ → ℕ → SlabRegistry
new_registry router_id governance = record {
  router_id = router_id;
  governance = governance;
  imr = 500;
  mmr = 250;
  liq_band_bps = 200;
  preliq_buffer = pos 10_000_000;
  preliq_band_bps = 100;
  router_cap_per_slab = 1_000_000_000;
  min_equity_to_quote = pos 100_000_000;
  oracle_tolerance_bps = 50;
  insurance_params = default_params;
  insurance_state = default_state;
  pnl_vesting_params = default_vesting;
  global_haircut = default_haircut;
  warmup_config = default_warmup;
  warmup_state = new_warmup_state;
  total_deposits = pos 0;
  slabs = [];
}

-- The registry with the entry behind the others, and the entry's index.
unfoldable pub register_slab : SlabRegistry → SlabEntry → Option (SlabRegistry × ℕ)
register_slab r entry =
    if leb max_slabs (length r.slabs)
    then none
    else some
        (record r { slabs = r.slabs ++ (record entry { active = true } ∷ []) }, length r.slabs)

-- The first active entry of a slab, with its index.
unfoldable pub found_slab : ℕ → List SlabEntry → Option (ℕ × SlabEntry)
found_slab slab_id [] = none
found_slab slab_id (e ∷ es) = elim (e.slab_id == slab_id && e.active) [
  | true ↦ some (0, e)
  | false ↦ elim (found_slab slab_id es) [ none ↦ none | some at ↦ some (suc at.0, at.1) ]
]

unfoldable pub find_slab : SlabRegistry → ℕ → Option (ℕ × SlabEntry)
find_slab r slab_id = found_slab slab_id r.slabs

unfoldable pub validate_version : SlabRegistry → ℕ → ℕ → Bool
validate_version r slab_id version_hash = elim (find_slab r slab_id) [
  | none ↦ false
  | some at ↦ at.1.version_hash == version_hash
]

unfoldable pub deactivate_slab : SlabRegistry → ℕ → Option SlabRegistry
deactivate_slab r slab_id = elim (find_slab r slab_id) [
  | none ↦ none
  | some at ↦ some (record r { slabs = set r.slabs at.0 (record at.1 { active = false }) })
]

unfoldable pub update_risk_params : SlabRegistry → ℕ → ℕ → ℕ → Option SlabRegistry
update_risk_params r slab_id imr mmr = elim (find_slab r slab_id) [
  | none ↦ none
  | some at ↦ some (record r { slabs = set r.slabs at.0 (record at.1 { imr = imr; mmr = mmr }) })
]

unfoldable pub update_liquidation_params : SlabRegistry → ℕ → ℕ → ℕ → ℤ → ℕ → ℕ → ℕ → SlabRegistry
update_liquidation_params r imr mmr liq_band preliq_buffer preliq_band cap tolerance = record r {
  imr = imr;
  mmr = mmr;
  liq_band_bps = liq_band;
  preliq_buffer = preliq_buffer;
  preliq_band_bps = preliq_band;
  router_cap_per_slab = cap;
  oracle_tolerance_bps = tolerance;
}

unfoldable pub track_deposit : SlabRegistry → ℤ → SlabRegistry
track_deposit r amount = record r { total_deposits = add_i128 r.total_deposits amount }

unfoldable pub track_withdrawal : SlabRegistry → ℤ → SlabRegistry
track_withdrawal r amount = record r { total_deposits = sub_i128 r.total_deposits amount }

unfoldable pub update_warmup_from_current_state : SlabRegistry → ℕ → ℕ → Option SlabRegistry
update_warmup_from_current_state r oracle_spread_bps insurance_utilization_bps = do
  let deposits = min_i128 (max_i128 r.total_deposits (pos 0)) (pos i64_max)
  let oracle_gap_large = ltb 50 oracle_spread_bps
  let insurance_util_high = ltb 8000 insurance_utilization_bps
  warmup ← step r.warmup_state r.warmup_config (q32 deposits) oracle_gap_large insurance_util_high
  some (record r { warmup_state = warmup })

unfoldable pub update_warmup_state : SlabRegistry → ℤ → Bool → Bool → Option SlabRegistry
update_warmup_state r total_deposits_q32 oracle_gap_large insurance_util_high = do
  warmup ←
      step r.warmup_state r.warmup_config total_deposits_q32 oracle_gap_large insurance_util_high
  some (record r { warmup_state = warmup })
