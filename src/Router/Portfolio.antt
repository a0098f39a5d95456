-- ===== src/Router/Portfolio.antt =====
-- programs/router/src/state/portfolio.rs. Keys are numbers, padding and bumps are left out, and an
-- array with a count is the list of its places in use. `none` is Err(()), after which the portfolio is
-- as it was.
pub mod Exposures
pub mod Lookup
pub mod Totals
use barista_dex_perc.Prelude.{
  ℕ, suc, ◌+◌, ◌-◌, ◌*◌, ◌^◌, Bool, true, false, not, ◌&&◌, Option, none, some, List, [], ◌∷◌, ◌++◌,
  ltb, leb, ◌==◌, if◌then◌else◌, length, set, foldl, get_elem?,
}
use barista_dex_perc.Prelude.Int.{ℤ, pos, negsuc, leb_ℤ, ◌==ℤ◌}
use barista_dex_perc.Prelude.Arrays.{swap_remove}
use barista_dex_perc.Math.{i128_max, add_u128, sub_i128, u128_to_i128}
use barista_dex_perc.Router.LpBucket.{LpBucket, VenueId, same_venue, max_lp_buckets}

-- MAX_SLABS * MAX_INSTRUMENTS
abbrev pub max_exposures : ℕ
max_exposures = 16 * 32

-- The fixed-point one of state/pnl_vesting.rs.
abbrev pub fp_one : ℕ
fp_one = 1_000_000_000

pub record Exposure : Type 0 where
  pub slab_idx : ℕ
  pub instrument_idx : ℕ
  pub qty : ℤ

pub record Portfolio : Type 0 where
  pub router_id : ℕ
  pub user : ℕ
  pub equity : ℤ
  pub im : ℕ
  pub mm : ℕ
  pub free_collateral : ℤ
  pub last_mark_ts : ℕ
  pub health : ℤ
  pub last_liquidation_ts : ℕ
  pub cooldown_seconds : ℕ
  pub principal : ℤ
  pub pnl : ℤ
  pub vested_pnl : ℤ
  pub last_slot : ℕ
  pub pnl_index_checkpoint : ℤ
  pub exposures : List Exposure
  pub lp_buckets : List LpBucket

-- `initialize_in_place`
abbrev pub new_portfolio : ℕ → ℕ → Portfolio
new_portfolio router_id user = record {
  router_id = router_id;
  user = user;
  equity = pos 0;
  im = 0;
  mm = 0;
  free_collateral = pos 0;
  last_mark_ts = 0;
  health = pos 0;
  last_liquidation_ts = 0;
  cooldown_seconds = 60;
  principal = pos 0;
  pnl = pos 0;
  vested_pnl = pos 0;
  last_slot = 0;
  pnl_index_checkpoint = pos fp_one;
  exposures = [];
  lp_buckets = [];
}

unfoldable pub has_key : ℕ → ℕ → Exposure → Bool
has_key s i e = e.slab_idx == s && e.instrument_idx == i

-- The first place of a key.
unfoldable pub found_exposure : ℕ → ℕ → List Exposure → Option (ℕ × Exposure)
found_exposure s i [] = none
found_exposure s i (e ∷ es) = elim (has_key s i e) [
  | true ↦ some (0, e)
  | false ↦ elim (found_exposure s i es) [ none ↦ none | some at ↦ some (suc at.0, at.1) ]
]

-- The places in use after `update_exposure`.
unfoldable pub updated : List Exposure → ℕ → ℕ → ℤ → List Exposure
updated es s i qty = elim (found_exposure s i es) [
  | some at ↦
      (let es' = set es at.0 (record at.1 { qty = qty }) in
        if qty ==ℤ pos 0 then swap_remove es' at.0 else es')
  | none ↦
      if not (qty ==ℤ pos 0) && ltb (length es) max_exposures
      then es ++ (record { slab_idx = s; instrument_idx = i; qty = qty } ∷ [])
      else es
]

unfoldable pub update_exposure : Portfolio → ℕ → ℕ → ℤ → Portfolio
update_exposure p s i qty = record p { exposures = updated p.exposures s i qty }

unfoldable pub exposure_in : List Exposure → ℕ → ℕ → ℤ
exposure_in [] s i = pos 0
exposure_in (e ∷ es) s i = if has_key s i e then e.qty else exposure_in es s i

unfoldable pub get_exposure : Portfolio → ℕ → ℕ → ℤ
get_exposure p s i = exposure_in p.exposures s i

unfoldable pub update_margin : Portfolio → ℕ → ℕ → Portfolio
update_margin p im mm = record p {
  im = im;
  mm = mm;
  free_collateral = sub_i128 p.equity (u128_to_i128 im);
}

unfoldable pub update_equity : Portfolio → ℤ → Portfolio
update_equity p equity = record p {
  equity = equity;
  free_collateral = sub_i128 equity (u128_to_i128 p.im);
}

-- `as i128`, which wraps.
unfoldable pub as_i128 : ℕ → ℤ
as_i128 n = if leb n i128_max then pos n else negsuc (2 ^ 128 - n - 1)

unfoldable pub has_sufficient_margin : Portfolio → Bool
has_sufficient_margin p = leb_ℤ (as_i128 p.im) p.equity

unfoldable pub is_above_maintenance : Portfolio → Bool
is_above_maintenance p = leb_ℤ (as_i128 p.mm) p.equity

-- The first active bucket at a venue, with its place.
unfoldable pub found_bucket : VenueId → List LpBucket → Option (ℕ × LpBucket)
found_bucket venue [] = none
found_bucket venue (b ∷ bs) = elim (b.active && same_venue b.venue venue) [
  | true ↦ some (0, b)
  | false ↦ elim (found_bucket venue bs) [ none ↦ none | some at ↦ some (suc at.0, at.1) ]
]

unfoldable pub find_lp_bucket : Portfolio → VenueId → Option LpBucket
find_lp_bucket p venue = elim (found_bucket venue p.lp_buckets) [
  | none ↦ none
  | some at ↦ some at.1
]

unfoldable pub add_lp_bucket : Portfolio → LpBucket → Option Portfolio
add_lp_bucket p bucket =
    if leb max_lp_buckets (length p.lp_buckets)
    then none
    else elim (find_lp_bucket p bucket.venue) [
      | some _ ↦ none
      | none ↦ some (record p { lp_buckets = p.lp_buckets ++ (bucket ∷ []) })
    ]

unfoldable pub remove_lp_bucket : Portfolio → VenueId → Option Portfolio
remove_lp_bucket p venue = elim (found_bucket venue p.lp_buckets) [
  | none ↦ none
  | some at ↦ some (record p { lp_buckets = swap_remove p.lp_buckets at.0 })
]

unfoldable pub calculate_total_mm : Portfolio → ℕ
calculate_total_mm p =
    foldl (λ total b. if b.active then add_u128 total b.mm else total) p.mm p.lp_buckets

unfoldable pub calculate_total_im : Portfolio → ℕ
calculate_total_im p =
    foldl (λ total b. if b.active then add_u128 total b.im else total) p.im p.lp_buckets

unfoldable pub has_sufficient_margin_venue_aware : Portfolio → Bool
has_sufficient_margin_venue_aware p = leb_ℤ (as_i128 (calculate_total_im p)) p.equity

unfoldable pub is_above_maintenance_venue_aware : Portfolio → Bool
is_above_maintenance_venue_aware p = leb_ℤ (as_i128 (calculate_total_mm p)) p.equity
