-- ===== src/Keeper.antt =====
-- keeper/src/health.rs, and the records of keeper/src/priority_queue.rs and config.rs with their tests. A price map is
-- a function from instruments, `none` where a key is missing.
pub mod Zones
mod Tests
use barista_dex_perc.Prelude.{
  ℕ, zero, suc, Bool, true, false, ◌&&◌, Option, none, some, List, [], ◌∷◌, ltb, if◌then◌else◌,
}
use barista_dex_perc.Prelude.Int.{ℤ, pos, ltb_ℤ, leb_ℤ, ◌+ℤ◌, ◌-ℤ◌, ◌*ℤ◌, ◌/ℤ◌}
use barista_dex_perc.Prelude.Options.{◌>>=◌}
use barista_dex_perc.Math.{fit_i128}
use barista_dex_perc.Router.Portfolio.{as_i128}

pub record PortfolioExposure : Type 0 where
  pub slab_idx : ℕ
  pub instrument_idx : ℕ
  pub qty : ℤ

pub record Portfolio : Type 0 where
  pub equity : ℤ
  pub im : ℕ
  pub mm : ℕ
  pub exposures : List PortfolioExposure
  pub exposure_count : ℕ

-- `unwrap_or(0)`
abbrev price_or_zero : Option ℤ → ℤ
price_or_zero none = pos 0
price_or_zero (some price) = price

-- The loop over exposures, with the passes that are left.
unfoldable pub add_notionals : ℕ → List PortfolioExposure → (ℕ → Option ℤ) → ℤ → Option ℤ
add_notionals zero exposures oracle_prices equity = some equity
add_notionals (suc n) [] oracle_prices equity = some equity
add_notionals (suc n) (e ∷ exposures) oracle_prices equity = do
  product ← fit_i128 (e.qty *ℤ price_or_zero (oracle_prices e.instrument_idx))
  equity' ← fit_i128 (equity +ℤ product /ℤ pos 1_000_000)
  add_notionals n exposures oracle_prices equity'

unfoldable pub calculate_equity : Portfolio → (ℕ → Option ℤ) → Option ℤ
calculate_equity portfolio oracle_prices =
    add_notionals portfolio.exposure_count portfolio.exposures oracle_prices portfolio.equity

unfoldable pub calculate_health : Portfolio → (ℕ → Option ℤ) → Option ℤ
calculate_health portfolio oracle_prices = do
  equity ← calculate_equity portfolio oracle_prices
  fit_i128 (equity -ℤ as_i128 portfolio.mm)

-- The length of the account's data is all that is read of it.
unfoldable pub parse_portfolio : ℕ → Option Portfolio
parse_portfolio data_len =
    if ltb data_len 1_024
    then none
    else some (record { equity = pos 0; im = 0; mm = 0; exposures = []; exposure_count = 0 })

pub record UserHealth : Type 0 where
  pub user : ℕ
  pub portfolio : ℕ
  pub health : ℤ
  pub equity : ℤ
  pub mm : ℕ
  pub last_update : ℕ

unfoldable pub needs_liquidation : UserHealth → ℤ → Bool
needs_liquidation u threshold = leb_ℤ u.health threshold

unfoldable pub in_preliq_zone : UserHealth → ℤ → Bool
in_preliq_zone u buffer = ltb_ℤ (pos 0) u.health && ltb_ℤ u.health buffer

-- `values().filter(…)`, over the values in any order.
unfoldable pub get_liquidatable : List UserHealth → ℤ → List UserHealth
get_liquidatable [] threshold = []
get_liquidatable (u ∷ users) threshold =
    let rest = get_liquidatable users threshold in
    if needs_liquidation u threshold then u ∷ rest else rest

-- Whether the keeper asks for a pre-liquidation, of a user that needs liquidation.
unfoldable pub is_preliq : UserHealth → ℤ → Bool
is_preliq user_health preliq_buffer =
    ltb_ℤ (pos 0) user_health.health && ltb_ℤ user_health.health preliq_buffer

abbrev pub liquidation_threshold : ℤ
liquidation_threshold = pos 0

abbrev pub preliq_buffer : ℤ
preliq_buffer = pos 10_000_000
