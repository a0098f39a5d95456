-- ===== src/Router/LpExit.antt =====
-- programs/router/src/instructions/burn_lp_shares.rs and cancel_lp_orders.rs. `abort` is a panic.
pub mod Burns
pub mod Cancels
mod Tests
use barista_dex_perc.Prelude.{
  ℕ, ◌+◌, ◌-◌, ◌*◌, ◌/◌, Bool, true, false, not, ◌||◌, Option, none, some, List, [], ◌∷◌, ltb, leb,
  ◌==◌, if◌then◌else◌, length, set, take, min,
}
use barista_dex_perc.Prelude.Int.{ℤ, pos, ◌*ℤ◌, ◌/ℤ◌}
use barista_dex_perc.Prelude.Arrays.{swap_remove}
use barista_dex_perc.Prelude.Outcome.{Outcome, ok, err, ◌>>=◌, ◌>>◌, reject_if, ok_or, or_abort}
use barista_dex_perc.Math.{fit_i128, add_i128, sub_u128, max_u128}
use barista_dex_perc.Matcher.{PercolatorError}
use barista_dex_perc.Router.LpBucket.{
  new_slab_venue, new_amm_venue, AmmLp, is_stale, SlabLp, found_order, LpBucket, is_amm, is_slab,
}
use barista_dex_perc.Router.Position.{fit_u128}
use barista_dex_perc.Router.Portfolio.{Portfolio, as_i128, found_bucket}

-- `margin * part / whole`, whose product is a u128.
unfoldable pub proportion : ℕ → ℕ → ℕ → Outcome PercolatorError ℕ
proportion margin part whole = do scaled ← or_abort (fit_u128 (margin * part)); ok (scaled / whole)

-- The margin that the shares left over need.
unfoldable pub remaining_margin : ℕ → ℕ → ℕ → Outcome PercolatorError ℕ
remaining_margin margin remaining initial =
    if remaining == 0 then ok 0 else proportion margin remaining initial

-- The buckets with one of them updated, or gone once it is empty.
unfoldable pub replace_bucket : List LpBucket → ℕ → LpBucket → Bool → List LpBucket
replace_bucket buckets at b is_empty = if is_empty then swap_remove buckets at else set buckets at b

unfoldable pub process_burn_lp_shares :
    Portfolio → ℕ → ℕ → ℤ → ℕ → ℕ → Outcome PercolatorError Portfolio
process_burn_lp_shares p market_id shares_to_burn current_share_price current_ts
      max_staleness_seconds =
    do
      reject_if (shares_to_burn == 0) PercolatorError.invalid_amount
      found ←
          ok_or (found_bucket (new_amm_venue market_id) p.lp_buckets)
            PercolatorError.invalid_account
      let bucket = found.1
      reject_if (not (is_amm bucket)) PercolatorError.invalid_account
      amm ← ok_or bucket.amm PercolatorError.invalid_account
      reject_if (is_stale amm current_ts max_staleness_seconds) PercolatorError.stale_price
      reject_if (ltb amm.lp_shares shares_to_burn) PercolatorError.insufficient_balance
      let redemption_value = pos shares_to_burn *ℤ current_share_price /ℤ pos 1_000_000
      let remaining_shares = amm.lp_shares - shares_to_burn
      new_im ← remaining_margin bucket.im remaining_shares amm.lp_shares
      new_mm ← remaining_margin bucket.mm remaining_shares amm.lp_shares
      -- The range that the redemption is compared with, only to log.
      max_expected ← or_abort (fit_i128 (as_i128 (sub_u128 bucket.mm new_mm) *ℤ pos 2))
      let burnt : AmmLp = record {
        lp_shares = remaining_shares;
        share_price_cached = current_share_price;
        last_update_ts = current_ts;
      }
      ok (record p {
        equity = add_i128 p.equity redemption_value;
        lp_buckets =
            replace_bucket p.lp_buckets found.0
              (record bucket { amm = some burnt; im = new_im; mm = new_mm })
              (remaining_shares == 0);
      })

-- The open orders without those that are cancelled, each of which has to be open.
unfoldable pub cancel_ids : List ℕ → List ℕ → Option (List ℕ)
cancel_ids placed [] = some placed
cancel_ids placed (id ∷ ids) = elim (found_order placed id) [
  | none ↦ none
  | some j ↦ cancel_ids (swap_remove placed j) ids
]

-- Millionths of a reserve.
unfoldable pub freed_ratio : ℕ → ℕ → Outcome PercolatorError ℕ
freed_ratio freed reserved = if ltb 0 reserved then proportion freed 1_000_000 reserved else ok 0

unfoldable pub less_freed : Bool → ℕ → ℕ → Outcome PercolatorError ℕ
less_freed is_empty margin ratio =
    if is_empty then ok 0 else do freed ← proportion margin ratio 1_000_000; ok (margin - freed)

unfoldable pub process_cancel_lp_orders :
    Portfolio → ℕ → List ℕ → ℕ → ℕ → ℕ → Outcome PercolatorError Portfolio
process_cancel_lp_orders p market_id order_ids order_count freed_quote freed_base = do
  reject_if (order_count == 0 || length order_ids == 0) PercolatorError.invalid_amount
  found ←
      ok_or (found_bucket (new_slab_venue market_id) p.lp_buckets) PercolatorError.invalid_account
  let bucket = found.1
  reject_if (not (is_slab bucket)) PercolatorError.invalid_account
  slab ← ok_or bucket.slab PercolatorError.invalid_account
  placed ←
      ok_or (cancel_ids slab.open_order_ids (take order_count order_ids))
        PercolatorError.invalid_account
  reject_if (ltb slab.reserved_quote freed_quote) PercolatorError.invalid_amount
  reject_if (ltb slab.reserved_base freed_base) PercolatorError.invalid_amount
  let left : SlabLp = record {
    reserved_quote = sub_u128 slab.reserved_quote freed_quote;
    reserved_base = sub_u128 slab.reserved_base freed_base;
    open_order_ids = placed;
  }
  quote_ratio ← freed_ratio (slab.reserved_quote - left.reserved_quote) slab.reserved_quote
  base_ratio ← freed_ratio (slab.reserved_base - left.reserved_base) slab.reserved_base
  let reduction_ratio = max_u128 quote_ratio base_ratio
  let is_empty = length placed == 0
  new_im ← less_freed is_empty bucket.im reduction_ratio
  new_mm ← less_freed is_empty bucket.mm reduction_ratio
  ok (record p {
    lp_buckets =
        replace_bucket p.lp_buckets found.0
          (record bucket { slab = some left; im = new_im; mm = new_mm }) is_empty;
  })
