-- ===== src/Matcher/Pool.antt =====
-- programs/amm/src: state.rs and process_commit_fill of instructions.rs. `abort` is a panic; the
-- borrow and the size of the pool's own account are left out.
use barista_dex_perc.Prelude.{ℕ, Bool, not, List, [], ◌∷◌, ◌==◌, if◌then◌else◌}
use barista_dex_perc.Prelude.Int.{ℤ, pos, ltb_ℤ, leb_ℤ, ◌==ℤ◌, ◌*ℤ◌, ◌/ℤ◌}
use barista_dex_perc.Prelude.Outcome.{Outcome, ok, err, abort, ◌>>=◌, ◌>>◌, reject_if}
use barista_dex_perc.Amm.Quote.{scale, AmmError, QuoteResult, quote_buy, quote_sell}
use barista_dex_perc.Matcher.{
  Side, PercolatorError, SlabHeader, increment_seqno, QuoteLevel, default_level, QuoteCache,
  new_cache, update_cache, FillReceipt, write_receipt, as_i64,
}

pub record AmmPool : Type 0 where
  pub x_reserve : ℤ
  pub y_reserve : ℤ
  pub fee_bps : ℤ
  pub min_liquidity : ℤ

pub record AmmState : Type 0 where
  pub header : SlabHeader
  pub quote_cache : QuoteCache
  pub pool : AmmPool

unfoldable pub new_amm_state : SlabHeader → ℤ → ℤ → ℤ → AmmState
new_amm_state header x_reserve y_reserve fee_bps = record {
  header = header;
  quote_cache = new_cache;
  pool = record {
    x_reserve = x_reserve;
    y_reserve = y_reserve;
    fee_bps = fee_bps;
    min_liquidity = pos 1000;
  };
}

unfoldable pub spot_price : AmmPool → ℤ
spot_price p =
    if p.x_reserve ==ℤ pos 0 then pos 0 else as_i64 ((p.y_reserve *ℤ scale) /ℤ p.x_reserve)

unfoldable pub pool_quote : AmmPool → Side → ℤ → Outcome AmmError QuoteResult
pool_quote p Side.buy qty = quote_buy p.x_reserve p.y_reserve p.fee_bps qty p.min_liquidity
pool_quote p Side.sell qty = quote_sell p.x_reserve p.y_reserve p.fee_bps qty p.min_liquidity

-- `if let Ok(result)`: an error leaves the default, a panic does not end.
unfoldable pub sampled : Outcome AmmError QuoteResult → ℤ → Outcome PercolatorError QuoteLevel
sampled abort qty = abort
sampled (err e) qty = ok default_level
sampled (ok r) qty = ok (record { px = r.vwap_px; avail_qty = qty })

-- A level of the cache, for a part of the base reserve in millionths.
unfoldable pub sample_level : AmmPool → Side → ℤ → Outcome PercolatorError QuoteLevel
sample_level p side fraction =
    let qty = as_i64 ((p.x_reserve *ℤ fraction) /ℤ pos 1_000_000) in
    if ltb_ℤ (pos 0) qty then sampled (pool_quote p side qty) qty else ok default_level

-- 1, 2, 5 and 10 percent.
abbrev pub sample_fractions : List ℤ
sample_fractions = pos 10_000 ∷ pos 20_000 ∷ pos 50_000 ∷ pos 100_000 ∷ []

unfoldable pub sample_levels : AmmPool → Side → List ℤ → Outcome PercolatorError (List QuoteLevel)
sample_levels p side [] = ok []
sample_levels p side (fraction ∷ fractions) = do
  level ← sample_level p side fraction
  levels ← sample_levels p side fractions
  ok (level ∷ levels)

unfoldable pub sample_cache : AmmState → Outcome PercolatorError QuoteCache
sample_cache s = do
  asks ← sample_levels s.pool Side.buy sample_fractions
  bids ← sample_levels s.pool Side.sell sample_fractions
  ok (update_cache s.header.seqno bids asks)

unfoldable pub synthesize_quote_cache : AmmState → Outcome PercolatorError QuoteCache
synthesize_quote_cache s = if spot_price s.pool ==ℤ pos 0 then ok new_cache else sample_cache s

unfoldable pub from_amm_error : AmmError → PercolatorError
from_amm_error AmmError.invalid_reserves = PercolatorError.invalid_account
from_amm_error AmmError.invalid_amount = PercolatorError.invalid_quantity
from_amm_error AmmError.insufficient_liquidity = PercolatorError.insufficient_liquidity
from_amm_error AmmError.overflow = PercolatorError.invalid_instruction

-- `map_err`
unfoldable pub map_amm_error : Outcome AmmError QuoteResult → Outcome PercolatorError QuoteResult
map_amm_error abort = abort
map_amm_error (err e) = err (from_amm_error e)
map_amm_error (ok r) = ok r

-- Whether the price is worse than the limit.
unfoldable pub beyond_limit : Side → ℤ → ℤ → Bool
beyond_limit Side.buy vwap limit_px = ltb_ℤ limit_px vwap
beyond_limit Side.sell vwap limit_px = ltb_ℤ vwap limit_px

unfoldable pub check_order : AmmState → Bool → ℕ → ℤ → ℤ → Outcome PercolatorError (Unit {0})
check_order s is_signer router qty limit_px = do
  reject_if (not is_signer) PercolatorError.unauthorized
  reject_if (not (s.header.router_id == router)) PercolatorError.unauthorized
  reject_if (leb_ℤ qty (pos 0)) PercolatorError.invalid_quantity
  reject_if (leb_ℤ limit_px (pos 0)) PercolatorError.invalid_price
  ok tt

-- The pool with the reserves that a quote leaves.
unfoldable pub with_reserves : AmmState → QuoteResult → AmmState
with_reserves s r = record s { pool = record s.pool { x_reserve = r.new_x; y_reserve = r.new_y } }

-- The receipt, with the notional and the fee.
unfoldable pub fill_receipt : AmmState → ℤ → QuoteResult → FillReceipt
fill_receipt s qty r =
    let notional = as_i64 ((qty *ℤ r.vwap_px) /ℤ pos 1_000_000) in
    write_receipt s.header.seqno qty r.vwap_px notional
      (as_i64 ((notional *ℤ s.pool.fee_bps) /ℤ pos 10_000))

unfoldable pub process_commit_fill :
    AmmState → Bool → ℕ → Bool → Side → ℤ → ℤ → Outcome PercolatorError (AmmState × FillReceipt)
process_commit_fill s is_signer router receipt_fits side qty limit_px = do
  check_order s is_signer router qty limit_px
  result ← map_amm_error (pool_quote s.pool side qty)
  reject_if (beyond_limit side result.vwap_px limit_px) PercolatorError.invalid_price
  cache ← synthesize_quote_cache (with_reserves s result)
  reject_if (not receipt_fits) PercolatorError.invalid_account
  ok (
    record (with_reserves s result) { header = increment_seqno s.header; quote_cache = cache },
    fill_receipt s qty result,
  )
