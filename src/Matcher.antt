-- ===== src/Matcher.antt =====
-- What the matchers share (programs/common/src: header.rs, quote_cache.rs, fill_receipt.rs, types.rs).
-- Keys are numbers; padding, magic and the offsets of areas in an account are left out.
pub mod Slab
pub mod Fills
pub mod Pool
pub mod PoolFills
pub mod PoolCache
pub mod PoolHistory
mod Tests
mod PoolTests
use barista_dex_perc.Prelude.{
  ℕ, ◌+◌, ◌-◌, ◌%◌, ◌^◌, Bool, List, [], ◌∷◌, leb, ◌==◌, if◌then◌else◌, Option, none, some, zero,
  suc,
}
use barista_dex_perc.Prelude.Int.{ℤ, pos, negsuc}
use barista_dex_perc.Math.{i64_max}

pub data Side : Type 0 where
  buy sell : Side

-- The errors of programs/common/src/error.rs that the modelled code gives.
pub data PercolatorError : Type 0 where
  unauthorized seqno_mismatch invalid_quantity invalid_price : PercolatorError
  invalid_account insufficient_liquidity invalid_instruction : PercolatorError
  invalid_portfolio invalid_order_type invalid_oracle invalid_receipt : PercolatorError
  insufficient_funds portfolio_insufficient_margin portfolio_healthy : PercolatorError
  liquidation_cooldown pool_full overflow underflow invalid_amount : PercolatorError
  stale_price insufficient_balance price_slippage invalid_side : PercolatorError

pub record SlabHeader : Type 0 where
  pub seqno : ℕ
  pub program_id : ℕ
  pub lp_owner : ℕ
  pub router_id : ℕ
  pub instrument : ℕ
  pub contract_size : ℤ
  pub tick : ℤ
  pub lot : ℤ
  pub mark_px : ℤ
  pub taker_fee_bps : ℤ

-- A u32 that wraps.
unfoldable pub increment_seqno : SlabHeader → SlabHeader
increment_seqno h = record h { seqno = (h.seqno + 1) % 2 ^ 32 }

pub record QuoteLevel : Type 0 where
  pub px : ℤ
  pub avail_qty : ℤ

abbrev pub default_level : QuoteLevel
default_level = record { px = pos 0; avail_qty = pos 0 }

pub record QuoteCache : Type 0 where
  pub seqno_snapshot : ℕ
  pub best_bids : List QuoteLevel
  pub best_asks : List QuoteLevel

abbrev pub no_levels : List QuoteLevel
no_levels = default_level ∷ default_level ∷ default_level ∷ default_level ∷ []

abbrev pub new_cache : QuoteCache
new_cache = record { seqno_snapshot = 0; best_bids = no_levels; best_asks = no_levels }

-- The first `n` levels, the rest filled with the default.
unfoldable pub padded : ℕ → List QuoteLevel → List QuoteLevel
padded zero levels = []
padded (suc n) [] = default_level ∷ padded n []
padded (suc n) (l ∷ levels) = l ∷ padded n levels

-- `QuoteCache::update`
unfoldable pub update_cache : ℕ → List QuoteLevel → List QuoteLevel → QuoteCache
update_cache seqno bids asks = record {
  seqno_snapshot = seqno;
  best_bids = padded 4 bids;
  best_asks = padded 4 asks;
}

pub record FillReceipt : Type 0 where
  pub used : ℕ
  pub seqno_committed : ℕ
  pub filled_qty : ℤ
  pub vwap_px : ℤ
  pub notional : ℤ
  pub fee : ℤ
  pub pnl_delta : ℤ

unfoldable pub write_receipt : ℕ → ℤ → ℤ → ℤ → ℤ → FillReceipt
write_receipt seqno filled_qty vwap_px notional fee = record {
  used = 1;
  seqno_committed = seqno;
  filled_qty = filled_qty;
  vwap_px = vwap_px;
  notional = notional;
  fee = fee;
  pnl_delta = pos 0;
}

unfoldable pub is_used : FillReceipt → Bool
is_used r = r.used == 1

-- `as i64`: the 64 low bits, read with a sign.
unfoldable pub signed_64 : ℕ → ℤ
signed_64 m = if leb m i64_max then pos m else negsuc (2 ^ 64 - m - 1)

unfoldable pub as_i64 : ℤ → ℤ
as_i64 (pos n) = signed_64 (n % 2 ^ 64)
as_i64 (negsuc n) = signed_64 (2 ^ 64 - 1 - n % 2 ^ 64)
