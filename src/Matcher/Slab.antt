-- ===== src/Matcher/Slab.antt =====
-- programs/slab/src: instructions/commit_fill.rs on the state of state/slab.rs, whose book is not read.
use barista_dex_perc.Prelude.{
  ℕ, ◌+◌, ◌^◌, Bool, not, Option, none, some, [], ◌∷◌, ltb, ◌==◌, if◌then◌else◌,
}
use barista_dex_perc.Prelude.Int.{ℤ, pos, leb_ℤ, neg_ℤ, ◌*ℤ◌, ◌/ℤ◌}
use barista_dex_perc.Prelude.Outcome.{Outcome, ok, ◌>>=◌, ◌>>◌, reject_if, or_abort}
use barista_dex_perc.Matcher.{
  Side, PercolatorError, SlabHeader, increment_seqno, QuoteCache, update_cache, FillReceipt,
  write_receipt, as_i64,
}

pub record SlabState : Type 0 where
  pub header : SlabHeader
  pub quote_cache : QuoteCache

unfoldable pub update_quote_cache_after_fill : ℕ → Side → ℤ → ℤ → QuoteCache
update_quote_cache_after_fill seqno Side.buy px qty =
    update_cache seqno (record { px = px; avail_qty = qty } ∷ []) []
update_quote_cache_after_fill seqno Side.sell px qty =
    update_cache seqno [] (record { px = px; avail_qty = qty } ∷ [])

-- `header.seqno + 1`, a checked u32.
unfoldable pub next_seqno : SlabHeader → Option ℕ
next_seqno h = if ltb (h.seqno + 1) (2 ^ 32) then some (h.seqno + 1) else none

unfoldable pub signed_qty : Side → ℤ → ℤ
signed_qty Side.buy qty = qty
signed_qty Side.sell qty = neg_ℤ qty

unfoldable pub fill_notional : ℤ → ℤ → ℤ
fill_notional qty px = as_i64 ((qty *ℤ px) /ℤ pos 1_000_000)

unfoldable pub fill_fee : ℤ → ℤ → ℤ
fill_fee notional fee_bps = as_i64 ((notional *ℤ fee_bps) /ℤ pos 10_000)

-- The checks that begin `process_commit_fill`.
unfoldable pub check_fill : SlabState → ℕ → ℕ → ℤ → ℤ → Outcome PercolatorError (Unit {0})
check_fill slab router_signer expected_seqno qty limit_px = do
  reject_if (not (slab.header.router_id == router_signer)) PercolatorError.unauthorized
  reject_if (not (slab.header.seqno == expected_seqno)) PercolatorError.seqno_mismatch
  reject_if (leb_ℤ qty (pos 0)) PercolatorError.invalid_quantity
  reject_if (leb_ℤ limit_px (pos 0)) PercolatorError.invalid_price
  ok tt

-- The state after the fill, and the receipt; `receipt_fits` says that the receipt's account can be
-- borrowed and is large enough.
unfoldable pub process_commit_fill :
    SlabState → Bool → ℕ → ℕ → Side → ℤ → ℤ → Outcome PercolatorError (SlabState × FillReceipt)
process_commit_fill slab receipt_fits router_signer expected_seqno side qty limit_px = do
  check_fill slab router_signer expected_seqno qty limit_px
  next ← or_abort (next_seqno slab.header)
  reject_if (not receipt_fits) PercolatorError.invalid_account
  let notional = fill_notional qty limit_px
  ok (
    record slab {
      header = increment_seqno slab.header;
      quote_cache = update_quote_cache_after_fill next side limit_px qty;
    },
    write_receipt slab.header.seqno (signed_qty side qty) limit_px notional
        (fill_fee notional slab.header.taker_fee_bps),
  )
