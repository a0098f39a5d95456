-- ===== src/Matcher/PoolFills.antt =====
-- What a fill by the pool of programs/amm/src/instructions.rs takes from its curve and what it leaves.
use barista_dex_perc.Prelude.{
  Bool-cases, inl, inr, ℕ, ◌+◌, ◌%◌, ◌^◌, ◌≤◌, ◌<◌, ◌≡◌, Bool, true, false, not, arith,
}
use barista_dex_perc.Prelude.Int.{ℤ, pos, ◌≤ℤ◌, ◌==ℤ◌}
use barista_dex_perc.Prelude.Outcome.{
  Outcome, ok, err, abort, >>=-eq-ok, >>-eq-ok, reject_if, reject_if-eq-ok,
}
use barista_dex_perc.Amm.Quote.{AmmError, QuoteResult}
use barista_dex_perc.Matcher.{
  Side, increment_seqno, QuoteCache, update_cache, FillReceipt, write_receipt,
}
use barista_dex_perc.Matcher.Pool.{
  AmmState, pool_quote, spot_price, sample_fractions, sample_levels, sample_cache,
  synthesize_quote_cache, map_amm_error, beyond_limit, check_order, with_reserves, fill_receipt,
  process_commit_fill,
}

-- The price is at the limit or better.
unfoldable pub WithinLimit : Side → ℤ → ℤ → Type 0
WithinLimit Side.buy vwap limit_px = vwap ≤ℤ limit_px
WithinLimit Side.sell vwap limit_px = limit_px ≤ℤ vwap

beyond_limit-WithinLimit :
    (side : Side) (vwap limit_px : ℤ)
    → beyond_limit side vwap limit_px ≡ false
    → WithinLimit side vwap limit_px
unfolding beyond_limit WithinLimit
beyond_limit-WithinLimit Side.buy vwap limit_px h = ground arith
beyond_limit-WithinLimit Side.sell vwap limit_px h = ground arith

map_amm_error-ok :
    (o : Outcome AmmError QuoteResult) {r : QuoteResult} → map_amm_error o ≡ ok r → o ≡ ok r
unfolding map_amm_error
map_amm_error-ok abort h = cc
map_amm_error-ok (err e) h = cc
map_amm_error-ok (ok r) h = ground arith

-- The cache is empty or at the number that the state has.
sample_cache-snapshot :
    (s : AmmState) (c : QuoteCache) → sample_cache s ≡ ok c → c.seqno_snapshot ≡ s.header.seqno
unfolding sample_cache update_cache
sample_cache-snapshot s c h =
    let (asks, a, h1) = >>=-eq-ok (sample_levels s.pool Side.buy sample_fractions) _ h in
    let (bids, b, h2) = >>=-eq-ok (sample_levels s.pool Side.sell sample_fractions) _ h1 in
    ground arith

synthesize-le :
    (s : AmmState) (c : QuoteCache)
    → synthesize_quote_cache s ≡ ok c
    → c.seqno_snapshot ≤ s.header.seqno
unfolding synthesize_quote_cache
synthesize-le s c h = elim (Bool-cases (spot_price s.pool ==ℤ pos 0)) [
  | inl none ↦ ground arith
  | inr some ↦ let k = sample_cache-snapshot s c in ground (arith, sample_cache-snapshot s c)
]

module _ (s : AmmState) (router : ℕ) (side : Side) (qty limit_px : ℤ) where
  -- What a fill leaves, for the quote that the curve gave.
  pub record Filled (q : QuoteResult) (out : AmmState × FillReceipt) : Type 0 where
    pub router_signed : s.header.router_id ≡ router
    pub some_qty : pos 1 ≤ℤ qty
    pub quoted : pool_quote s.pool side qty ≡ ok q
    pub limit_kept : WithinLimit side q.vwap_px limit_px
    pub new_x : out.0.pool.x_reserve ≡ q.new_x
    pub new_y : out.0.pool.y_reserve ≡ q.new_y
    pub fee_kept : out.0.pool.fee_bps ≡ s.pool.fee_bps
    pub floor_kept : out.0.pool.min_liquidity ≡ s.pool.min_liquidity
    pub next : out.0.header.seqno ≡ (s.header.seqno + 1) % 2 ^ 32
    pub cached : out.0.quote_cache.seqno_snapshot ≤ s.header.seqno
    pub committed : out.1.seqno_committed ≡ s.header.seqno
    pub quantity : out.1.filled_qty ≡ qty
    pub price : out.1.vwap_px ≡ q.vwap_px

  check_order-guards :
      (is_signer : Bool)
      → check_order s is_signer router qty limit_px ≡ ok tt
      → (is_signer ≡ true) × (s.header.router_id ≡ router) × (pos 1 ≤ℤ qty)
  unfolding check_order
  check_order-guards is_signer h = ground arith

  -- A fill by a pool is signed by the router, has a receipt's account that fits and a positive quantity,
  -- and is the quote of the curve, at a price within the limit. The reserves become the quote's, fee and liquidity floor stay, the
  -- sequence number moves on with its wrap, and the receipt has the quantity, the price and the number
  -- before the fill, which the quote cache does not exceed.
  pub process_commit_fill-Filled :
      (is_signer receipt_fits : Bool) (out : AmmState × FillReceipt)
      → process_commit_fill s is_signer router receipt_fits side qty limit_px ≡ ok out
      → (is_signer ≡ true) × (receipt_fits ≡ true) × ((q : QuoteResult) × Filled q out)
  unfolding process_commit_fill fill_receipt write_receipt increment_seqno with_reserves
  process_commit_fill-Filled is_signer receipt_fits out h =
      let (c, h1) = >>-eq-ok (check_order s is_signer router qty limit_px) _ h in
      let (q, e, h2) = >>=-eq-ok (map_amm_error (pool_quote s.pool side qty)) _ h1 in
      let (l, h3) = >>-eq-ok (reject_if (beyond_limit side q.vwap_px limit_px) _) _ h2 in
      let (cache, k, h4) = >>=-eq-ok (synthesize_quote_cache (with_reserves s q)) _ h3 in
      let (f, h5) = >>-eq-ok (reject_if (not receipt_fits) _) _ h4 in
      let (signer, signed, some) = check_order-guards is_signer c in
      let quoted = map_amm_error-ok (pool_quote s.pool side qty) e in
      let w = beyond_limit-WithinLimit side q.vwap_px limit_px (reject_if-eq-ok _ _ l) in
      let at = synthesize-le (with_reserves s q) cache k in
      (signer, ground arith, (q, ground arith))

  -- After a fill by a pool that is not at the last sequence number, the number in the quote cache is
  -- below the pool's own, the receipt's number is the one before, and the receipt's quantity is the
  -- one asked for, whatever the side.
  pub process_commit_fill_lags :
      (is_signer receipt_fits : Bool) (out : AmmState × FillReceipt)
      → s.header.seqno + 1 < 2 ^ 32
      → process_commit_fill s is_signer router receipt_fits side qty limit_px ≡ ok out
      → (out.0.quote_cache.seqno_snapshot < out.0.header.seqno)
        × (out.1.seqno_committed + 1 ≡ out.0.header.seqno)
        × (out.1.filled_qty ≡ qty)
  process_commit_fill_lags is_signer receipt_fits out room h =
      let (signer, fits, (q, f)) = process_commit_fill-Filled is_signer receipt_fits out h in
      let n = f.next in
      let c = f.cached in let d = f.committed in (omega arith, omega arith, f.quantity)
