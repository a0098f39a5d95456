-- ===== src/Matcher/Fills.antt =====
-- When the slab of programs/slab/src/instructions/commit_fill.rs fills an order, and what it leaves.
use barista_dex_perc.Prelude.{ℕ, ◌+◌, ◌^◌, ◌<◌, ◌≡◌, refl, Bool, true, not, some, arith}
use barista_dex_perc.Prelude.Int.{ℤ, pos, ◌≤ℤ◌}
use barista_dex_perc.Prelude.Outcome.{
  ok, reject_if, or_abort, >>=-eq-ok, >>-eq-ok, or_abort-eq-ok, reject_if-eq-ok,
}
use barista_dex_perc.Matcher.{
  Side, PercolatorError, increment_seqno, update_cache, FillReceipt, write_receipt,
}
use barista_dex_perc.Matcher.Slab.{
  SlabState, update_quote_cache_after_fill, next_seqno, signed_qty, check_fill, process_commit_fill,
}

module _ (s : SlabState) (fits : Bool) (signer seqno : ℕ) (side : Side) (qty px : ℤ) where
  -- What a fill requires.
  pub record MayFill : Type 0 where
    pub router : s.header.router_id ≡ signer
    pub current : s.header.seqno ≡ seqno
    pub room : s.header.seqno + 1 < 2 ^ 32
    pub some_qty : pos 1 ≤ℤ qty
    pub some_px : pos 1 ≤ℤ px
    pub receipt : fits ≡ true

  -- What a fill leaves.
  pub record Fills (out : SlabState × FillReceipt) : Type 0 where
    pub next : out.0.header.seqno ≡ seqno + 1
    pub cached : out.0.quote_cache.seqno_snapshot ≡ out.0.header.seqno
    pub router_kept : out.0.header.router_id ≡ s.header.router_id
    pub used : out.1.used ≡ 1
    pub committed : out.1.seqno_committed ≡ seqno
    pub quantity : out.1.filled_qty ≡ signed_qty side qty
    pub price : out.1.vwap_px ≡ px

  -- A slab fills an order exactly when the router signs, the sequence number is the current one and
  -- not the last, quantity and price are positive, and the receipt fits. The fill moves to the next
  -- sequence number, with the quote cache at it, and the receipt names the number that was expected,
  -- the signed quantity and the price.
  pub check_fill-ok : MayFill → check_fill s signer seqno qty px ≡ ok tt
  unfolding check_fill
  check_fill-ok m = ground arith

  pub check_fill-guards :
      check_fill s signer seqno qty px ≡ ok tt
      → (s.header.router_id ≡ signer) × (s.header.seqno ≡ seqno) × (pos 1 ≤ℤ qty) × (pos 1 ≤ℤ px)
  unfolding check_fill
  check_fill-guards h = ground arith

  next_seqno-some : MayFill → next_seqno s.header ≡ some (seqno + 1)
  unfolding next_seqno
  next_seqno-some m = ground arith

  next_seqno-room : (n : ℕ) → next_seqno s.header ≡ some n → (n ≡ s.header.seqno + 1) × (n < 2 ^ 32)
  unfolding next_seqno
  next_seqno-room n h = ground arith

  process_commit_fill-runs :
      MayFill
      → (out : SlabState × FillReceipt) × (process_commit_fill s fits signer seqno side qty px
          ≡ ok out)
  unfolding process_commit_fill
  process_commit_fill-runs m = rw (check_fill-ok m, next_seqno-some m, m.receipt) (_, refl)

  wrapped_seqno :
      s.header.seqno + 1 < 2 ^ 32 → (increment_seqno s.header).seqno ≡ s.header.seqno + 1
  unfolding increment_seqno
  wrapped_seqno h = omega arith

  cache-snapshot : (n : ℕ) → (update_quote_cache_after_fill n side px qty).seqno_snapshot ≡ n
  unfolding update_quote_cache_after_fill update_cache
  cache-snapshot n =
      elim side as (λ k. (update_quote_cache_after_fill n k px qty).seqno_snapshot ≡ n) [
        | Side.buy ↦ refl
        | Side.sell ↦ refl
      ]

  -- A slab fills no order but one that is allowed. The slab then stands at the next sequence number,
  -- with the quote cache at it, and the receipt is used and names the number that was expected, the
  -- signed quantity and the price.
  pub process_commit_fill-Fills :
      (out : SlabState × FillReceipt)
      → process_commit_fill s fits signer seqno side qty px ≡ ok out
      → MayFill × Fills out
  unfolding process_commit_fill write_receipt increment_seqno
  process_commit_fill-Fills out h =
      let (c, h1) = >>-eq-ok (check_fill s signer seqno qty px) _ h in
      let (n, a, h2) = >>=-eq-ok (or_abort (next_seqno s.header)) _ h1 in
      let (r, h3) = >>-eq-ok (reject_if (not fits) PercolatorError.invalid_account) _ h2 in
      let f = reject_if-eq-ok (not fits) _ r in
      let (e, room) = next_seqno-room n (or_abort-eq-ok _ a) in
      let (k, q, q1, q2) = check_fill-guards c in
      let w = wrapped_seqno (omega (arith, e, room)) in let cs = cache-snapshot n in ground arith

  -- A slab fills every order that is allowed: signed by the router, at the current sequence number,
  -- which is not the last, with a positive quantity and price and a receipt that fits. The slab
  -- then stands at the next sequence number, with the quote cache at it, and the receipt names the
  -- number that was expected, the signed quantity and the price.
  pub process_commit_fill-ok :
      MayFill
      → (out : SlabState × FillReceipt) × (process_commit_fill s fits signer seqno side qty px
          ≡ ok out)
        × Fills out
  process_commit_fill-ok m =
      let (out, h) = process_commit_fill-runs m in (out, h, (process_commit_fill-Fills out h).1)
