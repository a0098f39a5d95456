-- ===== src/Router/LpExit/Cancels.antt =====
-- What cancelling orders leaves of a portfolio, in programs/router/src/instructions/cancel_lp_orders.rs.
use mathlib.Core.Option.{some-injective}
use barista_dex_perc.Prelude.{
  ℕ, suc, Option-cases, ◌+◌, ◌-◌, ◌≤◌, ◌≡◌, refl, ap, subst, Bool, true, false, not, ◌||◌, none,
  some, List, [], ◌∷◌, ltb, ◌==◌, if◌then◌else◌, inl, inr, arith, Bool-cases, length, take,
  get_elem?, sum_by, ==_iff,
}
use barista_dex_perc.Prelude.Arrays.{swap_remove, sum_by-swap_remove}
use barista_dex_perc.Prelude.Outcome.{
  ok, reject_if, ok_or, >>=-eq-ok, >>-eq-ok, ok_or-eq-ok, reject_if-eq-ok, ok_injective,
}
use barista_dex_perc.Math.{sub_u128, max_u128}
use barista_dex_perc.Matcher.{PercolatorError}
use barista_dex_perc.Router.LpBucket.{
  same_venue, new_slab_venue, SlabLp, found_order, LpBucket, is_slab,
}
use barista_dex_perc.Router.LpBucket.Reservations.{times}
use barista_dex_perc.Router.Position.{fit_u128}
use barista_dex_perc.Router.Portfolio.{Portfolio, found_bucket}
use barista_dex_perc.Router.Portfolio.Totals.{found_bucket-some}
use barista_dex_perc.Router.LpExit.{
  proportion, replace_bucket, cancel_ids, freed_ratio, less_freed, process_cancel_lp_orders,
}
use barista_dex_perc.Router.LpExit.Burns.{found_bucket-venue, replace_bucket-sum}

found_order-some :
    (ids : List ℕ) (id i : ℕ) → found_order ids id ≡ some i → get_elem? ids i ≡ some id
unfolding found_order
found_order-some [] id i h = cc
found_order-some (n ∷ ids) id i h = elim (Bool-cases (n == id)) [
  | inl y ↦
      let p : some 0 ≡ some i = rw (y, found_order) at h in
      subst (λ z. get_elem? (n ∷ ids) z ≡ some id) (some-injective _ _ p)
        (ap some ((==_iff n id).0 y))
  | inr m ↦ elim (Option-cases (found_order ids id)) [
    | inl z ↦ let p : none ≡ some i = rw (m, found_order, z) at h in cc
    | inr (j, z) ↦
        let p : some (suc j) ≡ some i = rw (m, found_order, z) at h in
        subst (λ k. get_elem? (n ∷ ids) k ≡ some id) (some-injective _ _ p)
          (found_order-some ids id j z)
  ]
]

-- Every cancelled order is taken off the open ones as often as it is cancelled.
cancel_ids-times :
    (placed ids left : List ℕ) (k : ℕ)
    → cancel_ids placed ids ≡ some left
    → times k left + times k ids ≡ times k placed
unfolding cancel_ids
cancel_ids-times placed [] left k h = rw (some-injective _ _ h) (omega arith)
cancel_ids-times placed (id ∷ ids) left k h = elim (Option-cases (found_order placed id)) [
  | inl z ↦ let p : none ≡ some left = rw (z, cancel_ids) at h in cc
  | inr (j, z) ↦
      let p : cancel_ids (swap_remove placed j) ids ≡ some left = rw (z, cancel_ids) at h in
      let taken =
        sum_by-swap_remove (λ n. if n == k then 1 else 0) placed j
          (found_order-some placed id j z) in
      omega (arith, taken, cancel_ids-times (swap_remove placed j) ids left k p)
]

less_freed-le : (is_empty : Bool) (m ratio n : ℕ) → less_freed is_empty m ratio ≡ ok n → n ≤ m
unfolding less_freed proportion fit_u128
less_freed-le is_empty m ratio n h = ground arith

-- What cancelling went through, for any order and any count of buckets.
pub record Cancelled (p : Portfolio) (market : ℕ) (ids : List ℕ) (quote base k : ℕ)
    (f : LpBucket → ℕ) (p' : Portfolio) : Type 0 where
  pub bucket : LpBucket
  pub slab : SlabLp
  pub holds : bucket.slab ≡ some slab
  pub listed : (bucket.active ≡ true) × (same_venue bucket.venue (new_slab_venue market) ≡ true)
  pub left : SlabLp
  pub orders : times k left.open_order_ids + times k ids ≡ times k slab.open_order_ids
  pub quote_freed : left.reserved_quote + quote ≡ slab.reserved_quote
  pub base_freed : left.reserved_base + base ≡ slab.reserved_base
  pub bucket' : LpBucket
  pub kept :
      (bucket'.slab ≡ some left) × (bucket'.venue ≡ bucket.venue) × (bucket'.active ≡ bucket.active)
  pub margins : (bucket'.im ≤ bucket.im) × (bucket'.mm ≤ bucket.mm)
  pub counted :
      sum_by f p'.lp_buckets + f bucket
      ≡ sum_by f p.lp_buckets + (if length left.open_order_ids == 0 then 0 else f bucket')
  pub rest : (p'.equity ≡ p.equity) × (p'.exposures ≡ p.exposures)

-- The bucket that is written in the end.
module _ (p : Portfolio) (market : ℕ) (ids : List ℕ) (quote base k : ℕ) (f : LpBucket → ℕ) (i : ℕ)
    (bucket : LpBucket) (slab : SlabLp) (placed : List ℕ) (ratio im mm : ℕ) where
  abbrev left_slab : SlabLp
  left_slab = record {
    reserved_quote = slab.reserved_quote - quote;
    reserved_base = slab.reserved_base - base;
    open_order_ids = placed;
  }

  abbrev left_bucket : LpBucket
  left_bucket = record bucket { slab = some left_slab; im = im; mm = mm }

  written-Cancelled :
      found_bucket (new_slab_venue market) p.lp_buckets ≡ some (i, bucket)
      → bucket.slab ≡ some slab
      → cancel_ids slab.open_order_ids ids ≡ some placed
      → ltb slab.reserved_quote quote ≡ false
      → ltb slab.reserved_base base ≡ false
      → less_freed (length placed == 0) bucket.im ratio ≡ ok im
      → less_freed (length placed == 0) bucket.mm ratio ≡ ok mm
      → Cancelled p market ids quote base k f
          (record p { lp_buckets = replace_bucket p.lp_buckets i left_bucket (length placed == 0) })
  written-Cancelled found holds taken enough_quote enough_base ei en =
      let (there, active) =
        found_bucket-some (new_slab_venue market) p.lp_buckets (i, bucket) found in
      record {
        bucket = bucket;
        slab = slab;
        holds = holds;
        listed =
            (active, found_bucket-venue (new_slab_venue market) p.lp_buckets (i, bucket) found);
        left = left_slab;
        orders = cancel_ids-times slab.open_order_ids ids placed k taken;
        quote_freed = ground arith;
        base_freed = ground arith;
        bucket' = left_bucket;
        kept = (refl, refl, refl);
        margins = (
          less_freed-le (length placed == 0) bucket.im ratio im ei,
          less_freed-le (length placed == 0) bucket.mm ratio mm en,
        );
        counted = replace_bucket-sum f p.lp_buckets i bucket left_bucket (length placed == 0) there;
        rest = (refl, refl);
      }

-- Cancelling that is let through takes each order off the open ones of the active bucket of the market
-- as often as it is named, takes the freed amounts off its reserves exactly, raises neither of its
-- margins, and changes no other bucket, no exposure and not the equity: any count over the buckets
-- changes by what the one bucket counts, which is gone once no order is left.
pub process_cancel_lp_orders-Cancelled :
    (p : Portfolio) (market : ℕ) (ids : List ℕ) (count quote base k : ℕ) (f : LpBucket → ℕ)
    (p' : Portfolio)
    → process_cancel_lp_orders p market ids count quote base ≡ ok p'
    → Cancelled p market (take count ids) quote base k f p'
unfolding process_cancel_lp_orders sub_u128
process_cancel_lp_orders-Cancelled p market ids count quote base k f p' h =
    let (a, h1) = >>-eq-ok (reject_if (count == 0 || length ids == 0) _) _ h in
    let (at, ea, h2) =
      >>=-eq-ok
        (ok_or (found_bucket (new_slab_venue market) p.lp_buckets) PercolatorError.invalid_account)
        _ h1 in
    let (b, h3) = >>-eq-ok (reject_if (not (is_slab at.1)) _) _ h2 in
    let (slab, em, h4) = >>=-eq-ok (ok_or at.1.slab PercolatorError.invalid_account) _ h3 in
    let (placed, eo, h5) =
      >>=-eq-ok
        (ok_or (cancel_ids slab.open_order_ids (take count ids)) PercolatorError.invalid_account) _
        h4 in
    let (c, h6) = >>-eq-ok (reject_if (ltb slab.reserved_quote quote) _) _ h5 in
    let (d, h7) = >>-eq-ok (reject_if (ltb slab.reserved_base base) _) _ h6 in
    let (q, eq, h8) =
      >>=-eq-ok
        (freed_ratio (slab.reserved_quote - (slab.reserved_quote - quote)) slab.reserved_quote) _
        h7 in
    let (r, er, h9) =
      >>=-eq-ok (freed_ratio (slab.reserved_base - (slab.reserved_base - base)) slab.reserved_base)
        _ h8 in
    let is_empty = length placed == 0 in
    let (im, ei, h10) = >>=-eq-ok (less_freed is_empty at.1.im (max_u128 q r)) _ h9 in
    let (mm, en, h11) = >>=-eq-ok (less_freed is_empty at.1.mm (max_u128 q r)) _ h10 in
    subst (Cancelled p market (take count ids) quote base k f) (ok_injective h11) (
      written-Cancelled p market (take count ids) quote base k f at.0 at.1 slab placed
        (max_u128 q r) im mm (ok_or-eq-ok _ _ ea) (ok_or-eq-ok _ _ em) (ok_or-eq-ok _ _ eo)
        (reject_if-eq-ok _ _ c) (reject_if-eq-ok _ _ d) ei en)
