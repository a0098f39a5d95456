-- ===== src/Router/LpExit/Burns.antt =====
-- What burning shares leaves of a portfolio, in programs/router/src/instructions/burn_lp_shares.rs.
use mathlib.Core.Option.{some-injective}
use native.Mathlib.Nat.{mul-zero, mul-div-le, lt-mul-div-succ}
use barista_dex_perc.Prelude.{
  ℕ, suc, Option-cases, ◌+◌, ◌-◌, ◌*◌, ◌/◌, ◌≤◌, ◌<◌, ◌≡◌, refl, sym, subst, Bool, true, false, not,
  none, some, List, [], ◌∷◌, ltb, ◌==◌, ◌&&◌, if◌then◌else◌, inl, inr, arith, Bool-cases, get_elem?,
  sum_by, sum_by-set,
}
use barista_dex_perc.Prelude.Int.{ℤ, pos, ◌*ℤ◌, ◌/ℤ◌}
use barista_dex_perc.Prelude.Arrays.{sum_by-swap_remove}
use barista_dex_perc.Prelude.Outcome.{
  ok, reject_if, ok_or, or_abort, >>=-eq-ok, >>-eq-ok, ok_or-eq-ok, reject_if-eq-ok, ok_injective,
}
use barista_dex_perc.Math.{fit_i128, add_i128, sub_u128}
use barista_dex_perc.Matcher.{PercolatorError}
use barista_dex_perc.Router.LpBucket.{
  VenueId, same_venue, new_amm_venue, AmmLp, is_stale, LpBucket, is_amm,
}
use barista_dex_perc.Router.Position.{fit_u128}
use barista_dex_perc.Router.Portfolio.{Portfolio, as_i128, found_bucket}
use barista_dex_perc.Router.Portfolio.Totals.{found_bucket-some}
use barista_dex_perc.Router.LpExit.{
  proportion, remaining_margin, replace_bucket, process_burn_lp_shares,
}

and-right : (a b : Bool) → (a && b) ≡ true → b ≡ true
and-right a b h = ground arith

pub found_bucket-venue :
    (v : VenueId) (bs : List LpBucket) (at : ℕ × LpBucket)
    → found_bucket v bs ≡ some at
    → same_venue at.1.venue v ≡ true
unfolding found_bucket
found_bucket-venue v [] at h = cc
found_bucket-venue v (b ∷ bs) at h = elim (Bool-cases (b.active && same_venue b.venue v)) [
  | inl y ↦
      let p : some (0, b) ≡ some at = rw (y, found_bucket) at h in
      subst (λ (a : ℕ × LpBucket). same_venue a.1.venue v ≡ true) (some-injective _ _ p)
        (and-right _ _ y)
  | inr n ↦ elim (Option-cases (found_bucket v bs)) [
    | inl z ↦ let p : none ≡ some at = rw (n, found_bucket, z) at h in cc
    | inr (c, z) ↦
        let p : some (suc c.0, c.1) ≡ some at = rw (n, found_bucket, z) at h in
        subst (λ (a : ℕ × LpBucket). same_venue a.1.venue v ≡ true) (some-injective _ _ p)
          (found_bucket-venue v bs c z)
  ]
]

-- Whatever is counted in buckets, the count changes by what the one bucket changes.
pub replace_bucket-sum :
    (f : LpBucket → ℕ) (bs : List LpBucket) (i : ℕ) (b b' : LpBucket) (is_empty : Bool)
    → get_elem? bs i ≡ some b
    → sum_by f (replace_bucket bs i b' is_empty) + f b
      ≡ sum_by f bs + (if is_empty then 0 else f b')
unfolding replace_bucket
replace_bucket-sum f bs i b b' true h = omega (arith, sum_by-swap_remove f bs i h)
replace_bucket-sum f bs i b b' false h = omega (arith, sum_by-set f bs i b' h)

-- The margin that is left is in proportion, rounded down.
pub record Scaled (margin remaining initial left : ℕ) : Type 0 where
  pub not_more : left * initial ≤ margin * remaining
  pub not_less : margin * remaining < (left + 1) * initial

pub proportion-eq : (m a b n : ℕ) → proportion m a b ≡ ok n → n ≡ m * a / b
unfolding proportion fit_u128
proportion-eq m a b n h = ground arith

remaining_margin-Scaled :
    (margin remaining initial left : ℕ)
    → 0 < initial
    → remaining_margin margin remaining initial ≡ ok left
    → Scaled margin remaining initial left
unfolding remaining_margin
remaining_margin-Scaled margin remaining initial left some_shares h =
    elim (Bool-cases (remaining == 0)) [
      | inl y ↦
          let z : remaining ≡ 0 = ground arith in
          let l : left ≡ 0 = sym (ok_injective (rw y at h)) in
          record {
            not_more = rw (z, l) (ground arith);
            not_less = rw (z, l, mul-zero margin) (omega arith);
          }
      | inr n ↦
          let e = proportion-eq margin remaining initial left (rw n at h) in
          let low = mul-div-le (margin * remaining) initial in
          let high = lt-mul-div-succ (margin * remaining) some_shares in
          record { not_more = rw e (omega (arith, low)); not_less = rw e (omega (arith, high)) }
    ]

-- What burning went through, for any count of buckets.
pub record Burnt (p : Portfolio) (market shares : ℕ) (price : ℤ) (now : ℕ) (f : LpBucket → ℕ)
    (p' : Portfolio) : Type 0 where
  pub bucket : LpBucket
  pub amm : AmmLp
  pub holds : bucket.amm ≡ some amm
  pub listed : (bucket.active ≡ true) × (same_venue bucket.venue (new_amm_venue market) ≡ true)
  pub some_shares : 0 < shares
  pub within : shares ≤ amm.lp_shares
  pub equity : p'.equity ≡ add_i128 p.equity (pos shares *ℤ price /ℤ pos 1_000_000)
  pub bucket' : LpBucket
  pub same :
      (bucket'.venue ≡ bucket.venue)
      × (bucket'.active ≡ bucket.active)
      × (bucket'.slab ≡ bucket.slab)
  pub left : AmmLp
  pub holds_left : bucket'.amm ≡ some left
  pub shares_left : left.lp_shares + shares ≡ amm.lp_shares
  pub priced : (left.share_price_cached ≡ price) × (left.last_update_ts ≡ now)
  pub im : Scaled bucket.im (amm.lp_shares - shares) amm.lp_shares bucket'.im
  pub mm : Scaled bucket.mm (amm.lp_shares - shares) amm.lp_shares bucket'.mm
  pub counted :
      sum_by f p'.lp_buckets + f bucket
      ≡ sum_by f p.lp_buckets + (if amm.lp_shares - shares == 0 then 0 else f bucket')
  pub exposures : p'.exposures ≡ p.exposures

-- Burning that is let through takes the shares, no more than it has, off the active bucket of the
-- market, notes the price and the time there, adds their value to the equity, scales the margins of the
-- bucket by the shares that are left, rounded down, and changes no other bucket: any count over the
-- buckets changes by what the one bucket counts, which is gone once no share is left.
pub process_burn_lp_shares-Burnt :
    (p : Portfolio) (market shares : ℕ) (price : ℤ) (now age : ℕ) (f : LpBucket → ℕ)
    (p' : Portfolio)
    → process_burn_lp_shares p market shares price now age ≡ ok p'
    → Burnt p market shares price now f p'
unfolding process_burn_lp_shares
process_burn_lp_shares-Burnt p market shares price now age f p' h =
    let (a, h1) = >>-eq-ok (reject_if (shares == 0) _) _ h in
    let (at, ea, h2) =
      >>=-eq-ok
        (ok_or (found_bucket (new_amm_venue market) p.lp_buckets) PercolatorError.invalid_account) _
        h1 in
    let (b, h3) = >>-eq-ok (reject_if (not (is_amm at.1)) _) _ h2 in
    let (amm, em, h4) = >>=-eq-ok (ok_or at.1.amm PercolatorError.invalid_account) _ h3 in
    let (c, h5) = >>-eq-ok (reject_if (is_stale amm now age) _) _ h4 in
    let (d, h6) = >>-eq-ok (reject_if (ltb amm.lp_shares shares) _) _ h5 in
    let left = amm.lp_shares - shares in
    let (im, ei, h7) = >>=-eq-ok (remaining_margin at.1.im left amm.lp_shares) _ h6 in
    let (mm, en, h8) = >>=-eq-ok (remaining_margin at.1.mm left amm.lp_shares) _ h7 in
    let (x, ex, h9) =
      >>=-eq-ok (or_abort (fit_i128 (as_i128 (sub_u128 at.1.mm mm) *ℤ pos 2))) _ h8 in
    let found = ok_or-eq-ok _ _ ea in
    let (there, active) = found_bucket-some (new_amm_venue market) p.lp_buckets at found in
    let nonzero = reject_if-eq-ok _ _ a in
    let enough = reject_if-eq-ok _ _ d in
    let some_shares : 0 < shares = ground arith in
    let within : shares ≤ amm.lp_shares = ground arith in
    let b' = record at.1 {
      amm = some (record { lp_shares = left; share_price_cached = price; last_update_ts = now });
      im = im;
      mm = mm;
    } in
    subst (Burnt p market shares price now f) (ok_injective h9) (record {
      bucket = at.1;
      amm = amm;
      holds = ok_or-eq-ok _ _ em;
      listed = (active, found_bucket-venue (new_amm_venue market) p.lp_buckets at found);
      some_shares = some_shares;
      within = within;
      equity = refl;
      bucket' = b';
      same = (refl, refl, refl);
      left = record { lp_shares = left; share_price_cached = price; last_update_ts = now };
      holds_left = refl;
      shares_left = omega arith;
      priced = (refl, refl);
      im = remaining_margin-Scaled at.1.im left amm.lp_shares im (omega arith) ei;
      mm = remaining_margin-Scaled at.1.mm left amm.lp_shares mm (omega arith) en;
      counted = replace_bucket-sum f p.lp_buckets at.0 at.1 b' (left == 0) there;
      exposures = refl;
    })
