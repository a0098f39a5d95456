-- ===== src/Router/Portfolio/Totals.antt =====
-- The margin totals of programs/router/src/state/portfolio.rs when LP buckets come and go.
use barista_dex_perc.Prelude.{
  ℕ, suc, ◌+◌, ◌≤◌, ◌<◌, ◌≡◌, refl, subst, ◌∙◌, true, false, ◌&&◌, none, some, List, [], ◌∷◌, ◌++◌,
  inl, inr, arith, leb, if◌then◌else◌, length, sum_by, get_elem?, foldl, Bool-cases, Option-cases,
}
use mathlib.Core.Option.{some-injective}
use barista_dex_perc.Prelude.Arrays.{swap_remove, sum_by-swap_remove, sum_by-snoc}
use barista_dex_perc.Math.{u128_max, add_u128}
use barista_dex_perc.Math.Bounds.{add_u128_lem}
use barista_dex_perc.Router.LpBucket.{LpBucket, VenueId, same_venue, max_lp_buckets}
use barista_dex_perc.Router.Portfolio.{
  Portfolio, found_bucket, find_lp_bucket, add_lp_bucket, remove_lp_bucket, calculate_total_mm,
  calculate_total_im,
}

-- What an active bucket adds to a total.
abbrev pub charge : (LpBucket → ℕ) → LpBucket → ℕ
charge f b = if b.active then f b else 0

abbrev pub mm_of : LpBucket → ℕ
mm_of b = b.mm

abbrev pub im_of : LpBucket → ℕ
im_of b = b.im

-- The totals fit a u128.
pub record TotalsFit (p : Portfolio) : Type 0 where
  pub mm_fits : p.mm + sum_by (charge mm_of) p.lp_buckets ≤ u128_max
  pub im_fits : p.im + sum_by (charge im_of) p.lp_buckets ≤ u128_max

foldl-charge :
    (f : LpBucket → ℕ) (bs : List LpBucket) (a : ℕ)
    → a + sum_by (charge f) bs ≤ u128_max
    → foldl (λ total b. if b.active then add_u128 total (f b) else total) a bs
      ≡ a + sum_by (charge f) bs
foldl-charge f [] a h = omega arith
foldl-charge f (b ∷ bs) a h =
    let next = if b.active then add_u128 a (f b) else a in
    let e : next ≡ a + charge f b = ground (arith, add_u128_lem a (f b)) in
    foldl-charge f bs next (omega (arith, e)) ∙ omega (arith, e)

total_mm-eq :
    (p : Portfolio) → TotalsFit p → calculate_total_mm p ≡ p.mm + sum_by (charge mm_of) p.lp_buckets
unfolding calculate_total_mm
total_mm-eq p t = foldl-charge mm_of p.lp_buckets p.mm t.mm_fits

total_im-eq :
    (p : Portfolio) → TotalsFit p → calculate_total_im p ≡ p.im + sum_by (charge im_of) p.lp_buckets
unfolding calculate_total_im
total_im-eq p t = foldl-charge im_of p.lp_buckets p.im t.im_fits

pub found_bucket-some :
    (v : VenueId) (bs : List LpBucket) (at : ℕ × LpBucket)
    → found_bucket v bs ≡ some at
    → (get_elem? bs at.0 ≡ some at.1) × (at.1.active ≡ true)
unfolding found_bucket
found_bucket-some v [] at h = cc
found_bucket-some v (b ∷ bs) at h = elim (Bool-cases (b.active && same_venue b.venue v)) [
  | inl y ↦
      let p : some (0, b) ≡ some at = rw (y, found_bucket) at h in
      subst (λ (a : ℕ × LpBucket). (get_elem? (b ∷ bs) a.0 ≡ some a.1) × (a.1.active ≡ true))
        (some-injective _ _ p) (refl, ground arith)
  | inr n ↦ elim (Option-cases (found_bucket v bs)) [
    | inl z ↦ let p : none ≡ some at = rw (n, found_bucket, z) at h in cc
    | inr (c, z) ↦
        let p : some (suc c.0, c.1) ≡ some at = rw (n, found_bucket, z) at h in
        subst (λ (a : ℕ × LpBucket). (get_elem? (b ∷ bs) a.0 ≡ some a.1) × (a.1.active ≡ true))
          (some-injective _ _ p) (found_bucket-some v bs c z)
  ]
]

-- If there is room and no bucket at its venue, an active bucket is added, as the constructors make
-- it, and raises the totals by its margins, where these fit a u128.
pub add_lp_bucket-totals :
    (p : Portfolio) (b : LpBucket)
    → length p.lp_buckets < max_lp_buckets
    → find_lp_bucket p b.venue ≡ none
    → b.active ≡ true
    → TotalsFit p
    → calculate_total_mm p + b.mm ≤ u128_max
    → calculate_total_im p + b.im ≤ u128_max
    → (p' : Portfolio) × (add_lp_bucket p b ≡ some p')
      × (calculate_total_mm p' ≡ calculate_total_mm p + b.mm)
      × (calculate_total_im p' ≡ calculate_total_im p + b.im)
unfolding add_lp_bucket
add_lp_bucket-totals p b room absent act fit mm_fits im_fits =
    let p' = record p { lp_buckets = p.lp_buckets ++ (b ∷ []) } in
    let full : leb max_lp_buckets (length p.lp_buckets) ≡ false = ground arith in
    let c : charge mm_of b ≡ b.mm = ground arith in
    let d : charge im_of b ≡ b.im = ground arith in
    let sm = sum_by-snoc (charge mm_of) p.lp_buckets b in
    let si = sum_by-snoc (charge im_of) p.lp_buckets b in
    let m = total_mm-eq p fit in
    let n = total_im-eq p fit in
    let fit' : TotalsFit p' = record {
      mm_fits = omega (arith, mm_fits, m, sm, c);
      im_fits = omega (arith, im_fits, n, si, d);
    } in
    (
      p',
      rw (full, absent) refl,
      omega (arith, total_mm-eq p' fit', m, sm, c),
      omega (arith, total_im-eq p' fit', n, si, d),
    )

find_lp_bucket-found :
    (p : Portfolio) (venue : VenueId) {b : LpBucket}
    → find_lp_bucket p venue ≡ some b
    → (i : ℕ) × (found_bucket venue p.lp_buckets ≡ some (i, b))
unfolding find_lp_bucket
find_lp_bucket-found p venue h = elim (Option-cases (found_bucket venue p.lp_buckets)) [
  | inl z ↦ absurd (ground arith)
  | inr (at, e) ↦ (at.0, ground arith)
]

-- The bucket that is found at a venue is removed, its margins come off the totals, and no other
-- bucket goes with it: whatever is counted over the buckets falls by what that one counts.
pub remove_lp_bucket-totals :
    (p : Portfolio) (venue : VenueId) (b : LpBucket) (f : LpBucket → ℕ)
    → TotalsFit p
    → find_lp_bucket p venue ≡ some b
    → (p' : Portfolio) × (remove_lp_bucket p venue ≡ some p')
      × (calculate_total_mm p' + b.mm ≡ calculate_total_mm p)
      × (calculate_total_im p' + b.im ≡ calculate_total_im p)
      × (sum_by f p'.lp_buckets + f b ≡ sum_by f p.lp_buckets)
unfolding remove_lp_bucket
remove_lp_bucket-totals p venue b f fit h =
    let (i, e) = find_lp_bucket-found p venue h in
    let (place, active) = found_bucket-some venue p.lp_buckets (i, b) e in
    let p' = record p { lp_buckets = swap_remove p.lp_buckets i } in
    let c : charge mm_of b ≡ b.mm = ground arith in
    let d : charge im_of b ≡ b.im = ground arith in
    let sm = sum_by-swap_remove (charge mm_of) p.lp_buckets i place in
    let si = sum_by-swap_remove (charge im_of) p.lp_buckets i place in
    let fit' : TotalsFit p' = record {
      mm_fits = omega (arith, fit.mm_fits, sm);
      im_fits = omega (arith, fit.im_fits, si);
    } in
    (
      p',
      rw (e, remove_lp_bucket) refl,
      omega (arith, total_mm-eq p' fit', total_mm-eq p fit, sm, c),
      omega (arith, total_im-eq p' fit', total_im-eq p fit, si, d),
      sum_by-swap_remove f p.lp_buckets i place,
    )
