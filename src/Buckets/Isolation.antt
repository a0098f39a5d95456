-- ===== src/Buckets/Isolation.antt =====
-- Venue isolation in crates/model_safety/src/lp_bucket.rs.
use barista_dex_perc.Prelude.{
  ℕ, ◌+◌, ◌≤◌, ◌<◌, ◌≡◌, refl, ◌∙◌, some, List, [], ◌∷◌, inl, inr, arith, ◌==◌, if◌then◌else◌,
  get_elem?, get_elem?-set_ne, get_elem?-set-some, Option-cases, All, ℕ_discrete, foldl,
}
use barista_dex_perc.Math.{u128_max, u64_max, add_u128, sub_u128}
use barista_dex_perc.Buckets.{
  max_lp_buckets, LpBucket, Portfolio, on_bucket, slab_is_empty, minted, mint_amm_lp, burned,
  burn_amm_lp, placed, place_slab_order, canceled, cancel_slab_order,
}

pub data Op : Type 0 where
  mints burns : ℕ → ℕ → Op
  places cancels : ℕ → ℕ → ℕ → Op

unfoldable pub step : Portfolio → Op → Portfolio
step p (Op.mints i shares) = mint_amm_lp p i shares
step p (Op.burns i shares) = burn_amm_lp p i shares
step p (Op.places i quote base) = place_slab_order p i quote base
step p (Op.cancels i quote base) = cancel_slab_order p i quote base

unfoldable pub run : Portfolio → List Op → Portfolio
run p [] = p
run p (op ∷ ops) = run (step p op) ops

-- What an operation does to the bucket at a place, from the operation alone.
abbrev pub at : ℕ → LpBucket → Op → LpBucket
at i b (Op.mints j shares) = if j == i then minted shares b else b
at i b (Op.burns j shares) = if j == i then burned shares b else b
at i b (Op.places j quote base) = if j == i then placed quote base b else b
at i b (Op.cancels j quote base) = if j == i then canceled quote base b else b

on_bucket-at :
    (p : Portfolio) (j i : ℕ) (f : LpBucket → LpBucket) (b : LpBucket)
    → i < max_lp_buckets
    → get_elem? p.lp_buckets i ≡ some b
    → (get_elem? (on_bucket p j f).lp_buckets i ≡ some (if j == i then f b else b))
      × ((on_bucket p j f).principal ≡ p.principal)
on_bucket-at p j i f b lt e = elim (ℕ_discrete j i) [
  | yes same ↦ ground (arith, get_elem?-set-some p.lp_buckets i (f b) e)
  | no other ↦ elim (Option-cases (get_elem? p.lp_buckets j)) [
    | inl n ↦ ground arith
    | inr (c, s) ↦ ground (arith, get_elem?-set_ne p.lp_buckets (f c) other)
  ]
]

step-at :
    (p : Portfolio) (i : ℕ) (b : LpBucket) (op : Op)
    → i < max_lp_buckets
    → get_elem? p.lp_buckets i ≡ some b
    → (get_elem? (step p op).lp_buckets i ≡ some (at i b op))
      × ((step p op).principal ≡ p.principal)
unfolding step mint_amm_lp burn_amm_lp place_slab_order cancel_slab_order
step-at p i b (Op.mints j n) lt e = on_bucket-at p j i (minted n) b lt e
step-at p i b (Op.burns j n) lt e = on_bucket-at p j i (burned n) b lt e
step-at p i b (Op.places j q n) lt e = on_bucket-at p j i (placed q n) b lt e
step-at p i b (Op.cancels j q n) lt e = on_bucket-at p j i (canceled q n) b lt e

-- After any list of operations a bucket is what the operations at its place make of it alone, whatever
-- happens at the other places in between, and the principal position is as it was.
pub run-isolated :
    (p : Portfolio) (i : ℕ) (b : LpBucket) (ops : List Op)
    → i < max_lp_buckets
    → get_elem? p.lp_buckets i ≡ some b
    → (get_elem? (run p ops).lp_buckets i ≡ some (foldl (at i) b ops))
      × ((run p ops).principal ≡ p.principal)
unfolding run
run-isolated p i b [] lt e = (e, refl)
run-isolated p i b (op ∷ ops) lt e =
    let s = step-at p i b op lt e in
    let r = run-isolated (step p op) i (at i b op) ops lt s.0 in (r.0, r.1 ∙ s.1)

abbrev pub shares_of : LpBucket → ℕ
shares_of (LpBucket.amm a) = a.lp_shares
shares_of _ = 0

abbrev pub quote_of : LpBucket → ℕ
quote_of (LpBucket.slab s) = s.reserved_quote
quote_of _ = 0

abbrev pub base_of : LpBucket → ℕ
base_of (LpBucket.slab s) = s.reserved_base
base_of _ = 0

-- What a list of operations may take out of the bucket at a place: shares by burns, reserves by
-- cancellations.
abbrev pub burns_at : ℕ → List Op → ℕ
burns_at i [] = 0
burns_at i (Op.burns j n ∷ ops) = (if j == i then n else 0) + burns_at i ops
burns_at i (_ ∷ ops) = burns_at i ops

abbrev pub cancels_at : ℕ → List Op → ℕ
cancels_at i [] = 0
cancels_at i (Op.cancels j q n ∷ ops) = (if j == i then q else 0) + cancels_at i ops
cancels_at i (_ ∷ ops) = cancels_at i ops

-- The ranges of a u64 and of a u128.
abbrev pub Fits : LpBucket → Type 0
Fits LpBucket.empty = Unit
Fits (LpBucket.amm a) = a.lp_shares ≤ u64_max
Fits (LpBucket.slab s) = (s.reserved_quote ≤ u128_max) × (s.reserved_base ≤ u128_max)

abbrev pub FitsOp : Op → Type 0
FitsOp (Op.mints _ n) = n ≤ u64_max
FitsOp (Op.burns _ n) = n ≤ u64_max
FitsOp (Op.places _ q n) = (q ≤ u128_max) × (n ≤ u128_max)
FitsOp (Op.cancels _ q n) = (q ≤ u128_max) × (n ≤ u128_max)

-- A bucket loses no more than was burned and cancelled at it.
record Loses (i : ℕ) (b : LpBucket) (ops : List Op) (b' : LpBucket) : Type 0 where
  fits : Fits b'
  shares : shares_of b ≤ shares_of b' + burns_at i ops
  quote : quote_of b ≤ quote_of b' + cancels_at i ops

at-Loses : (i : ℕ) (b : LpBucket) (op : Op) → Fits b → FitsOp op → Loses i b (op ∷ []) (at i b op)
unfolding minted burned placed canceled slab_is_empty add_u128 sub_u128
at-Loses i LpBucket.empty op f g = ground arith
at-Loses i (LpBucket.amm a) op f g = ground arith
at-Loses i (LpBucket.slab s) op f g = ground arith

burns_at-cons :
    (i : ℕ) (op : Op) (ops : List Op)
    → burns_at i (op ∷ ops) ≡ burns_at i (op ∷ []) + burns_at i ops
burns_at-cons i (Op.burns j n) ops = omega arith
burns_at-cons i op ops = omega arith

cancels_at-cons :
    (i : ℕ) (op : Op) (ops : List Op)
    → cancels_at i (op ∷ ops) ≡ cancels_at i (op ∷ []) + cancels_at i ops
cancels_at-cons i (Op.cancels j q n) ops = omega arith
cancels_at-cons i op ops = omega arith

foldl-Loses :
    (i : ℕ) (b : LpBucket) (ops : List Op)
    → Fits b
    → All FitsOp ops
    → Loses i b ops (foldl (at i) b ops)
foldl-Loses i b [] f g = record { fits = f; shares = omega arith; quote = omega arith }
foldl-Loses i b (op ∷ ops) f g =
    let one = at-Loses i b op f g.0 in
    let rest = foldl-Loses i (at i b op) ops one.fits g.1 in
    record {
      fits = rest.fits;
      shares = omega (arith, one.shares, rest.shares, burns_at-cons i op ops);
      quote = omega (arith, one.quote, rest.quote, cancels_at-cons i op ops);
    }

-- Whatever the operations, a bucket in range loses no more AMM shares than were burned at it and no
-- more reserved quote than was canceled at it.
pub run-Loses :
    (p : Portfolio) (i : ℕ) (b : LpBucket) (ops : List Op)
    → i < max_lp_buckets
    → get_elem? p.lp_buckets i ≡ some b
    → Fits b
    → All FitsOp ops
    → (b' : LpBucket) × (get_elem? (run p ops).lp_buckets i ≡ some b')
      × (shares_of b ≤ shares_of b' + burns_at i ops)
      × (quote_of b ≤ quote_of b' + cancels_at i ops)
run-Loses p i b ops lt e f g =
    let l = foldl-Loses i b ops f g in
    (foldl (at i) b ops, (run-isolated p i b ops lt e).0, l.shares, l.quote)
