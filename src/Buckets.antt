-- ===== src/Buckets.antt =====
-- crates/model_safety/src/lp_bucket.rs: liquidity positions by venue beside a principal position.
pub mod Isolation
mod Tests
use barista_dex_perc.Prelude.{
  ℕ, ◌+◌, ◌-◌, ◌^◌, min, Bool, true, false, ◌&&◌, Option, none, some, List, [], ◌∷◌, leb, ◌==◌,
  if◌then◌else◌, get_elem?, set, replicate,
}
use barista_dex_perc.Math.{u64_max, add_u128, sub_u128}

abbrev pub max_lp_buckets : ℕ
max_lp_buckets = 4

pub data VenueKind : Type 0 where
  slab_venue amm_venue : VenueKind

pub record AmmLp : Type 0 where
  pub lp_shares : ℕ

pub record SlabLp : Type 0 where
  pub reserved_quote : ℕ
  pub reserved_base : ℕ

pub data LpBucket : Type 0 where
  empty : LpBucket
  amm : AmmLp → LpBucket
  slab : SlabLp → LpBucket

unfoldable pub amm_is_empty : AmmLp → Bool
amm_is_empty a = a.lp_shares == 0

unfoldable pub slab_is_empty : SlabLp → Bool
slab_is_empty s = s.reserved_quote == 0 && s.reserved_base == 0

unfoldable pub bucket_is_empty : LpBucket → Bool
bucket_is_empty LpBucket.empty = true
bucket_is_empty (LpBucket.amm a) = amm_is_empty a
bucket_is_empty (LpBucket.slab s) = slab_is_empty s

unfoldable pub venue_kind : LpBucket → Option VenueKind
venue_kind LpBucket.empty = none
venue_kind (LpBucket.amm _) = some VenueKind.amm_venue
venue_kind (LpBucket.slab _) = some VenueKind.slab_venue

pub record Portfolio : Type 0 where
  pub principal : ℕ
  pub lp_buckets : List LpBucket

abbrev pub new_portfolio : ℕ → Portfolio
new_portfolio principal = record {
  principal = principal;
  lp_buckets = replicate max_lp_buckets LpBucket.empty;
}

-- The guard and the write that the four operations share; the array has `max_lp_buckets` places.
abbrev pub on_bucket : Portfolio → ℕ → (LpBucket → LpBucket) → Portfolio
on_bucket p bucket_idx change =
    if leb max_lp_buckets bucket_idx then p else elim (get_elem? p.lp_buckets bucket_idx) [
      | none ↦ p
      | some b ↦ record p { lp_buckets = set p.lp_buckets bucket_idx (change b) }
    ]

-- A u64 sum that saturates.
unfoldable pub minted : ℕ → LpBucket → LpBucket
minted shares LpBucket.empty = LpBucket.amm (record { lp_shares = shares })
minted shares (LpBucket.amm a) =
    LpBucket.amm (record { lp_shares = min (a.lp_shares + shares) u64_max })
minted shares (LpBucket.slab s) = LpBucket.slab s

unfoldable pub mint_amm_lp : Portfolio → ℕ → ℕ → Portfolio
mint_amm_lp p bucket_idx shares = on_bucket p bucket_idx (minted shares)

unfoldable pub burned : ℕ → LpBucket → LpBucket
burned shares (LpBucket.amm a) =
    if a.lp_shares - shares == 0
    then LpBucket.empty
    else LpBucket.amm (record { lp_shares = a.lp_shares - shares })
burned shares b = b

unfoldable pub burn_amm_lp : Portfolio → ℕ → ℕ → Portfolio
burn_amm_lp p bucket_idx shares = on_bucket p bucket_idx (burned shares)

unfoldable pub placed : ℕ → ℕ → LpBucket → LpBucket
placed quote base LpBucket.empty =
    LpBucket.slab (record { reserved_quote = quote; reserved_base = base })
placed quote base (LpBucket.slab s) = LpBucket.slab (record {
  reserved_quote = add_u128 s.reserved_quote quote;
  reserved_base = add_u128 s.reserved_base base;
})
placed quote base (LpBucket.amm a) = LpBucket.amm a

unfoldable pub place_slab_order : Portfolio → ℕ → ℕ → ℕ → Portfolio
place_slab_order p bucket_idx quote base = on_bucket p bucket_idx (placed quote base)

unfoldable pub canceled : ℕ → ℕ → LpBucket → LpBucket
canceled quote base (LpBucket.slab s) =
    let s' : SlabLp = record {
      reserved_quote = sub_u128 s.reserved_quote quote;
      reserved_base = sub_u128 s.reserved_base base;
    } in
    if slab_is_empty s' then LpBucket.empty else LpBucket.slab s'
canceled quote base b = b

unfoldable pub cancel_slab_order : Portfolio → ℕ → ℕ → ℕ → Portfolio
cancel_slab_order p bucket_idx quote base = on_bucket p bucket_idx (canceled quote base)
