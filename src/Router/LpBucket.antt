-- ===== src/Router/LpBucket.antt =====
-- programs/router/src/state/lp_bucket.rs. A key is a number, padding is left out, and an array with a
-- count is the list of its places in use. `none` is Err(()), after which the object is as it was.
pub mod Reservations
use barista_dex_perc.Prelude.{
  ℕ, suc, Bool, true, false, ◌&&◌, Option, none, some, List, [], ◌∷◌, ◌++◌, ltb, leb, ◌==◌,
  if◌then◌else◌, length,
}
use barista_dex_perc.Prelude.Int.{ℤ}
use barista_dex_perc.Prelude.Arrays.{swap_remove}
use barista_dex_perc.Math.{add_u128, sub_u128}

abbrev pub max_lp_buckets : ℕ
max_lp_buckets = 16

abbrev pub max_open_orders : ℕ
max_open_orders = 8

pub data VenueKind : Type 0 where
  slab amm : VenueKind

pub record VenueId : Type 0 where
  pub market_id : ℕ
  pub kind : VenueKind

abbrev pub new_slab_venue : ℕ → VenueId
new_slab_venue market_id = record { market_id = market_id; kind = VenueKind.slab }

abbrev pub new_amm_venue : ℕ → VenueId
new_amm_venue market_id = record { market_id = market_id; kind = VenueKind.amm }

abbrev pub same_kind : VenueKind → VenueKind → Bool
same_kind VenueKind.slab VenueKind.slab = true
same_kind VenueKind.amm VenueKind.amm = true
same_kind _ _ = false

abbrev pub same_venue : VenueId → VenueId → Bool
same_venue v w = v.market_id == w.market_id && same_kind v.kind w.kind

pub record AmmLp : Type 0 where
  pub lp_shares : ℕ
  pub share_price_cached : ℤ
  pub last_update_ts : ℕ

unfoldable pub is_stale : AmmLp → ℕ → ℕ → Bool
is_stale a current_ts max_age_seconds = ltb max_age_seconds (sub_u128 current_ts a.last_update_ts)

pub record SlabLp : Type 0 where
  pub reserved_quote : ℕ
  pub reserved_base : ℕ
  pub open_order_ids : List ℕ

abbrev pub new_slab_lp : SlabLp
new_slab_lp = record { reserved_quote = 0; reserved_base = 0; open_order_ids = [] }

unfoldable pub add_reservation : SlabLp → ℕ → ℕ → ℕ → Option SlabLp
add_reservation s order_id quote base =
    if leb max_open_orders (length s.open_order_ids)
    then none
    else some (record {
      reserved_quote = add_u128 s.reserved_quote quote;
      reserved_base = add_u128 s.reserved_base base;
      open_order_ids = s.open_order_ids ++ (order_id ∷ []);
    })

-- The first place of an order.
unfoldable pub found_order : List ℕ → ℕ → Option ℕ
found_order [] order_id = none
found_order (id ∷ ids) order_id = elim (id == order_id) [
  | true ↦ some 0
  | false ↦ elim (found_order ids order_id) [ none ↦ none | some i ↦ some (suc i) ]
]

unfoldable pub remove_reservation : SlabLp → ℕ → ℕ → ℕ → Option SlabLp
remove_reservation s order_id quote base = elim (found_order s.open_order_ids order_id) [
  | none ↦ none
  | some idx ↦ some (record {
    reserved_quote = sub_u128 s.reserved_quote quote;
    reserved_base = sub_u128 s.reserved_base base;
    open_order_ids = swap_remove s.open_order_ids idx;
  })
]

pub record LpBucket : Type 0 where
  pub venue : VenueId
  pub amm : Option AmmLp
  pub slab : Option SlabLp
  pub im : ℕ
  pub mm : ℕ
  pub active : Bool

unfoldable pub new_amm : VenueId → ℕ → ℤ → ℕ → LpBucket
new_amm venue lp_shares share_price timestamp = record {
  venue = venue;
  amm = some (record {
    lp_shares = lp_shares;
    share_price_cached = share_price;
    last_update_ts = timestamp;
  });
  slab = none;
  im = 0;
  mm = 0;
  active = true;
}

unfoldable pub new_slab : VenueId → LpBucket
new_slab venue = record {
  venue = venue;
  amm = none;
  slab = some new_slab_lp;
  im = 0;
  mm = 0;
  active = true;
}

unfoldable pub update_bucket_margin : LpBucket → ℕ → ℕ → LpBucket
update_bucket_margin b im mm = record b { im = im; mm = mm }

unfoldable pub is_amm : LpBucket → Bool
is_amm b = same_kind b.venue.kind VenueKind.amm

unfoldable pub is_slab : LpBucket → Bool
is_slab b = same_kind b.venue.kind VenueKind.slab
