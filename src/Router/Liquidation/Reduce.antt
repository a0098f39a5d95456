-- ===== src/Router/Liquidation/Reduce.antt =====
-- What the plans of programs/router/src/liquidation/planner.rs do to the exposures.
use mathlib.Core.Option.{some-injective, none-ne-some}
use native.Mathlib.Nat.{mul-le-mul, div-le_of_le-mul}
use barista_dex_perc.Prelude.{
  ℕ, ◌*◌, ◌/◌, ◌≤◌, min, ◌≡◌, refl, subst, true, false, some, List, [], ◌∷◌, inl, inr, arith, leb,
  ◌==◌, if◌then◌else◌, Bool-cases, Option-cases, Option, none, zero, suc, ◌&&◌, get_elem?,
}
use barista_dex_perc.Prelude.Int.{ℤ, pos, ltb_ℤ, ◌==ℤ◌, ◌+ℤ◌, ◌-ℤ◌}
use barista_dex_perc.Math.{i64_max, fit_i64, min_i128, max_i128}
use barista_dex_perc.Matcher.{as_i64, signed_64}
use barista_dex_perc.Router.Portfolio.{Exposure}
use barista_dex_perc.Router.Registry.{SlabRegistry}
use barista_dex_perc.Router.Position.{abs_i64}
use barista_dex_perc.Router.Position.Margin.{size}
use barista_dex_perc.Router.Order.{SlabSplit}
use barista_dex_perc.Router.CrossSlab.Fill.{Against}
use barista_dex_perc.Router.Liquidation.{validate_oracle_alignment, sat_i64, calculate_price_band}
use barista_dex_perc.Router.Liquidation.Planner.{
  OraclePrice, SlabInfo, find_oracle_price, aligned_slab, reduce_split,
}

as_i64-small : (n : ℕ) → n ≤ i64_max → as_i64 (pos n) ≡ pos n
unfolding as_i64 signed_64
as_i64-small n h = ground arith

part-le : (n bps : ℕ) → n ≤ i64_max → bps ≤ 10_000 → n * bps / 10_000 ≤ i64_max
part-le n bps a b =
    div-le_of_le-mul 10_000
      (omega (arith, mul-le-mul {n₁ = n} {m₁ = bps} {n₂ = i64_max} {m₂ = 10_000} a b))

below_near : (px : ℤ) (a : ℕ) → size px ≤ i64_max → size (sat_i64 (px -ℤ pos a) -ℤ px) ≤ a
unfolding sat_i64 min_i128 max_i128 ◌-ℤ◌
below_near px a h = ground arith

above_near : (px : ℤ) (a : ℕ) → size px ≤ i64_max → size (sat_i64 (px +ℤ pos a) -ℤ px) ≤ a
unfolding sat_i64 min_i128 max_i128 ◌-ℤ◌ ◌+ℤ◌
above_near px a h = ground arith

zero_near : (px : ℤ) → (px ==ℤ pos 0) ≡ true → size (pos 0 -ℤ px) ≡ 0
unfolding ◌-ℤ◌
zero_near px h = ground arith

near_cases :
    (px : ℤ) (a : ℕ) (band : ℤ × ℤ)
    → size px ≤ i64_max
    → (if ltb_ℤ (pos 0) px
        then (sat_i64 (px -ℤ pos a), sat_i64 (px +ℤ pos a))
        else (sat_i64 (px +ℤ pos a), sat_i64 (px -ℤ pos a)))
      ≡ band
    → (size (band.0 -ℤ px) ≤ a) × (size (band.1 -ℤ px) ≤ a)
near_cases px a band fits h =
    let below = below_near px a fits in
    let above = above_near px a fits in
    subst (λ (z : ℤ × ℤ). (size (z.0 -ℤ px) ≤ a) × (size (z.1 -ℤ px) ≤ a)) h
      (elim (Bool-cases (ltb_ℤ (pos 0) px)) [
        | inl y ↦ rw y (below, above)
        | inr n ↦ rw n (above, below)
      ])

-- Both ends of a band are no farther from the price than the band is wide.
band_near :
    (px : ℤ) (bps : ℕ) (band : ℤ × ℤ)
    → bps ≤ 10_000
    → calculate_price_band px bps ≡ some band
    → (size (band.0 -ℤ px) ≤ size px * bps / 10_000)
      × (size (band.1 -ℤ px) ≤ size px * bps / 10_000)
unfolding calculate_price_band abs_i64
band_near px bps band b h = elim (Bool-cases (px ==ℤ pos 0)) [
  | inl z ↦ (ground (arith, zero_near px z), ground (arith, zero_near px z))
  | inr some_px ↦ elim (Bool-cases (leb (size px) i64_max)) [
    | inl fits ↦
        let a = size px * bps / 10_000 in
        let amount : as_i64 (pos a) ≡ pos a =
          as_i64-small a (part-le (size px) bps (ground arith) b) in
        near_cases px a band (ground arith) (some-injective _ _ (rw (some_px, fits, amount) at h))
    | inr wide ↦ (ground arith, ground arith)
  ]
]

aligned_near :
    (mark px : ℤ) (bps : ℕ)
    → bps ≤ 10_000
    → validate_oracle_alignment mark px bps ≡ some true
    → size (mark -ℤ px) ≤ size px * bps / 10_000
unfolding validate_oracle_alignment abs_i64 fit_i64
aligned_near mark px bps b h = elim (Bool-cases (leb (size px) i64_max)) [
  | inl fits ↦
      let amount = as_i64-small (size px * bps / 10_000) (part-le (size px) bps (ground arith) b) in
      ground (arith, amount)
  | inr wide ↦ ground arith
]

module _ (r : SlabRegistry) (oracle_prices : List OraclePrice) (slab_infos : List SlabInfo)
    (bps : ℕ) where
  -- A split that takes an exposure back: against it, no more than it and than the cap, at one of the
  -- given slabs, which is the exposure's and whose mark price is near the oracle's, and with a limit near that price.
  pub record Reduces (e : Exposure) (split : SlabSplit) : Type 0 where
    pub against : Against (split.side == 0) e.qty
    pub quantity : ℕ
    pub is_quantity : split.qty ≡ pos quantity
    pub within : quantity ≤ size e.qty
    pub capped : quantity ≤ r.router_cap_per_slab
    pub px : ℤ
    pub is_px : px ≡ find_oracle_price oracle_prices e.instrument_idx
    pub limit : size (split.limit_px -ℤ px) ≤ size px * bps / 10_000
    pub info : SlabInfo
    pub place : ℕ
    pub listed : get_elem? slab_infos place ≡ some info
    pub slab : split.slab_id ≡ info.slab_id
    pub slab_place : info.slab_idx ≡ e.slab_idx
    pub instrument_place : info.instrument_idx ≡ e.instrument_idx
    pub aligned : size (info.mark_price -ℤ px) ≤ size px * r.oracle_tolerance_bps / 10_000

  -- The splits of a list of exposures, in its order, with at most one for each.
  pub data Plans : List Exposure → List SlabSplit → Type 0 where
    done : Plans [] []
    skips :
        (e : Exposure) {es : List Exposure} {splits : List SlabSplit}
        → Plans es splits
        → Plans (e ∷ es) splits
    reduces :
        {e : Exposure} {es : List Exposure} {split : SlabSplit} {splits : List SlabSplit}
        → Reduces e split
        → Plans es splits
        → Plans (e ∷ es) (split ∷ splits)

  aligned_slab-aligned :
      (infos : List SlabInfo) (e : Exposure) (px : ℤ) (info : SlabInfo)
      → aligned_slab infos e px r.oracle_tolerance_bps ≡ some (some info)
      → (validate_oracle_alignment info.mark_price px r.oracle_tolerance_bps ≡ some true)
        × (info.slab_idx ≡ e.slab_idx)
        × (info.instrument_idx ≡ e.instrument_idx)
  unfolding aligned_slab
  aligned_slab-aligned [] e px info h = ground arith
  aligned_slab-aligned (i ∷ infos) e px info h =
      ground (arith, aligned_slab-aligned infos e px info)

  -- The slab that is found is one of those given.
  aligned_slab-listed :
      (infos : List SlabInfo) (e : Exposure) (px : ℤ) (info : SlabInfo)
      → aligned_slab infos e px r.oracle_tolerance_bps ≡ some (some info)
      → (k : ℕ) × (get_elem? infos k ≡ some info)
  unfolding aligned_slab
  aligned_slab-listed [] e px info h = absurd (none-ne-some _ (some-injective _ _ h))
  aligned_slab-listed (i ∷ infos) e px info h =
      let matches = i.slab_idx == e.slab_idx && i.instrument_idx == e.instrument_idx in
      elim (Bool-cases matches) [
        | inr n ↦
            let (k, there) = aligned_slab-listed infos e px info (rw (n, aligned_slab) at h) in
            (suc k, there)
        | inl y ↦
            elim (Option-cases (validate_oracle_alignment i.mark_price px r.oracle_tolerance_bps)) [
              | inl z ↦ absurd (
                  none-ne-some _ (
                    let p : ◌≡◌ {A = Option (Option SlabInfo)} none (some (some info)) =
                      rw (y, aligned_slab, z) at h in
                    p))
              | inr (b, z) ↦ elim (Bool-cases b) [
                | inl t ↦
                    let p : ◌≡◌ {A = Option (Option SlabInfo)} (some (some i)) (some (some info)) =
                      rw (y, aligned_slab, z, t) at h in
                    (zero, some-injective _ _ p)
                | inr f ↦
                    let (k, there) =
                      aligned_slab-listed infos e px info (rw (y, aligned_slab, z, f) at h) in
                    (suc k, there)
              ]
            ]
      ]

  min_cap :
      (n cap : ℕ)
      → cap ≤ i64_max
      → (m : ℕ) × (min_i128 (pos n) (as_i64 (pos cap)) ≡ pos m) × (m ≤ n) × (m ≤ cap)
  unfolding min_i128
  min_cap n cap h = (min n cap, ground (arith, as_i64-small cap h), omega arith, omega arith)

  pub reduce_split-Reduces :
      (e : Exposure) (px : ℤ) (band : ℤ × ℤ) (info : SlabInfo)
      → (e.qty ==ℤ pos 0) ≡ false
      → px ≡ find_oracle_price oracle_prices e.instrument_idx
      → bps ≤ 10_000
      → r.oracle_tolerance_bps ≤ 10_000
      → r.router_cap_per_slab ≤ i64_max
      → calculate_price_band px bps ≡ some band
      → aligned_slab slab_infos e px r.oracle_tolerance_bps ≡ some (some info)
      → Reduces e (reduce_split info e.qty (size e.qty) band r.router_cap_per_slab)
  unfolding reduce_split
  reduce_split-Reduces e px band info some_qty is_px b tol cap hb hs =
      let (m, em, mn, mc) = min_cap (size e.qty) r.router_cap_per_slab cap in
      let near = band_near px bps band b hb in
      let (k, there) = aligned_slab-listed slab_infos e px info hs in
      let (valid, at, inst) = aligned_slab-aligned slab_infos e px info hs in
      record {
        against = ground arith;
        quantity = m;
        is_quantity = em;
        within = mn;
        capped = mc;
        px = px;
        is_px = is_px;
        limit = ground (arith, near);
        info = info;
        place = k;
        listed = there;
        slab = refl;
        slab_place = at;
        instrument_place = inst;
        aligned = aligned_near info.mark_price px r.oracle_tolerance_bps tol valid;
      }
