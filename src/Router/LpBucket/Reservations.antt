-- ===== src/Router/LpBucket/Reservations.antt =====
-- The reservations of programs/router/src/state/lp_bucket.rs.
use barista_dex_perc.Prelude.{
  ℕ, suc, ◌+◌, ◌≤◌, ◌<◌, ◌≡◌, refl, ap, false, some, List, [], ◌∷◌, ◌++◌, inl, inr, arith, leb,
  ◌==◌, if◌then◌else◌, length, get_elem?, sum_by, Bool-cases, ==_iff,
}
use barista_dex_perc.Prelude.Arrays.{swap_remove, sum_by-swap_remove, sum_by-snoc}
use barista_dex_perc.Prelude.Options.{◌>>=◌}
use barista_dex_perc.Math.{u128_max, add_u128, sub_u128}
use barista_dex_perc.Math.Bounds.{add_u128_lem, sub_u128_lem}
use barista_dex_perc.Router.LpBucket.{
  max_open_orders, SlabLp, add_reservation, found_order, remove_reservation,
}

-- How often an order stands among the open ones.
abbrev pub times : ℕ → List ℕ → ℕ
times id ids = sum_by (λ n. if n == id then 1 else 0) ids

-- The first place of an order that is there.
found_order-found :
    (ids : List ℕ) (id : ℕ)
    → 0 < times id ids
    → (i : ℕ) × (found_order ids id ≡ some i) × (get_elem? ids i ≡ some id)
unfolding found_order
found_order-found [] id h = absurd (omega arith)
found_order-found (n ∷ ids) id h = elim (Bool-cases (n == id)) [
  | inl y ↦ (0, rw (y, found_order) refl, ap some ((==_iff n id).0 y))
  | inr m ↦
      let (i, e, g) = found_order-found ids id (ground arith) in
      (suc i, rw (m, e, found_order) refl, g)
]

-- An order that is placed and then removed with the same amounts leaves the reserves, and how often
-- any order is open, as they were, if there is room for it and no reserve saturates.
pub remove-add_reservation :
    (s : SlabLp) (id quote base k : ℕ)
    → length s.open_order_ids < max_open_orders
    → s.reserved_quote + quote ≤ u128_max
    → s.reserved_base + base ≤ u128_max
    → (s' : SlabLp) × (add_reservation s id quote base >>= (λ t. remove_reservation t id quote base)
        ≡ some s')
      × (s'.reserved_quote ≡ s.reserved_quote)
      × (s'.reserved_base ≡ s.reserved_base)
      × (times k s'.open_order_ids ≡ times k s.open_order_ids)
unfolding add_reservation remove_reservation
remove-add_reservation s id quote base k room fq fb =
    let ids = s.open_order_ids ++ (id ∷ []) in
    let weight : ℕ → ℕ → ℕ = λ j n. if n == j then 1 else 0 in
    let self : weight id id ≡ 1 = rw ((==_iff id id).1 refl) refl in
    let (i, e, g) =
      found_order-found ids id (omega (arith, sum_by-snoc (weight id) s.open_order_ids id, self)) in
    let room' : leb max_open_orders (length s.open_order_ids) ≡ false = ground arith in
    (
      record {
        reserved_quote = sub_u128 (add_u128 s.reserved_quote quote) quote;
        reserved_base = sub_u128 (add_u128 s.reserved_base base) base;
        open_order_ids = swap_remove ids i;
      },
      rw (room', e, remove_reservation) refl,
      omega (
        arith,
        add_u128_lem s.reserved_quote quote fq,
        sub_u128_lem (add_u128 s.reserved_quote quote) quote,
      ),
      omega (
        arith,
        add_u128_lem s.reserved_base base fb,
        sub_u128_lem (add_u128 s.reserved_base base) base,
      ),
      omega (
        arith,
        sum_by-swap_remove (weight k) ids i g,
        sum_by-snoc (weight k) s.open_order_ids id,
      ),
    )
