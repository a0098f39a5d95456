-- ===== src/Router/CrossSlab/Listing.antt =====
-- Which slab the registry of programs/router/src/state/registry.rs finds, in a trade.
use mathlib.Core.Option.{some-injective}
use barista_dex_perc.Prelude.{
  ℕ, suc, ◌≤◌, ◌<◌, ◌≡◌, refl, subst, true, ◌&&◌, none, some, List, [], ◌∷◌, ◌++◌, inl, inr, arith,
  ◌==◌, length, length-append, Bool-cases, Option-cases,
}
use barista_dex_perc.Router.Order.{Leg, auto_entry, slab_index}
use barista_dex_perc.Router.Registry.{
  max_slabs, SlabEntry, SlabRegistry, register_slab, found_slab, find_slab,
}

-- An entry behind the others is found if no other of its slab is.
found_behind :
    (id : ℕ) (es : List SlabEntry) (e : SlabEntry)
    → found_slab id es ≡ none
    → (e.slab_id == id && e.active) ≡ true
    → found_slab id (es ++ (e ∷ [])) ≡ some (length es, e)
unfolding found_slab
found_behind id [] e n h = rw (h, found_slab) refl
found_behind id (s ∷ es) e n h = elim (Bool-cases (s.slab_id == id && s.active)) [
  | inl y ↦ let p : some (0, s) ≡ none = rw (y, found_slab) at n in cc
  | inr m ↦ elim (Option-cases (found_slab id es)) [
    | inl z ↦ rw (m, found_behind id es e z h, found_slab) refl
    | inr (at, z) ↦ let p : some (suc at.0, at.1) ≡ none = rw (m, found_slab, z) at n in cc
  ]
]

-- An entry that is found stays the one that is found.
found_before :
    (id : ℕ) (es more : List SlabEntry) (at : ℕ × SlabEntry)
    → found_slab id es ≡ some at
    → (found_slab id (es ++ more) ≡ some at) × (at.0 < length es)
unfolding found_slab
found_before id [] more at h = cc
found_before id (s ∷ es) more at h = elim (Bool-cases (s.slab_id == id && s.active)) [
  | inl y ↦
      let p : some (0, s) ≡ some at = rw (y, found_slab) at h in
      (
        rw (y, found_slab) p,
        subst (λ (a : ℕ × SlabEntry). a.0 < suc (length es)) (some-injective _ _ p) (omega arith),
      )
  | inr m ↦ elim (Option-cases (found_slab id es)) [
    | inl z ↦ let p : none ≡ some at = rw (m, found_slab, z) at h in cc
    | inr (c, z) ↦
        let p : some (suc c.0, c.1) ≡ some at = rw (m, found_slab, z) at h in
        let (q, l) = found_before id es more c z in
        (
          rw (m, q, found_slab) p,
          subst (λ (a : ℕ × SlabEntry). a.0 < suc (length es)) (some-injective _ _ p)
              (omega (arith, l)),
        )
  ]
]

register_slab-appends :
    (r : SlabRegistry) (e : SlabEntry) (r' : SlabRegistry) (i : ℕ)
    → register_slab r e ≡ some (r', i)
    → (r'.slabs ≡ r.slabs ++ (record e { active = true } ∷ []))
      × (i ≡ length r.slabs)
      × (length r.slabs < max_slabs)
unfolding register_slab
register_slab-appends r e r' i h = ground arith

self_entry : (n : ℕ) → (n == n && true) ≡ true
self_entry n = ground arith

-- The index that a trade takes for its slab, registering the slab if it is not listed, is that at which
-- the registry finds the slab afterwards, is a place of the array, and every slab that the registry
-- found before it finds at the same index with the same entry.
pub slab_index-finds :
    (r : SlabRegistry) (leg : Leg) (r' : SlabRegistry) (i id : ℕ) (at : ℕ × SlabEntry)
    → length r.slabs ≤ max_slabs
    → find_slab r id ≡ some at
    → slab_index r leg ≡ some (r', i)
    → ((e : SlabEntry) × (find_slab r' leg.slab_id ≡ some (i, e)))
      × (i < max_slabs)
      × (length r'.slabs ≤ max_slabs)
      × (find_slab r' id ≡ some at)
unfolding slab_index find_slab
slab_index-finds r leg r' i id at few found h =
    elim (Option-cases (found_slab leg.slab_id r.slabs)) [
      | inr (c, z) ↦
          let p : some (r, c.0) ≡ some (r', i) = rw (z, slab_index, find_slab) at h in
          let (q, l) = found_before leg.slab_id r.slabs [] c z in
          subst
            (λ (a : SlabRegistry × ℕ).
              ((e : SlabEntry) × (found_slab leg.slab_id a.0.slabs ≡ some (a.1, e)))
              × (a.1 < max_slabs)
              × (length a.0.slabs ≤ max_slabs)
              × (found_slab id a.0.slabs ≡ some at))
            (some-injective _ _ p) ((c.1, z), omega (arith, l), few, found)
      | inl z ↦
          let entry = auto_entry leg.slab_id leg.oracle.oracle_id in
          let (a, ei, room) =
            register_slab-appends r entry r' i (rw (z, slab_index, find_slab) at h) in
          let new = found_behind leg.slab_id r.slabs entry z (self_entry leg.slab_id) in
          let (old, l) = found_before id r.slabs (entry ∷ []) at found in
          (
            (entry, rw (a, ei) new),
            omega arith,
            rw a (omega (arith, length-append r.slabs (entry ∷ []))),
            rw a old,
          )
    ]
