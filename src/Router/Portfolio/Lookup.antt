-- ===== src/Router/Portfolio/Lookup.antt =====
-- Reading an exposure of programs/router/src/state/portfolio.rs after an update.
use barista_dex_perc.Prelude.{
  ℕ, ◌≤◌, ◌<◌, ◌≡◌, refl, sym, true, some, List, inl, inr, arith, if◌then◌else◌, length, set,
  sum_by, sum_by-set, get_elem?-set-some, Bool-cases, ◌⊎◌,
}
use barista_dex_perc.Prelude.Int.{ℤ, pos, pos_part, neg_part, eq_of_parts}
use barista_dex_perc.Prelude.Arrays.{swap_remove, sum_by-swap_remove, sum_by-snoc}
use barista_dex_perc.Router.Portfolio.{
  max_exposures, Exposure, Portfolio, found_exposure, updated, update_exposure, get_exposure,
}
use barista_dex_perc.Router.Portfolio.Exposures.{
  at_key, entries_at, sum_none, exposure_in-sum, found_exposure-some, found_exposure-cases, IsMap,
  same_key, has_key-same, written, written-key, fresh-key, HasPlace, updated_found, updated_missing,
}

same_key-eq : (s i s' i' : ℕ) → same_key s i s' i' ≡ true → (s ≡ s') × (i ≡ i')
same_key-eq s i s' i' h = ground arith

-- The one entry of a key makes up the whole sum at it.
single_entry :
    (f : Exposure → ℕ) (s i : ℕ) (es : List Exposure) (at : ℕ × Exposure)
    → entries_at s i es ≤ 1
    → found_exposure s i es ≡ some at
    → sum_by (at_key f s i) es ≡ f at.1
single_entry f s i es at le e =
    let (found, key) = found_exposure-some s i es at e in
    let w : at_key f s i at.1 ≡ f at.1 = rw key refl in
    let c : at_key (λ _. 1) s i at.1 ≡ 1 = rw key refl in
    let rest = swap_remove es at.0 in
    let z : entries_at s i rest ≡ 0 =
      omega (arith, sum_by-swap_remove (at_key (λ _. 1) s i) es at.0 found, c) in
    omega (arith, sum_by-swap_remove (at_key f s i) es at.0 found, w, sum_none f s i rest z)

updated-sum :
    (g : ℤ → ℕ) (g0 : g (pos 0) ≡ 0) (es : List Exposure) (s i : ℕ) (q : ℤ) (s' i' : ℕ)
    → IsMap es
    → HasPlace es s i q
    → sum_by (at_key (λ e. g e.qty) s' i') (updated es s i q)
      ≡ (if same_key s i s' i' then g q else sum_by (at_key (λ e. g e.qty) s' i') es)
unfolding IsMap
updated-sum g g0 es s i q s' i' m room = elim (found_exposure-cases s i es) [
  | inl (n, z) ↦
      let room' : (length es < max_exposures) ⊎ (q ≡ pos 0) = elim room [
        | inl l ↦ inl l
        | inr (inl there) ↦ absurd (omega arith)
        | inr (inr none_left) ↦ inr none_left
      ] in
      let new = updated_missing g g0 es s i q s' i' n room' in
      elim (Bool-cases (same_key s i s' i')) [
        | inl y ↦
            let (es', ei) = same_key-eq s i s' i' y in
            let z' : entries_at s' i' es ≡ 0 = rw (sym es', sym ei) z in
            ground (arith, new, y, sum_none (λ e. g e.qty) s' i' es z')
        | inr y ↦ ground (arith, new, y)
      ]
  | inr (at, e) ↦
      let new = updated_found g g0 es s i q s' i' at e in
      let (found, key) = found_exposure-some s i es at e in
      let k = has_key-same s i s' i' at.1 key in
      elim (Bool-cases (same_key s i s' i')) [
        | inl y ↦
            let (es', ei) = same_key-eq s i s' i' y in
            let all : sum_by (at_key (λ e. g e.qty) s' i') es ≡ g at.1.qty =
              rw (sym es', sym ei) (single_entry (λ e. g e.qty) s i es at (m s i) e) in
            ground (arith, new, y, k, all)
        | inr y ↦ ground (arith, new, y, k)
      ]
]

updated-IsMap : (es : List Exposure) (s i : ℕ) (q : ℤ) → IsMap es → IsMap (updated es s i q)
unfolding IsMap updated
updated-IsMap es s i q m = λ s' i'.
    let k = at_key (λ _. 1) s' i' in
    elim (found_exposure-cases s i es) [
      | inl (n, z) ↦
          let new : Exposure = record { slab_idx = s; instrument_idx = i; qty = q } in
          let kn : k new ≡ (if same_key s i s' i' then 1 else 0) =
            rw (fresh-key s i s' i' q) refl in
          let z' : (if same_key s i s' i' then entries_at s' i' es else 0) ≡ 0 =
            elim (Bool-cases (same_key s i s' i')) [
              | inl y ↦ let (es', ei) = same_key-eq s i s' i' y in rw (y, sym es', sym ei) z
              | inr y ↦ rw y refl
            ] in
          rw (n, updated) (ground (arith, sum_by-snoc k es new, kn, z', m s' i'))
      | inr (at, e) ↦
          let w = written at.1 q in
          let (found, key) = found_exposure-some s i es at e in
          let kw : k w ≡ k at.1 = rw (written-key s' i' at.1 q) refl in
          rw (e, updated)
            (ground (
              arith,
              kw,
              sum_by-set k es at.0 w found,
              sum_by-swap_remove k (set es at.0 w) at.0 (get_elem?-set-some es at.0 w found),
              m s' i',
            ))
    ]

-- After an update that has a place the updated key has the new quantity and every other key the
-- quantity that it had, and no key stands twice, if none did before.
pub get_exposure-update :
    (p : Portfolio) (s i : ℕ) (q : ℤ) (s' i' : ℕ)
    → IsMap p.exposures
    → HasPlace p.exposures s i q
    → (get_exposure (update_exposure p s i q) s' i'
        ≡ (if same_key s i s' i' then q else get_exposure p s' i'))
      × IsMap (update_exposure p s i q).exposures
unfolding get_exposure update_exposure IsMap
get_exposure-update p s i q s' i' m room =
    let m' = updated-IsMap p.exposures s i q m in
    let a = exposure_in-sum s' i' p.exposures (m s' i') in
    let b = exposure_in-sum s' i' (updated p.exposures s i q) (m' s' i') in
    let c = updated-sum pos_part refl p.exposures s i q s' i' m room in
    let d = updated-sum neg_part refl p.exposures s i q s' i' m room in
    (eq_of_parts _ _ (ground (arith, a, b, c, d)), m')
