-- ===== src/Router/Portfolio/Exposures.antt =====
-- The exposures of programs/router/src/state/portfolio.rs as a map from keys to quantities.
use barista_dex_perc.Prelude.{
  ℕ, suc, ◌+◌, ◌≤◌, ◌<◌, ◌≡◌, refl, ap, subst, ◌∙◌, Bool, true, ◌&&◌, none, some, Option, List, [],
  ◌∷◌, inl, inr, arith, ltb, ◌==◌, if◌then◌else◌, length, get_elem?, set, get_elem?-set-some,
  sum_by, sum_by-set, Bool-cases, Option-cases, ◌⊎◌,
}
use mathlib.Core.Option.{some-injective}
use barista_dex_perc.Prelude.Int.{ℤ, pos, pos_part, neg_part, ◌==ℤ◌}
use barista_dex_perc.Prelude.Arrays.{sum_by-swap_remove, sum_by-snoc}
use barista_dex_perc.Router.Portfolio.{
  max_exposures, Exposure, has_key, found_exposure, updated, exposure_in,
}

-- A weight of the entries at a key, summed over the list.
abbrev pub at_key : (Exposure → ℕ) → ℕ → ℕ → Exposure → ℕ
at_key f s i e = if has_key s i e then f e else 0

abbrev pub entries_at : ℕ → ℕ → List Exposure → ℕ
entries_at s i es = sum_by (at_key (λ _. 1) s i) es

-- The weight at a key with no entries is nothing.
pub sum_none :
    (f : Exposure → ℕ) (s i : ℕ) (es : List Exposure)
    → entries_at s i es ≡ 0
    → sum_by (at_key f s i) es ≡ 0
sum_none f s i [] h = refl
sum_none f s i (e ∷ es) h = elim (Bool-cases (has_key s i e)) [
  | inl y ↦ absurd (ground arith)
  | inr n ↦ ground (arith, sum_none f s i es)
]

-- The quantity of a key that stands at most once is the sum over its entries.
pub exposure_in-sum :
    (s i : ℕ) (es : List Exposure)
    → entries_at s i es ≤ 1
    → (pos_part (exposure_in es s i) ≡ sum_by (at_key (λ e. pos_part e.qty) s i) es)
      × (neg_part (exposure_in es s i) ≡ sum_by (at_key (λ e. neg_part e.qty) s i) es)
unfolding exposure_in
exposure_in-sum s i [] h = (refl, refl)
exposure_in-sum s i (e ∷ es) h = elim (Bool-cases (has_key s i e)) [
  | inl y ↦
      let z : entries_at s i es ≡ 0 = ground arith in
      rw y (
        omega (arith, sum_none (λ x. pos_part x.qty) s i es z),
        omega (arith, sum_none (λ x. neg_part x.qty) s i es z),
      )
  | inr n ↦
      let r = exposure_in-sum s i es (ground arith) in rw n (omega (arith, r), omega (arith, r))
]

pub found_exposure-some :
    (s i : ℕ) (es : List Exposure) (at : ℕ × Exposure)
    → found_exposure s i es ≡ some at
    → (get_elem? es at.0 ≡ some at.1) × (has_key s i at.1 ≡ true)
unfolding found_exposure
found_exposure-some s i [] at h = cc
found_exposure-some s i (e ∷ es) at h = elim (Bool-cases (has_key s i e)) [
  | inl y ↦
      let p : some (0, e) ≡ some at = rw (y, found_exposure) at h in
      subst (λ (a : ℕ × Exposure). (get_elem? (e ∷ es) a.0 ≡ some a.1) × (has_key s i a.1 ≡ true))
        (some-injective _ _ p) (refl, y)
  | inr n ↦ elim (Option-cases (found_exposure s i es)) [
    | inl z ↦ let p : none ≡ some at = rw (n, found_exposure, z) at h in cc
    | inr (b, z) ↦
        let p : some (suc b.0, b.1) ≡ some at = rw (n, found_exposure, z) at h in
        subst (λ (a : ℕ × Exposure). (get_elem? (e ∷ es) a.0 ≡ some a.1) × (has_key s i a.1 ≡ true))
          (some-injective _ _ p) (found_exposure-some s i es b z)
  ]
]

found_exposure-none :
    (s i : ℕ) (es : List Exposure) → found_exposure s i es ≡ none → entries_at s i es ≡ 0
unfolding found_exposure
found_exposure-none s i [] h = refl
found_exposure-none s i (e ∷ es) h = elim (Bool-cases (has_key s i e)) [
  | inl y ↦
      let p : ◌≡◌ {A = Option (ℕ × Exposure)} (some (0, e)) none = rw (y, found_exposure) at h in cc
  | inr n ↦ elim (Option-cases (found_exposure s i es)) [
    | inl z ↦ rw n (omega (arith, found_exposure-none s i es z))
    | inr (b, z) ↦
        let p : ◌≡◌ {A = Option (ℕ × Exposure)} (some (suc b.0, b.1)) none =
          rw (n, found_exposure, z) at h in
        cc
  ]
]

-- No key stands twice.
unfoldable pub IsMap : List Exposure → Type 0
IsMap es = (s i : ℕ) → entries_at s i es ≤ 1

abbrev pub same_key : ℕ → ℕ → ℕ → ℕ → Bool
same_key s i s' i' = s == s' && i == i'

pub has_key-same :
    (s i s' i' : ℕ) (e : Exposure) → has_key s i e ≡ true → has_key s' i' e ≡ same_key s i s' i'
unfolding has_key
has_key-same s i s' i' e h = ground arith

-- The entry that `updated` writes.
abbrev pub written : Exposure → ℤ → Exposure
written e q = record e { qty = q }

pub written-key : (s i : ℕ) (e : Exposure) (q : ℤ) → has_key s i (written e q) ≡ has_key s i e
unfolding has_key
written-key s i e q = refl

pub fresh-key :
    (s i s' i' : ℕ) (q : ℤ)
    → has_key s' i' (record { slab_idx = s; instrument_idx = i; qty = q }) ≡ same_key s i s' i'
unfolding has_key
fresh-key s i s' i' q = refl

-- There is a place for the key's new quantity: room, an entry, or nothing to store.
abbrev pub HasPlace : List Exposure → ℕ → ℕ → ℤ → Type 0
HasPlace es s i q = (length es < max_exposures) ⊎ ((0 < entries_at s i es) ⊎ (q ≡ pos 0))

module _ (g : ℤ → ℕ) (g0 : g (pos 0) ≡ 0) (es : List Exposure) (s i : ℕ) (q : ℤ) (s' i' : ℕ) where
  pub updated_found :
      (at : ℕ × Exposure)
      → found_exposure s i es ≡ some at
      → sum_by (at_key (λ e. g e.qty) s' i') (updated es s i q) + at_key (λ e. g e.qty) s' i' at.1
        ≡ sum_by (at_key (λ e. g e.qty) s' i') es + (if same_key s i s' i' then g q else 0)
  unfolding updated
  updated_found at e =
      let k = at_key (λ e. g e.qty) s' i' in
      let w = written at.1 q in
      let (found, key) = found_exposure-some s i es at e in
      let kw : k w ≡ (if same_key s i s' i' then g q else 0) =
        rw (written-key s' i' at.1 q, has_key-same s i s' i' at.1 key) refl in
      let one = sum_by-set k es at.0 w found in
      elim (Bool-cases (q ==ℤ pos 0)) [
        | inl z ↦
            let gq : g q ≡ 0 = ap g (let x : q ≡ pos 0 = ground arith in x) ∙ g0 in
            let two =
              sum_by-swap_remove k (set es at.0 w) at.0 (get_elem?-set-some es at.0 w found) in
            let kw0 : k w ≡ 0 = kw ∙ ground arith in
            rw (e, updated, z) (omega (arith, one, two, kw, kw0))
        | inr z ↦ rw (e, updated, z) (omega (arith, one, kw))
      ]

  pub updated_missing :
      found_exposure s i es ≡ none
      → (length es < max_exposures) ⊎ (q ≡ pos 0)
      → sum_by (at_key (λ e. g e.qty) s' i') (updated es s i q)
        ≡ sum_by (at_key (λ e. g e.qty) s' i') es + (if same_key s i s' i' then g q else 0)
  unfolding updated
  updated_missing e room =
      let k = at_key (λ e. g e.qty) s' i' in
      let new : Exposure = record { slab_idx = s; instrument_idx = i; qty = q } in
      let kn : k new ≡ (if same_key s i s' i' then g q else 0) = rw (fresh-key s i s' i' q) refl in
      let one = sum_by-snoc k es new in
      elim (Bool-cases (q ==ℤ pos 0)) [
        | inl z ↦
            let gq : g q ≡ 0 = ap g (let x : q ≡ pos 0 = ground arith in x) ∙ g0 in
            let kn0 : (if same_key s i s' i' then g q else 0) ≡ 0 = ground arith in
            rw (e, updated, z) (omega (arith, kn0))
        | inr z ↦
            let lt : ltb (length es) max_exposures ≡ true = ground arith in
            rw (e, updated, z, lt) (omega (arith, one, kn))
      ]

pub found_exposure-cases :
    (s i : ℕ) (es : List Exposure)
    → ((found_exposure s i es ≡ none) × (entries_at s i es ≡ 0))
      ⊎ ((at : ℕ × Exposure) × (found_exposure s i es ≡ some at))
found_exposure-cases s i es = elim (Option-cases (found_exposure s i es)) [
  | inl n ↦ inl (n, found_exposure-none s i es n)
  | inr (at, e) ↦ inr (at, e)
]
