-- ===== src/Prelude/Arrays.antt =====
-- The places in use of an array of fixed length, as a list: the source keeps their number, adds
-- behind the last one and removes by moving the last one into the gap.
use Prim.Native.Nat.{ℕ, zero, suc, ◌+◌}
use mathlib.Core.Path.{◌≡◌, refl, ap}
use mathlib.Core.Option.{Option, none, some, some-injective}
use mathlib.Core.List.{List, [], ◌∷◌, ◌++◌}
use native.Mathlib.Omega.{arith}
use barista_dex_perc.Prelude.Lists.{get_elem?, set, sum_by, sum_by-set}

module _ {ℓ} {A : Type ℓ} where
  abbrev pub last? : List A → Option A
  last? [] = none
  last? (x ∷ []) = some x
  last? (x ∷ y ∷ zs) = last? (y ∷ zs)

  abbrev pub drop_last : List A → List A
  drop_last [] = []
  drop_last (x ∷ []) = []
  drop_last (x ∷ y ∷ zs) = x ∷ drop_last (y ∷ zs)

  abbrev pub moved_last : List A → ℕ → Option A → List A
  moved_last xs i none = xs
  moved_last xs i (some z) = drop_last (set xs i z)

  -- `a[i] = a[last]; count -= 1`
  abbrev pub swap_remove : List A → ℕ → List A
  swap_remove xs i = moved_last xs i (last? xs)

  last?-set : (xs : List A) (i : ℕ) {z : A} → last? xs ≡ some z → last? (set xs i z) ≡ some z
  last?-set (x ∷ []) zero h = refl
  last?-set (x ∷ []) (suc i) h = h
  last?-set (x ∷ y ∷ zs) zero h = h
  last?-set (x ∷ y ∷ zs) (suc zero) h = last?-set (y ∷ zs) zero h
  last?-set (x ∷ y ∷ zs) (suc (suc i)) h = last?-set (y ∷ zs) (suc i) h
  last?-set [] i h = cc

  sum_by-drop_last :
      (f : A → ℕ) (xs : List A) {z : A}
      → last? xs ≡ some z
      → sum_by f (drop_last xs) + f z ≡ sum_by f xs
  sum_by-drop_last f [] h = cc
  sum_by-drop_last f (x ∷ []) h = omega (arith, ap f (some-injective _ _ h))
  sum_by-drop_last f (x ∷ y ∷ zs) h = omega (arith, sum_by-drop_last f (y ∷ zs) h)

  get_elem?-last :
      (xs : List A) (i : ℕ) {x : A} → get_elem? xs i ≡ some x → (z : A) × (last? xs ≡ some z)
  get_elem?-last [] i h = cc
  get_elem?-last (x ∷ []) i h = (x, refl)
  get_elem?-last (x ∷ y ∷ zs) i h = get_elem?-last (y ∷ zs) zero refl

  -- A removal takes one element off every sum.
  pub sum_by-swap_remove :
      (f : A → ℕ) (xs : List A) (i : ℕ) {x : A}
      → get_elem? xs i ≡ some x
      → sum_by f (swap_remove xs i) + f x ≡ sum_by f xs
  sum_by-swap_remove f xs i h =
      let (z, e) = get_elem?-last xs i h in
      rw e
        (omega (arith, sum_by-drop_last f (set xs i z) (last?-set xs i e), sum_by-set f xs i z h))

  pub sum_by-snoc :
      (f : A → ℕ) (xs : List A) (x : A) → sum_by f (xs ++ (x ∷ [])) ≡ sum_by f xs + f x
  sum_by-snoc f [] x = omega arith
  sum_by-snoc f (y ∷ ys) x = omega (arith, sum_by-snoc f ys x)
