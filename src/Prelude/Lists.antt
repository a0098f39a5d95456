-- ===== src/Prelude/Lists.antt =====
-- Lists measured and indexed by native numbers, under the library's names.
use Prim.Native.Nat.{ℕ, zero, suc, ◌+◌, ◌-◌, ◌<◌, ◌≤◌, min}
use mathlib.Core.Path.{◌≡◌, refl, ap, sym, subst, ◌∙◌}
use mathlib.Core.Logic.{◌≢◌}
use mathlib.Core.List.{List, [], ◌∷◌, ◌++◌, map}
use mathlib.Core.Option.{Option, none, some, some-injective}
use native.Mathlib.Omega.{arith}

module _ {ℓ} {A : Type ℓ} where
  abbrev pub length : List A → ℕ
  length [] = 0
  length (x ∷ xs) = suc (length xs)

  abbrev pub get_elem? : List A → ℕ → Option A
  get_elem? [] i = none
  get_elem? (x ∷ xs) zero = some x
  get_elem? (x ∷ xs) (suc i) = get_elem? xs i

  -- A write out of bounds changes nothing.
  abbrev pub set : List A → ℕ → A → List A
  set [] i v = []
  set (x ∷ xs) zero v = v ∷ xs
  set (x ∷ xs) (suc i) v = x ∷ set xs i v

  pub length-append : (xs ys : List A) → length (xs ++ ys) ≡ length xs + length ys
  length-append [] ys = omega arith
  length-append (x ∷ xs) ys = omega (arith, length-append xs ys)

module _ {ℓ} {A : Type ℓ} where
  pub length-set : (xs : List A) (i : ℕ) (v : A) → length (set xs i v) ≡ length xs
  length-set [] i v = refl
  length-set (x ∷ xs) zero v = refl
  length-set (x ∷ xs) (suc i) v = ap suc (length-set xs i v)

  pub get_elem?-set_self :
      (xs : List A) (i : ℕ) (v : A) → i < length xs → get_elem? (set xs i v) i ≡ some v
  get_elem?-set_self [] i v h = elim h [ ]
  get_elem?-set_self (x ∷ xs) zero v h = refl
  get_elem?-set_self (x ∷ xs) (suc i) v h = get_elem?-set_self xs i v (omega arith)

  pub get_elem?-set_ne :
      (xs : List A) {i j : ℕ} (v : A) → i ≢ j → get_elem? (set xs i v) j ≡ get_elem? xs j
  get_elem?-set_ne [] v h = refl
  get_elem?-set_ne (x ∷ xs) {i = zero} {j = zero} v h = absurd (h refl)
  get_elem?-set_ne (x ∷ xs) {i = zero} {j = suc j} v h = refl
  get_elem?-set_ne (x ∷ xs) {i = suc i} {j = zero} v h = refl
  get_elem?-set_ne (x ∷ xs) {i = suc i} {j = suc j} v h = get_elem?-set_ne xs v (λ e. h (ap suc e))

module _ {ℓ} {A : Type ℓ} where
  abbrev pub get_or : List A → ℕ → A → A
  get_or [] i d = d
  get_or (x ∷ xs) zero d = x
  get_or (x ∷ xs) (suc i) d = get_or xs i d

  abbrev pub take : ℕ → List A → List A
  take zero xs = []
  take (suc n) [] = []
  take (suc n) (x ∷ xs) = x ∷ take n xs

  abbrev pub drop : ℕ → List A → List A
  drop zero xs = xs
  drop (suc n) [] = []
  drop (suc n) (x ∷ xs) = drop n xs

  abbrev pub replicate : ℕ → A → List A
  replicate zero a = []
  replicate (suc n) a = a ∷ replicate n a

  pub take-append-drop : (n : ℕ) (xs : List A) → take n xs ++ drop n xs ≡ xs
  take-append-drop zero xs = refl
  take-append-drop (suc n) [] = refl
  take-append-drop (suc n) (x ∷ xs) = rw (take-append-drop n xs)

  pub length-take : (n : ℕ) (xs : List A) → length (take n xs) ≡ min n (length xs)
  length-take zero xs = omega arith
  length-take (suc n) [] = omega arith
  length-take (suc n) (x ∷ xs) = omega (arith, length-take n xs)

  pub length-drop : (n : ℕ) (xs : List A) → length (drop n xs) ≡ length xs - n
  length-drop zero xs = omega arith
  length-drop (suc n) [] = omega arith
  length-drop (suc n) (x ∷ xs) = omega (arith, length-drop n xs)

  pub length-replicate : (n : ℕ) (a : A) → length (replicate n a) ≡ n
  length-replicate zero a = refl
  length-replicate (suc n) a = ap suc (length-replicate n a)

  pub length-map {κ} : {B : Type κ} (xs : List A) (f : A → B) → length (map f xs) ≡ length xs
  length-map [] f = refl
  length-map (x ∷ xs) f = ap suc (length-map xs f)

module _ {ℓ} {A : Type ℓ} where
  -- The sum of a measure over a list.
  abbrev pub sum_by : (A → ℕ) → List A → ℕ
  sum_by f [] = 0
  sum_by f (x ∷ xs) = f x + sum_by f xs

  pub sum_by-set :
      (f : A → ℕ) (xs : List A) (i : ℕ) {x : A} (y : A)
      → get_elem? xs i ≡ some x
      → sum_by f (set xs i y) + f x ≡ sum_by f xs + f y
  sum_by-set f [] i y e = cc
  sum_by-set f (z ∷ xs) zero {x = x} y e = omega (arith, ap f (some-injective _ _ e))
  sum_by-set f (z ∷ xs) (suc i) y e = omega (arith, sum_by-set f xs i y e)

  pub get_elem?-set-some :
      (xs : List A) (i : ℕ) {x : A} (y : A)
      → get_elem? xs i ≡ some x
      → get_elem? (set xs i y) i ≡ some y
  get_elem?-set-some [] i y e = cc
  get_elem?-set-some (z ∷ xs) zero y e = refl
  get_elem?-set-some (z ∷ xs) (suc i) y e = get_elem?-set-some xs i y e

  pub le-sum_by :
      (f : A → ℕ) (xs : List A) (i : ℕ) {x : A} → get_elem? xs i ≡ some x → f x ≤ sum_by f xs
  le-sum_by f [] i e = cc
  le-sum_by f (z ∷ xs) zero e = omega (arith, ap f (some-injective _ _ e))
  le-sum_by f (z ∷ xs) (suc i) e = omega (arith, le-sum_by f xs i e)

module _ {ℓ κ} {A : Type ℓ} (P : A → Type κ) where
  abbrev pub All : List A → Type κ
  All [] = Unit
  All (x ∷ xs) = P x × All xs

  pub All-get_elem? : (xs : List A) (i : ℕ) {x : A} → All xs → get_elem? xs i ≡ some x → P x
  All-get_elem? [] i h e = cc
  All-get_elem? (z ∷ xs) zero h e = subst P (some-injective _ _ e) h.0
  All-get_elem? (z ∷ xs) (suc i) h e = All-get_elem? xs i h.1 e

  pub All-set : (xs : List A) (i : ℕ) (y : A) → All xs → P y → All (set xs i y)
  All-set [] i y h p = tt
  All-set (z ∷ xs) zero y h p = (p, h.1)
  All-set (z ∷ xs) (suc i) y h p = (h.0, All-set xs i y h.1 p)

module _ {ℓ κ} {A : Type ℓ} {B : Type κ} where
  -- A write that keeps a view of the entry keeps the view of the list.
  pub map-set_same :
      (f : A → B) (xs : List A) (i : ℕ) {x : A} (y : A)
      → get_elem? xs i ≡ some x
      → f y ≡ f x
      → map f (set xs i y) ≡ map f xs
  map-set_same f [] i y e h = refl
  map-set_same f (z ∷ xs) zero y e h =
      ap (λ b. b ∷ map f xs) (h ∙ sym (ap f (some-injective _ _ e)))
  map-set_same f (z ∷ xs) (suc i) y e h = ap (◌∷◌ (f z)) (map-set_same f xs i y e h)
