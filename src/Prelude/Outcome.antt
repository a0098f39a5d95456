-- ===== src/Prelude/Outcome.antt =====
-- What a fallible function gives: a value, an error of the source's, or an abort. The release
-- profile sets overflow-checks, so arithmetic that leaves its type aborts the whole transaction.
use mathlib.Core.Path.{◌≡◌, refl}
use mathlib.Core.Bool.{Bool, true, false}
use mathlib.Core.Option.{Option, none, some}

pub data Outcome (E A : Type 0) : Type 0 where
  ok : A → Outcome E A
  err : E → Outcome E A
  abort : Outcome E A

-- An error and an abort end the whole run, whatever would come next.
abbrev pub ◌>>=◌ : {E S T : Type 0} → Outcome E S → (S → Outcome E T) → Outcome E T
abort >>= next = abort
err why >>= next = err why
ok v >>= next = next v

abbrev pub ◌>>◌ : {E T : Type 0} → Outcome E (Unit {0}) → Outcome E T → Outcome E T
abort >> rest = abort
err why >> rest = err why
ok _ >> rest = rest

infixl 5 ◌>>=◌ ◌>>◌
-- `if c { return Err(e) }`
abbrev pub reject_if : {E : Type 0} → Bool → E → Outcome E (Unit {0})
reject_if true e = err e
reject_if false e = ok tt

-- `.ok_or(e)?`
abbrev pub ok_or : {E A : Type 0} → Option A → E → Outcome E A
ok_or none e = err e
ok_or (some a) e = ok a

-- An operation that panics where it has no value.
abbrev pub or_abort : {E A : Type 0} → Option A → Outcome E A
or_abort none = abort
or_abort (some a) = ok a

-- A run of two stages that ends by `ok` has an intermediate value.
pub >>=-eq-ok :
    {E S T : Type 0} (stage : Outcome E S) (next : S → Outcome E T) {out : T}
    → stage >>= next ≡ ok out
    → (v : S) × (stage ≡ ok v) × (next v ≡ ok out)
>>=-eq-ok abort next ran = cc
>>=-eq-ok (err why) next ran = cc
>>=-eq-ok (ok v) next ran = (v, refl, ran)

pub >>-eq-ok :
    {E T : Type 0} (stage : Outcome E (Unit {0})) (rest : Outcome E T) {out : T}
    → stage >> rest ≡ ok out
    → (stage ≡ ok tt) × (rest ≡ ok out)
>>-eq-ok abort rest ran = cc
>>-eq-ok (err why) rest ran = cc
>>-eq-ok (ok _) rest ran = (refl, ran)

pub or_abort-eq-ok : {E A : Type 0} (a : Option A) {v : A} → or_abort {E = E} a ≡ ok v → a ≡ some v
or_abort-eq-ok none ran = cc
or_abort-eq-ok (some a) ran = cc

pub reject_if-eq-ok : {E : Type 0} (c : Bool) (e : E) → reject_if c e ≡ ok tt → c ≡ false
reject_if-eq-ok true e ran = cc
reject_if-eq-ok false e ran = refl

pub ok_injective : {E A : Type 0} {a b : A} → ◌≡◌ {A = Outcome E A} (ok a) (ok b) → a ≡ b
ok_injective h = cc

pub ok_or-eq-ok : {E A : Type 0} (a : Option A) (e : E) {v : A} → ok_or a e ≡ ok v → a ≡ some v
ok_or-eq-ok none e ran = cc
ok_or-eq-ok (some a) e ran = cc

-- The value, or one that stands in for it.
abbrev pub value_or : {E A : Type 0} → A → Outcome E A → A
value_or d (ok v) = v
value_or d (err e) = d
value_or d abort = d
