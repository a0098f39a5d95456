-- ===== src/Prelude/Options.antt =====
-- Chains of results that may be missing: `none` is a panic or an `Err(())` of the source.
use mathlib.Core.Path.{◌≡◌, refl}
use mathlib.Core.Option.{Option, none, some}

infixl 5 ◌>>=◌
abbrev pub ◌>>=◌ : {S T : Type 0} → Option S → (S → Option T) → Option T
none >>= next = none
some v >>= next = next v

-- What a chain that gave a value went through.
pub >>=-eq-some :
    {S T : Type 0} (stage : Option S) (next : S → Option T) {out : T}
    → stage >>= next ≡ some out
    → (v : S) × (stage ≡ some v) × (next v ≡ some out)
>>=-eq-some none next ran = cc
>>=-eq-some (some v) next ran = (v, refl, ran)
