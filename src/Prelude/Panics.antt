-- ===== src/Prelude/Panics.antt =====
-- Code that returns a value or panics: `Option`, where a panic is `none`.
use mathlib.Core.Path.{◌≡◌, refl}
use mathlib.Core.Option.{Option, none, some}

infixl 5 ◌>>=◌
abbrev pub ◌>>=◌ {ℓ κ} : {A : Type ℓ} {B : Type κ} → Option A → (A → Option B) → Option B
none >>= f = none
some a >>= f = f a

pub >>=-eq-some {ℓ κ} :
    {A : Type ℓ} {B : Type κ} {out : B} (first : Option A) (next : A → Option B)
    → (first >>= next) ≡ some out
    → (answer : A) × (first ≡ some answer) × (next answer ≡ some out)
>>=-eq-some none next done = cc
>>=-eq-some (some answer) next done = (answer, refl, done)
