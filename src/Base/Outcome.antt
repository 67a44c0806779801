-- ===== src/Base/Outcome.antt =====
-- How an operation ends: with a value, or with the exception or the exit that stops the program.
use mathlib.Core.Path.{◌≡◌, refl}
use mathlib.Core.Option.{Option, none, some}

-- `undefined` stands for an access that C++ leaves undefined, such as an index out of bounds.
pub data Error : Type 0 where
  configuration_error runtime_error exit_error undefined : Error
  invalid_argument out_of_range : Error

pub data Result {ℓ} (A : Type ℓ) : Type ℓ where
  ok : A → Result A
  err : Error → Result A

infixl 5 ◌>>=◌
abbrev pub ◌>>=◌ {ℓ κ} : {A : Type ℓ} {B : Type κ} → Result A → (A → Result B) → Result B
ok a >>= f = f a
err e >>= f = err e

abbrev pub or_fail {ℓ} : {A : Type ℓ} → Option A → Error → Result A
or_fail none e = err e
or_fail (some a) e = ok a

-- Two steps end well only if the first does, and the second does from its value.
pub >>=-ok {ι ℓ} :
    {X : Type ι} {Y : Type ℓ} (first : Result X) (next : X → Result Y) {y : Y}
    → (first >>= next) ≡ ok y
    → (x : X) × (first ≡ ok x) × (next x ≡ ok y)
>>=-ok (err stop) next done = cc
>>=-ok (ok x) next done = (x, refl, done)
