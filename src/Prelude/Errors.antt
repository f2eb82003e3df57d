-- ===== src/Prelude/Errors.antt =====
-- What a call gives: its value, or the error that it throws. An error is known by its `code`, which
-- an `Error` made without one lacks.
use Prim.Native.String.{String}
use mathlib.Core.Option.{Option, some}
use mathlib.Core.Path.{◌≡◌, refl}
use mathlib.Core.Logic.{◌⊎◌, inl, inr}

pub data Outcome {ℓ} (A : Type ℓ) : Type ℓ where
  ok : A → Outcome A
  err : Option String → Outcome A

abbrev pub refuse {ℓ} : {A : Type ℓ} → String → Outcome A
refuse code = err (some code)

infixl 5 ◌>>=◌
abbrev pub ◌>>=◌ {ℓ κ} : {A : Type ℓ} {B : Type κ} → Outcome A → (A → Outcome B) → Outcome B
ok a >>= f = f a
err e >>= f = err e

pub Outcome-cases {ℓ} :
    {A : Type ℓ} (o : Outcome A)
    → ((a : A) × (o ≡ ok a)) ⊎ ((code : Option String) × (o ≡ err code))
Outcome-cases (ok a) = inl (a, refl)
Outcome-cases (err code) = inr (code, refl)
