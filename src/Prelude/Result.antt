-- ===== src/Prelude/Result.antt =====
-- A Go result `(value, error)`: either the value or an error.
use mathlib.Core.Path.{◌≡◌, refl}
use mathlib.Core.Logic.{◌⊎◌, inl, inr}
use mathlib.Core.Option.{Option, none, some}

pub data Result {ℓ} (E A : Type ℓ) : Type ℓ where
  ok : A → Result E A
  err : E → Result E A

infixl 5 ◌>>=◌
abbrev pub ◌>>=◌ {ℓ} : {E A B : Type ℓ} → Result E A → (A → Result E B) → Result E B
ok a >>= f = f a
err e >>= f = err e

pub >>=-eq-ok {ℓ} :
    {E A B : Type ℓ} (call : Result E A) (rest : A → Result E B) {out : B}
    → (call >>= rest) ≡ ok out
    → (value : A) × (call ≡ ok value) × (rest value ≡ ok out)
>>=-eq-ok (err _) rest eq = cc
>>=-eq-ok (ok value) rest eq = (value, refl, eq)

-- The `err != nil` half of a result.
abbrev pub error_of {ℓ} : {E A : Type ℓ} → Result E A → Option E
error_of (ok a) = none
error_of (err e) = some e

pub Result-cases {ℓ} :
    {E A : Type ℓ} (m : Result E A) → ((a : A) × (m ≡ ok a)) ⊎ ((e : E) × (m ≡ err e))
Result-cases (ok a) = inl (a, refl)
Result-cases (err e) = inr (e, refl)
