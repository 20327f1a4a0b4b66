-- ===== src/Prelude/Io.antt =====
-- A Go function that acts on a world `W` and returns `(value, error)`: state passing with an error,
-- which keeps the world that the failed call left.
use mathlib.Core.Path.{◌≡◌, refl}
use e_sdk_k8s_plugin.Prelude.Result.{Result, ok, err}

abbrev pub Io {ℓ} : Type ℓ → Type ℓ → Type ℓ → Type ℓ
Io W E A = W → W × Result E A

-- What follows a call, from its world and its result.
abbrev pub resume {ℓ} : {W E A B : Type ℓ} → W → Result E A → (A → Io W E B) → W × Result E B
resume w (ok a) next = next a w
resume w (err e) next = (w, err e)

infixl 5 ◌>>=◌ ◌>>◌
abbrev pub ◌>>=◌ {ℓ} : {W E A B : Type ℓ} → Io W E A → (A → Io W E B) → Io W E B
◌>>=◌ call next w = let r = call w in resume r.0 r.1 next

-- An effect that cannot fail, before the rest.
abbrev pub ◌>>◌ {ℓ} : {W E B : Type ℓ} → (W → W) → Io W E B → Io W E B
◌>>◌ effect next w = next (effect w)

abbrev pub return {ℓ} : {W E A : Type ℓ} → A → Io W E A
return a w = (w, ok a)

abbrev pub fail {ℓ} : {W E A : Type ℓ} → E → Io W E A
fail e w = (w, err e)

-- `value, err := call()` where the code goes on with either.
abbrev pub attempt {ℓ} : {W E A : Type ℓ} → Io W E A → Io W E (Result E A)
attempt call w = let r = call w in (r.0, ok r.1)

-- What holds after a call and what follows it: one case for each result of the call.
pub resume_rule {ℓ κ} :
    {W E A B : Type ℓ} (Holds : W × Result E B → Type κ) (w : W) (r : Result E A)
    (next : A → Io W E B)
    → ((a : A) → r ≡ ok a → Holds (next a w))
    → ((e : E) → r ≡ err e → Holds (w, err e))
    → Holds (resume w r next)
resume_rule Holds w (ok a) next good bad = good a refl
resume_rule Holds w (err e) next good bad = bad e refl
