-- ===== src/Prelude/Lists.antt =====
-- Lists measured and indexed by native numbers, and lists tested by Boolean functions.
use Prim.Native.Nat.{ℕ, zero, suc, ◌+◌, ◌≤◌}
use mathlib.Core.Path.{◌≡◌, refl, ap, sym, ◌∙◌}
use mathlib.Core.Logic.{◌⊎◌, inl, inr}
use mathlib.Core.Bool.{Bool, true, false, ◌&&◌, ◌||◌}
use mathlib.Core.List.{List, [], ◌∷◌, ◌++◌}
use mathlib.Core.Option.{Option, none, some}
use native.Mathlib.Omega.{arith}
use e_sdk_k8s_plugin.Prelude.Tests.{if◌then◌else◌, Bool-cases}

module _ {ℓ} {A : Type ℓ} where
  abbrev pub length : List A → ℕ
  length [] = 0
  length (x ∷ xs) = suc (length xs)

  abbrev pub is_empty : List A → Bool
  is_empty [] = true
  is_empty (x ∷ xs) = false

  abbrev pub get_elem? : List A → ℕ → Option A
  get_elem? [] i = none
  get_elem? (x ∷ xs) zero = some x
  get_elem? (x ∷ xs) (suc i) = get_elem? xs i

  abbrev pub take : ℕ → List A → List A
  take zero xs = []
  take (suc n) [] = []
  take (suc n) (x ∷ xs) = x ∷ take n xs

  abbrev pub drop : ℕ → List A → List A
  drop zero xs = xs
  drop (suc n) [] = []
  drop (suc n) (x ∷ xs) = drop n xs

  pub length-append : (xs ys : List A) → length (xs ++ ys) ≡ length xs + length ys
  length-append [] ys = omega arith
  length-append (x ∷ xs) ys = omega (arith, length-append xs ys)

  pub get_elem?-append : (xs ys : List A) (y : A) → get_elem? (xs ++ y ∷ ys) (length xs) ≡ some y
  get_elem?-append [] ys y = refl
  get_elem?-append (x ∷ xs) ys y = get_elem?-append xs ys y

  pub take-append : (xs ys : List A) → take (length xs) (xs ++ ys) ≡ xs
  take-append [] ys = refl
  take-append (x ∷ xs) ys = ap (λ zs. x ∷ zs) (take-append xs ys)

-- The elements that pass a test, in order: the loop `if test(x) { out = append(out, x) }`.
module _ {ℓ} {A : Type ℓ} where
  abbrev pub keep : (A → Bool) → List A → List A
  keep p [] = []
  keep p (x ∷ xs) = if p x then x ∷ keep p xs else keep p xs

  abbrev pub any : (A → Bool) → List A → Bool
  any p [] = false
  any p (x ∷ xs) = p x || any p xs

  abbrev pub all : (A → Bool) → List A → Bool
  all p [] = true
  all p (x ∷ xs) = p x && all p xs

  pub keep-keep : (p q : A → Bool) (xs : List A) → keep q (keep p xs) ≡ keep (λ x. p x && q x) xs
  keep-keep p q [] = refl
  keep-keep p q (x ∷ xs) = ground (arith, keep-keep p q xs)

  pub keep-true : (xs : List A) → keep (λ x. true) xs ≡ xs
  keep-true [] = refl
  keep-true (x ∷ xs) = ap (λ zs. x ∷ zs) (keep-true xs)

  pub keep-append : (p : A → Bool) (xs ys : List A) → keep p (xs ++ ys) ≡ keep p xs ++ keep p ys
  keep-append p [] ys = refl
  keep-append p (x ∷ xs) ys = ground (arith, keep-append p xs ys)

  pub length-keep-le : (p : A → Bool) (xs : List A) → length (keep p xs) ≤ length xs
  length-keep-le p [] = omega arith
  length-keep-le p (x ∷ xs) = ground (arith, length-keep-le p xs)

-- A predicate of every element, by recursion, so that the tactics read it as a tuple.
abbrev pub All {ℓ κ} : {A : Type ℓ} → (A → Type κ) → List A → Type κ
All P [] = Unit
All P (x ∷ xs) = P x × All P xs

-- Membership that is taken apart by its position.
pub data In {ℓ} {A : Type ℓ} (a : A) : List A → Type ℓ where
  head : {x : A} {xs : List A} → a ≡ x → In a (x ∷ xs)
  tail : {x : A} {xs : List A} → In a xs → In a (x ∷ xs)

pub All-append {ℓ κ} :
    {A : Type ℓ} (Holds : A → Type κ) (front back : List A)
    → All Holds front
    → All Holds back
    → All Holds (front ++ back)
All-append Holds [] back _ h = h
All-append Holds (x ∷ front) back h h' = (h.0, All-append Holds front back h.1 h')

module _ {ℓ} {A : Type ℓ} where
  In-if :
      (b : Bool) (a x : A) (ys : List A)
      → In a (if b then x ∷ ys else ys)
      → ((b ≡ true) × (a ≡ x)) ⊎ In a ys
  In-if true a x ys (head e) = inl (refl, e)
  In-if true a x ys (tail m) = inr m
  In-if false a x ys m = inr m

  -- Every kept element comes from the list and passes the test.
  pub In-keep : (p : A → Bool) (a : A) (xs : List A) → In a (keep p xs) → In a xs × (p a ≡ true)
  In-keep p a [] m = elim m [ ]
  In-keep p a (x ∷ xs) m = elim (In-if (p x) a x (keep p xs) m) [
    | inl (t, e) ↦ (head e, ap p e ∙ t)
    | inr m' ↦ let (i, t) = In-keep p a xs m' in (tail i, t)
  ]

  pub In-keep_intro : (p : A → Bool) (a : A) (xs : List A) → In a xs → p a ≡ true → In a (keep p xs)
  In-keep_intro p a [] m h = elim m [ ]
  In-keep_intro p a (x ∷ xs) (head e) h = rw (sym (ap p e) ∙ h) (head e)
  In-keep_intro p a (x ∷ xs) (tail m) h = elim (Bool-cases (p x)) [
    | inl t ↦ rw t (tail (In-keep_intro p a xs m h))
    | inr f ↦ rw f (In-keep_intro p a xs m h)
  ]

-- `any` and `all` as there is and for all.
module _ {ℓ} {A : Type ℓ} (p : A → Bool) where
  pub any_found : (xs : List A) → any p xs ≡ true → (x : A) × In x xs × (p x ≡ true)
  any_found [] h = cc
  any_found (x ∷ xs) h = elim (Bool-cases (p x)) [
    | inl t ↦ (x, head refl, t)
    | inr f ↦ let (y, m, t) = any_found xs (rw f at h) in (y, tail m, t)
  ]

  pub any_intro : (x : A) (xs : List A) → In x xs → p x ≡ true → any p xs ≡ true
  any_intro x [] m h = elim m [ ]
  any_intro x (y ∷ xs) (head e) h = rw (sym (ap p e) ∙ h)
  any_intro x (y ∷ xs) (tail m) h = elim (Bool-cases (p y)) [
    | inl t ↦ rw t
    | inr f ↦ rw f (any_intro x xs m h)
  ]

  pub all_at : (x : A) (xs : List A) → In x xs → all p xs ≡ true → p x ≡ true
  all_at x [] m h = elim m [ ]
  all_at x (y ∷ xs) (head e) h = ap p e ∙ ground arith
  all_at x (y ∷ xs) (tail m) h = all_at x xs m (ground arith)

  pub all_intro : (xs : List A) → ((x : A) → In x xs → p x ≡ true) → all p xs ≡ true
  all_intro [] h = refl
  all_intro (x ∷ xs) h = rw (h x (head refl)) (all_intro xs (λ y m. h y (tail m)))

  pub is_empty-keep-false :
      (xs : List A) → is_empty (keep p xs) ≡ false → (x : A) × In x xs × (p x ≡ true)
  is_empty-keep-false [] h = cc
  is_empty-keep-false (x ∷ xs) h = elim (Bool-cases (p x)) [
    | inl t ↦ (x, head refl, t)
    | inr f ↦ let (y, m, t) = is_empty-keep-false xs (rw f at h) in (y, tail m, t)
  ]

  pub is_empty-keep-In : (x : A) (xs : List A) → In x xs → p x ≡ true → is_empty (keep p xs) ≡ false
  is_empty-keep-In x [] m h = elim m [ ]
  is_empty-keep-In x (y ∷ xs) (head e) h = rw (sym (ap p e) ∙ h)
  is_empty-keep-In x (y ∷ xs) (tail m) h = elim (Bool-cases (p y)) [
    | inl t ↦ rw t
    | inr f ↦ rw f (is_empty-keep-In x xs m h)
  ]
