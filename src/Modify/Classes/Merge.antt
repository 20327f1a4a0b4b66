-- ===== src/Modify/Classes/Merge.antt =====
-- The parameters that the new storage class has: those of the claim over those of the old class.
use e_sdk_k8s_plugin.Prelude.{
  Bool, true, Option, some, [], ◌∷◌, String, ◌==◌, ◌≡◌, refl, if◌then◌else◌, arith, eq_iff,
  Bool-cases, Option-cases, inl, inr, ap, ◌∙◌,
}
use e_sdk_k8s_plugin.Prelude.Dict.{Dict, lookup, insert, lookup-insert}
use e_sdk_k8s_plugin.Prelude.Result.{ok}
use e_sdk_k8s_plugin.Modify.Classes.{merge_parameters, holds_parameter}

-- The last value that a list of parameters gives a key, over those of a map.
abbrev pub over : Dict String → Option String → String → Option String
over [] old k = old
over ((j, v) ∷ rest) old k = over rest (if j == k then some v else old) k

held :
    (m : Dict String) (key value k : String)
    → holds_parameter (some m) key value ≡ true
    → lookup k m ≡ (if key == k then some value else lookup k m)
held m key value k t = elim (Option-cases (lookup key m)) [
  | inl e ↦ cc (rw (e, holds_parameter) at t)
  | inr (old, e) ↦ held_value m key value k old e (rw (e, holds_parameter) at t)
]
  where
    held_value :
        (m : Dict String) (key value k old : String)
        → lookup key m ≡ some old
        → (old == value) ≡ true
        → lookup k m ≡ (if key == k then some value else lookup k m)
    held_value m key value k old e t = ground (arith, eq_iff old value, eq_iff key k)

-- The map that the loop leaves, key by key.
pub merge_parameters_lem :
    (need : Bool) (m : Dict String) (ps : Dict String)
    → (replaced : Bool) × (m' : Dict String) × (merge_parameters need (some m) ps
        ≡ ok (replaced, some m'))
      × ((k : String) → lookup k m' ≡ over ps (lookup k m) k)
unfolding merge_parameters
merge_parameters_lem need m [] = (need, m, refl, λ k. refl)
merge_parameters_lem need m ((key, value) ∷ rest) =
    elim (Bool-cases (holds_parameter (some m) key value)) [
      | inl t ↦
          let (r, m', e, law) = merge_parameters_lem need m rest in
          (
            r,
            m',
            rw (t, merge_parameters) e,
            λ k. law k ∙ ap (λ o. over rest o k) (held m key value k t),
          )
      | inr f ↦
          let (r, m', e, law) = merge_parameters_lem true (insert key value m) rest in
          (
            r,
            m',
            rw (f, merge_parameters) e,
            λ k. law k ∙ ap (λ o. over rest o k) (lookup-insert key k value m),
          )
    ]
