-- ===== src/Qos/Support.antt =====
-- Which parameters of quality of service are supported, whatever order the map is read in.
use e_sdk_k8s_plugin.Prelude.{
  Bool, true, false, ◌&&◌, ◌||◌, not, Option, none, some, [], ◌∷◌, String, any, All, is_some, ◌≡◌,
  refl, ap, sym, ◌∙◌, ◌↔◌, inl, inr, arith, Bool-cases, Option-cases, map,
}
use e_sdk_k8s_plugin.Prelude.Int.{ℤ}
use e_sdk_k8s_plugin.Prelude.Dict.{Dict, lookup}
use e_sdk_k8s_plugin.Prelude.Result.{Result, ok, Result-cases}
use e_sdk_k8s_plugin.Qos.{
  Floats, QosError, support_loop, validate_qos_parameters_support, ocean_stor_qos_validators,
  is_lower, is_upper, is_dorado_v6_or_v7, integers, validate_qos_parameters,
  ocean_stor_qos_mandatory_parameters,
}

module _ {F : Type 0} (floats : Floats F) where
  -- The product has the parameter and its test accepts the value.
  abbrev pub Valid : (String → Option (ℤ → Bool)) → String × F → Type 0
  Valid validator p =
      (test : ℤ → Bool) × (validator p.0 ≡ some test) × (test (floats.trunc p.1) ≡ true)

  -- Only the products of version 6 and 7 take lower and upper limits together.
  abbrev pub limits_conflict : String → Bool → Bool → Bool
  limits_conflict product lower upper = not (is_dorado_v6_or_v7 product) && lower && upper

  conflict_more :
      (product : String) (lower a x upper b y : Bool)
      → limits_conflict product ((lower || a) || x) ((upper || b) || y)
        ≡ limits_conflict product (lower || (a || x)) (upper || (b || y))
  conflict_more product lower a x upper b y = ground arith

  no_test : (o : Option (ℤ → Bool)) (test : ℤ → Bool) → o ≡ none → o ≡ some test → ⊥
  no_test o test e e' = cc

  same_test :
      (o : Option (ℤ → Bool)) (f g : ℤ → Bool) (z : ℤ)
      → o ≡ some f
      → o ≡ some g
      → f z ≡ false
      → g z ≡ true
      → ⊥
  same_test o f g z e e' x y = cc

  support_loop_iff :
      (product : String) (validator : String → Option (ℤ → Bool)) (ps : Dict F) (lower upper : Bool)
      → (support_loop floats product validator ps lower upper ≡ none) ↔ (
          All (Valid validator) ps
          × (limits_conflict product
                (lower || any (λ p. is_lower p.0) ps)
                (upper || any (λ p. is_upper p.0) ps)
              ≡ false))
  unfolding support_loop
  support_loop_iff product validator [] lower upper = ground arith
  support_loop_iff product validator ((k, v) ∷ rest) lower upper =
      let more =
        support_loop_iff product validator rest (lower || is_lower k) (upper || is_upper k) in
      let limits =
        conflict_more product lower (is_lower k) (any (λ p. is_lower p.0) rest) upper (is_upper k)
          (any (λ p. is_upper p.0) rest) in
      elim (Option-cases (validator k)) [
        | inl e ↦ (
          (λ h. absurd (cc (rw (e, support_loop) at h))),
          (λ h. absurd (no_test (validator k) h.0.0.0 e h.0.0.1)),
        )
        | inr (f, e) ↦ elim (Bool-cases (f (floats.trunc v))) [
          | inl t ↦ (
            (λ h.
                let (valid, free) = more.0 (rw (e, t, support_loop) at h) in
                (((f, e, t), valid), sym limits ∙ free)),
            (λ h. rw (e, t, support_loop) (more.1 (h.0.1, limits ∙ h.1))),
          )
          | inr t ↦ (
            (λ h. absurd (cc (rw (e, t, support_loop) at h))),
            (λ h. absurd (same_test (validator k) f h.0.0.0 (floats.trunc v) e h.0.0.1 t h.0.0.2)),
          )
        ]
      ]

  no_tests :
      (o : Option (String → Option (ℤ → Bool))) (tests : String → Option (ℤ → Bool))
      → o ≡ none
      → o ≡ some tests
      → ⊥
  no_tests o tests e e' = cc

  -- `validateQoSParametersSupport` accepts a map exactly if the product has QoS, each parameter is one
  -- of the product's with a value in its range, and there are not both a lower and an upper limit on
  -- a product other than Dorado V6 and V7. The order in which the map is read does not matter.
  pub validate_qos_parameters_support_iff :
      (product : String) (ps : Dict F)
      → (validate_qos_parameters_support floats product ps ≡ none) ↔ (
          (validator : String → Option (ℤ → Bool)) × (ocean_stor_qos_validators product
            ≡ some validator)
          × All (Valid validator) ps
          × (limits_conflict product (any (λ p. is_lower p.0) ps) (any (λ p. is_upper p.0) ps)
              ≡ false))
  unfolding validate_qos_parameters_support
  validate_qos_parameters_support_iff product ps =
      elim (Option-cases (ocean_stor_qos_validators product)) [
        | inl e ↦ (
          (λ h. absurd (cc (rw (e, validate_qos_parameters_support) at h))),
          (λ h. absurd (no_tests _ h.0 e h.1)),
        )
        | inr (validator, e) ↦ (
          (λ h.
              let loop =
                (support_loop_iff product validator ps false false).0
                  (rw (e, validate_qos_parameters_support) at h) in
              (validator, e, loop.0, loop.1)),
          (λ h.
              rw (h.1, validate_qos_parameters_support)
                ((support_loop_iff product h.0 ps false false).1 (h.2, h.3))),
        )
      ]

  -- The values as integers.
  abbrev pub truncated : Dict F → Dict ℤ
  truncated ps = map (λ p. (p.0, floats.trunc p.1)) ps

  same_integers : {a b : Dict ℤ} → ◌≡◌ {A = Result QosError (Dict ℤ)} (ok a) (ok b) → a ≡ b
  same_integers e = cc

  integers_iff :
      (ps : Dict F) (zs : Dict ℤ)
      → (integers floats ps ≡ ok zs)
        ↔ (All (λ p. floats.is_int p.1 ≡ true) ps × (zs ≡ truncated ps))
  unfolding integers
  integers_iff [] zs = ((λ h. (tt, same_integers (sym h))), (λ h. ap ok (sym h.1)))
  integers_iff ((k, v) ∷ rest) zs = elim (Bool-cases (floats.is_int v)) [
    | inr f ↦ ((λ h. absurd (cc (rw (f, integers) at h))), (λ h. absurd (cc (sym h.0.0 ∙ f))))
    | inl t ↦ elim (Result-cases (integers floats rest)) [
      | inr (e, r) ↦ (
        (λ h. absurd (cc (rw (t, r, integers) at h))),
        (λ h. absurd (cc (sym r ∙ (integers_iff rest (truncated rest)).1 (h.0.1, refl)))),
      )
      | inl (xs, r) ↦
          let more = (integers_iff rest xs).0 r in
          (
            (λ h. (
              (t, more.0),
              same_integers (sym (rw (t, r, integers) at h))
                  ∙ ap (λ q. (k, floats.trunc v) ∷ q) more.1,
            )),
            (λ h. rw (t, r, integers) (ap ok (ap (λ q. (k, floats.trunc v) ∷ q) more.1 ∙ sym h.1))),
          )
    ]
  ]

  -- `ValidateQoSParameters` accepts a map exactly if one of the parameters that the product asks for
  -- is there and every value is an integer; it returns each parameter with its integer.
  pub validate_qos_parameters_iff :
      (product : String) (ps : Dict F) (zs : Dict ℤ)
      → (validate_qos_parameters floats product ps ≡ ok zs) ↔ (
          (any (λ param. is_some (lookup param ps)) (ocean_stor_qos_mandatory_parameters product)
            ≡ true)
          × All (λ p. floats.is_int p.1 ≡ true) ps
          × (zs ≡ truncated ps))
  unfolding validate_qos_parameters
  validate_qos_parameters_iff product ps zs =
      elim (Bool-cases
        (any (λ param. is_some (lookup param ps)) (ocean_stor_qos_mandatory_parameters product))) [
          | inl t ↦ (
            (λ h.
                let more = (integers_iff ps zs).0 (rw (t, validate_qos_parameters) at h) in
                (t, more.0, more.1)),
            (λ h. rw (t, validate_qos_parameters) ((integers_iff ps zs).1 (h.1, h.2))),
          )
          | inr f ↦ (
            (λ h. absurd (cc (rw (f, validate_qos_parameters) at h))),
            (λ h. absurd (cc (sym f ∙ h.0))),
          )
        ]
