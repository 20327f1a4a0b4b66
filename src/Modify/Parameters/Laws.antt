-- ===== src/Modify/Parameters/Laws.antt =====
-- Which parameters a claim may carry, whatever order the map is read in.
use e_sdk_k8s_plugin.Prelude.{
  Bool, true, false, ◌||◌, none, some, List, [], ◌∷◌, ◌++◌, String, ◌==◌, is_empty, ◌≡◌, refl, ◌↔◌,
  ◌⊎◌, inl, inr, All, arith, eq_iff, Bool-cases, Option-cases, ap, sym, subst,
}
use e_sdk_k8s_plugin.Prelude.Dict.{Dict, lookup}
use e_sdk_k8s_plugin.Prelude.Int.{ℤ, pos, ◌≤ℤ◌, ltb_ℤ}
use e_sdk_k8s_plugin.Strconv.{codes, parse_int}
use e_sdk_k8s_plugin.Modify.Model.{contains}
use e_sdk_k8s_plugin.Modify.Parameters.{
  check_parameters, check_loop, feature_check, check_hyper_metro, check_metro_pair_sync_speed,
  support_features,
}

-- A parameter that the documentation allows: `hyperMetro` set to true, and with it a speed from 1 to 4.
abbrev pub Allowed : Dict String → String × String → Type 0
Allowed params (key, value) =
    ((key ≡ "hyperMetro") × (value ≡ "true"))
    ⊎ ((key ≡ "metroPairSyncSpeed")
        × (lookup "hyperMetro" params ≡ some "true")
        × ((speed : ℤ) × (parse_int (codes value) ≡ some speed)
            × (pos 1 ≤ℤ speed)
            × (speed ≤ℤ pos 4)))

abbrev Passes : Dict String → String × String → Type 0
Passes params (key, value) =
    (contains support_features key ≡ true) × (feature_check key value params ≡ none)

out_of_range : ℤ → Bool
out_of_range z = ltb_ℤ z (pos 1) || ltb_ℤ (pos 4) z

out_of_range_iff : (z : ℤ) → (out_of_range z ≡ false) ↔ ((pos 1 ≤ℤ z) × (z ≤ℤ pos 4))
unfolding out_of_range
out_of_range_iff z = ground arith

abbrev Speed : Dict String → String → Type 0
Speed params value =
    (lookup "hyperMetro" params ≡ some "true")
    × ((speed : ℤ) × (parse_int (codes value) ≡ some speed) × (out_of_range speed ≡ false))

speed_lem :
    (value : String) (params : Dict String)
    → (check_metro_pair_sync_speed value params ≡ none) ↔ Speed params value
unfolding check_metro_pair_sync_speed out_of_range
speed_lem value params = elim (Option-cases (lookup "hyperMetro" params)) [
  | inl e ↦ rw (e, check_metro_pair_sync_speed) ((λ x. cc), (λ h. absurd (cc h.0)))
  | inr (v, e) ↦ elim (Bool-cases (v == "true")) [
    | inl t ↦ elim (Option-cases (parse_int (codes value))) [
      | inl n ↦
          rw (e, t, n, check_metro_pair_sync_speed)
            ((λ x. cc), (λ h. absurd (none_some h.1.0 h.1.1)))
      | inr (z, n) ↦ elim (Bool-cases (out_of_range z)) [
        | inl b ↦
            rw (e, t, n, b, check_metro_pair_sync_speed, out_of_range)
              ((λ x. cc), (λ h. absurd (in_and_out z h.1.0 h.1.1 b h.1.2)))
        | inr b ↦
            rw (e, t, n, b, check_metro_pair_sync_speed, out_of_range)
              ((λ x. (ap some ((eq_iff v "true").0 t), (z, refl, b))), (λ h. refl))
      ]
    ]
    | inr f ↦ rw (e, f, check_metro_pair_sync_speed) ((λ x. cc), (λ h. absurd (not_true v f h.0)))
  ]
]
  where
    in_and_out : (z z' : ℤ) → some z ≡ some z' → out_of_range z ≡ true → out_of_range z' ≡ false → ⊥
    in_and_out z z' e b f = cc

    none_some : (z : ℤ) → none ≡ some z → ⊥
    none_some z e = cc

    not_true : (v : String) → (v == "true") ≡ false → some v ≡ some "true" → ⊥
    not_true v f e = cc ((eq_iff v "true").1 cc)

metro-Allowed :
    (params : Dict String) (value : String)
    → Passes params ("hyperMetro", value) ↔ Allowed params ("hyperMetro", value)
unfolding feature_check check_hyper_metro contains
metro-Allowed params value = elim (Bool-cases (value == "true")) [
  | inl t ↦ ((λ _. inl (refl, (eq_iff value "true").0 t)), (λ _. (refl, rw (t, check_hyper_metro))))
  | inr f ↦ (
    (λ h. absurd (cc (rw (f, check_hyper_metro) at h.1))),
    (λ h. elim h [
      | inl (_, e) ↦ absurd (cc ((eq_iff value "true").1 e))
      | inr (e, _, _) ↦ absurd (cc e)
    ]),
  )
]

allowed_speed :
    (params : Dict String) (value : String)
    → check_metro_pair_sync_speed value params ≡ none
    → (lookup "hyperMetro" params ≡ some "true")
      × ((speed : ℤ) × (parse_int (codes value) ≡ some speed) × (pos 1 ≤ℤ speed) × (speed ≤ℤ pos 4))
allowed_speed params value h =
    let (m, (z, p, r)) = (speed_lem value params).0 h in
    (m, let r' = (out_of_range_iff z).0 r in (z, p, r'.0, r'.1))

speed-Allowed :
    (params : Dict String) (value : String)
    → Passes params ("metroPairSyncSpeed", value) ↔ Allowed params ("metroPairSyncSpeed", value)
unfolding feature_check contains
speed-Allowed params value = (
  (λ h. let s = allowed_speed params value h.1 in inr (refl, s.0, s.1)),
  (λ h. elim h [
    | inl (e, _) ↦ absurd (cc e)
    | inr (_, m, (s, p, lo, hi)) ↦
        (refl, (speed_lem value params).1 (m, (s, p, (out_of_range_iff s).1 (lo, hi))))
  ]),
)

unsupported :
    (key : String)
    → (key == "hyperMetro") ≡ false
    → (key == "metroPairSyncSpeed") ≡ false
    → contains support_features key ≡ true
    → ⊥
unfolding contains
unsupported key f g t = ground (
  arith,
  eq_iff key "hyperMetro",
  eq_iff "hyperMetro" key,
  eq_iff key "metroPairSyncSpeed",
  eq_iff "metroPairSyncSpeed" key,
)

Passes-Allowed : (params : Dict String) (p : String × String) → Passes params p ↔ Allowed params p
unfolding contains
Passes-Allowed params (key, value) = elim (Bool-cases (key == "hyperMetro")) [
  | inl t ↦
      subst (λ k. Passes params (k, value) ↔ Allowed params (k, value))
        (sym ((eq_iff key "hyperMetro").0 t)) (metro-Allowed params value)
  | inr f ↦ elim (Bool-cases (key == "metroPairSyncSpeed")) [
    | inl t ↦
        subst (λ k. Passes params (k, value) ↔ Allowed params (k, value))
          (sym ((eq_iff key "metroPairSyncSpeed").0 t)) (speed-Allowed params value)
    | inr f' ↦ (
      (λ h. absurd (unsupported key f f' h.0)),
      (λ h. elim h [
        | inl (e, _) ↦ absurd (cc ((eq_iff key "hyperMetro").1 e))
        | inr (e, _, _) ↦ absurd (cc ((eq_iff key "metroPairSyncSpeed").1 e))
      ]),
    )
  ]
]

is_empty-snoc : (ns : List String) (n : String) → is_empty (ns ++ n ∷ []) ≡ false
is_empty-snoc [] n = refl
is_empty-snoc (m ∷ ns) n = refl

check_loop_lem :
    (params rest : Dict String) (ns : List String)
    → (check_loop params ns rest ≡ none) ↔ ((is_empty ns ≡ true) × All (Passes params) rest)
unfolding check_loop
check_loop_lem params [] [] = ground arith
check_loop_lem params [] (n ∷ ns) = ground arith
check_loop_lem params ((key, value) ∷ rest) ns = ground (
  arith,
  check_loop_lem params rest ns,
  check_loop_lem params rest (ns ++ key ∷ []),
  is_empty-snoc ns key,
)

All-↔ :
    (P Q : String × String → Type 0)
    → ((p : String × String) → P p ↔ Q p)
    → (ps : Dict String) → All P ps ↔ All Q ps
All-↔ P Q each [] = ((λ h. h), (λ h. h))
All-↔ P Q each (p ∷ ps) =
    let rest = All-↔ P Q each ps in
    ((λ h. ((each p).0 h.0, rest.0 h.1)), (λ h. ((each p).1 h.0, rest.1 h.1)))

-- `checkParameters` accepts a map exactly if it is not empty and each of its parameters is allowed:
-- `hyperMetro` with the value true, or, in a map where `hyperMetro` is true, `metroPairSyncSpeed` with
-- a number from 1 to 4. The order in which the map is read does not matter.
pub check_parameters_iff :
    (params : Dict String)
    → (check_parameters params ≡ none) ↔ ((is_empty params ≡ false) × All (Allowed params) params)
unfolding check_parameters
check_parameters_iff [] = ((λ h. absurd (cc h)), (λ h. absurd (cc h.0)))
check_parameters_iff (p ∷ ps) =
    let loop = check_loop_lem (p ∷ ps) (p ∷ ps) [] in
    let each = All-↔ _ _ (Passes-Allowed (p ∷ ps)) (p ∷ ps) in
    ((λ h. (refl, each.0 (loop.0 h).1)), (λ h. loop.1 (refl, each.1 h.1)))
