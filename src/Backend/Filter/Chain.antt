-- ===== src/Backend/Filter/Chain.antt =====
-- The chain of capability filters, with its early exits, is one filter by the conjunction of the tests.
use e_sdk_k8s_plugin.Prelude.{
  ℕ, Bool, true, false, ◌&&◌, List, [], ◌∷◌, String, keep, is_empty, ◌≡◌, ◌↔◌, refl, ap, sym, ◌∙◌,
  arith, keep-keep, keep-true,
}
use e_sdk_k8s_plugin.Prelude.Result.{Result, ok, err}
use e_sdk_k8s_plugin.Backend.Model.{World, Env, Parameters, text_param, SelectError}
use e_sdk_k8s_plugin.Backend.Filter.{
  Filter, filter_by_capability, primary_filter_funcs, secondary_filter_funcs, filtered,
}
use e_sdk_k8s_plugin.Backend.Filter.Tested.{
  Test, Tested, primary_tests, secondary_tests, primary_Tested, secondary_Tested,
}

-- A pool passes every test, each at the value of its parameter.
abbrev pub passes : Parameters → List (String × Test) → ℕ → Bool
passes parameters [] p = true
passes parameters ((key, t) ∷ ts) p = t (text_param parameters key) p && passes parameters ts p

pub is_empty-keep-keep :
    (s t : ℕ → Bool) (ps : List ℕ)
    → is_empty (keep (λ p. s p && t p) ps) ≡ false
    → is_empty (keep s ps) ≡ false
is_empty-keep-keep s t [] h = h
is_empty-keep-keep s t (p ∷ ps) h = ground (arith, is_empty-keep-keep s t ps)

filtered-ok :
    (key : String) (qs : List ℕ) (rest : List ℕ → Result SelectError (List ℕ))
    → is_empty qs ≡ false
    → filtered key (ok qs) rest ≡ rest qs
filtered-ok key [] rest h = cc
filtered-ok key (q ∷ qs) rest h = refl

chain_complete :
    (parameters : Parameters) (ps : List ℕ) (fs : List (String × Filter))
    (ts : List (String × Test))
    → Tested fs ts
    → is_empty (keep (passes parameters ts) ps) ≡ false
    → filter_by_capability parameters ps fs ≡ ok (keep (passes parameters ts) ps)
unfolding filter_by_capability
chain_complete parameters ps _ _ Tested.none_left h = ap ok (sym (keep-true ps))
chain_complete parameters ps _ _ (Tested.tested {fs = fs} {ts = ts} key f s a r) h =
    let v = text_param parameters key in
    let one = is_empty-keep-keep (s v) (passes parameters ts) ps h in
    let two = keep-keep (s v) (passes parameters ts) ps in
    rw (a.complete v ps one, filtered-ok key (keep (s v) ps) _ one)
      (chain_complete parameters (keep (s v) ps) fs ts r (ap is_empty two ∙ h) ∙ ap ok two)

filtered_inv :
    (key : String) (m : Result SelectError (List ℕ)) (rest : List ℕ → Result SelectError (List ℕ))
    (qs : List ℕ)
    → filtered key m rest ≡ ok qs
    → (xs : List ℕ) × (m ≡ ok xs) × (is_empty xs ≡ false) × (rest xs ≡ ok qs)
filtered_inv key (err e) rest qs h = cc
filtered_inv key (ok []) rest qs h = cc
filtered_inv key (ok (x ∷ xs)) rest qs h = (x ∷ xs, refl, refl, h)

chain_sound :
    (parameters : Parameters) (ps qs : List ℕ) (fs : List (String × Filter))
    (ts : List (String × Test))
    → Tested fs ts
    → is_empty ps ≡ false
    → filter_by_capability parameters ps fs ≡ ok qs
    → (qs ≡ keep (passes parameters ts) ps) × (is_empty qs ≡ false)
unfolding filter_by_capability
chain_sound parameters ps qs _ _ Tested.none_left n h = (ground (arith, keep-true ps), ground arith)
chain_sound parameters ps qs _ _ (Tested.tested {fs = fs} {ts = ts} key f s a r) n h =
    let v = text_param parameters key in
    let (xs, e, m, rest) = filtered_inv key _ _ qs h in
    let (eq, ne) = chain_sound parameters xs qs fs ts r m rest in
    (
      eq
          ∙ ap (keep (passes parameters ts)) (a.sound v ps xs e)
          ∙ keep-keep (s v) (passes parameters ts) ps,
      ne,
    )

-- From a candidate list that is not empty, the filters leave the list `qs` exactly when `qs` is the
-- candidates that pass every test, in their order, and there is one.
pub chain_iff :
    (parameters : Parameters) (ps qs : List ℕ) (fs : List (String × Filter))
    (ts : List (String × Test))
    → Tested fs ts
    → is_empty ps ≡ false
    → (filter_by_capability parameters ps fs ≡ ok qs)
      ↔ ((qs ≡ keep (passes parameters ts) ps) × (is_empty qs ≡ false))
chain_iff parameters ps qs fs ts r n = (
  chain_sound parameters ps qs fs ts r n,
  λ h. chain_complete parameters ps fs ts r (sym (ap is_empty h.0) ∙ h.1) ∙ ap ok (sym h.0),
)

module _ (env : Env) (w : World) (parameters : Parameters) where
  -- The twelve primary filters, each with its early exits, leave the pools `qs` of a candidate list
  -- that is not empty exactly when `qs` is not empty and holds, in order, the candidates that pass
  -- the test of every filter at its storage class parameter. So no eligible pool is lost and no
  -- other one is left.
  pub primary_filters_exact :
      (ps qs : List ℕ)
      → is_empty ps ≡ false
      → (filter_by_capability parameters ps (primary_filter_funcs env w) ≡ ok qs)
        ↔ ((qs ≡ keep (passes parameters (primary_tests env w)) ps) × (is_empty qs ≡ false))
  primary_filters_exact ps qs = chain_iff parameters ps qs _ _ (primary_Tested env w)

  -- The five secondary filters, each with its early exits, leave the pools `qs` of a candidate list
  -- that is not empty exactly when `qs` is not empty and holds, in order, the candidates that pass
  -- the test of every filter at its storage class parameter.
  secondary_filters_exact :
      (ps qs : List ℕ)
      → is_empty ps ≡ false
      → (filter_by_capability parameters ps (secondary_filter_funcs env w) ≡ ok qs)
        ↔ ((qs ≡ keep (passes parameters (secondary_tests env w)) ps) × (is_empty qs ≡ false))
  secondary_filters_exact ps qs = chain_iff parameters ps qs _ _ (secondary_Tested env w)
