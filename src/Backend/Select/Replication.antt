-- ===== src/Backend/Select/Replication.antt =====
-- Selections for a replicated volume.
use e_sdk_k8s_plugin.Prelude.{
  ℕ, Bool, true, false, not, ◌||◌, List, [], ◌∷◌, String, ◌==◌, ◌≡◌, refl, ap, sym, ◌∙◌, arith,
  eq_iff, keep, is_empty, Bool-cases, Option-cases, inl, inr,
}
use e_sdk_k8s_plugin.Prelude.Int.{ℤ}
use e_sdk_k8s_plugin.Prelude.Dict.{lookup}
use e_sdk_k8s_plugin.Prelude.Result.{ok, err, >>=-eq-ok, Result-cases}
use e_sdk_k8s_plugin.Strconv.{str_to_bool, parse_bool}
use e_sdk_k8s_plugin.Backend.Model.{Parameters, World, Env, SelectError, text_param, as_text}
use e_sdk_k8s_plugin.Backend.Filter.{filter_by_capability, supports_replication}
use e_sdk_k8s_plugin.Backend.Filter.Tested.{primary_tests, primary_Tested}
use e_sdk_k8s_plugin.Backend.Filter.Chain.{passes, chain_iff}
use e_sdk_k8s_plugin.Backend.Cache.Replica.{
  NoReplicas, Grown, Grown-NoReplicas, lookup-HasNoReplica,
}
use e_sdk_k8s_plugin.Backend.Select.{
  asks, filter_pool, load_cache_storage_pools, select_local_pool, candidate_pools, select_pool_pair,
}

supports_none :
    (env : Env) (w : World) (p : ℕ) → NoReplicas w → supports_replication env w p ≡ false
unfolding supports_replication
supports_none env w p n = elim (Option-cases (lookup (w.pool_at p).parent w.cache)) [
  | inl e ↦ rw e refl
  | inr (b, e) ↦ rw (e, lookup-HasNoReplica _ w.cache b n e) refl
]

-- A text that is true is not empty.
not_empty : (s : String) → str_to_bool s ≡ true → s ≡ "" → ⊥
unfolding str_to_bool parse_bool
not_empty s h e = absurd (cc (rw e at h))

asked :
    (parameters : Parameters)
    → asks parameters "replication" ≡ true
    → (text_param parameters "replication" == ""
        || not (str_to_bool (text_param parameters "replication")))
      ≡ false
unfolding text_param
asked parameters a = elim (Option-cases (as_text (lookup "replication" parameters))) [
  | inl e ↦ absurd (cc (rw (e, asks) at a))
  | inr (s, e) ↦
      rw (e, text_param)
        (elim (Bool-cases (s == "")) [
          | inl t ↦ absurd (not_empty s (rw (e, asks) at a) ((eq_iff s "").0 t))
          | inr f ↦ rw (f, rw (e, asks) at a) refl
        ])
]

module _ (env : Env) (w : World) (request_size : ℤ) (parameters : Parameters) where
  passes_none :
      (p : ℕ)
      → NoReplicas w
      → asks parameters "replication" ≡ true
      → passes parameters (primary_tests env w) p ≡ false
  passes_none p n a = ground (arith, asked parameters a, supports_none env w p n)

  keep_none : (t : ℕ → Bool) (ps : List ℕ) → ((p : ℕ) → t p ≡ false) → keep t ps ≡ []
  keep_none t [] h = refl
  keep_none t (p ∷ ps) h = rw (h p) (keep_none t ps h)

  local_fails :
      (call : ℕ) (qs : List ℕ)
      → NoReplicas w
      → asks parameters "replication" ≡ true
      → select_local_pool env w request_size parameters call ≡ ok qs
      → ⊥
  unfolding select_local_pool filter_pool
  local_fails call qs n a h = elim (Bool-cases (is_empty (load_cache_storage_pools w))) [
    | inl e ↦ absurd (cc (rw e at h))
    | inr f ↦
        let (capable, e1, h1) =
          >>=-eq-ok (filter_by_capability parameters (load_cache_storage_pools w) _) _
            (rw f at h) in
        let (kept, some_left) =
          (chain_iff parameters _ capable _ _ (primary_Tested env w) f).0 e1 in
        absurd (
          cc (
            sym some_left
            ∙ ap is_empty (
                kept
                ∙ keep_none (passes parameters (primary_tests env w)) _ (λ p. passes_none p n a))))
  ]

  -- In a cache whose backends were added as `NewBackend` makes them, whatever happened to it since, a
  -- selection for a volume with replication fails and changes nothing, whichever backends there are and
  -- however they are configured.
  pub select_pool_pair-replication :
      Grown w
      → asks parameters "replication" ≡ true
      → (e : SelectError) × (select_pool_pair env w request_size parameters ≡ (w, err e))
  unfolding select_pool_pair candidate_pools
  select_pool_pair-replication g a =
      elim (Result-cases (select_local_pool env w request_size parameters 0)) [
        | inl (qs, r) ↦ absurd (local_fails 0 qs (Grown-NoReplicas w g) a r)
        | inr (e, r) ↦ (e, rw (r, select_pool_pair, candidate_pools) refl)
      ]
