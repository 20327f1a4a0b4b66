-- ===== src/Backend/Build/Whole.antt =====
-- `BuildBackend` of csi/backend/backend.go. The splitting of a key, the configuration that the API server
-- holds and the `Init` of a plugin are parameters.
use e_sdk_k8s_plugin.Prelude.{
  ℕ, false, ◌||◌, Option, none, some, ◌∷◌, String, ◌==◌, if◌then◌else◌, ◌≡◌, refl, ap, subst,
  is_empty, Bool-cases, Option-cases, inl, inr,
}
use e_sdk_k8s_plugin.Prelude.Dict.{lookup}
use e_sdk_k8s_plugin.Prelude.Result.{Result, ok, err, Result-cases}
use e_sdk_k8s_plugin.Backend.Model.{Parameters, Fields, Backend, World, is_dtree_storage, as_text}
use e_sdk_k8s_plugin.Backend.Cache.{Content}
use e_sdk_k8s_plugin.Backend.Build.{
  BuildError, invalid_tuple, new_backend, analyze_pools, add_protocol_topology, allocate_pools,
  config_pools, field_at,
}
use e_sdk_k8s_plugin.Backend.Build.Config.{IsFresh, new_backend-IsFresh, ok-built}

pub record Setting : Type 0 where
  pub get_plugin : String → ℕ
  pub split_key : String → Result BuildError (String × String)
  pub get_info : String → String → Content → Result BuildError Parameters
  pub init : ℕ → Parameters → Fields → Option BuildError
  pub driver_name : String

err_ok :
    {w w' : World} {x : BuildError} {b : Backend}
    → ◌≡◌ {A = World × Result BuildError Backend} (w, err x) (w', ok b)
    → ⊥
err_ok h = let e : ◌≡◌ {A = Result BuildError Backend} (err _) (ok _) = ap (λ z. z.1) h in cc

module _ (setting : Setting) where
  abbrev initialized : Parameters → Result BuildError Backend → Result BuildError Backend
  initialized config (err e) = err e
  initialized config (ok b) = elim (setting.init b.plugin config b.parameters) [
    | none ↦ ok b
    | some e ↦ err e
  ]

  abbrev with_pools :
      Parameters → World × Result BuildError Backend → World × Result BuildError Backend
  with_pools config (w, err e) = (w, err e)
  with_pools config (w, ok b) =
      (w, initialized config (add_protocol_topology setting.driver_name b))

  abbrev configured :
      String → World → Result BuildError Parameters → World × Result BuildError Backend
  configured name w (err e) = (w, err e)
  configured name w (ok config) = elim (new_backend setting.get_plugin name config) [
    | err e ↦ (w, err e)
    | ok b ↦ with_pools config (analyze_pools b config w)
  ]

  abbrev claimed :
      Content → World → Result BuildError (String × String) → World × Result BuildError Backend
  claimed content w (err e) = (w, err e)
  claimed content w (ok (ns, name)) = configured name w (setting.get_info ns name content)

  unfoldable pub build_backend : Content → World → World × Result BuildError Backend
  build_backend content w =
      if content.backend_claim == "" || content.configmap_meta == "" || content.secret_meta == ""
      then (w, err invalid_tuple)
      else claimed content w (setting.split_key content.backend_claim)

  -- A backend that is ready for the cache.
  pub record IsReady (b : Backend) : Type 0 where
    pub fresh : IsFresh b
    pub has_pools : is_empty b.pools ≡ false

  add_protocol-IsReady :
      (b b' : Backend)
      → IsReady b
      → add_protocol_topology setting.driver_name b ≡ ok b'
      → IsReady b'
  unfolding add_protocol_topology
  add_protocol-IsReady b b' r h = elim (Option-cases (as_text (field_at "protocol" b.parameters))) [
    | inl e ↦ absurd (cc (rw (e, add_protocol_topology) at h))
    | inr (p, e) ↦ subst IsReady (ok-built (rw (e, add_protocol_topology) at h)) (record {
      fresh = record {
        offline = r.fresh.offline;
        no_partner = r.fresh.no_partner;
        no_replica = r.fresh.no_replica;
        plugin_set = r.fresh.plugin_set;
        metro = r.fresh.metro;
      };
      has_pools = r.has_pools;
    })
  ]

  analyze_pools-IsReady :
      (b b' : Backend) (config : Parameters) (w w' : World)
      → IsFresh b
      → analyze_pools b config w ≡ (w', ok b')
      → IsReady b'
  unfolding analyze_pools
  analyze_pools-IsReady b b' config w w' f h =
      let names = config_pools (lookup "pools" config) in
      let pools =
        allocate_pools b (if is_dtree_storage b.storage then b.name ∷ names else names) w in
      elim (Bool-cases (is_empty pools.1)) [
        | inl e ↦ absurd (err_ok (rw (e, analyze_pools) at h))
        | inr e ↦ subst IsReady (ok-built (ap (λ z. z.1) (rw (e, analyze_pools) at h))) (record {
          fresh = record {
            offline = f.offline;
            no_partner = f.no_partner;
            no_replica = f.no_replica;
            plugin_set = f.plugin_set;
            metro = f.metro;
          };
          has_pools = e;
        })
      ]

  initialized-ok :
      (config : Parameters) (m : Result BuildError Backend) (b : Backend)
      → initialized config m ≡ ok b
      → m ≡ ok b
  initialized-ok config (err e) b h = cc
  initialized-ok config (ok x) b h =
      elim (Option-cases (setting.init x.plugin config x.parameters)) [
        | inl e ↦ rw (e, initialized) at h
        | inr (y, e) ↦ absurd (cc (rw (e, initialized) at h))
      ]

  with_pools-IsReady :
      (config : Parameters) (b0 b : Backend) (w v w' : World) (r : Result BuildError Backend)
      → IsFresh b0
      → analyze_pools b0 config w ≡ (v, r)
      → with_pools config (v, r) ≡ (w', ok b)
      → IsReady b
  with_pools-IsReady config b0 b w v w' (err e) f a h = absurd (err_ok h)
  with_pools-IsReady config b0 b w v w' (ok x) f a h =
      add_protocol-IsReady x b (analyze_pools-IsReady b0 x config w v f a)
        (initialized-ok config (add_protocol_topology setting.driver_name x) b (ap (λ z. z.1) h))

  configured-IsReady :
      (name : String) (w w' : World) (m : Result BuildError Parameters) (b : Backend)
      → configured name w m ≡ (w', ok b)
      → IsReady b
  configured-IsReady name w w' (err e) b h = absurd (err_ok h)
  configured-IsReady name w w' (ok config) b h =
      elim (Result-cases (new_backend setting.get_plugin name config)) [
        | inr (x, e) ↦ absurd (err_ok (rw (e, configured) at h))
        | inl (b0, e) ↦
            with_pools-IsReady config b0 b w _ w' _
              (new_backend-IsFresh setting.get_plugin name config b0 e).1 refl
              (rw (e, configured) at h)
      ]

  claimed-IsReady :
      (content : Content) (w w' : World) (m : Result BuildError (String × String)) (b : Backend)
      → claimed content w m ≡ (w', ok b)
      → IsReady b
  claimed-IsReady content w w' (err e) b h = absurd (err_ok h)
  claimed-IsReady content w w' (ok (ns, name)) b h =
      configured-IsReady name w w' (setting.get_info ns name content) b h

  -- A backend that `BuildBackend` returns is offline, has no metro or replica partner yet, has a plugin and
  -- at least one pool, and names a metro backend exactly when it has a metro domain or a pair of
  -- vStores.
  pub build_backend-IsReady :
      (content : Content) (w w' : World) (b : Backend)
      → build_backend content w ≡ (w', ok b)
      → IsReady b
  unfolding build_backend
  build_backend-IsReady content w w' b h =
      elim (Bool-cases (
        content.backend_claim == "" || content.configmap_meta == "" || content.secret_meta == "")) [
          | inl e ↦ absurd (err_ok (rw (e, build_backend) at h))
          | inr e ↦
              claimed-IsReady content w w' (setting.split_key content.backend_claim) b
                (rw (e, build_backend) at h)
        ]
