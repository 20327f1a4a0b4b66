-- ===== src/Backend/Build/Config.antt =====
-- What a configuration that is accepted makes.
use e_sdk_k8s_plugin.Prelude.{
  ℕ, false, none, String, eqb, ◌≡◌, ◌↔◌, refl, ap, sym, subst, arith, eq_iff, Bool-cases,
  Option-cases, inl, inr,
}
use e_sdk_k8s_plugin.Prelude.Dict.{lookup}
use e_sdk_k8s_plugin.Prelude.Result.{Result, ok, Result-cases}
use e_sdk_k8s_plugin.Backend.Model.{Parameters, as_text, text_param, Backend}
use e_sdk_k8s_plugin.Backend.Build.{
  BuildError, as_object, is_bad_metro, storage_of, get_supported_topologies, new_backend,
}

-- A backend as it is before it is in the cache: offline, without a partner and without pools, with a plugin
-- for its storage, and with a metro backend configured exactly when a metro domain or a pair of
-- vStores is.
pub record IsFresh (b : Backend) : Type 0 where
  pub offline : b.available ≡ false
  pub no_partner : b.metro_backend ≡ none
  pub no_replica : b.replica_backend ≡ none
  pub plugin_set : eqb b.plugin 0 ≡ false
  pub metro : (b.metro_backend_name ≡ "") ↔ ((b.metro_domain ≡ "") × (b.metro_vstore_pair_id ≡ ""))

is_bad_metro_iff :
    (domain pair_id backend : String)
    → is_bad_metro domain pair_id backend ≡ false
    → (backend ≡ "") ↔ ((domain ≡ "") × (pair_id ≡ ""))
unfolding is_bad_metro
is_bad_metro_iff domain pair_id backend h = (
  λ e. (
    ground (arith, eq_iff domain "", eq_iff backend ""),
    ground (arith, eq_iff pair_id "", eq_iff backend ""),
  ),
  λ e. ground (arith, eq_iff domain "", eq_iff backend "", eq_iff pair_id ""),
)

pub ok-built : {x b : Backend} → ◌≡◌ {A = Result BuildError Backend} (ok x) (ok b) → x ≡ b
ok-built e = cc

-- A configuration that is accepted makes a backend with the given name that is offline, has no metro or
-- replica partner yet, has a plugin, and names a metro backend exactly when it has a metro domain or
-- a pair of vStores.
pub new_backend-IsFresh :
    (get_plugin : String → ℕ) (name : String) (config : Parameters) (b : Backend)
    → new_backend get_plugin name config ≡ ok b
    → (b.name ≡ name) × IsFresh b
unfolding new_backend
new_backend-IsFresh get_plugin name config b h =
    elim (Option-cases (as_text (lookup "storage" config))) [
      | inl e ↦ absurd (cc (rw (e, new_backend, new_backend) at h))
      | inr (configured, e) ↦
          let plugin = get_plugin (storage_of get_plugin config configured) in
          let bad =
            is_bad_metro (text_param config "hyperMetroDomain")
              (text_param config "metrovStorePairID") (text_param config "metroBackend") in
          elim (Bool-cases (eqb plugin 0)) [
            | inl n ↦ absurd (cc (rw (e, n, new_backend) at h))
            | inr n ↦ elim (Option-cases (as_object (lookup "parameters" config))) [
              | inl o ↦ absurd (cc (rw (e, n, o, new_backend) at h))
              | inr (parameters, o) ↦ elim (Result-cases (get_supported_topologies config)) [
                | inr (x, t) ↦ absurd (cc (rw (e, n, o, t, new_backend) at h))
                | inl (topologies, t) ↦ elim (Bool-cases bad) [
                  | inl m ↦ absurd (cc (rw (e, n, o, t, m, new_backend) at h))
                  | inr m ↦ (
                    ap (λ z. z.name) (sym (ok-built (rw (e, n, o, t, m, new_backend) at h))),
                    subst IsFresh (ok-built (rw (e, n, o, t, m, new_backend) at h)) (record {
                      offline = refl;
                      no_partner = refl;
                      no_replica = refl;
                      plugin_set = n;
                      metro = is_bad_metro_iff _ _ _ m;
                    }),
                  )
                ]
              ]
            ]
          ]
    ]
