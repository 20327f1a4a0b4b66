-- ===== src/Backend/Select/Direct.antt =====
-- `SelectRemotePool` of csi/backend/backend.go, which reads the cache itself.
use e_sdk_k8s_plugin.Prelude.{
  ℕ, true, ◌&&◌, Option, none, some, List, [], ◌∷◌, String, ◌≡◌, refl, sym, ap, ◌∙◌, arith,
  if◌then◌else◌, Option-cases, inl, inr,
}
use e_sdk_k8s_plugin.Prelude.Int.{ℤ}
use e_sdk_k8s_plugin.Prelude.Dict.{lookup}
use e_sdk_k8s_plugin.Prelude.Result.{Result, ok, err, ◌>>=◌, >>=-eq-ok}
use e_sdk_k8s_plugin.Backend.Model.{
  Parameters, Backend, World, Env, SelectError, metro_and_replication, no_metro_backend,
  no_replica_backend,
}
use e_sdk_k8s_plugin.Backend.Filter.{Filter, filter_by_capability, secondary_filter_funcs}
use e_sdk_k8s_plugin.Backend.Topology.{filter_by_topology}
use e_sdk_k8s_plugin.Backend.Topology.Order.{IsShuffle}
use e_sdk_k8s_plugin.Backend.Select.{
  asks, filter_pool, filter_storage_pool, not_short, failed_remote, weigh_remote,
}
use e_sdk_k8s_plugin.Backend.Select.Remote.{IsRemoteOf, remote_of, failed_remote-ok}

module _ (env : Env) (w : World) (request_size : ℤ) (parameters : Parameters) where
  abbrev partner_pools :
      ℕ → (Backend → Option ℕ) → SelectError → Option Backend → Result SelectError (List ℕ)
  partner_pools call partner missing none = err missing
  partner_pools call partner missing (some b) = elim (partner b) [
    | none ↦ err missing
    | some m ↦ failed_remote (
        filter_storage_pool env w request_size parameters call (w.backend_at m).pools
          (secondary_filter_funcs env w))
  ]

  unfoldable pub select_remote_pool_directly : ℕ → String → Result SelectError (Option ℕ)
  select_remote_pool_directly call name =
      if asks parameters "hyperMetro" && asks parameters "replication"
      then err metro_and_replication
      else if asks parameters "hyperMetro"
      then partner_pools call (λ b. b.metro_backend) no_metro_backend (lookup name w.cache)
        >>= weigh_remote env w request_size parameters
      else if asks parameters "replication"
      then partner_pools call (λ b. b.replica_backend) no_replica_backend (lookup name w.cache)
        >>= weigh_remote env w request_size parameters
      else ok none

module _ (env : Env) (shuffles : IsShuffle env) (w : World) (request_size : ℤ)
    (parameters : Parameters) where
  not_short-ok : (ps qs : List ℕ) → not_short env w request_size parameters ps ≡ ok qs → ps ≡ qs
  not_short-ok [] qs h = cc
  not_short-ok (p ∷ ps) qs h = cc

  -- What the two filters of pools leave is the same, where they leave any.
  filter_pool-filter_storage_pool :
      (call : ℕ) (ps qs : List ℕ) (fs : List (String × Filter))
      → filter_storage_pool env w request_size parameters call ps fs ≡ ok qs
      → filter_pool env w request_size parameters call ps fs ≡ ok qs
  unfolding filter_storage_pool filter_pool
  filter_pool-filter_storage_pool call ps qs fs h =
      let (capable, e, h1) = >>=-eq-ok (filter_by_capability parameters ps fs) _ h in
      let (reachable, e1, h2) = >>=-eq-ok (filter_by_topology env w call parameters capable) _ h1 in
      rw (e, e1) (ap ok (not_short-ok _ qs h2))

  directly_of :
      (call : ℕ) (ps : List ℕ) (r : ℕ)
      → (failed_remote (
            filter_storage_pool env w request_size parameters call ps
              (secondary_filter_funcs env w))
          >>= weigh_remote env w request_size parameters)
        ≡ ok (some r)
      → IsRemoteOf env shuffles w request_size parameters ps r
  directly_of call ps r h =
      let (qs, e, h') =
        >>=-eq-ok
          (failed_remote (
            filter_storage_pool env w request_size parameters call ps
              (secondary_filter_funcs env w)))
          _ h in
      let same =
        filter_pool-filter_storage_pool call ps qs (secondary_filter_funcs env w)
          (failed_remote-ok env shuffles w request_size parameters _ qs e) in
      remote_of env shuffles w request_size parameters call ps r (rw same h')

  partner_of :
      (call : ℕ) (partner : Backend → Option ℕ) (missing : SelectError) (o : Option Backend) (r : ℕ)
      → (partner_pools env w request_size parameters call partner missing o
          >>= weigh_remote env w request_size parameters)
        ≡ ok (some r)
      → (b : Backend) × (m : ℕ) × (o ≡ some b)
        × (partner b ≡ some m)
        × IsRemoteOf env shuffles w request_size parameters (w.backend_at m).pools r
  partner_of call partner missing none r h = cc
  partner_of call partner missing (some b) r h = elim (Option-cases (partner b)) [
    | inl e ↦
        let q : partner_pools env w request_size parameters call partner missing (some b)
            ≡ err missing =
          rw (e, partner_pools) refl in
        absurd (cc (sym (ap (λ z. z >>= weigh_remote env w request_size parameters) q) ∙ h))
    | inr (m, e) ↦
        let q : partner_pools env w request_size parameters call partner missing (some b)
            ≡ failed_remote (
                filter_storage_pool env w request_size parameters call (w.backend_at m).pools
                  (secondary_filter_funcs env w)) =
          rw (e, partner_pools) refl in
        (
          b,
          m,
          refl,
          e,
          directly_of call (w.backend_at m).pools r
              (sym (ap (λ z. z >>= weigh_remote env w request_size parameters) q) ∙ h),
        )
  ]

  -- With replication, the remote pool that the selection of csi/backend/backend.go chooses comes from
  -- the pools of the replica backend of the local backend; it is eligible by the secondary filters,
  -- the topology and the capacity, and has the most free capacity of the eligible pools.
  select_remote_pool_directly-replication :
      (call : ℕ) (name : String) (r : ℕ)
      → asks parameters "replication" ≡ true
      → select_remote_pool_directly env w request_size parameters call name ≡ ok (some r)
      → (b : Backend) × (m : ℕ) × (lookup name w.cache ≡ some b)
        × (b.replica_backend ≡ some m)
        × IsRemoteOf env shuffles w request_size parameters (w.backend_at m).pools r
  unfolding select_remote_pool_directly
  select_remote_pool_directly-replication call name r a h =
      partner_of call (λ b. b.replica_backend) no_replica_backend (lookup name w.cache) r
        (ground arith)
