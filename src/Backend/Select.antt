-- ===== src/Backend/Select.antt =====
-- The selection of a local and a remote pool: csi/backend/handler/backend_selector.go, with
-- `LoadCacheStoragePools` of csi/backend/handler/backend_cache_wrapper.go and the older selection of
-- csi/backend/backend.go.
pub mod Eligible
pub mod Remote
pub mod Pair
pub mod Account
pub mod Direct
mod Replication
mod Examples
use e_sdk_k8s_plugin.Prelude.{
  ℕ, suc, Bool, true, false, not, ◌&&◌, ◌||◌, Option, none, some, List, [], ◌∷◌, ◌++◌, String, ◌==◌,
  if◌then◌else◌, keep, is_empty,
}
use e_sdk_k8s_plugin.Prelude.Int.{ℤ}
use e_sdk_k8s_plugin.Prelude.Dict.{Dict, lookup}
use e_sdk_k8s_plugin.Prelude.Result.{Result, ok, err, ◌>>=◌}
use e_sdk_k8s_plugin.Strconv.{str_to_bool}
use e_sdk_k8s_plugin.Backend.Model.{
  Parameters, Backend, World, Env, SelectPoolPair, SelectError, text_param, as_text, filter_failed,
  capacity_short, metro_and_replication, no_local_backend, no_metro_backend, no_replica_backend,
  remote_failed, no_available_pool, no_dtree_backend,
}
use e_sdk_k8s_plugin.Backend.Filter.{
  Filter, filter_by_capability, primary_filter_funcs, secondary_filter_funcs,
}
use e_sdk_k8s_plugin.Backend.Topology.{filter_by_topology}
use e_sdk_k8s_plugin.Backend.Capacity.{filter_by_capacity, weight_single_pools, weight_pools}

-- `value, ok := parameters[key].(string); ok && utils.StrToBool(ctx, value)`
abbrev pub asks : Parameters → String → Bool
asks parameters key = elim (as_text (lookup key parameters)) [
  | none ↦ false
  | some s ↦ str_to_bool s
]

-- The pools of the backends that are available, in the order of `List`.
unfoldable pub available_pools : Dict Backend → List ℕ
available_pools [] = []
available_pools ((name, b) ∷ rest) =
    if b.available then b.pools ++ available_pools rest else available_pools rest

unfoldable pub load_cache_storage_pools : World → List ℕ
unfolding available_pools
load_cache_storage_pools w = available_pools w.cache

abbrev pub failed_remote : Result SelectError (List ℕ) → Result SelectError (List ℕ)
failed_remote (err e) = err (remote_failed e)
failed_remote (ok ps) = ok ps

module _ (env : Env) (w : World) (request_size : ℤ) (parameters : Parameters) where
  -- `call` numbers the calls of the topology filter in one selection.
  unfoldable pub filter_pool : ℕ → List ℕ → List (String × Filter) → Result SelectError (List ℕ)
  filter_pool call candidates filters = do
    capable ← filter_by_capability parameters candidates filters
    reachable ← filter_by_topology env w call parameters capable
    ok (filter_by_capacity w request_size (text_param parameters "allocType") reachable)

  abbrev not_short : List ℕ → Result SelectError (List ℕ)
  not_short ps = if is_empty ps then err capacity_short else ok ps

  -- `FilterStoragePool` of csi/backend/backend.go.
  unfoldable pub filter_storage_pool :
      ℕ → List ℕ → List (String × Filter) → Result SelectError (List ℕ)
  filter_storage_pool call candidates filters = do
    capable ← filter_by_capability parameters candidates filters
    reachable ← filter_by_topology env w call parameters capable
    not_short (filter_by_capacity w request_size (text_param parameters "allocType") reachable)

  unfoldable pub select_local_pool : ℕ → Result SelectError (List ℕ)
  select_local_pool call =
      let candidates = load_cache_storage_pools w in
      if is_empty candidates
      then err no_available_pool
      else filter_pool call candidates (primary_filter_funcs env w)

  -- The weighing of the remote pools, if there are any.
  abbrev pub weigh_remote : List ℕ → Result SelectError (Option ℕ)
  weigh_remote [] = ok none
  weigh_remote (p ∷ ps) = do remote ← weight_single_pools w (p ∷ ps); ok (some remote)

  abbrev pub metro_pools : ℕ → Option Backend → Result SelectError (List ℕ)
  metro_pools call none = err no_local_backend
  metro_pools call (some b) = elim b.metro_backend [
    | none ↦ err no_metro_backend
    | some m ↦
        failed_remote (filter_pool call (w.backend_at m).pools (secondary_filter_funcs env w))
  ]

  -- The pools are those of the local backend itself; of a backend that is not cached they are nil.
  abbrev pub replica_pools : ℕ → Option Backend → Result SelectError (List ℕ)
  replica_pools call none = failed_remote (filter_pool call [] (secondary_filter_funcs env w))
  replica_pools call (some b) = elim b.replica_backend [
    | none ↦ err no_replica_backend
    | some r ↦ failed_remote (filter_pool call b.pools (secondary_filter_funcs env w))
  ]

  unfoldable pub select_remote_pool : ℕ → String → Result SelectError (Option ℕ)
  select_remote_pool call local_backend_name =
      if asks parameters "hyperMetro" && asks parameters "replication"
      then err metro_and_replication
      else if asks parameters "hyperMetro"
      then metro_pools call (lookup local_backend_name w.cache) >>= weigh_remote
      else if asks parameters "replication"
      then replica_pools call (lookup local_backend_name w.cache) >>= weigh_remote
      else ok none

  unfoldable pub select_dtree_pool : List ℕ → Result SelectError (List ℕ)
  select_dtree_pool ps =
      if not (text_param parameters "volumeType" == "dtree")
      then ok ps
      else if not (text_param parameters "parentname" == "")
      then ok ps
      else (let dtree_pools =
            keep (λ p. not (env.dtree_parent_name (w.pool_at p).plugin == "")) ps in
          if is_empty dtree_pools then err no_dtree_backend else ok dtree_pools)

  -- A remote pool for every local pool.
  unfoldable pub pair_loop : ℕ → List ℕ → Result SelectError (List SelectPoolPair)
  pair_loop call [] = ok []
  pair_loop call (p ∷ ps) = do
    remote ← select_remote_pool call (w.pool_at p).parent
    pairs ← pair_loop (suc call) ps
    ok (record { local = p; remote = remote } ∷ pairs)

  -- The pools and pairs that are weighed.
  unfoldable pub candidate_pools : Result SelectError (List ℕ)
  candidate_pools = do local_pools ← select_local_pool 0; select_dtree_pool local_pools

  unfoldable pub select_pool_pair : World × Result SelectError SelectPoolPair
  select_pool_pair = elim candidate_pools [
    | err e ↦ (w, err e)
    | ok local_pools ↦ elim (pair_loop 1 local_pools) [
      | err e ↦ (w, err e)
      | ok pairs ↦ weight_pools request_size parameters local_pools pairs w
    ]
  ]
