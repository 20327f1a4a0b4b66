-- ===== src/Backend/Filter.antt =====
-- The capability filters of csi/backend/backend.go. A filter takes the value of its parameter and the
-- candidate pools, by address, and gives the pools that are left.
pub mod Tested
pub mod Chain
mod Examples
use e_sdk_k8s_plugin.Prelude.{
  ℕ, Bool, true, false, not, ◌&&◌, ◌||◌, Option, none, some, List, [], ◌∷◌, String, ◌==◌,
  if◌then◌else◌, keep, is_none, is_some, is_empty,
}
use e_sdk_k8s_plugin.Prelude.Dict.{Dict, lookup}
use e_sdk_k8s_plugin.Prelude.Result.{Result, ok, err}
use e_sdk_k8s_plugin.Strconv.{str_to_bool}
use e_sdk_k8s_plugin.Backend.Model.{
  StoragePool, Backend, World, Env, Parameters, text_param, has_capability, is_dtree_storage,
  SelectError, qos_parameters, invalid_quota, filter_failed, no_pool_left,
}
use e_sdk_k8s_plugin.Backend.Quota.{is_storage_quota_available}

abbrev pub Filter : Type 0
Filter = String → List ℕ → Result SelectError (List ℕ)

-- The storage types that serve a volume type.
unfoldable pub serves_volume_type : String → String → Bool
unfolding is_dtree_storage
serves_volume_type volume_type storage =
    if volume_type == "lun" || volume_type == ""
    then storage == "oceanstor-san" || storage == "fusionstorage-san" || storage == "oceandisk-san"
    else if volume_type == "fs"
    then storage == "oceanstor-nas"
      || storage == "oceanstor-9000"
      || storage == "fusionstorage-nas"
      || storage == "oceanstor-a-series-nas"
      || storage == "oceanstor-a-series-nas-dme"
    else if volume_type == "dtree"
    then is_dtree_storage storage
    else false

unfoldable pub serves_alloc_type : String → StoragePool → Bool
unfolding has_capability
serves_alloc_type alloc_type pool =
    if pool.storage == "oceanstor-9000"
    then true
    else if alloc_type == "thin" || alloc_type == ""
    then has_capability pool.capabilities "SupportThin"
    else if alloc_type == "thick"
    then has_capability pool.capabilities "SupportThick"
    else false

unfoldable pub serves_nfs_protocol : String → Bool → StoragePool → Bool
unfolding has_capability
serves_nfs_protocol nfs_protocol is_dme pool =
    if is_dme
    then true
    else if nfs_protocol == "nfs3" && has_capability pool.capabilities "SupportNFS3"
    then true
    else if nfs_protocol == "nfs4" && has_capability pool.capabilities "SupportNFS4"
    then true
    else if nfs_protocol == "nfs41" && has_capability pool.capabilities "SupportNFS41"
    then true
    else nfs_protocol == "nfs42" && has_capability pool.capabilities "SupportNFS42"

abbrev pub has_metro_backend : Option Backend → Bool
has_metro_backend none = false
has_metro_backend (some b) = is_some b.metro_backend

abbrev pub has_replica_backend : Option Backend → Bool
has_replica_backend none = false
has_replica_backend (some b) = is_some b.replica_backend

abbrev pub and_then : ℕ → Result SelectError (List ℕ) → Result SelectError (List ℕ)
and_then p (ok ps) = ok (p ∷ ps)
and_then p (err e) = err e

-- One round of `FilterByCapability`, and the rest of the rounds from what is left.
abbrev pub filtered :
    String
    → Result SelectError (List ℕ)
    → (List ℕ → Result SelectError (List ℕ))
    → Result SelectError (List ℕ)
filtered key (err e) rest = err (filter_failed key e)
filtered key (ok []) rest = err (no_pool_left key)
filtered key (ok (p ∷ ps)) rest = rest (p ∷ ps)

unfoldable pub filter_by_capability :
    Parameters → List ℕ → List (String × Filter) → Result SelectError (List ℕ)
filter_by_capability parameters ps [] = ok ps
filter_by_capability parameters ps ((key, filter) ∷ filters) =
    filtered key (filter (text_param parameters key) ps)
      (λ qs. filter_by_capability parameters qs filters)

module _ (env : Env) (w : World) where
  unfoldable pub filter_by_backend_name : Filter
  filter_by_backend_name backend_name ps =
      ok (keep (λ p. backend_name == "" || backend_name == (w.pool_at p).parent) ps)

  unfoldable pub filter_by_storage_pool : Filter
  filter_by_storage_pool pool_name ps =
      ok (keep (λ p. pool_name == "" || pool_name == (w.pool_at p).name) ps)

  unfoldable pub filter_by_volume_type : Filter
  filter_by_volume_type volume_type ps =
      ok (keep (λ p. serves_volume_type volume_type (w.pool_at p).storage) ps)

  unfoldable pub filter_by_alloc_type : Filter
  filter_by_alloc_type alloc_type ps =
      ok (keep (λ p. serves_alloc_type alloc_type (w.pool_at p)) ps)

  unfoldable pub supports_qos : String → ℕ → Bool
  supports_qos qos p =
      has_capability (w.pool_at p).capabilities "SupportQoS"
      && is_none (env.support_qos_parameters (w.pool_at p).plugin qos)

  unfoldable pub filter_by_qos : Filter
  filter_by_qos qos ps =
      if qos == ""
      then ok ps
      else (let filter_pools = keep (supports_qos qos) ps in
          if is_empty filter_pools then err qos_parameters else ok filter_pools)

  unfoldable pub supports_metro : ℕ → Bool
  supports_metro p =
      has_metro_backend (lookup (w.pool_at p).parent w.cache)
      && has_capability (w.pool_at p).capabilities "SupportMetro"

  unfoldable pub filter_by_metro : Filter
  filter_by_metro hyper_metro ps =
      if hyper_metro == "" || not (str_to_bool hyper_metro)
      then ok ps
      else ok (keep supports_metro ps)

  unfoldable pub supports_replication : ℕ → Bool
  supports_replication p =
      has_replica_backend (lookup (w.pool_at p).parent w.cache)
      && has_capability (w.pool_at p).capabilities "SupportReplication"

  unfoldable pub filter_by_replication : Filter
  filter_by_replication replication ps =
      if replication == "" || not (str_to_bool replication)
      then ok ps
      else ok (keep supports_replication ps)

  unfoldable pub filter_by_application_type : Filter
  filter_by_application_type app_type ps = ok (
      keep
        (λ p.
          if not (app_type == "")
          then has_capability (w.pool_at p).capabilities "SupportApplicationType"
          else true)
        ps)

  -- The loop stops at the first pool with quotas if the quota itself is refused.
  pub quota_loop : String → List ℕ → Result SelectError (List ℕ)
  quota_loop storage_quota [] = ok []
  quota_loop storage_quota (p ∷ ps) =
      let rest = quota_loop storage_quota ps in
      if has_capability (w.pool_at p).capabilities "SupportQuota"
      then (if is_some (is_storage_quota_available env storage_quota)
          then err invalid_quota
          else and_then p rest)
      else rest

  unfoldable pub filter_by_storage_quota : Filter
  filter_by_storage_quota storage_quota ps =
      if storage_quota == "" then ok ps else quota_loop storage_quota ps

  unfoldable pub filter_by_support_clone : Filter
  filter_by_support_clone clone_source ps =
      if clone_source == ""
      then ok ps
      else ok (keep (λ p. has_capability (w.pool_at p).capabilities "SupportClone") ps)

  unfoldable pub filter_by_nfs_protocol : Filter
  filter_by_nfs_protocol nfs_protocol ps =
      if nfs_protocol == ""
      then ok ps
      else ok (
          keep
            (λ p.
              serves_nfs_protocol nfs_protocol (env.is_dme_a_series (w.pool_at p).plugin)
                (w.pool_at p))
            ps)

  abbrev pub primary_filter_funcs : List (String × Filter)
  primary_filter_funcs =
      ("backend", filter_by_backend_name)
      ∷ ("pool", filter_by_storage_pool)
      ∷ ("volumeType", filter_by_volume_type)
      ∷ ("allocType", filter_by_alloc_type)
      ∷ ("qos", filter_by_qos)
      ∷ ("hyperMetro", filter_by_metro)
      ∷ ("replication", filter_by_replication)
      ∷ ("applicationType", filter_by_application_type)
      ∷ ("storageQuota", filter_by_storage_quota)
      ∷ ("sourceVolumeName", filter_by_support_clone)
      ∷ ("sourceSnapshotName", filter_by_support_clone)
      ∷ ("nfsProtocol", filter_by_nfs_protocol)
      ∷ []

  abbrev pub secondary_filter_funcs : List (String × Filter)
  secondary_filter_funcs =
      ("volumeType", filter_by_volume_type)
      ∷ ("allocType", filter_by_alloc_type)
      ∷ ("qos", filter_by_qos)
      ∷ ("replication", filter_by_replication)
      ∷ ("applicationType", filter_by_application_type)
      ∷ []
