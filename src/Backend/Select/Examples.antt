-- ===== src/Backend/Select/Examples.antt =====
-- Selections of pools from the small cache: a thick volume, a metro volume and a replicated one.
use mathlib.Core.List.{Permᴰ}
use e_sdk_k8s_plugin.Prelude.{
  ℕ, true, false, none, some, List, [], ◌∷◌, ◌≡◌, ◌≢◌, refl, arith, keep, In,
}
use e_sdk_k8s_plugin.Prelude.Int.{pos, ◌-ℤ◌, ◌≤ℤ◌}
use e_sdk_k8s_plugin.Prelude.Dict.{lookup}
use e_sdk_k8s_plugin.Prelude.Result.{ok, err}
use e_sdk_k8s_plugin.Strconv.{parse_int, parse_int_with_default, str_to_bool}
use e_sdk_k8s_plugin.Backend.Model.{Backend, SelectError, SelectPoolPair, World, text_param}
use e_sdk_k8s_plugin.Backend.Sample.{env, shuffles, world, thick, metro, replication, a_backend}
use e_sdk_k8s_plugin.Backend.Cache.{Content, refresh_backend}
use e_sdk_k8s_plugin.Backend.Cache.Steps.{CacheStep}
use e_sdk_k8s_plugin.Backend.Cache.Replica.{Grown}
use e_sdk_k8s_plugin.Backend.Select.Replication.{select_pool_pair-replication}
use e_sdk_k8s_plugin.Backend.Filter.Tested.{primary_tests}
use e_sdk_k8s_plugin.Backend.Capacity.{
  filter_by_capacity, has_capacity, free_capacity, weight_single_pools, weight_by_free_capacity,
  weight_pools, take_pair,
}
use e_sdk_k8s_plugin.Backend.Filter.{
  filter_by_capability, filter_by_backend_name, filter_by_storage_pool, filter_by_volume_type,
  serves_volume_type, filter_by_alloc_type, serves_alloc_type, filter_by_qos, filter_by_metro,
  filter_by_replication, filter_by_application_type, filter_by_storage_quota,
  filter_by_support_clone, filter_by_nfs_protocol, supports_replication,
}
use e_sdk_k8s_plugin.Backend.Topology.{filter_by_topology}
use e_sdk_k8s_plugin.Backend.Capacity.Weight.{IsFirstMax, free}
use e_sdk_k8s_plugin.Backend.Select.{
  load_cache_storage_pools, select_local_pool, select_remote_pool, candidate_pools,
  select_pool_pair, filter_pool, filter_storage_pool, select_dtree_pool, pair_loop,
}
use e_sdk_k8s_plugin.Backend.Select.Eligible.{
  eligible, select_local_pool-Perm, select_local_pool_total,
}
use e_sdk_k8s_plugin.Backend.Select.Remote.{IsRemoteOf, select_remote_pool-metro}
use e_sdk_k8s_plugin.Backend.Select.Pair.{HasRemote, placed, select_pool_pair-IsFirstMax}
use e_sdk_k8s_plugin.Backend.Select.Direct.{select_remote_pool_directly}
use e_sdk_k8s_plugin.Backend.Select.Account.{select_pool_pair-eligible, select_pool_pair_thick}

abbrev chosen : SelectPoolPair
chosen = record { local = 1; remote = none }

abbrev after : World
after = placed (pos 40) thick chosen world

local_left : select_local_pool env world (pos 40) thick 0 ≡ ok (0 ∷ 1 ∷ 3 ∷ [])
unfolding select_local_pool load_cache_storage_pools filter_pool filter_by_capability
    filter_by_backend_name text_param lookup filter_by_storage_pool filter_by_volume_type
    serves_volume_type filter_by_alloc_type serves_alloc_type filter_by_qos filter_by_metro
    filter_by_replication filter_by_application_type filter_by_storage_quota filter_by_support_clone
    filter_by_nfs_protocol filter_by_topology filter_by_capacity has_capacity free_capacity
    parse_int parse_int_with_default
local_left = refl

metro_taken : select_remote_pool env world (pos 5) metro 1 "a" ≡ ok (some 3)
unfolding filter_pool filter_by_capability filter_by_backend_name text_param lookup
    filter_by_storage_pool filter_by_volume_type serves_volume_type filter_by_alloc_type
    serves_alloc_type filter_by_qos filter_by_metro filter_by_replication filter_by_application_type
    filter_by_storage_quota filter_by_support_clone filter_by_nfs_protocol filter_by_topology
    filter_by_capacity has_capacity free_capacity parse_int parse_int_with_default
    weight_single_pools weight_by_free_capacity str_to_bool supports_replication select_remote_pool
metro_taken = refl

-- The remote pool of the backend "a" is its own pool 1, and not the pool 3 of its replica backend "c".
replica_taken : select_remote_pool env world (pos 5) replication 1 "a" ≡ ok (some 1)
unfolding filter_pool filter_by_capability filter_by_backend_name text_param lookup
    filter_by_storage_pool filter_by_volume_type serves_volume_type filter_by_alloc_type
    serves_alloc_type filter_by_qos filter_by_metro filter_by_replication filter_by_application_type
    filter_by_storage_quota filter_by_support_clone filter_by_nfs_protocol filter_by_topology
    filter_by_capacity has_capacity free_capacity parse_int parse_int_with_default
    weight_single_pools weight_by_free_capacity str_to_bool supports_replication select_remote_pool
replica_taken = refl

pair_taken : select_pool_pair env world (pos 40) thick ≡ (after, ok chosen)
unfolding select_pool_pair candidate_pools select_local_pool load_cache_storage_pools
    select_dtree_pool pair_loop weight_pools take_pair filter_pool filter_by_capability
    filter_by_backend_name text_param lookup filter_by_storage_pool filter_by_volume_type
    serves_volume_type filter_by_alloc_type serves_alloc_type filter_by_qos filter_by_metro
    filter_by_replication filter_by_application_type filter_by_storage_quota filter_by_support_clone
    filter_by_nfs_protocol filter_by_topology filter_by_capacity has_capacity free_capacity
    parse_int parse_int_with_default weight_single_pools weight_by_free_capacity str_to_bool
    supports_replication select_remote_pool
pair_taken = refl

select_local_pool-Perm_example : Permᴰ (0 ∷ 1 ∷ 3 ∷ []) (
    keep
      (eligible env shuffles world thick (pos 40) (primary_tests env world))
      (load_cache_storage_pools world))
select_local_pool-Perm_example =
    select_local_pool-Perm env shuffles world thick (pos 40) 0 (0 ∷ 1 ∷ 3 ∷ []) local_left

select_local_pool_total_example :
    (qs : List ℕ) × (select_local_pool env world (pos 250) thick 0 ≡ ok qs)
unfolding load_cache_storage_pools text_param lookup serves_volume_type serves_alloc_type
    has_capacity free_capacity parse_int_with_default parse_int
select_local_pool_total_example = select_local_pool_total env shuffles world thick (pos 250) 0 refl

select_remote_pool-metro_example :
    (b : Backend) × (m : ℕ) × (lookup "a" world.cache ≡ some b)
    × (b.metro_backend ≡ some m)
    × IsRemoteOf env shuffles world (pos 5) metro (world.backend_at m).pools 3
unfolding lookup str_to_bool
select_remote_pool-metro_example =
    select_remote_pool-metro env shuffles world (pos 5) metro 1 "a" 3 refl metro_taken

-- The other selection takes the pool 3 of the replica backend "c".
replica_taken_directly :
    select_remote_pool_directly env world (pos 5) replication 1 "a" ≡ ok (some 3)
unfolding select_remote_pool_directly filter_storage_pool filter_by_capability text_param lookup
    filter_by_volume_type serves_volume_type filter_by_alloc_type serves_alloc_type filter_by_qos
    filter_by_replication supports_replication filter_by_application_type filter_by_topology
    filter_by_capacity has_capacity free_capacity parse_int parse_int_with_default
    weight_single_pools weight_by_free_capacity str_to_bool
replica_taken_directly = refl

select_pool_pair-IsFirstMax_example :
    (ps : List ℕ) × (candidate_pools env world (pos 40) thick ≡ ok ps)
    × IsFirstMax world 1 ps
    × HasRemote env world (pos 40) thick chosen
    × (after ≡ placed (pos 40) thick chosen world)
select_pool_pair-IsFirstMax_example =
    select_pool_pair-IsFirstMax env world (pos 40) thick after chosen pair_taken

select_pool_pair-eligible_example :
    In 1 (load_cache_storage_pools world)
    × (eligible env shuffles world thick (pos 40) (primary_tests env world) 1 ≡ true)
select_pool_pair-eligible_example =
    select_pool_pair-eligible env shuffles world (pos 40) thick after chosen pair_taken

select_pool_pair_thick_example :
    (free after 1 ≡ free world 1 -ℤ pos 40)
    × (pos 0 ≤ℤ free after 1)
    × ((q : ℕ) → q ≢ 1 → none ≢ some q → after.pool_at q ≡ world.pool_at q)
unfolding text_param lookup
select_pool_pair_thick_example =
    select_pool_pair_thick env shuffles world (pos 40) thick after chosen refl (omega arith)
      pair_taken (λ e. cc)

-- A backend that was added to an empty cache.
abbrev content : Content
content = record { backend_claim = "a"; configmap_meta = ""; secret_meta = ""; status = none }

abbrev no_backends : World
no_backends = record world { cache = [] }

abbrev one_backend : World
one_backend = refresh_backend (a_backend "a" false (0 ∷ 1 ∷ []) none) content no_backends

one_backend-Grown : Grown one_backend
one_backend-Grown =
    Grown.step no_backends one_backend
      (CacheStep.add_backend (a_backend "a" false (0 ∷ 1 ∷ []) none) content refl) refl
      (Grown.empty_cache no_backends refl)

select_pool_pair-replication_example :
    (e : SelectError) × (select_pool_pair env one_backend (pos 5) replication
      ≡ (one_backend, err e))
unfolding str_to_bool lookup
select_pool_pair-replication_example =
    select_pool_pair-replication env one_backend (pos 5) replication one_backend-Grown refl
