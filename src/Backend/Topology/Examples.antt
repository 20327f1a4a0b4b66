-- ===== src/Backend/Topology/Examples.antt =====
-- The topology filter on two backends in two regions.
use mathlib.Core.List.{Permᴰ}
use e_sdk_k8s_plugin.Prelude.{true, [], ◌∷◌, ◌≡◌, ◌↔◌, refl, keep, In}
use e_sdk_k8s_plugin.Prelude.Dict.{lookup, Dict}
use e_sdk_k8s_plugin.Prelude.{String}
use e_sdk_k8s_plugin.Backend.Sample.{env, shuffles, world, regional, region}
use e_sdk_k8s_plugin.Backend.Topology.{
  pool_fits, filter_by_topology, filter_pools_on_topology, sort_pools_by_preferred_topologies,
  sort_loop, is_topology_supported_by_backend,
}
use e_sdk_k8s_plugin.Backend.Topology.Support.{Supports, is_topology_supported_by_backend_iff}
use e_sdk_k8s_plugin.Backend.Topology.Order.{IsSortedBy, rank, filter_by_topology-IsSortedBy}

is_topology_supported_by_backend_iff_example :
    (is_topology_supported_by_backend (region "a" ∷ []) (region "a") ≡ true)
    ↔ ((s : Dict String) × In s (region "a" ∷ []) × Supports (region "a") s)
is_topology_supported_by_backend_iff_example =
    is_topology_supported_by_backend_iff (region "a" ∷ []) (region "a")

-- The pool in the preferred region comes first.
filter_by_topology-IsSortedBy_example :
    Permᴰ (3 ∷ 0 ∷ []) (keep (pool_fits world (region "a" ∷ region "c" ∷ [])) (0 ∷ 2 ∷ 3 ∷ []))
    × IsSortedBy (rank world (region "c" ∷ [])) (3 ∷ 0 ∷ [])
unfolding filter_by_topology sort_loop filter_pools_on_topology sort_pools_by_preferred_topologies
    is_topology_supported_by_backend lookup
filter_by_topology-IsSortedBy_example =
    filter_by_topology-IsSortedBy env shuffles world 0 regional (region "a" ∷ region "c" ∷ [])
      (region "c" ∷ []) (0 ∷ 2 ∷ 3 ∷ []) (3 ∷ 0 ∷ []) refl refl refl
