-- ===== src/Backend/Topology.antt =====
-- The topology filter of csi/backend/backend.go.
pub mod Support
pub mod Order
mod Examples
use text.Mathlib.Text.{starts_with}
use e_sdk_k8s_plugin.Prelude.{
  ℕ, suc, Bool, true, false, not, ◌&&◌, ◌||◌, Option, none, some, List, [], ◌∷◌, ◌++◌, String, ◌==◌,
  if◌then◌else◌, keep, any, all, is_empty,
}
use e_sdk_k8s_plugin.Prelude.Dict.{Dict, lookup}
use e_sdk_k8s_plugin.Prelude.Result.{Result, ok, err}
use e_sdk_k8s_plugin.Backend.Model.{
  Value, accessible_topology, Parameters, Backend, World, Env, SelectError, topology_type,
  topology_unsupported,
}

abbrev pub protocol_topology_prefix : String
protocol_topology_prefix = "topology.kubernetes.io/protocol."

abbrev pub is_protocol : String × String → Bool
is_protocol (key, value) = starts_with key protocol_topology_prefix

-- The rest of the topology, and its protocol entries.
unfoldable pub extract_protocol_topology : Dict String → Dict String × Dict String
extract_protocol_topology topology =
    (keep (λ e. not (is_protocol e)) topology, keep is_protocol topology)

-- `v, ok := m[key]; ok && value == v`
abbrev pub has_entry : Dict String → String × String → Bool
has_entry m (key, value) = elim (lookup key m) [ none ↦ false | some v ↦ value == v ]

unfoldable pub check_protocol_support : Dict String → Dict String → Bool
check_protocol_support supported_topology protocols =
    any (λ e. is_protocol e && has_entry protocols e) supported_topology

-- One round of the loop over the supported topologies of the backend.
unfoldable pub is_supported_by : Dict String → Dict String → Dict String → Bool
unfolding check_protocol_support
is_supported_by protocol_topology topology supported =
    if not (is_empty protocol_topology) && not (check_protocol_support supported protocol_topology)
    then false
    else all (has_entry supported) topology

unfoldable pub is_topology_supported_by_backend : List (Dict String) → Dict String → Bool
unfolding extract_protocol_topology is_supported_by
is_topology_supported_by_backend supported_topologies topology =
    let parts = extract_protocol_topology topology in
    any (is_supported_by parts.1 parts.0) supported_topologies

module _ (w : World) where
  -- Whether a pool stays: its backend is cached, and has no topologies or supports a required one.
  abbrev pub backend_fits : Option Backend → List (Dict String) → Bool
  backend_fits none requisite = false
  backend_fits (some b) requisite =
      is_empty b.supported_topologies
      || any (is_topology_supported_by_backend b.supported_topologies) requisite

  abbrev pub pool_fits : List (Dict String) → ℕ → Bool
  pool_fits requisite p = backend_fits (lookup (w.pool_at p).parent w.cache) requisite

  unfoldable pub filter_pools_on_topology : List ℕ → List (Dict String) → List ℕ
  filter_pools_on_topology ps requisite =
      if is_empty requisite then ps else keep (pool_fits requisite) ps

  abbrev pub backend_prefers : Option Backend → Dict String → Bool
  backend_prefers none preferred = false
  backend_prefers (some b) preferred =
      is_topology_supported_by_backend b.supported_topologies preferred

  -- The pool goes to the bucket of a preferred topology.
  abbrev pub in_bucket : Dict String → ℕ → Bool
  in_bucket preferred p = backend_prefers (lookup (w.pool_at p).parent w.cache) preferred

  abbrev pub is_cached : Option Backend → Bool
  is_cached none = false
  is_cached (some b) = true

  -- The pool remains for the next preferred topology.
  abbrev pub remains : Dict String → ℕ → Bool
  remains preferred p =
      is_cached (lookup (w.pool_at p).parent w.cache) && not (in_bucket preferred p)

module _ (env : Env) (w : World) (call : ℕ) where
  -- The rounds over the preferred topologies that are left.
  unfoldable pub sort_loop : List (Dict String) → ℕ → List ℕ → List ℕ → List ℕ
  sort_loop [] round remaining ordered = ordered ++ env.shuffle call round remaining
  sort_loop (preferred ∷ rest) round remaining ordered =
      sort_loop rest (suc round) (keep (remains w preferred) remaining)
        (ordered ++ env.shuffle call round (keep (in_bucket w preferred) remaining))

  unfoldable pub sort_pools_by_preferred_topologies : List ℕ → List (Dict String) → List ℕ
  sort_pools_by_preferred_topologies ps preferred = sort_loop preferred 0 ps []

  abbrev by_topology : Option Value → List ℕ → Result SelectError (List ℕ)
  by_topology none ps = ok ps
  by_topology (some (accessible_topology requisite preferred)) ps =
      if is_empty requisite
      then ok ps
      else (let filter_pools = filter_pools_on_topology w ps requisite in
          if is_empty filter_pools
          then err topology_unsupported
          else ok (sort_pools_by_preferred_topologies filter_pools preferred))
  by_topology (some v) ps = err topology_type

  unfoldable pub filter_by_topology : Parameters → List ℕ → Result SelectError (List ℕ)
  filter_by_topology parameters ps = by_topology (lookup "topology" parameters) ps
