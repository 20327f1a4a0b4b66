-- ===== src/Backend/Capacity.antt =====
-- The capacity filter and the choice by free capacity of csi/backend/backend.go.
pub mod Weight
pub mod Account
mod Examples
use e_sdk_k8s_plugin.Prelude.{
  ℕ, Bool, true, false, ◌&&◌, ◌||◌, Option, none, some, List, [], ◌∷◌, String, ◌==◌, eqb,
  if◌then◌else◌, keep,
}
use e_sdk_k8s_plugin.Prelude.Int.{ℤ, pos, ◌-ℤ◌, wrap, ltb_ℤ, leb_ℤ}
use e_sdk_k8s_plugin.Prelude.Dict.{Dict, lookup, insert, get_or}
use e_sdk_k8s_plugin.Prelude.Result.{Result, ok, err}
use e_sdk_k8s_plugin.Strconv.{parse_int_with_default, format_int}
use e_sdk_k8s_plugin.Backend.Model.{
  StoragePool, World, Parameters, SelectPoolPair, set_pool, text_param, has_capability, SelectError,
  cannot_select, weight_pool_failed,
}

-- `utils.ParseIntWithDefault(pool.GetCapacities()["FreeCapacity"], 10, 64, 0)`
unfoldable pub free_capacity : StoragePool → ℤ
free_capacity pool = parse_int_with_default (get_or pool.capacities "FreeCapacity" []) (pos 0)

unfoldable pub has_capacity : ℤ → String → StoragePool → Bool
unfolding has_capability
has_capacity request_size alloc_type pool =
    if (alloc_type == "thin" || alloc_type == "") && has_capability pool.capabilities "SupportThin"
    then true
    else if alloc_type == "thick" && has_capability pool.capabilities "SupportThick"
    then leb_ℤ request_size (free_capacity pool)
    else false

module _ (w : World) where
  unfoldable pub filter_by_capacity : ℤ → String → List ℕ → List ℕ
  filter_by_capacity request_size alloc_type ps =
      keep (λ p. has_capacity request_size alloc_type (w.pool_at p)) ps

  abbrev pub better : Option ℕ → ℕ → ℕ
  better none p = p
  better (some selected) p =
      if ltb_ℤ (free_capacity (w.pool_at selected)) (free_capacity (w.pool_at p))
      then p
      else selected

  -- The loop of `weightByFreeCapacity`, with `selectPool` so far.
  pub weight_loop : Option ℕ → List ℕ → Option ℕ
  weight_loop selected [] = selected
  weight_loop selected (p ∷ ps) = weight_loop (some (better selected p)) ps

  unfoldable pub weight_by_free_capacity : List ℕ → Option ℕ
  unfolding weight_loop
  weight_by_free_capacity ps = weight_loop none ps

  unfoldable pub weight_single_pools : List ℕ → Result SelectError ℕ
  weight_single_pools ps = elim (weight_by_free_capacity ps) [
    | none ↦ err cannot_select
    | some p ↦ ok p
  ]

-- `updateSelectPool`: a thick volume takes its size from the free capacity, in int64.
unfoldable pub update_select_pool : ℤ → Parameters → Option ℕ → World → World
update_select_pool request_size parameters none w = w
update_select_pool request_size parameters (some p) w =
    let pool = w.pool_at p in
    if text_param parameters "allocType" == "thick"
    then set_pool w p (record pool {
      capacities =
          insert "FreeCapacity" (format_int (wrap (free_capacity pool -ℤ request_size)))
            pool.capacities;
    })
    else w

-- The loop over the pairs: the first whose local pool is the chosen one.
unfoldable pub take_pair :
    ℤ → Parameters → ℕ → List SelectPoolPair → World → World × Result SelectError SelectPoolPair
take_pair request_size parameters local_pool [] w = (w, err weight_pool_failed)
take_pair request_size parameters local_pool (pair ∷ pairs) w =
    let rest = take_pair request_size parameters local_pool pairs w in
    if eqb pair.local local_pool
    then (
      update_select_pool request_size parameters pair.remote
          (update_select_pool request_size parameters (some pair.local) w),
      ok pair,
    )
    else rest

unfoldable pub weight_pools :
    ℤ
    → Parameters
    → List ℕ
    → List SelectPoolPair
    → World
    → World × Result SelectError SelectPoolPair
weight_pools request_size parameters local_pools pool_pairs w =
    elim (weight_single_pools w local_pools) [
      | err e ↦ (w, err e)
      | ok local_pool ↦ take_pair request_size parameters local_pool pool_pairs w
    ]
