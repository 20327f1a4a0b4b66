-- ===== src/Backend/Capacity/Examples.antt =====
-- The choice between two pools, and a thick volume on one.
use e_sdk_k8s_plugin.Prelude.{ℕ, some, [], ◌∷◌, ◌≡◌, refl}
use e_sdk_k8s_plugin.Prelude.Dict.{lookup}
use e_sdk_k8s_plugin.Strconv.{parse_int, parse_int_with_default}
use e_sdk_k8s_plugin.Backend.Sample.{world}
use e_sdk_k8s_plugin.Backend.Capacity.{weight_by_free_capacity, free_capacity}
use e_sdk_k8s_plugin.Backend.Capacity.Weight.{IsFirstMax, weight_by_free_capacity-IsFirstMax}

larger : weight_by_free_capacity world (0 ∷ 1 ∷ 3 ∷ []) ≡ some 1
unfolding weight_by_free_capacity free_capacity parse_int_with_default parse_int lookup
larger = refl

weight_by_free_capacity-IsFirstMax_example :
    (q : ℕ) × (weight_by_free_capacity world (0 ∷ 1 ∷ 3 ∷ []) ≡ some q)
    × IsFirstMax world q (0 ∷ 1 ∷ 3 ∷ [])
weight_by_free_capacity-IsFirstMax_example = weight_by_free_capacity-IsFirstMax world 0 (1 ∷ 3 ∷ [])
