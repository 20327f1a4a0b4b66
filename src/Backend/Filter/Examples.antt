-- ===== src/Backend/Filter/Examples.antt =====
-- Filters of two pools.
use e_sdk_k8s_plugin.Prelude.{ℕ, List, [], ◌∷◌, ◌≡◌, ◌↔◌, refl, keep, is_empty, false}
use e_sdk_k8s_plugin.Prelude.Result.{ok}
use e_sdk_k8s_plugin.Backend.Sample.{env, world, metro}
use e_sdk_k8s_plugin.Backend.Filter.{filter_by_capability, primary_filter_funcs}
use e_sdk_k8s_plugin.Backend.Filter.Tested.{primary_tests}
use e_sdk_k8s_plugin.Backend.Filter.Chain.{passes, primary_filters_exact}

abbrev three : List ℕ
three = 0 ∷ 1 ∷ 3 ∷ []

primary_filters_exact_example :
    (filter_by_capability metro three (primary_filter_funcs env world) ≡ ok (0 ∷ 1 ∷ [])) ↔ (
      ((0 ∷ 1 ∷ []) ≡ keep (passes metro (primary_tests env world)) three)
      × (is_empty {A = ℕ} (0 ∷ 1 ∷ []) ≡ false))
primary_filters_exact_example = primary_filters_exact env world metro three (0 ∷ 1 ∷ []) refl
