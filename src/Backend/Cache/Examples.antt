-- ===== src/Backend/Cache/Examples.antt =====
-- Two metro backends that are added to an empty cache, one after the other.
use e_sdk_k8s_plugin.Prelude.{ℕ, true, false, none, some, [], ◌∷◌, String, if◌then◌else◌, ◌≡◌, refl}
use e_sdk_k8s_plugin.Prelude.Dict.{lookup}
use e_sdk_k8s_plugin.Prelude.Result.{ok, err}
use e_sdk_k8s_plugin.Strconv.{codes}
use e_sdk_k8s_plugin.Backend.Model.{Backend, World, is_dtree_storage}
use e_sdk_k8s_plugin.Backend.Sample.{world, a_backend, a_pool}
use e_sdk_k8s_plugin.Backend.Cache.{Content, ContentStatus, refresh_backend, update_pool_by_sbct}
use e_sdk_k8s_plugin.Backend.Cache.Pool.{reported, update_pool_by_sbct-capacities}
use e_sdk_k8s_plugin.Backend.Cache.Metro.{IsConsistent}
use e_sdk_k8s_plugin.Backend.Cache.Steps.{Reachable, CacheStep, Reachable-IsConsistent}
use e_sdk_k8s_plugin.Backend.Cache.Register.{Cluster, check_consistency, is_live, exist_backends}
use e_sdk_k8s_plugin.Backend.Cache.Register.Consistency.{check_consistency-live}

abbrev metro_of : String → String → Backend
metro_of name other = record (a_backend name false [] none) {
  metro_domain = "d";
  metro_backend_name = other;
}

abbrev status : ContentStatus
status = record {
  online = true;
  capabilities = ("SupportThin", true) ∷ [];
  pools = record { name = "p0"; capacities = ("FreeCapacity", codes "70") ∷ [] } ∷ [];
}

abbrev content : Content
content = record {
  backend_claim = "x";
  configmap_meta = "m";
  secret_meta = "s";
  status = some status;
}

abbrev empty : World
empty = record world { cache = [] }

abbrev one : World
one = refresh_backend (metro_of "x" "y") content empty

abbrev two : World
two = refresh_backend (metro_of "y" "x") content one

two-Reachable : Reachable two
two-Reachable =
    Reachable.step one two
      (Reachable.step empty one (Reachable.empty_cache empty refl)
        (CacheStep.add_backend (metro_of "x" "y") content refl))
      (CacheStep.add_backend (metro_of "y" "x") content refl)

abbrev cluster : Cluster ℕ
cluster = record {
  split_key = λ s. ok s;
  content_by_name = λ s. err 1;
  all_contents = ok (content ∷ []);
  build = λ c w. (w, err 2);
  offline = 3;
}

Reachable-IsConsistent_example : IsConsistent two
Reachable-IsConsistent_example = Reachable-IsConsistent two two-Reachable

update_pool_by_sbct-capacities_example :
    lookup "FreeCapacity" (update_pool_by_sbct content (a_pool "p0" "x" (codes "100"))).capacities
    ≡ reported status.pools "p0" "FreeCapacity" (some (codes "100"))
unfolding is_dtree_storage lookup
update_pool_by_sbct-capacities_example =
    update_pool_by_sbct-capacities content status (a_pool "p0" "x" (codes "100")) "FreeCapacity"
      refl refl refl

check_consistency-live_example : lookup "x" (check_consistency cluster (content ∷ []) two).cache ≡ (
    if is_live cluster (exist_backends cluster (content ∷ []) []) "x"
    then lookup "x" two.cache
    else none)
check_consistency-live_example =
    check_consistency-live cluster (content ∷ []) two "x" (Reachable-IsConsistent two two-Reachable)
