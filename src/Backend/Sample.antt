-- ===== src/Backend/Sample.antt =====
-- A small cache: the backend "a" has two pools, of which the second is larger; "b" is offline; "c" is
-- the metro and the replica backend of "a".
use mathlib.Core.List.Permᴰ
use e_sdk_k8s_plugin.Prelude.{
  ℕ, Bool, true, false, Option, none, some, List, [], ◌∷◌, String, ◌==◌, eqb, if◌then◌else◌,
}
use e_sdk_k8s_plugin.Prelude.Int.{pos}
use e_sdk_k8s_plugin.Prelude.Dict.{Dict}
use e_sdk_k8s_plugin.Strconv.{Bytes, codes}
use e_sdk_k8s_plugin.Backend.Model.{
  text, number, accessible_topology, Parameters, StoragePool, Backend, Fields, World, Env,
}
use e_sdk_k8s_plugin.Backend.Topology.Order.{IsShuffle}

abbrev pub region : String → Dict String
region r = ("region", r) ∷ []

abbrev pub a_pool : String → String → Bytes → StoragePool
a_pool name parent free = record {
  name = name;
  storage = "oceanstor-san";
  parent = parent;
  capabilities =
      ("SupportThin", true)
      ∷ ("SupportThick", true)
      ∷ ("SupportMetro", true)
      ∷ ("SupportReplication", true)
      ∷ [];
  capacities = ("FreeCapacity", free) ∷ [];
  plugin = 1;
}

abbrev pub a_backend : String → Bool → List ℕ → Option ℕ → Backend
a_backend name available pools metro = record {
  name = name;
  content_name = name;
  storage = "oceanstor-san";
  available = available;
  plugin = 1;
  pools = pools;
  parameters = Fields.close;
  supported_topologies = region name ∷ [];
  account_name = "";
  metro_domain = "";
  metro_vstore_pair_id = "";
  metro_backend_name = "";
  metro_backend = metro;
  replica_backend_name = "";
  replica_backend = metro;
}

abbrev c_backend : Backend
c_backend = record (a_backend "c" true (3 ∷ []) none) { replica_backend = some 1 }

abbrev pub cache : Dict Backend
cache =
    ("a", a_backend "a" true (0 ∷ 1 ∷ []) (some 0))
    ∷ ("b", a_backend "b" false (2 ∷ []) none)
    ∷ ("c", c_backend)
    ∷ []

abbrev pub pools : ℕ → StoragePool
pools p =
    if eqb p 0
    then a_pool "p0" "a" (codes "100")
    else if eqb p 1
    then a_pool "p1" "a" (codes "300")
    else if eqb p 2
    then a_pool "p0" "b" (codes "900")
    else a_pool "p0" "c" (codes "200")

abbrev pub world : World
world = record {
  pool_at = pools;
  backend_at = λ b. if eqb b 0 then c_backend else a_backend "a" true (0 ∷ 1 ∷ []) (some 0);
  next_pool = 4;
  next_backend = 2;
  cache = cache;
  calls = [];
}

abbrev pub env : Env
env = record {
  support_qos_parameters = λ plugin qos. none;
  is_dme_a_series = λ plugin. false;
  dtree_parent_name = λ plugin. "";
  unmarshal = λ s.
      if s == "soft"
      then some (("spaceQuota", text "softQuota") ∷ ("gracePeriod", number (pos 30) true) ∷ [])
      else none;
  shuffle = λ call round ps. ps;
}

pub shuffles : IsShuffle env
shuffles = record { permutes = λ call round ps. Permᴰ.refl ps }

abbrev pub thick : Parameters
thick = ("allocType", text "thick") ∷ []

abbrev pub metro : Parameters
metro = ("hyperMetro", text "true") ∷ []

abbrev pub replication : Parameters
replication = ("replication", text "true") ∷ []

abbrev pub regional : Parameters
regional = ("topology", accessible_topology (region "a" ∷ region "c" ∷ []) (region "c" ∷ [])) ∷ []
