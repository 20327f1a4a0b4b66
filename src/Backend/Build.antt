-- ===== src/Backend/Build.antt =====
-- The construction of a backend from its configuration, and the validation of a backend for a volume:
-- csi/backend/backend.go. `Init` of a plugin, the plugins themselves and what the API server holds
-- are parameters.
pub mod Topologies
pub mod Config
pub mod Whole
mod Examples
use Prim.Native.String
use e_sdk_k8s_plugin.Prelude.{
  ℕ, suc, Bool, true, false, not, ◌&&◌, ◌||◌, Option, none, some, List, [], ◌∷◌, ◌++◌, String, ◌==◌,
  eqb, if◌then◌else◌, is_empty, map, is_some, keep,
}
use e_sdk_k8s_plugin.Prelude.Dict.{Dict, lookup, insert}
use e_sdk_k8s_plugin.Prelude.Result.{Result, ok, err, ◌>>=◌}
use e_sdk_k8s_plugin.Backend.Model.{
  Value, text, array, object, Items, stop, item, Fields, close, field, Parameters, as_text,
  text_param, StoragePool, Backend, World, set_pool, is_dtree_storage,
}
use e_sdk_k8s_plugin.Backend.Filter.{serves_volume_type}
use e_sdk_k8s_plugin.Backend.Topology.{protocol_topology_prefix}

pub data BuildError : Type 0 where
  no_pools no_storage no_plugin no_parameters bad_metro topologies_not_list topology_not_map :
      BuildError
  no_protocol invalid_tuple bad_claim no_info init_failed : BuildError

-- The names of `config["pools"].([]interface{})` that are texts and not empty.
unfoldable pub pool_names : Items → List String
pool_names stop = []
pool_names (item (text name) rest) = if name == "" then pool_names rest else name ∷ pool_names rest
pool_names (item v rest) = pool_names rest

abbrev config_pools : Option Value → List String
config_pools (some (array names)) = pool_names names
config_pools _ = []

abbrev pub new_pool : Backend → String → StoragePool
new_pool b name = record {
  name = name;
  storage = b.storage;
  parent = b.name;
  capabilities = [];
  capacities = [];
  plugin = b.plugin;
}

-- Each pool is a new object.
unfoldable pub allocate_pools : Backend → List String → World → World × List ℕ
allocate_pools b [] w = (w, [])
allocate_pools b (name ∷ names) w =
    let p = w.next_pool in
    let rest =
      allocate_pools b names (record (set_pool w p (new_pool b name)) { next_pool = suc p }) in
    (rest.0, p ∷ rest.1)

unfoldable pub analyze_pools : Backend → Parameters → World → World × Result BuildError Backend
analyze_pools b config w =
    let names = config_pools (lookup "pools" config) in
    let pools = allocate_pools b (if is_dtree_storage b.storage then b.name ∷ names else names) w in
    if is_empty pools.1 then (w, err no_pools) else (pools.0, ok (record b { pools = pools.1 }))

-- The entries of a topology that are texts.
unfoldable pub text_fields : Fields → Dict String → Dict String
text_fields close m = m
text_fields (field key (text value) rest) m = text_fields rest (insert key value m)
text_fields (field key v rest) m = text_fields rest m

abbrev pub and_topology :
    Dict String → Result BuildError (List (Dict String)) → Result BuildError (List (Dict String))
and_topology t (ok ts) = ok (t ∷ ts)
and_topology t (err e) = err e

unfoldable pub topology_items : Items → Result BuildError (List (Dict String))
topology_items stop = ok []
topology_items (item (object topology) rest) =
    and_topology (text_fields topology []) (topology_items rest)
topology_items (item v rest) = err topology_not_map

abbrev configured_topologies : Option Value → Result BuildError (List (Dict String))
configured_topologies none = ok []
configured_topologies (some (array topologies)) = topology_items topologies
configured_topologies (some v) = err topologies_not_list

unfoldable pub get_supported_topologies : Parameters → Result BuildError (List (Dict String))
get_supported_topologies config = configured_topologies (lookup "supportedTopologies" config)

abbrev as_object : Option Value → Option Fields
as_object (some (object fields)) = some fields
as_object _ = none

unfoldable pub is_bad_metro : String → String → String → Bool
is_bad_metro domain pair_id backend =
    ((not (domain == "") || not (pair_id == "")) && backend == "")
    || ((domain == "" && pair_id == "") && not (backend == ""))

-- A plugin handle 0 is nil.
module _ (get_plugin : String → ℕ) where
  abbrev storage_of : Parameters → String → String
  storage_of config storage =
      if storage == "oceanstor-a-series-nas" && is_some (lookup "storageDeviceSN" config)
      then "oceanstor-a-series-nas-dme"
      else storage

  unfoldable pub new_backend : String → Parameters → Result BuildError Backend
  new_backend backend_name config = elim (as_text (lookup "storage" config)) [
    | none ↦ err no_storage
    | some configured ↦
        let storage = storage_of config configured in
        let domain = text_param config "hyperMetroDomain" in
        let pair_id = text_param config "metrovStorePairID" in
        let metro_backend = text_param config "metroBackend" in
        if eqb (get_plugin storage) 0
        then err no_plugin
        else elim (as_object (lookup "parameters" config)) [
          | none ↦ err no_parameters
          | some parameters ↦ elim (get_supported_topologies config) [
            | err e ↦ err e
            | ok topologies ↦
                if is_bad_metro domain pair_id metro_backend
                then err bad_metro
                else ok (record {
                  name = backend_name;
                  content_name = text_param config "contentName";
                  storage = storage;
                  available = false;
                  plugin = get_plugin storage;
                  pools = [];
                  parameters = parameters;
                  supported_topologies = topologies;
                  account_name = text_param config "accountName";
                  metro_domain = domain;
                  metro_vstore_pair_id = pair_id;
                  metro_backend_name = metro_backend;
                  metro_backend = none;
                  replica_backend_name = text_param config "replicaBackend";
                  replica_backend = none;
                })
          ]
        ]
  ]

unfoldable pub field_at : String → Fields → Option Value
field_at key close = none
field_at key (field k v rest) = if k == key then some v else field_at key rest

-- The copy of every supported topology with the protocol, and the protocol alone.
unfoldable pub protocol_topologies : String → String → List (Dict String) → List (Dict String)
protocol_topologies key driver_name topologies =
    topologies ++ map (insert key driver_name) topologies ++ ((key, driver_name) ∷ []) ∷ []

abbrev pub protocol_key : String → String
protocol_key protocol = String.◌++◌ protocol_topology_prefix protocol

unfoldable pub add_protocol_topology : String → Backend → Result BuildError Backend
add_protocol_topology driver_name b = elim (as_text (field_at "protocol" b.parameters)) [
  | none ↦ err no_protocol
  | some protocol ↦ ok (record b {
    supported_topologies =
        protocol_topologies (protocol_key protocol) driver_name b.supported_topologies;
  })
]

-- `ValidateFilterFuncs` in order.
unfoldable pub validate_backend_name : String → Backend → Bool
validate_backend_name backend_name b =
    not (not (backend_name == "") && not (b.name == backend_name))

unfoldable pub validate_volume_type : World → String → Backend → Bool
validate_volume_type w volume_type b =
    not (is_empty (keep (λ p. serves_volume_type volume_type (w.pool_at p).storage) b.pools))

-- Whether `ValidateBackend` returns nil.
unfoldable pub validate_backend : World → Backend → Parameters → Bool
validate_backend w b parameters =
    validate_backend_name (text_param parameters "backend") b
    && validate_volume_type w (text_param parameters "volumeType") b
