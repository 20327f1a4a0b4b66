-- ===== src/Backend/Model.antt =====
-- csi/backend/model: backends and storage pools, and the memory that they stand in.
--
-- `*StoragePool` and `*Backend` are addresses, as the code compares and shares these pointers; the
-- cache is a map from names to backends that are values. An object of the interface
-- `StoragePlugin` is a handle; what the selection asks of it is a function of `Env`, and what the
-- cache tells it is an entry of `calls`. The handle 0 is nil.
use e_sdk_k8s_plugin.Prelude.{
  ℕ, Bool, false, ◌||◌, Option, none, some, List, String, ◌==◌, eqb, if◌then◌else◌,
}
use e_sdk_k8s_plugin.Prelude.Int.{ℤ}
use e_sdk_k8s_plugin.Prelude.Dict.{Dict, lookup}
use e_sdk_k8s_plugin.Strconv.{Bytes}

-- A value of type `interface{}`. A float64 is its integral part, and whether it has no other part.
mutual
  pub data Value : Type 0 where
    text : String → Value
    flag : Bool → Value
    number : ℤ → Bool → Value
    accessible_topology : List (Dict String) → List (Dict String) → Value
    array : Items → Value
    object : Fields → Value

  pub data Items : Type 0 where
    stop : Items
    item : Value → Items → Items

  pub data Fields : Type 0 where
    close : Fields
    field : String → Value → Fields → Fields

abbrev pub Parameters : Type 0
Parameters = Dict Value

-- `value, ok := v.(string)`
abbrev pub as_text : Option Value → Option String
as_text (some (text s)) = some s
as_text _ = none

-- `value, _ := parameters[key].(string)`
unfoldable pub text_param : Parameters → String → String
text_param parameters key = elim (as_text (lookup key parameters)) [ none ↦ "" | some s ↦ s ]

pub record StoragePool : Type 0 where
  pub name : String
  pub storage : String
  pub parent : String
  pub capabilities : Dict Bool
  pub capacities : Dict Bytes
  pub plugin : ℕ

pub record Backend : Type 0 where
  pub name : String
  pub content_name : String
  pub storage : String
  pub available : Bool
  pub plugin : ℕ
  pub pools : List ℕ
  pub parameters : Fields
  pub supported_topologies : List (Dict String)
  pub account_name : String
  pub metro_domain : String
  pub metro_vstore_pair_id : String
  pub metro_backend_name : String
  pub metro_backend : Option ℕ
  pub replica_backend_name : String
  pub replica_backend : Option ℕ

pub record SelectPoolPair : Type 0 where
  pub local : ℕ
  pub remote : Option ℕ

-- What a plugin object is told.
pub data PluginCall : Type 0 where
  set_online : ℕ → Bool → PluginCall
  logout : ℕ → PluginCall
  update_metro_remote_plugin : ℕ → ℕ → PluginCall

-- The memory: the objects behind the pointers, where the next one goes, the cache, and the calls of
-- plugins so far.
pub record World : Type 0 where
  pub pool_at : ℕ → StoragePool
  pub backend_at : ℕ → Backend
  pub next_pool : ℕ
  pub next_backend : ℕ
  pub cache : Dict Backend
  pub calls : List PluginCall

-- `*p = pool`
abbrev pub set_pool : World → ℕ → StoragePool → World
set_pool w p pool = record w { pool_at = λ q. if eqb p q then pool else w.pool_at q }

-- What the selection asks of code that is not modelled: of the plugin objects, of the JSON
-- decoder, and of the random source, whose shuffles are numbered by the call of the topology filter and
-- by the round in it.
pub record Env : Type 0 where
  pub support_qos_parameters : ℕ → String → Option String
  pub is_dme_a_series : ℕ → Bool
  pub dtree_parent_name : ℕ → String
  pub unmarshal : String → Option Parameters
  pub shuffle : ℕ → ℕ → List ℕ → List ℕ

-- `IsDtreeStorage` of pkg/constants/storage.go.
unfoldable pub is_dtree_storage : String → Bool
is_dtree_storage storage =
    storage == "oceanstor-dtree"
    || storage == "fusionstorage-dtree"
    || storage == "oceanstor-a-series-dtree"

-- `exist && value` after `value, exist := capabilities[key]`
unfoldable pub has_capability : Dict Bool → String → Bool
has_capability capabilities key = elim (lookup key capabilities) [ none ↦ false | some b ↦ b ]

-- Why a selection fails; each constructor is one `errors.New` or `fmt.Errorf` of the code.
pub data SelectError : Type 0 where
  qos_parameters invalid_quota topology_type topology_unsupported capacity_short : SelectError
  metro_and_replication no_metro_backend no_replica_backend no_local_backend : SelectError
  cannot_select weight_pool_failed no_available_pool no_dtree_backend : SelectError
  filter_failed : String → SelectError → SelectError
  no_pool_left : String → SelectError
  remote_failed : SelectError → SelectError
