-- ===== src/Backend/Cache.antt =====
-- The cache of backends: csi/backend/cache/backend_cache.go, the updates of csi/backend/model, and the
-- cache wrapper of csi/backend/handler/backend_cache_wrapper.go. The locks are left out: an operation of
-- the cache is one step.
pub mod Pool
pub mod Metro
pub mod Steps
pub mod Replica
pub mod Register
mod Examples
use e_sdk_k8s_plugin.Prelude.{
  ℕ, suc, Bool, true, false, not, ◌&&◌, ◌||◌, Option, none, some, List, [], ◌∷◌, ◌++◌, String, ◌==◌,
  eqb, if◌then◌else◌, is_empty, is_some, is_none, length,
}
use e_sdk_k8s_plugin.Prelude.Dict.{Dict, lookup, insert, erase}
use e_sdk_k8s_plugin.Strconv.{Bytes, same_bytes}
use e_sdk_k8s_plugin.Backend.Model.{
  StoragePool, Backend, World, PluginCall, set_online, logout, update_metro_remote_plugin, set_pool,
  is_dtree_storage,
}

pub record ContentPool : Type 0 where
  pub name : String
  pub capacities : Dict Bytes

pub record ContentStatus : Type 0 where
  pub online : Bool
  pub capabilities : Dict Bool
  pub pools : List ContentPool

-- What the cache and the construction of backends read of a `StorageBackendContent`.
pub record Content : Type 0 where
  pub backend_claim : String
  pub configmap_meta : String
  pub secret_meta : String
  pub status : Option ContentStatus

abbrev pub same_flag : Bool → Bool → Bool
same_flag true b = b
same_flag false b = not b

-- One round: a key that is missing, or has another value, is set.
abbrev pub update_entry {ℓ} : {V : Type ℓ} → (V → V → Bool) → Dict V → String → V → Dict V
update_entry same m key val = elim (lookup key m) [
  | none ↦ insert key val m
  | some cur ↦ if not (same cur val) then insert key val m else m
]

pub update_entries {ℓ} : {V : Type ℓ} → (V → V → Bool) → Dict V → Dict V → Dict V
update_entries same m [] = m
update_entries same m ((key, val) ∷ entries) =
    update_entries same (update_entry same m key val) entries

unfoldable pub update_capacities : Dict Bytes → StoragePool → StoragePool
unfolding update_entries
update_capacities capacities p =
    if is_dtree_storage p.storage
    then p
    else record p { capacities = update_entries same_bytes p.capacities capacities }

unfoldable pub update_capabilities : Dict Bool → StoragePool → StoragePool
unfolding update_entries
update_capabilities capabilities p = record p {
  capabilities = update_entries same_flag p.capabilities capabilities;
}

-- The loop over the pools of the content.
pub update_named : List ContentPool → StoragePool → StoragePool
update_named [] p = p
update_named (pool ∷ rest) p =
    update_named rest (if p.name == pool.name then update_capacities pool.capacities p else p)

abbrev update_by_status : Option ContentStatus → StoragePool → StoragePool
update_by_status none p = p
update_by_status (some status) p =
    if is_empty status.pools
    then p
    else update_named status.pools (update_capabilities status.capabilities p)

unfoldable pub update_pool_by_sbct : Content → StoragePool → StoragePool
unfolding update_named
update_pool_by_sbct content p = update_by_status content.status p

-- `UpdatePools`: each pool of the backend, where it stands.
pub update_pools : Content → List ℕ → World → World
update_pools content [] w = w
update_pools content (p ∷ ps) w =
    update_pools content ps (set_pool w p (update_pool_by_sbct content (w.pool_at p)))

unfoldable pub set_available : Bool → Backend → World → Backend × World
set_available available b w = (
  record b { available = available },
  record w { calls = w.calls ++ set_online b.plugin available ∷ [] },
)

unfoldable pub need_rebuild : Backend → String → Bool
need_rebuild b content_name = not (b.content_name == content_name)

unfoldable pub store : String → Backend → World → World
store name b w = record w { cache = insert name b w.cache }

unfoldable pub load : String → World → Option Backend
load name w = lookup name w.cache

-- `Logout` is called on a plugin that is not nil.
abbrev pub log_out : Option Backend → List PluginCall
log_out none = []
log_out (some b) = if eqb b.plugin 0 then [] else logout b.plugin ∷ []

unfoldable pub delete : String → World → World
delete name w = record w {
  calls = w.calls ++ log_out (lookup name w.cache);
  cache = erase name w.cache;
}

abbrev pub values : Dict Backend → List Backend
values [] = []
values ((name, b) ∷ rest) = b ∷ values rest

pub log_out_all : List Backend → List PluginCall
log_out_all [] = []
log_out_all (b ∷ bs) = log_out (some b) ++ log_out_all bs

unfoldable pub clear : World → World
unfolding log_out_all
clear w = record w { calls = w.calls ++ log_out_all (values w.cache); cache = [] }

unfoldable pub list : World → List Backend
list w = values w.cache

unfoldable pub count : World → ℕ
count w = length w.cache

-- The condition of the inner loop of `UpdateCacheBackendMetro`.
unfoldable pub is_metro_pair : Backend → Backend → Bool
is_metro_pair i j =
    not (i.name == j.name || not (i.storage == j.storage))
    && ((not (i.metro_domain == "") && i.metro_domain == j.metro_domain)
        || (not (i.metro_vstore_pair_id == "") && i.metro_vstore_pair_id == j.metro_vstore_pair_id))
    && (i.metro_backend_name == j.name && j.metro_backend_name == i.name)

unfoldable pub waits_for_metro : Backend → Bool
waits_for_metro i =
    not ((i.metro_domain == "" && i.metro_vstore_pair_id == "") || is_some i.metro_backend)

-- The variable `i` stands at `at`, and the variable `j` of the round at the next address.
unfoldable pub pair_metro : ℕ → Backend → World → World
pair_metro at j w =
    let i = record (w.backend_at at) { metro_backend = some w.next_backend } in
    let j' = record j { metro_backend = some at } in
    record w {
      backend_at = λ a. if eqb a at then i else if eqb a w.next_backend then j' else w.backend_at a;
      next_backend = suc w.next_backend;
      cache = insert j'.name j' (insert i.name i w.cache);
      calls =
          w.calls
          ++ update_metro_remote_plugin i.plugin j'.plugin
            ∷ update_metro_remote_plugin j'.plugin i.plugin
            ∷ [];
    }

pub metro_inner : ℕ → List Backend → World → World
metro_inner at [] w = w
metro_inner at (j ∷ js) w =
    metro_inner at js (if is_metro_pair (w.backend_at at) j then pair_metro at j w else w)

-- The variable `i` of a round of the outer loop.
unfoldable pub allocate : Backend → World → World
allocate i w = record w {
  backend_at = λ a. if eqb a w.next_backend then i else w.backend_at a;
  next_backend = suc w.next_backend;
}

pub metro_outer : List Backend → List Backend → World → World
metro_outer backends [] w = w
metro_outer backends (i ∷ is) w =
    metro_outer backends is
      (if waits_for_metro i then metro_inner w.next_backend backends (allocate i w) else w)

unfoldable pub update_cache_backend_metro : World → World
update_cache_backend_metro w = metro_outer (list w) (list w) w

-- `updateCacheBackend`.
unfoldable pub refresh_backend : Backend → Content → World → World
refresh_backend b content w =
    let (b', w') = set_available true b (update_pools content b.pools w) in
    update_cache_backend_metro (store b'.name b' w')

abbrev refresh_loaded : Option Backend → Content → World → World
refresh_loaded none content w = w
refresh_loaded (some b) content w = if is_empty b.pools then w else refresh_backend b content w

unfoldable pub update_cache_backend : String → Content → World → World
update_cache_backend name content w = refresh_loaded (load name w) content w

abbrev set_status : Option Backend → Bool → World → World
set_status none online w = w
set_status (some b) online w = let (b', w') = set_available online b w in store b'.name b' w'

unfoldable pub update_cache_backend_status : String → Bool → World → World
update_cache_backend_status name online w = set_status (load name w) online w

unfoldable pub load_cache_backend_topologies : String → World → List (Dict String)
load_cache_backend_topologies name w = elim (load name w) [
  | none ↦ []
  | some b ↦ b.supported_topologies
]
