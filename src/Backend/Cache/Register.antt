-- ===== src/Backend/Cache/Register.antt =====
-- csi/backend/handler/backend_register.go, with the offline check of backend_fetcher.go. The API server and the
-- building of a backend from a content are parameters.
pub mod Consistency
use e_sdk_k8s_plugin.Prelude.{
  ℕ, Bool, true, false, not, ◌&&◌, ◌||◌, Option, none, some, List, [], ◌∷◌, String, ◌==◌,
  if◌then◌else◌,
}
use e_sdk_k8s_plugin.Prelude.Dict.{Dict, lookup, insert}
use e_sdk_k8s_plugin.Prelude.Result.{Result, ok, err}
use e_sdk_k8s_plugin.Backend.Model.{Backend, World}
use e_sdk_k8s_plugin.Backend.Cache.{
  Content, ContentStatus, load, delete, list, need_rebuild, refresh_backend, update_cache_backend,
}

-- What the registration asks of the outside: the name in a claim's key, the content of a backend, all
-- the contents, and a backend built from a content, which allocates its pools.
pub record Cluster (E : Type 0) : Type 0 where
  pub split_key : String → Result E String
  pub content_by_name : String → Result E Content
  pub all_contents : Result E (List Content)
  pub build : Content → World → World × Result E Backend
  pub offline : E

module _ {E : Type 0} (cluster : Cluster E) where
  -- A content without a status is not live; `FetchAllBackends` gives none.
  abbrev is_online : Option ContentStatus → Bool
  is_online none = false
  is_online (some status) = status.online

  -- `content.Status == nil || (checkOnline && !content.Status.Online)`
  abbrev is_refused : Bool → Option ContentStatus → Bool
  is_refused check_online none = true
  is_refused check_online (some status) = check_online && not status.online

  abbrev checked : Bool → Result E Content → Result E Content
  checked check_online (err e) = err e
  checked check_online (ok content) =
      if is_refused check_online content.status then err cluster.offline else ok content

  unfoldable pub fetch_backend_by_name : String → Bool → Result E Content
  fetch_backend_by_name name check_online = checked check_online (cluster.content_by_name name)

  abbrev add_built : Content → World × Result E Backend → World × Result E Backend
  add_built content (w, err e) = (w, err e)
  add_built content (w, ok b) = (refresh_backend b content w, ok b)

  unfoldable pub add_backend_to_cache : Content → World → World × Result E Backend
  add_backend_to_cache content w = add_built content (cluster.build content w)

  -- The backend that is returned is the one from before the update.
  unfoldable pub update_and_add_backend : Content → World → World × Result E Backend
  update_and_add_backend content w = elim (cluster.split_key content.backend_claim) [
    | err e ↦ (w, err e)
    | ok name ↦ elim (load name w) [
      | some b ↦ (update_cache_backend name content w, ok b)
      | none ↦ add_backend_to_cache content w
    ]
  ]

  unfoldable pub fetch_and_register_one_backend : String → Bool → World → World × Result E Backend
  fetch_and_register_one_backend name check_online w =
      elim (fetch_backend_by_name name check_online) [
        | err e ↦ (w, err e)
        | ok content ↦ update_and_add_backend content w
      ]

  unfoldable pub load_or_register_one_backend : String → World → World × Result E Backend
  load_or_register_one_backend name w = elim (load name w) [
    | some b ↦ (w, ok b)
    | none ↦ fetch_and_register_one_backend name true w
  ]

  -- A backend that is not cached is compared as the zero value, whose content name is empty.
  unfoldable pub load_or_rebuild_one_backend : String → String → World → World × Result E Backend
  load_or_rebuild_one_backend name content_name w = elim (load name w) [
    | some b ↦
        if not (need_rebuild b content_name)
        then (w, ok b)
        else fetch_and_register_one_backend name true (delete name w)
    | none ↦
        fetch_and_register_one_backend name true
          (if not ("" == content_name) then delete name w else w)
  ]

  -- The error of the last content that was tried.
  pub register_loop : List Content → Option E → World → World × Option E
  register_loop [] last w = (w, last)
  register_loop (content ∷ rest) last w =
      let after = update_and_add_backend content w in
      let tried = is_online content.status in
      register_loop rest (if tried then elim after.1 [ ok b ↦ none | err e ↦ some e ] else last)
        (if tried then after.0 else w)

  unfoldable pub update_or_register_online_backend : List Content → World → World × Option E
  update_or_register_online_backend contents w = register_loop contents none w

  -- The map from names to contents; a content whose claim has no name is skipped.
  pub exist_backends : List Content → Dict Content → Dict Content
  exist_backends [] m = m
  exist_backends (content ∷ rest) m =
      exist_backends rest (elim (cluster.split_key content.backend_claim) [
        | err e ↦ m
        | ok name ↦ insert name content m
      ])

  abbrev pub is_live : Dict Content → String → Bool
  is_live m name = elim (lookup name m) [ none ↦ false | some content ↦ is_online content.status ]

  -- The loop over the backends that the cache listed.
  pub consistency_loop : Dict Content → List Backend → World → World
  consistency_loop m [] w = w
  consistency_loop m (b ∷ bs) w =
      consistency_loop m bs (if not (is_live m b.name) then delete b.name w else w)

  unfoldable pub check_consistency : List Content → World → World
  unfolding exist_backends consistency_loop
  check_consistency contents w = consistency_loop (exist_backends contents []) (list w) w

  unfoldable pub fetch_and_register_all_backend : World → World
  fetch_and_register_all_backend w = elim cluster.all_contents [
    | err e ↦ w
    | ok contents ↦
        let after = update_or_register_online_backend contents w in
        elim after.1 [ some e ↦ after.0 | none ↦ check_consistency contents after.0 ]
  ]

  unfoldable pub remove_registered_one_backend : String → World → World
  remove_registered_one_backend name w = delete name w

  unfoldable pub update_or_register_one_backend : Content → World → World × Option E
  update_or_register_one_backend content w =
      let after = update_and_add_backend content w in
      (after.0, elim after.1 [ ok b ↦ none | err e ↦ some e ])
