-- ===== src/Backend/Cache/Steps.antt =====
-- What every operation of the cache keeps.
use e_sdk_k8s_plugin.Prelude.{
  ℕ, ◌<◌, Bool, true, none, some, List, [], ◌∷◌, String, ◌⊎◌, ◌≡◌, refl, ap, sym, subst, ◌∙◌, arith,
  eq_iff, Bool-cases, Option-cases, inl, inr, is_empty,
}
use e_sdk_k8s_plugin.Prelude.Dict.{lookup, insert, erase, lookup-insert, lookup-erase}
use e_sdk_k8s_plugin.Backend.Model.{Backend, StoragePool, World, set_pool}
use e_sdk_k8s_plugin.Backend.Cache.{
  Content, store, delete, clear, load, set_available, update_pools, update_pool_by_sbct,
  refresh_backend, update_cache_backend, update_cache_backend_status,
}
use e_sdk_k8s_plugin.Backend.Cache.Metro.{
  IsPartner, IsConsistent, update_cache_backend_metro-IsConsistent,
}

IsPartner-same :
    (w w' : World) (b b' : Backend) (m : ℕ)
    → w'.backend_at ≡ w.backend_at
    → w'.next_backend ≡ w.next_backend
    → b'.name ≡ b.name
    → b'.metro_backend_name ≡ b.metro_backend_name
    → b'.storage ≡ b.storage
    → IsPartner w b m
    → IsPartner w' b' m
IsPartner-same w w' b b' m f g n o t p = record {
  allocated = subst (λ z. m < z) (sym g) p.allocated;
  forth = ap (λ h. (h m).name) f ∙ p.forth ∙ sym o;
  back = ap (λ h. (h m).metro_backend_name) f ∙ p.back ∙ sym n;
  storage = ap (λ h. (h m).storage) f ∙ p.storage ∙ sym t;
  apart = λ q. p.apart (sym (ap (λ h. (h m).name) f) ∙ q ∙ n);
}

-- Storing a backend under its name, where its metro backend is its partner or it has none.
store-IsConsistent :
    (b : Backend) (w : World)
    → ((m : ℕ) → b.metro_backend ≡ some m → IsPartner w b m)
    → IsConsistent w
    → IsConsistent (store b.name b w)
unfolding store
store-IsConsistent b w p c = record {
  keyed =
      λ k x e. elim (stored k x e) [ inl (q, r) ↦ ap (λ z. z.name) r ∙ q | inr f ↦ c.keyed k x f ];
  paired = λ k x m e g. elim (stored k x e) [
    | inl (q, r) ↦
        keep (subst (λ y. IsPartner w y m) (sym r) (p m (sym (ap (λ z. z.metro_backend) r) ∙ g)))
    | inr f ↦ keep (c.paired k x m f g)
  ];
}
  where
    stored :
        (k : String) (x : Backend)
        → lookup k (insert b.name b w.cache) ≡ some x
        → ((b.name ≡ k) × (x ≡ b)) ⊎ (lookup k w.cache ≡ some x)
    stored k x e = ground (arith, lookup-insert b.name k b w.cache, eq_iff b.name k)

    keep : {x : Backend} {m : ℕ} → IsPartner w x m → IsPartner (store b.name b w) x m
    keep {x} {m} p = IsPartner-same w _ x x m refl refl refl refl refl p

delete-IsConsistent : (name : String) (w : World) → IsConsistent w → IsConsistent (delete name w)
unfolding delete
delete-IsConsistent name w c = record {
  keyed = λ k x e. c.keyed k x (kept k x e);
  paired = λ k x m e g. keep (c.paired k x m (kept k x e) g);
}
  where
    kept :
        (k : String) (x : Backend)
        → lookup k (erase name w.cache) ≡ some x
        → lookup k w.cache ≡ some x
    kept k x e = ground (arith, lookup-erase name k w.cache)

    keep : {x : Backend} {m : ℕ} → IsPartner w x m → IsPartner (delete name w) x m
    keep {x} {m} p = IsPartner-same w _ x x m refl refl refl refl refl p

clear-IsConsistent : (w : World) → IsConsistent (clear w)
unfolding clear lookup
clear-IsConsistent w = record { keyed = λ k x e. cc; paired = λ k x m e g. absurd (cc) }

-- A change of what the consistency does not read.
same-IsConsistent :
    (w w' : World)
    → w'.cache ≡ w.cache
    → w'.backend_at ≡ w.backend_at
    → w'.next_backend ≡ w.next_backend
    → IsConsistent w
    → IsConsistent w'
same-IsConsistent w w' e f g c = record {
  keyed = λ k x l. c.keyed k x (ap (lookup k) (sym e) ∙ l);
  paired = λ k x m l q. keep (c.paired k x m (ap (lookup k) (sym e) ∙ l) q);
}
  where
    keep : {x : Backend} {m : ℕ} → IsPartner w x m → IsPartner w' x m
    keep {x} {m} p = IsPartner-same w w' x x m f g refl refl refl p

update_pools-IsConsistent :
    (content : Content) (ps : List ℕ) (w : World)
    → IsConsistent w
    → IsConsistent (update_pools content ps w)
unfolding update_pools
update_pools-IsConsistent content [] w c = c
update_pools-IsConsistent content (p ∷ ps) w c =
    update_pools-IsConsistent content ps (set_pool w p (update_pool_by_sbct content (w.pool_at p)))
      (same-IsConsistent w _ refl refl refl c)

update_pools-same :
    (content : Content) (ps : List ℕ) (w : World)
    → ((update_pools content ps w).backend_at ≡ w.backend_at)
      × ((update_pools content ps w).next_backend ≡ w.next_backend)
unfolding update_pools
update_pools-same content [] w = (refl, refl)
update_pools-same content (p ∷ ps) w =
    update_pools-same content ps (set_pool w p (update_pool_by_sbct content (w.pool_at p)))

-- Where the metro backend of a backend is its partner, or it has none, refreshing it keeps the cache
-- consistent.
refresh_backend-IsConsistent :
    (b : Backend) (content : Content) (w : World)
    → ((m : ℕ) → b.metro_backend ≡ some m → IsPartner w b m)
    → IsConsistent w
    → IsConsistent (refresh_backend b content w)
unfolding refresh_backend set_available
refresh_backend-IsConsistent b content w p c =
    let same = update_pools-same content b.pools w in
    update_cache_backend_metro-IsConsistent _ (
      store-IsConsistent (record b { available = true }) _
        (λ m e. IsPartner-same w _ b _ m same.0 same.1 refl refl refl (p m e))
        (same-IsConsistent (update_pools content b.pools w) _ refl refl refl
          (update_pools-IsConsistent content b.pools w c)))

loaded-IsPartner :
    (name : String) (b : Backend) (w : World)
    → load name w ≡ some b
    → IsConsistent w
    → (m : ℕ) → b.metro_backend ≡ some m
    → IsPartner w b m
unfolding load
loaded-IsPartner name b w l c m e = c.paired name b m l e

update_cache_backend-IsConsistent :
    (name : String) (content : Content) (w : World)
    → IsConsistent w
    → IsConsistent (update_cache_backend name content w)
unfolding update_cache_backend
update_cache_backend-IsConsistent name content w c = elim (Option-cases (load name w)) [
  | inl e ↦ rw (e, update_cache_backend) c
  | inr (b, e) ↦ elim (Bool-cases (is_empty b.pools)) [
    | inl n ↦ rw (e, n, update_cache_backend) c
    | inr n ↦
        rw (e, n, update_cache_backend)
          (refresh_backend-IsConsistent b content w (loaded-IsPartner name b w e c) c)
  ]
]

update_cache_backend_status-IsConsistent :
    (name : String) (online : Bool) (w : World)
    → IsConsistent w
    → IsConsistent (update_cache_backend_status name online w)
unfolding update_cache_backend_status
update_cache_backend_status-IsConsistent name online w c = elim (Option-cases (load name w)) [
  | inl e ↦ rw (e, update_cache_backend_status) c
  | inr (b, e) ↦
      rw (e, update_cache_backend_status)
        (unfold set_available in
          store-IsConsistent (record b { available = online }) _
            (λ m g.
              IsPartner-same w _ b _ m refl refl refl refl refl (loaded-IsPartner name b w e c m g))
            (same-IsConsistent w _ refl refl refl c))
]

-- The steps of the cache. A backend that was just built has no metro backend; building it writes
-- pools only.
pub data CacheStep (w : World) : World → Type 0 where
  build_pools :
      (pools : ℕ → StoragePool) (next : ℕ)
      → CacheStep w (record w { pool_at = pools; next_pool = next })
  add_backend :
      (b : Backend) (content : Content)
      → b.metro_backend ≡ none
      → CacheStep w (refresh_backend b content w)
  update_backend :
      (name : String) (content : Content) → CacheStep w (update_cache_backend name content w)
  update_status :
      (name : String) (online : Bool) → CacheStep w (update_cache_backend_status name online w)
  remove : (name : String) → CacheStep w (delete name w)
  remove_all : CacheStep w (clear w)

-- The states that steps lead to from an empty cache.
pub data Reachable : World → Type 0 where
  empty_cache : (w : World) → w.cache ≡ [] → Reachable w
  step : (w w' : World) → Reachable w → CacheStep w w' → Reachable w'

step-IsConsistent : (w w' : World) → CacheStep w w' → IsConsistent w → IsConsistent w'
step-IsConsistent w _ (build_pools pools next) c = same-IsConsistent w _ refl refl refl c
step-IsConsistent w _ (add_backend b content e) c =
    refresh_backend-IsConsistent b content w (λ m g. absurd (cc)) c
step-IsConsistent w _ (update_backend name content) c =
    update_cache_backend-IsConsistent name content w c
step-IsConsistent w _ (update_status name online) c =
    update_cache_backend_status-IsConsistent name online w c
step-IsConsistent w _ (remove name) c = delete-IsConsistent name w c
step-IsConsistent w _ remove_all c = clear-IsConsistent w

-- In every state that additions, updates, changes of status and removals of backends lead to from an empty
-- cache, each cached backend stands under its own name, and its metro backend, if it has one, is a
-- backend of the same storage and another name such that each of the two is configured with the
-- name of the other.
pub Reachable-IsConsistent : (w : World) → Reachable w → IsConsistent w
unfolding clear
Reachable-IsConsistent w (empty_cache _ e) =
    same-IsConsistent (clear w) w e refl refl (clear-IsConsistent w)
Reachable-IsConsistent w (step v _ r s) = step-IsConsistent v w s (Reachable-IsConsistent v r)
