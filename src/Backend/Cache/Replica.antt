-- ===== src/Backend/Cache/Replica.antt =====
-- The replica partner of the cached backends: no operation of the cache sets one.
use e_sdk_k8s_plugin.Prelude.{
  ℕ, Bool, true, none, some, List, [], ◌∷◌, String, ◌==◌, eqb_iff, All, ◌≡◌, refl, ap, subst, sym,
  ◌∙◌, Bool-cases, Option-cases, inl, inr, is_empty,
}
use e_sdk_k8s_plugin.Prelude.Dict.{Dict, lookup, insert, erase}
use e_sdk_k8s_plugin.Backend.Model.{Backend, World, set_pool}
use e_sdk_k8s_plugin.Backend.Cache.{
  Content, values, list, store, delete, clear, load, set_available, update_pools,
  update_pool_by_sbct, is_metro_pair, waits_for_metro, pair_metro, metro_inner, allocate,
  metro_outer, update_cache_backend_metro, refresh_backend, update_cache_backend,
  update_cache_backend_status,
}
use e_sdk_k8s_plugin.Backend.Cache.Steps.{CacheStep}

abbrev pub HasNoReplica : Backend → Type 0
HasNoReplica b = b.replica_backend ≡ none

-- No cached backend has a replica partner.
abbrev pub NoReplicas : World → Type 0
NoReplicas w = All HasNoReplica (values w.cache)

values-insert :
    (k : String) (b : Backend) (d : Dict Backend)
    → HasNoReplica b
    → All HasNoReplica (values d)
    → All HasNoReplica (values (insert k b d))
unfolding insert
values-insert k b [] n h = (n, tt)
values-insert k b ((j, x) ∷ d) n h = elim (Bool-cases (j == k)) [
  | inl e ↦ rw e (n, h.1)
  | inr e ↦ rw e (h.0, values-insert k b d n h.1)
]

values-erase :
    (k : String) (d : Dict Backend)
    → All HasNoReplica (values d)
    → All HasNoReplica (values (erase k d))
unfolding erase
values-erase k [] h = tt
values-erase k ((j, x) ∷ d) h = elim (Bool-cases (j == k)) [
  | inl e ↦ rw e (values-erase k d h.1)
  | inr e ↦ rw e (h.0, values-erase k d h.1)
]

same_backend : {a b : Backend} → some a ≡ some b → b ≡ a
same_backend e = cc

pub lookup-HasNoReplica :
    (k : String) (d : Dict Backend) (b : Backend)
    → All HasNoReplica (values d)
    → lookup k d ≡ some b
    → HasNoReplica b
unfolding lookup
lookup-HasNoReplica k [] b h e = absurd (cc e)
lookup-HasNoReplica k ((j, x) ∷ d) b h e = elim (Bool-cases (j == k)) [
  | inl t ↦ ap (λ y. y.replica_backend) (same_backend (rw t at e)) ∙ h.0
  | inr f ↦ lookup-HasNoReplica k d b h.1 (rw f at e)
]

pair_metro-NoReplicas :
    (at : ℕ) (j : Backend) (w : World)
    → HasNoReplica j
    → HasNoReplica (w.backend_at at)
    → NoReplicas w
    → NoReplicas (pair_metro at j w) × HasNoReplica ((pair_metro at j w).backend_at at)
unfolding pair_metro
pair_metro-NoReplicas at j w n i h =
    (values-insert _ _ _ n (values-insert _ _ _ i h), rw ((eqb_iff at at).1 refl) i)

metro_inner-NoReplicas :
    (at : ℕ) (js : List Backend) (w : World)
    → All HasNoReplica js
    → HasNoReplica (w.backend_at at)
    → NoReplicas w
    → NoReplicas (metro_inner at js w)
unfolding metro_inner
metro_inner-NoReplicas at [] w n i h = h
metro_inner-NoReplicas at (j ∷ js) w n i h = elim (Bool-cases (is_metro_pair (w.backend_at at) j)) [
  | inl t ↦
      let (kept, own) = pair_metro-NoReplicas at j w n.0 i h in
      rw (t, metro_inner) (metro_inner-NoReplicas at js (pair_metro at j w) n.1 own kept)
  | inr f ↦ rw (f, metro_inner) (metro_inner-NoReplicas at js w n.1 i h)
]

metro_outer-NoReplicas :
    (all is : List Backend) (w : World)
    → All HasNoReplica all
    → All HasNoReplica is
    → NoReplicas w
    → NoReplicas (metro_outer all is w)
unfolding metro_outer allocate
metro_outer-NoReplicas all [] w a n h = h
metro_outer-NoReplicas all (i ∷ is) w a n h = elim (Bool-cases (waits_for_metro i)) [
  | inl t ↦
      rw (t, metro_outer)
        (metro_outer-NoReplicas all is _ a n.1 (
          metro_inner-NoReplicas w.next_backend all (allocate i w) a
            (rw ((eqb_iff w.next_backend w.next_backend).1 refl) n.0) h))
  | inr f ↦ rw (f, metro_outer) (metro_outer-NoReplicas all is w a n.1 h)
]

update_pools-cache :
    (content : Content) (ps : List ℕ) (w : World) → (update_pools content ps w).cache ≡ w.cache
unfolding update_pools
update_pools-cache content [] w = refl
update_pools-cache content (p ∷ ps) w =
    update_pools-cache content ps (set_pool w p (update_pool_by_sbct content (w.pool_at p)))

refresh_backend-NoReplicas :
    (b : Backend) (content : Content) (w : World)
    → HasNoReplica b
    → NoReplicas w
    → NoReplicas (refresh_backend b content w)
unfolding refresh_backend set_available store update_cache_backend_metro list
refresh_backend-NoReplicas b content w n h =
    let stored =
      values-insert b.name (record b { available = true }) _ n
        (subst (λ d. All HasNoReplica (values d)) (sym (update_pools-cache content b.pools w)) h) in
    metro_outer-NoReplicas _ _ _ stored stored stored

update_cache_backend-NoReplicas :
    (name : String) (content : Content) (w : World)
    → NoReplicas w
    → NoReplicas (update_cache_backend name content w)
unfolding update_cache_backend load
update_cache_backend-NoReplicas name content w h = elim (Option-cases (lookup name w.cache)) [
  | inl e ↦ rw (e, update_cache_backend) h
  | inr (b, e) ↦ elim (Bool-cases (is_empty b.pools)) [
    | inl t ↦ rw (e, t, update_cache_backend) h
    | inr f ↦
        rw (e, f, update_cache_backend)
          (refresh_backend-NoReplicas b content w (lookup-HasNoReplica name w.cache b h e) h)
  ]
]

update_cache_backend_status-NoReplicas :
    (name : String) (online : Bool) (w : World)
    → NoReplicas w
    → NoReplicas (update_cache_backend_status name online w)
unfolding update_cache_backend_status load set_available store
update_cache_backend_status-NoReplicas name online w h = elim (Option-cases (lookup name w.cache)) [
  | inl e ↦ rw (e, update_cache_backend_status) h
  | inr (b, e) ↦
      rw (e, update_cache_backend_status)
        (values-insert _ _ _ (lookup-HasNoReplica name w.cache b h e) h)
]

-- A backend that is added is as `NewBackend` makes it, without a replica partner.
abbrev pub AddsNew : (w w' : World) → CacheStep w w' → Type 0
AddsNew w _ (CacheStep.add_backend b content e) = HasNoReplica b
AddsNew w _ (CacheStep.build_pools pools next) = Unit
AddsNew w _ (CacheStep.update_backend name content) = Unit
AddsNew w _ (CacheStep.update_status name online) = Unit
AddsNew w _ (CacheStep.remove name) = Unit
AddsNew w _ CacheStep.remove_all = Unit

-- The states that an empty cache comes to when only new backends are added.
pub data Grown : World → Type 0 where
  empty_cache : (w : World) → w.cache ≡ [] → Grown w
  step : (w w' : World) (s : CacheStep w w') → AddsNew w w' s → Grown w → Grown w'

step-NoReplicas :
    (w w' : World) (s : CacheStep w w') → AddsNew w w' s → NoReplicas w → NoReplicas w'
unfolding delete clear
step-NoReplicas w _ (CacheStep.build_pools pools next) n h = h
step-NoReplicas w _ (CacheStep.add_backend b content e) n h =
    refresh_backend-NoReplicas b content w n h
step-NoReplicas w _ (CacheStep.update_backend name content) n h =
    update_cache_backend-NoReplicas name content w h
step-NoReplicas w _ (CacheStep.update_status name online) n h =
    update_cache_backend_status-NoReplicas name online w h
step-NoReplicas w _ (CacheStep.remove name) n h = values-erase name w.cache h
step-NoReplicas w _ CacheStep.remove_all n h = tt

pub Grown-NoReplicas : (w : World) → Grown w → NoReplicas w
Grown-NoReplicas w (empty_cache _ e) = subst (λ d. All HasNoReplica (values d)) (sym e) tt
Grown-NoReplicas w (step v _ s n r) = step-NoReplicas v w s n (Grown-NoReplicas v r)
