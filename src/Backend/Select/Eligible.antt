-- ===== src/Backend/Select/Eligible.antt =====
-- Which pools the filters of one selection leave.
use mathlib.Core.List.{Permᴰ}
use mathlib.Core.List.Permᴰ
use e_sdk_k8s_plugin.Prelude.{
  ℕ, Bool, true, false, ◌&&◌, ◌||◌, Option, none, some, List, [], ◌∷◌, String, ◌≡◌, refl, ap, sym,
  subst, ◌∙◌, arith, keep, keep-true, keep-keep, is_empty, In, head, tail, Bool-cases, inl, inr,
}
use e_sdk_k8s_plugin.Prelude.Int.{ℤ}
use e_sdk_k8s_plugin.Prelude.Dict.{lookup}
use e_sdk_k8s_plugin.Prelude.Result.{ok, >>=-eq-ok}
use e_sdk_k8s_plugin.Backend.Model.{Value, accessible_topology, Parameters, World, Env, text_param}
use e_sdk_k8s_plugin.Backend.Filter.{Filter, filter_by_capability}
use e_sdk_k8s_plugin.Backend.Filter.Tested.{Test, Tested, primary_tests, primary_Tested}
use e_sdk_k8s_plugin.Backend.Filter.Chain.{passes, chain_iff, is_empty-keep-keep}
use e_sdk_k8s_plugin.Backend.Topology.{
  pool_fits, filter_by_topology, filter_pools_on_topology, sort_pools_by_preferred_topologies,
}
use e_sdk_k8s_plugin.Backend.Topology.Order.{IsShuffle, filter_by_topology-IsSortedBy}
use e_sdk_k8s_plugin.Backend.Capacity.{has_capacity, filter_by_capacity}
use e_sdk_k8s_plugin.Backend.Select.{filter_pool, load_cache_storage_pools, select_local_pool}

pub In-perm : (p : ℕ) (ps qs : List ℕ) → Permᴰ ps qs → In p ps → In p qs
In-perm p _ _ Permᴰ.nil m = m
In-perm p _ _ (Permᴰ.cons e r) (head d) = head (d ∙ e)
In-perm p _ _ (Permᴰ.cons {l₁ = xs} {l₂ = ys} e r) (tail m) = tail (In-perm p xs ys r m)
In-perm p _ _ (Permᴰ.swap e f) (head d) = tail (head (d ∙ e))
In-perm p _ _ (Permᴰ.swap e f) (tail (head d)) = head (d ∙ f)
In-perm p _ _ (Permᴰ.swap e f) (tail (tail m)) = tail (tail m)
In-perm p _ _ (Permᴰ.trans {l₁ = xs} {l₂ = ys} {l₃ = zs} r s) m =
    In-perm p ys zs s (In-perm p xs ys r m)

perm-keep : (t : ℕ → Bool) (ps qs : List ℕ) → Permᴰ ps qs → Permᴰ (keep t ps) (keep t qs)
perm-keep t _ _ Permᴰ.nil = Permᴰ.nil
perm-keep t _ _ (Permᴰ.cons {a = a} {b = b} {l₁ = xs} {l₂ = ys} e r) = elim (Bool-cases (t b)) [
  | inl h ↦ rw (e, h) (Permᴰ.cons refl (perm-keep t xs ys r))
  | inr h ↦ rw (e, h) (perm-keep t xs ys r)
]
perm-keep t _ _ (Permᴰ.swap {a = a} {b = b} {a' = a'} {b' = b'} {l = l} e f) =
    rw (e, f) (keep_swap t b' a' l)
  where
    keep_swap :
        (t : ℕ → Bool) (a b : ℕ) (l : List ℕ) → Permᴰ (keep t (a ∷ b ∷ l)) (keep t (b ∷ a ∷ l))
    keep_swap t a b l = elim (Bool-cases (t a)) [
      | inl h ↦ elim (Bool-cases (t b)) [
        | inl k ↦ rw (h, k) (Permᴰ.swap refl refl)
        | inr k ↦ rw (h, k) (Permᴰ.refl _)
      ]
      | inr h ↦ elim (Bool-cases (t b)) [
        | inl k ↦ rw (h, k) (Permᴰ.refl _)
        | inr k ↦ rw (h, k) (Permᴰ.refl _)
      ]
    ]
perm-keep t _ _ (Permᴰ.trans {l₁ = xs} {l₂ = ys} {l₃ = zs} r s) =
    Permᴰ.trans (perm-keep t xs ys r) (perm-keep t ys zs s)

-- Whether the topology parameter lets a pool through.
abbrev pub topology_allows : World → Option Value → ℕ → Bool
topology_allows w none p = true
topology_allows w (some (accessible_topology requisite preferred)) p =
    is_empty requisite || pool_fits w requisite p
topology_allows w (some v) p = false

keep_all :
    (c : Bool) (t : ℕ → Bool) (ps qs : List ℕ)
    → c ≡ true
    → qs ≡ ps
    → Permᴰ qs (keep (λ p. c || t p) ps)
keep_all c t ps qs h e = rw (h, keep-true ps, e) (Permᴰ.refl ps)

keep_not :
    (c : Bool) (t : ℕ → Bool) (ps qs : List ℕ)
    → c ≡ false
    → Permᴰ qs (keep t ps)
    → Permᴰ qs (keep (λ p. c || t p) ps)
keep_not c t ps qs h r = rw h r

none_kept : {B : Type 0} (ps : List ℕ) → is_empty (keep (λ p. false) ps) ≡ false → B
none_kept [] h = cc
none_kept (p ∷ ps) h = none_kept ps h

is_empty-of-keep : (t : ℕ → Bool) (ps : List ℕ) → is_empty (keep t ps) ≡ false → is_empty ps ≡ false
is_empty-of-keep t [] h = h
is_empty-of-keep t (p ∷ ps) h = refl

module _ (env : Env) (shuffles : IsShuffle env) (w : World) (parameters : Parameters) where
  topology_perm :
      (call : ℕ) (ps qs : List ℕ) (v : Option Value)
      → lookup "topology" parameters ≡ v
      → filter_by_topology env w call parameters ps ≡ ok qs
      → Permᴰ qs (keep (topology_allows w v) ps)
  unfolding filter_by_topology
  topology_perm call ps qs none e h = keep_all true (λ p. true) ps qs refl (ground arith)
  topology_perm call ps qs (some (accessible_topology requisite preferred)) e h =
      elim (Bool-cases (is_empty requisite)) [
        | inl t ↦ keep_all (is_empty requisite) (pool_fits w requisite) ps qs t (ground arith)
        | inr n ↦
            keep_not (is_empty requisite) (pool_fits w requisite) ps qs n
              (filter_by_topology-IsSortedBy env shuffles w call parameters requisite preferred ps
                qs e n h).0
      ]
  topology_perm call ps qs (some (Value.text s)) e h = ground arith
  topology_perm call ps qs (some (Value.flag s)) e h = ground arith
  topology_perm call ps qs (some (Value.number s b)) e h = ground arith
  topology_perm call ps qs (some (Value.array s)) e h = ground arith
  topology_perm call ps qs (some (Value.object s)) e h = ground arith

  some_fit :
      (c : Bool) (t : ℕ → Bool) (ps : List ℕ)
      → c ≡ false
      → is_empty (keep (λ p. c || t p) ps) ≡ false
      → is_empty (keep t ps) ≡ false
  some_fit c t ps e h = rw e at h

  -- What the topology filter leaves is not empty where it gets a pool that is let through.
  topology_total :
      (call : ℕ) (ps : List ℕ) (v : Option Value)
      → lookup "topology" parameters ≡ v
      → is_empty (keep (topology_allows w v) ps) ≡ false
      → (qs : List ℕ) × (filter_by_topology env w call parameters ps ≡ ok qs)
  unfolding filter_by_topology filter_pools_on_topology
  topology_total call ps none e h = (ps, ground arith)
  topology_total call ps (some (accessible_topology requisite preferred)) e h =
      elim (Bool-cases (is_empty requisite)) [
        | inl t ↦ (ps, ground arith)
        | inr n ↦ (
          sort_pools_by_preferred_topologies env w call (keep (pool_fits w requisite) ps) preferred,
          ground (arith, n, some_fit (is_empty requisite) (pool_fits w requisite) ps n h),
        )
      ]
  topology_total call ps (some (Value.text s)) e h = none_kept ps h
  topology_total call ps (some (Value.flag s)) e h = none_kept ps h
  topology_total call ps (some (Value.number s b)) e h = none_kept ps h
  topology_total call ps (some (Value.array s)) e h = none_kept ps h
  topology_total call ps (some (Value.object s)) e h = none_kept ps h

  module _ (request_size : ℤ) where
    -- A pool passes every test of the parameters, the topology and the capacity.
    abbrev pub eligible : List (String × Test) → ℕ → Bool
    eligible ts p =
        passes parameters ts p
        && (topology_allows w (lookup "topology" parameters) p
            && has_capacity request_size (text_param parameters "allocType") (w.pool_at p))

    pub filter_pool-Perm :
        (call : ℕ) (ps qs : List ℕ) (fs : List (String × Filter)) (ts : List (String × Test))
        → Tested fs ts
        → is_empty ps ≡ false
        → filter_pool env w request_size parameters call ps fs ≡ ok qs
        → Permᴰ qs (keep (eligible ts) ps)
    unfolding filter_pool filter_by_capacity
    filter_pool-Perm call ps qs fs ts r n h =
        let a = passes parameters ts in
        let b = topology_allows w (lookup "topology" parameters) in
        let c : ℕ → Bool =
          λ p. has_capacity request_size (text_param parameters "allocType") (w.pool_at p) in
        let (capable, e1, h1) = >>=-eq-ok (filter_by_capability parameters ps fs) _ h in
        let (reachable, e2, h2) =
          >>=-eq-ok (filter_by_topology env w call parameters capable) _ h1 in
        let kept = ((chain_iff parameters ps capable fs ts r n).0 e1).0 in
        let q : qs ≡ keep c reachable = cc in
        subst (λ zs. Permᴰ zs (keep (eligible ts) ps)) (sym q)
          (subst (λ zs. Permᴰ (keep c reachable) zs)
            (ap (λ zs. keep c (keep b zs)) kept
              ∙ keep-keep b c (keep a ps)
              ∙ keep-keep a (λ p. b p && c p) ps)
            (perm-keep c reachable (keep b capable)
              (topology_perm call capable reachable (lookup "topology" parameters) refl e2)))

    pub filter_pool_total :
        (call : ℕ) (ps : List ℕ) (fs : List (String × Filter)) (ts : List (String × Test))
        → Tested fs ts
        → is_empty ps ≡ false
        → is_empty (keep (eligible ts) ps) ≡ false
        → (qs : List ℕ) × (filter_pool env w request_size parameters call ps fs ≡ ok qs)
    unfolding filter_pool filter_by_capacity
    filter_pool_total call ps fs ts r n h =
        let a = passes parameters ts in
        let b = topology_allows w (lookup "topology" parameters) in
        let c : ℕ → Bool =
          λ p. has_capacity request_size (text_param parameters "allocType") (w.pool_at p) in
        let h1 : is_empty (keep a ps) ≡ false = is_empty-keep-keep a (λ p. b p && c p) ps h in
        let e1 = (chain_iff parameters ps (keep a ps) fs ts r n).1 (refl, h1) in
        let h2 : is_empty (keep b (keep a ps)) ≡ false =
          is_empty-keep-keep b c (keep a ps) (ap is_empty (keep-keep a (λ p. b p && c p) ps) ∙ h) in
        let (reachable, e2) =
          topology_total call (keep a ps) (lookup "topology" parameters) refl h2 in
        (keep c reachable, rw (e1, e2))

    -- If the selection of local pools succeeds, the pools that it leaves are, up to their order, those of
    -- the available backends of the cache that pass every primary filter and the topology and have
    -- the capacity.
    pub select_local_pool-Perm :
        (call : ℕ) (qs : List ℕ)
        → select_local_pool env w request_size parameters call ≡ ok qs
        → Permᴰ qs (keep (eligible (primary_tests env w)) (load_cache_storage_pools w))
    unfolding select_local_pool
    select_local_pool-Perm call qs h = elim (Bool-cases (is_empty (load_cache_storage_pools w))) [
      | inl e ↦ ground arith
      | inr n ↦
          filter_pool-Perm call (load_cache_storage_pools w) qs _ _ (primary_Tested env w) n
            (ground arith)
    ]

    -- If some pool of an available backend passes every primary filter and the topology and has the
    -- capacity, the selection of local pools does not fail.
    pub select_local_pool_total :
        (call : ℕ)
        → is_empty (keep (eligible (primary_tests env w)) (load_cache_storage_pools w)) ≡ false
        → (qs : List ℕ) × (select_local_pool env w request_size parameters call ≡ ok qs)
    unfolding select_local_pool
    select_local_pool_total call h =
        let n = is_empty-of-keep (eligible (primary_tests env w)) (load_cache_storage_pools w) h in
        let (qs, e) =
          filter_pool_total call (load_cache_storage_pools w) _ _ (primary_Tested env w) n h in
        (qs, rw n e)
