-- ===== src/Backend/Topology/Order.antt =====
-- The pools that fit, in the order of the preferred topologies.
use mathlib.Core.List.{Permᴰ}
use mathlib.Core.List.Permᴰ
use e_sdk_k8s_plugin.Prelude.{
  ℕ, suc, ◌≤◌, Bool, true, false, some, List, [], ◌∷◌, ◌++◌, String, ◌≡◌, refl, ap, sym, subst, ◌∙◌,
  arith, keep, is_empty, All, append_assoc, if◌then◌else◌, Bool-cases, inl, inr,
}
use e_sdk_k8s_plugin.Prelude.Dict.{Dict, lookup}
use e_sdk_k8s_plugin.Prelude.Result.{ok}
use e_sdk_k8s_plugin.Backend.Model.{accessible_topology, Parameters, World, Env}
use e_sdk_k8s_plugin.Backend.Topology.{
  pool_fits, filter_pools_on_topology, in_bucket, is_cached, remains, sort_loop,
  sort_pools_by_preferred_topologies, filter_by_topology,
}

-- What `rand.Shuffle` documents: a shuffle is a permutation.
pub record IsShuffle (env : Env) : Type 0 where
  pub permutes : (call round : ℕ) (ps : List ℕ) → Permᴰ (env.shuffle call round ps) ps

pub All-perm {ℓ κ} :
    {A : Type ℓ} (P : A → Type κ) (xs ys : List A) → Permᴰ xs ys → All P xs → All P ys
All-perm P _ _ Permᴰ.nil h = tt
All-perm P _ _ (Permᴰ.cons {l₁ = xs} {l₂ = ys} e r) h = (subst P e h.0, All-perm P xs ys r h.1)
All-perm P _ _ (Permᴰ.swap e f) h = (subst P f h.1.0, (subst P e h.0, h.1.1))
All-perm P _ _ (Permᴰ.trans {l₁ = xs} {l₂ = ys} {l₃ = zs} r s) h =
    All-perm P ys zs s (All-perm P xs ys r h)

All-keep :
    {P : ℕ → Type 0} (t : ℕ → Bool) (ps : List ℕ) → ((p : ℕ) → t p ≡ true → P p) → All P (keep t ps)
All-keep t [] h = tt
All-keep {P} t (p ∷ ps) h = elim (Bool-cases (t p)) [
  | inl e ↦ rw e (h p e, All-keep t ps h)
  | inr e ↦ rw e (All-keep t ps h)
]

-- Sorted by a measure.
abbrev pub IsSortedBy : (ℕ → ℕ) → List ℕ → Type 0
IsSortedBy f [] = Unit
IsSortedBy f (p ∷ ps) = All (λ q. f p ≤ f q) ps × IsSortedBy f ps

All-zero_le : (f : ℕ → ℕ) (n : ℕ) (ps : List ℕ) → n ≡ 0 → All (λ q. n ≤ f q) ps
All-zero_le f n [] h = tt
All-zero_le f n (p ∷ ps) h = (omega arith, All-zero_le f n ps h)

IsSortedBy-append :
    (f : ℕ → ℕ) (ps qs : List ℕ) → All (λ p. f p ≡ 0) ps → IsSortedBy f qs → IsSortedBy f (ps ++ qs)
IsSortedBy-append f [] qs z s = s
IsSortedBy-append f (p ∷ ps) qs z s =
    (All-zero_le f (f p) (ps ++ qs) z.0, IsSortedBy-append f ps qs z.1 s)

All-const : (ps : List ℕ) → All (λ q. 0 ≤ 0) ps
All-const [] = tt
All-const (p ∷ ps) = (omega arith, All-const ps)

IsSortedBy-const : (ps : List ℕ) → IsSortedBy (λ p. 0) ps
IsSortedBy-const [] = tt
IsSortedBy-const (p ∷ ps) = (All-const ps, IsSortedBy-const ps)

append_perm : (ps ps' qs qs' : List ℕ) → Permᴰ ps ps' → Permᴰ qs qs' → Permᴰ (ps ++ qs) (ps' ++ qs')
append_perm ps ps' qs qs' r s = Permᴰ.trans (Permᴰ.append_right qs r) (Permᴰ.append_left ps' s)

module _ (w : World) where
  -- The number of the first preferred topology that the backend of a pool supports.
  abbrev pub rank : List (Dict String) → ℕ → ℕ
  rank [] p = 0
  rank (preferred ∷ rest) p = if in_bucket w preferred p then 0 else suc (rank rest p)

  abbrev pub HasBackend : ℕ → Type 0
  HasBackend p = is_cached w (lookup (w.pool_at p).parent w.cache) ≡ true

  -- The bucket of a preferred topology and what remains are all the pools.
  bucket_perm :
      (t : Dict String) (ps : List ℕ)
      → All HasBackend ps
      → Permᴰ (keep (in_bucket w t) ps ++ keep (remains w t) ps) ps
  bucket_perm t [] h = Permᴰ.nil
  bucket_perm t (p ∷ ps) h = elim (Bool-cases (in_bucket w t p)) [
    | inl e ↦ rw (e, h.0) (Permᴰ.cons refl (bucket_perm t ps h.1))
    | inr e ↦
        rw (e, h.0)
          (Permᴰ.trans (Permᴰ.middle p (keep (in_bucket w t) ps) (keep (remains w t) ps))
            (Permᴰ.cons refl (bucket_perm t ps h.1)))
  ]

  rank_first :
      (t : Dict String) (ts : List (Dict String)) (ps : List ℕ)
      → All (λ p. rank (t ∷ ts) p ≡ 0) (keep (in_bucket w t) ps)
  rank_first t ts ps = All-keep (in_bucket w t) ps (λ p e. rw e)

  All-rank_le :
      (t : Dict String) (ts : List (Dict String)) (p : ℕ) (ps : List ℕ)
      → in_bucket w t p ≡ false
      → All (λ q. in_bucket w t q ≡ false) ps
      → All (λ q. rank ts p ≤ rank ts q) ps
      → All (λ q. rank (t ∷ ts) p ≤ rank (t ∷ ts) q) ps
  All-rank_le t ts p [] e h s = tt
  All-rank_le t ts p (q ∷ ps) e h s =
      (rw (e, h.0) (omega (arith, s.0)), All-rank_le t ts p ps e h.1 s.1)

  -- Pools in no bucket of the first topology keep their order.
  IsSortedBy-rank_suc :
      (t : Dict String) (ts : List (Dict String)) (ps : List ℕ)
      → All (λ p. in_bucket w t p ≡ false) ps
      → IsSortedBy (rank ts) ps
      → IsSortedBy (rank (t ∷ ts)) ps
  IsSortedBy-rank_suc t ts [] h s = tt
  IsSortedBy-rank_suc t ts (p ∷ ps) h s =
      (All-rank_le t ts p ps h.0 h.1 s.0, IsSortedBy-rank_suc t ts ps h.1 s.1)

  remains-HasBackend : (t : Dict String) (p : ℕ) → remains w t p ≡ true → HasBackend p
  remains-HasBackend t p h = ground arith

  remains-not_in_bucket : (t : Dict String) (p : ℕ) → remains w t p ≡ true → in_bucket w t p ≡ false
  remains-not_in_bucket t p h = ground arith

module _ (env : Env) (shuffles : IsShuffle env) (w : World) (call : ℕ) where
  sort_loop_ordered :
      (ts : List (Dict String)) (round : ℕ) (ps ordered : List ℕ)
      → sort_loop env w call ts round ps ordered ≡ ordered ++ sort_loop env w call ts round ps []
  unfolding sort_loop
  sort_loop_ordered [] round ps ordered = refl
  sort_loop_ordered (t ∷ ts) round ps ordered =
      let first = env.shuffle call round (keep (in_bucket w t) ps) in
      let rest = keep (remains w t) ps in
      sort_loop_ordered ts (suc round) rest (ordered ++ first)
      ∙ append_assoc ordered first (sort_loop env w call ts (suc round) rest [])
      ∙ ap (λ zs. ordered ++ zs) (sym (sort_loop_ordered ts (suc round) rest first))

  sort_loop-perm :
      (ts : List (Dict String)) (round : ℕ) (ps : List ℕ)
      → All (HasBackend w) ps
      → Permᴰ (sort_loop env w call ts round ps []) ps
  unfolding sort_loop
  sort_loop-perm [] round ps h = shuffles.permutes call round ps
  sort_loop-perm (t ∷ ts) round ps h =
      let first = env.shuffle call round (keep (in_bucket w t) ps) in
      let bucket = keep (in_bucket w t) ps in
      let rest = keep (remains w t) ps in
      let sorted = sort_loop env w call ts (suc round) rest [] in
      rw (sort_loop_ordered ts (suc round) rest first) (
        Permᴰ.trans
          (append_perm first bucket sorted rest (shuffles.permutes call round bucket) (
            sort_loop-perm ts (suc round) rest
              (All-keep (remains w t) ps (remains-HasBackend w t))))
          (bucket_perm w t ps h))

  sort_loop-IsSortedBy :
      (ts : List (Dict String)) (round : ℕ) (ps : List ℕ)
      → All (HasBackend w) ps
      → IsSortedBy (rank w ts) (sort_loop env w call ts round ps [])
  unfolding sort_loop
  sort_loop-IsSortedBy [] round ps h = IsSortedBy-const (env.shuffle call round ps)
  sort_loop-IsSortedBy (t ∷ ts) round ps h =
      let first = env.shuffle call round (keep (in_bucket w t) ps) in
      let bucket = keep (in_bucket w t) ps in
      let rest = keep (remains w t) ps in
      let sorted = sort_loop env w call ts (suc round) rest [] in
      let cached = All-keep (remains w t) ps (remains-HasBackend w t) in
      rw (sort_loop_ordered ts (suc round) rest first) (
        IsSortedBy-append (rank w (t ∷ ts)) first sorted
          (All-perm _ bucket first (Permᴰ.symm (shuffles.permutes call round bucket))
            (rank_first w t ts ps))
          (IsSortedBy-rank_suc w t ts sorted
            (All-perm _ rest sorted (Permᴰ.symm (sort_loop-perm ts (suc round) rest cached))
              (All-keep (remains w t) ps (remains-not_in_bucket w t)))
            (sort_loop-IsSortedBy ts (suc round) rest cached)))

  by_topology_inv :
      (parameters : Parameters) (requisite preferred : List (Dict String)) (ps qs : List ℕ)
      → lookup "topology" parameters ≡ some (accessible_topology requisite preferred)
      → is_empty requisite ≡ false
      → filter_by_topology env w call parameters ps ≡ ok qs
      → qs ≡ sort_loop env w call preferred 0 (keep (pool_fits w requisite) ps) []
  unfolding filter_by_topology sort_pools_by_preferred_topologies filter_pools_on_topology
  by_topology_inv parameters requisite preferred ps qs e n h = ground arith

  pool_fits-HasBackend :
      (requisite : List (Dict String)) (p : ℕ) → pool_fits w requisite p ≡ true → HasBackend w p
  pool_fits-HasBackend requisite p h = ground arith

  -- Where the topology parameter asks for some topology and the filter succeeds, it leaves a permutation
  -- of the pools whose backend is cached and has no topologies or supports one of those asked for,
  -- sorted by the first preferred topology that their backend supports.
  pub filter_by_topology-IsSortedBy :
      (parameters : Parameters) (requisite preferred : List (Dict String)) (ps qs : List ℕ)
      → lookup "topology" parameters ≡ some (accessible_topology requisite preferred)
      → is_empty requisite ≡ false
      → filter_by_topology env w call parameters ps ≡ ok qs
      → Permᴰ qs (keep (pool_fits w requisite) ps) × IsSortedBy (rank w preferred) qs
  filter_by_topology-IsSortedBy parameters requisite preferred ps qs e n h =
      let eq = by_topology_inv parameters requisite preferred ps qs e n h in
      let cached = All-keep (pool_fits w requisite) ps (pool_fits-HasBackend requisite) in
      (
        subst (λ zs. Permᴰ zs (keep (pool_fits w requisite) ps)) (sym eq)
            (sort_loop-perm preferred 0 (keep (pool_fits w requisite) ps) cached),
        subst (IsSortedBy (rank w preferred)) (sym eq)
            (sort_loop-IsSortedBy preferred 0 (keep (pool_fits w requisite) ps) cached),
      )
