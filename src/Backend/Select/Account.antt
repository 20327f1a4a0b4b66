-- ===== src/Backend/Select/Account.antt =====
-- What a selection of a pair takes from the free capacities.
use e_sdk_k8s_plugin.Prelude.{
  ℕ, Bool, true, not, ◌&&◌, Option, none, some, List, String, ◌==◌, ◌≡◌, ◌≢◌, refl, ap, sym, subst,
  ◌∙◌, arith, keep, is_empty, In, In-keep, Bool-cases, inl, inr,
}
use e_sdk_k8s_plugin.Prelude.Int.{ℤ, pos, ◌-ℤ◌, ◌≤ℤ◌}
use e_sdk_k8s_plugin.Prelude.Result.{Result, ok, err, >>=-eq-ok}
use e_sdk_k8s_plugin.Backend.Model.{
  Parameters, StoragePool, World, Env, SelectError, SelectPoolPair, text_param,
}
use e_sdk_k8s_plugin.Backend.Filter.Tested.{primary_tests}
use e_sdk_k8s_plugin.Backend.Topology.Order.{IsShuffle}
use e_sdk_k8s_plugin.Backend.Capacity.{update_select_pool, has_capacity, free_capacity}
use e_sdk_k8s_plugin.Backend.Capacity.Weight.{free}
use e_sdk_k8s_plugin.Backend.Capacity.Account.{update_select_pool_thick, update_other}
use e_sdk_k8s_plugin.Backend.Select.{
  select_local_pool, select_dtree_pool, candidate_pools, select_pool_pair, load_cache_storage_pools,
}
use e_sdk_k8s_plugin.Backend.Select.Eligible.{eligible, select_local_pool-Perm, In-perm}
use e_sdk_k8s_plugin.Backend.Select.Pair.{IsFirstMax-In, select_pool_pair-IsFirstMax}

-- A thick pool that has the capacity has that much free.
thick_capacity-le :
    (request_size : ℤ) (pool : StoragePool)
    → has_capacity request_size "thick" pool ≡ true
    → request_size ≤ℤ free_capacity pool
unfolding has_capacity
thick_capacity-le request_size pool h = ground arith

has_capacity-le :
    (request_size : ℤ) (alloc_type : String) (pool : StoragePool)
    → alloc_type ≡ "thick"
    → has_capacity request_size alloc_type pool ≡ true
    → request_size ≤ℤ free_capacity pool
has_capacity-le request_size alloc_type pool e h =
    thick_capacity-le request_size pool (subst (λ s. has_capacity request_size s pool ≡ true) e h)

and_last : (a b c : Bool) → (a && (b && c)) ≡ true → c ≡ true
and_last a b c h = ground arith

ok-ps : {a b : List ℕ} → ◌≡◌ {A = Result SelectError (List ℕ)} (ok a) (ok b) → b ≡ a
ok-ps h = cc

err_ps :
    {B : Type 0} {x : SelectError} {b : List ℕ}
    → ◌≡◌ {A = Result SelectError (List ℕ)} (err x) (ok b)
    → B
err_ps h = cc

-- The pools left for dtree volumes are pools of the list.
In-select_dtree_pool :
    (env : Env) (w : World) (request_size : ℤ) (parameters : Parameters) (p : ℕ) (ps qs : List ℕ)
    → select_dtree_pool env w request_size parameters ps ≡ ok qs
    → In p qs
    → In p ps
unfolding select_dtree_pool
In-select_dtree_pool env w request_size parameters p ps qs h m =
    elim (Bool-cases (not (text_param parameters "volumeType" == "dtree"))) [
      | inl e ↦ subst (λ zs. In p zs) (ok-ps (rw e at h)) m
      | inr e ↦ elim (Bool-cases (not (text_param parameters "parentname" == ""))) [
        | inl e1 ↦ subst (λ zs. In p zs) (ok-ps (rw (e, e1) at h)) m
        | inr e1 ↦
            let kept = keep (λ q. not (env.dtree_parent_name (w.pool_at q).plugin == "")) ps in
            elim (Bool-cases (is_empty kept)) [
              | inl e2 ↦ err_ps (rw (e, e1, e2) at h)
              | inr e2 ↦
                  (In-keep (λ q. not (env.dtree_parent_name (w.pool_at q).plugin == "")) p ps
                    (subst (λ zs. In p zs) (ok-ps (rw (e, e1, e2) at h)) m)).0
            ]
      ]
    ]

module _ (env : Env) (shuffles : IsShuffle env) (w : World) (request_size : ℤ)
    (parameters : Parameters) where
  -- The local pool of a selection that succeeds belongs to an available backend of the cache, passes every
  -- primary filter and the topology, and has the capacity.
  pub select_pool_pair-eligible :
      (w' : World) (pair : SelectPoolPair)
      → select_pool_pair env w request_size parameters ≡ (w', ok pair)
      → In pair.local (load_cache_storage_pools w)
        × (eligible env shuffles w parameters request_size (primary_tests env w) pair.local ≡ true)
  unfolding candidate_pools
  select_pool_pair-eligible w' pair h =
      let (ps, e, m, r, u) = select_pool_pair-IsFirstMax env w request_size parameters w' pair h in
      let (qs, e1, e2) = >>=-eq-ok (select_local_pool env w request_size parameters 0) _ e in
      In-keep (eligible env shuffles w parameters request_size (primary_tests env w)) pair.local
        (load_cache_storage_pools w)
        (In-perm pair.local qs _
          (select_local_pool-Perm env shuffles w parameters request_size 0 qs e1)
          (In-select_dtree_pool env w request_size parameters pair.local qs ps e2
            (IsFirstMax-In w pair.local ps m)))

  -- Placing the remote pool leaves the other pools alone.
  remote_other :
      (o : Option ℕ) (q : ℕ) (v : World)
      → o ≢ some q
      → (update_select_pool request_size parameters o v).pool_at q ≡ v.pool_at q
  unfolding update_select_pool
  remote_other none q v ne = refl
  remote_other (some r) q v ne =
      update_other request_size parameters r q v (λ e. ne (ap some (sym e)))

  -- Selecting for a thick volume, of a size that is at least 0, a pair whose remote pool is not its local
  -- one lowers the free capacity of the local pool by exactly the size, never below 0, and leaves the
  -- pools that are not of the pair alone.
  pub select_pool_pair_thick :
      (w' : World) (pair : SelectPoolPair)
      → text_param parameters "allocType" ≡ "thick"
      → pos 0 ≤ℤ request_size
      → select_pool_pair env w request_size parameters ≡ (w', ok pair)
      → pair.remote ≢ some pair.local
      → (free w' pair.local ≡ free w pair.local -ℤ request_size)
        × (pos 0 ≤ℤ free w' pair.local)
        × ((q : ℕ) → q ≢ pair.local → pair.remote ≢ some q → w'.pool_at q ≡ w.pool_at q)
  select_pool_pair_thick w' pair thick nonneg h apart =
      let (ps, e, m, r, u) = select_pool_pair-IsFirstMax env w request_size parameters w' pair h in
      let (i, t) = select_pool_pair-eligible w' pair h in
      let le =
        has_capacity-le request_size (text_param parameters "allocType") (w.pool_at pair.local)
          thick (and_last _ _ _ t) in
      let v = update_select_pool request_size parameters (some pair.local) w in
      let (exact, more, others) =
        update_select_pool_thick request_size parameters pair.local w thick nonneg le in
      let same : free w' pair.local ≡ free v pair.local =
        ap (λ z. free z pair.local) u
        ∙ ap free_capacity (remote_other pair.remote pair.local v apart) in
      (
        same ∙ exact,
        subst (λ z. pos 0 ≤ℤ z) (sym same) more,
        λ q ne nr. ap (λ z. z.pool_at q) u ∙ remote_other pair.remote q v nr ∙ others q ne,
      )
