-- ===== src/Backend/Select/Remote.antt =====
-- The remote pool of a selection.
use mathlib.Core.List.{Permᴰ}
use e_sdk_k8s_plugin.Prelude.{
  ℕ, true, false, Option, none, some, List, [], ◌∷◌, String, ◌≡◌, refl, ap, subst, ◌∙◌, arith, keep,
  is_empty, Option-cases, inl, inr,
}
use e_sdk_k8s_plugin.Prelude.Int.{ℤ}
use e_sdk_k8s_plugin.Prelude.Dict.{lookup}
use e_sdk_k8s_plugin.Prelude.Result.{Result, ok, err, ◌>>=◌, >>=-eq-ok}
use e_sdk_k8s_plugin.Backend.Model.{Parameters, Backend, World, Env, SelectError}
use e_sdk_k8s_plugin.Backend.Filter.{
  filter_by_volume_type, filter_by_capability, secondary_filter_funcs,
}
use e_sdk_k8s_plugin.Backend.Filter.Tested.{secondary_tests, secondary_Tested}
use e_sdk_k8s_plugin.Backend.Topology.Order.{IsShuffle}
use e_sdk_k8s_plugin.Backend.Capacity.{weight_by_free_capacity, weight_single_pools}
use e_sdk_k8s_plugin.Backend.Capacity.Weight.{IsFirstMax, weight_by_free_capacity-IsFirstMax}
use e_sdk_k8s_plugin.Backend.Select.{
  asks, filter_pool, failed_remote, weigh_remote, metro_pools, select_remote_pool,
}
use e_sdk_k8s_plugin.Backend.Select.Eligible.{eligible, filter_pool-Perm}

-- The weighing of a list that is not empty takes its first maximum.
pub weight_single_pools-IsFirstMax :
    (w : World) (ps : List ℕ) (r : ℕ) → weight_single_pools w ps ≡ ok r → IsFirstMax w r ps
unfolding weight_single_pools
weight_single_pools-IsFirstMax w [] r h = unfold weight_by_free_capacity in cc
weight_single_pools-IsFirstMax w (p ∷ ps) r h =
    let (q, e, m) = weight_by_free_capacity-IsFirstMax w p ps in
    subst (λ z. IsFirstMax w z (p ∷ ps)) (ground (arith, e)) m

weigh_remote-IsFirstMax :
    (env : Env) (w : World) (request_size : ℤ) (parameters : Parameters) (ps : List ℕ) (r : ℕ)
    → weigh_remote env w request_size parameters ps ≡ ok (some r)
    → IsFirstMax w r ps
weigh_remote-IsFirstMax env w request_size parameters [] r h = cc
weigh_remote-IsFirstMax env w request_size parameters (p ∷ ps) r h =
    let (q, e, h') = >>=-eq-ok (weight_single_pools w (p ∷ ps)) _ h in
    weight_single_pools-IsFirstMax w (p ∷ ps) r (e ∙ ap ok (cc))

module _ (env : Env) (shuffles : IsShuffle env) (w : World) (request_size : ℤ)
    (parameters : Parameters) where
  -- Without candidates the secondary filters fail.
  some_candidates :
      (call : ℕ) (ps qs : List ℕ)
      → failed_remote
          (filter_pool env w request_size parameters call ps (secondary_filter_funcs env w))
        ≡ ok qs
      → is_empty ps ≡ false
  unfolding filter_pool filter_by_capability filter_by_volume_type
  some_candidates call [] qs h = cc
  some_candidates call (p ∷ ps) qs h = refl

  pub failed_remote-ok :
      (m : Result SelectError (List ℕ)) (qs : List ℕ) → failed_remote m ≡ ok qs → m ≡ ok qs
  failed_remote-ok (ok ps) qs h = h
  failed_remote-ok (err e) qs h = cc

  -- `r` is the first of the pools with the most free capacity, in some order of the eligible ones of `ps`.
  pub record IsRemoteOf (ps : List ℕ) (r : ℕ) : Type 0 where
    pub candidates : List ℕ
    pub candidates_perm :
        Permᴰ candidates
          (keep (eligible env shuffles w parameters request_size (secondary_tests env w)) ps)
    pub first_max : IsFirstMax w r candidates

  pub remote_of :
      (call : ℕ) (ps : List ℕ) (r : ℕ)
      → (failed_remote
            (filter_pool env w request_size parameters call ps (secondary_filter_funcs env w))
          >>= weigh_remote env w request_size parameters)
        ≡ ok (some r)
      → IsRemoteOf ps r
  remote_of call ps r h =
      let (qs, e, h') =
        >>=-eq-ok
          (failed_remote
            (filter_pool env w request_size parameters call ps (secondary_filter_funcs env w)))
          _ h in
      record {
        candidates = qs;
        candidates_perm =
            filter_pool-Perm env shuffles w parameters request_size call ps qs _ _
              (secondary_Tested env w) (some_candidates call ps qs e) (failed_remote-ok _ qs e);
        first_max = weigh_remote-IsFirstMax env w request_size parameters qs r h';
      }

  metro_of :
      (call : ℕ) (o : Option Backend) (r : ℕ)
      → (metro_pools env w request_size parameters call o
          >>= weigh_remote env w request_size parameters)
        ≡ ok (some r)
      → (b : Backend) × (m : ℕ) × (o ≡ some b)
        × (b.metro_backend ≡ some m)
        × IsRemoteOf (w.backend_at m).pools r
  metro_of call none r h = cc
  metro_of call (some b) r h = elim (Option-cases b.metro_backend) [
    | inl e ↦ ground arith
    | inr (m, e) ↦ (b, m, refl, e, remote_of call (w.backend_at m).pools r (rw e at h))
  ]

  -- With hyperMetro, a remote pool that is chosen for a local backend comes from the pools of the metro
  -- backend of that backend in the cache; it is eligible by the secondary filters, the topology and
  -- the capacity, and has the most free capacity of the eligible pools.
  pub select_remote_pool-metro :
      (call : ℕ) (name : String) (r : ℕ)
      → asks parameters "hyperMetro" ≡ true
      → select_remote_pool env w request_size parameters call name ≡ ok (some r)
      → (b : Backend) × (m : ℕ) × (lookup name w.cache ≡ some b)
        × (b.metro_backend ≡ some m)
        × IsRemoteOf (w.backend_at m).pools r
  unfolding select_remote_pool
  select_remote_pool-metro call name r a h = metro_of call (lookup name w.cache) r (ground arith)
