-- ===== src/Backend/Select/Pair.antt =====
-- The pair of a local and a remote pool that a selection takes.
use e_sdk_k8s_plugin.Prelude.{
  ℕ, suc, true, some, List, [], ◌∷◌, ◌++◌, ◌≡◌, refl, ap, sym, subst, ◌∙◌, arith, eqb, ◌⊎◌, In,
  head, tail, Bool-cases, inl, inr,
}
use e_sdk_k8s_plugin.Prelude.Int.{ℤ}
use e_sdk_k8s_plugin.Prelude.Result.{Result, ok, err, Result-cases, >>=-eq-ok}
use e_sdk_k8s_plugin.Backend.Model.{Parameters, World, Env, SelectError, SelectPoolPair}
use e_sdk_k8s_plugin.Backend.Capacity.{
  update_select_pool, take_pair, weight_pools, weight_single_pools,
}
use e_sdk_k8s_plugin.Backend.Capacity.Weight.{IsFirstMax, first_max}
use e_sdk_k8s_plugin.Backend.Select.{
  select_remote_pool, pair_loop, candidate_pools, select_pool_pair,
}
use e_sdk_k8s_plugin.Backend.Select.Remote.{weight_single_pools-IsFirstMax}

pub In-middle : (p : ℕ) (before after : List ℕ) → In p (before ++ p ∷ after)
In-middle p [] after = head refl
In-middle p (q ∷ before) after = tail (In-middle p before after)

pub IsFirstMax-In : (w : World) (p : ℕ) (ps : List ℕ) → IsFirstMax w p ps → In p ps
IsFirstMax-In w p ps (first_max before after e lt le) =
    subst (λ zs. In p zs) (sym e) (In-middle p before after)

-- Some pair of the list has this local pool.
abbrev locals : List SelectPoolPair → List ℕ
locals [] = []
locals (pair ∷ pairs) = pair.local ∷ locals pairs

eqb_refl : (n : ℕ) → eqb n n ≡ true
eqb_refl n = ground arith

abbrev pub placed : ℤ → Parameters → SelectPoolPair → World → World
placed request_size parameters pair w =
    update_select_pool request_size parameters pair.remote
      (update_select_pool request_size parameters (some pair.local) w)

take_pair-In :
    (request_size : ℤ) (parameters : Parameters) (p : ℕ) (pairs : List SelectPoolPair) (w : World)
    → In p (locals pairs)
    → (pair : SelectPoolPair) × In pair pairs
      × (pair.local ≡ p)
      × (take_pair request_size parameters p pairs w
          ≡ (placed request_size parameters pair w, ok pair))
unfolding take_pair
take_pair-In request_size parameters p [] w m = elim m [ ]
take_pair-In request_size parameters p (pair ∷ pairs) w (head e) =
    (pair, head refl, sym e, rw (e, eqb_refl pair.local) refl)
take_pair-In request_size parameters p (pair ∷ pairs) w (tail m) =
    elim (Bool-cases (eqb pair.local p)) [
      | inl h ↦ (pair, head refl, ground arith, rw h refl)
      | inr h ↦
          let (found, i, e, t) = take_pair-In request_size parameters p pairs w m in
          (found, tail i, e, rw h t)
    ]

ok-pairs : {A : Type 0} {a b : A} → ◌≡◌ {A = Result SelectError A} (ok a) (ok b) → b ≡ a
ok-pairs h = cc

In-cons : {A : Type 0} {a x : A} {xs : List A} → In a (x ∷ xs) → (a ≡ x) ⊎ In a xs
In-cons (head e) = inl e
In-cons (tail m) = inr m

err_ok :
    {B : Type 0} (w w' : World) (x : SelectError) (pair : SelectPoolPair)
    → ◌≡◌ {A = World × Result SelectError SelectPoolPair} (w, err x) (w', ok pair)
    → B
err_ok w w' x pair h =
    let e : ◌≡◌ {A = Result SelectError SelectPoolPair} (err x) (ok pair) = ap (λ z. z.1) h in cc

same_pair :
    {v v' : World} {pair pair' : SelectPoolPair}
    → ◌≡◌ {A = World × Result SelectError SelectPoolPair} (v, ok pair) (v', ok pair')
    → (v ≡ v') × (pair ≡ pair')
same_pair h = (ap (λ z. z.0) h, ok-pairs (sym (ap (λ z. z.1) h)))

module _ (env : Env) (w : World) (request_size : ℤ) (parameters : Parameters) where
  -- The remote pool of a pair is the one selected for its local pool.
  abbrev pub HasRemote : SelectPoolPair → Type 0
  HasRemote pair =
      (call : ℕ) × (select_remote_pool env w request_size parameters call
          (w.pool_at pair.local).parent
        ≡ ok pair.remote)

  pair_loop-locals :
      (call : ℕ) (ps : List ℕ) (pairs : List SelectPoolPair)
      → pair_loop env w request_size parameters call ps ≡ ok pairs
      → locals pairs ≡ ps
  unfolding pair_loop
  pair_loop-locals call [] pairs h = ap locals (ok-pairs h)
  pair_loop-locals call (p ∷ ps) pairs h =
      let (remote, e, h1) =
        >>=-eq-ok (select_remote_pool env w request_size parameters call (w.pool_at p).parent) _
          h in
      let (rest, e1, h2) = >>=-eq-ok (pair_loop env w request_size parameters (suc call) ps) _ h1 in
      let tl = pair_loop-locals (suc call) ps rest e1 in
      ap locals (ok-pairs h2) ∙ ap (λ zs. p ∷ zs) tl

  pair_loop-HasRemote :
      (call : ℕ) (ps : List ℕ) (pairs : List SelectPoolPair) (pair : SelectPoolPair)
      → pair_loop env w request_size parameters call ps ≡ ok pairs
      → In pair pairs
      → HasRemote pair
  unfolding pair_loop
  pair_loop-HasRemote call [] pairs pair h m = elim (subst (λ zs. In pair zs) (ok-pairs h) m) [ ]
  pair_loop-HasRemote call (p ∷ ps) pairs pair h m =
      let (remote, e, h1) =
        >>=-eq-ok (select_remote_pool env w request_size parameters call (w.pool_at p).parent) _
          h in
      let (rest, e1, h2) = >>=-eq-ok (pair_loop env w request_size parameters (suc call) ps) _ h1 in
      elim (In-cons (subst (λ zs. In pair zs) (ok-pairs h2) m)) [
        | inl q ↦ (call, subst HasPair (sym q) e)
        | inr i ↦ pair_loop-HasRemote (suc call) ps rest pair e1 i
      ]
    where
      HasPair : SelectPoolPair → Type 0
      HasPair pair =
          select_remote_pool env w request_size parameters call (w.pool_at pair.local).parent
          ≡ ok pair.remote

  -- A selection that succeeds takes, of the local pools that are left, the first with the most free
  -- capacity, together with the remote pool that was selected for it, and leaves the memory in which
  -- the update of a selected pool was made to the local and then to the remote pool and nothing else.
  pub select_pool_pair-IsFirstMax :
      (w' : World) (pair : SelectPoolPair)
      → select_pool_pair env w request_size parameters ≡ (w', ok pair)
      → (ps : List ℕ) × (candidate_pools env w request_size parameters ≡ ok ps)
        × IsFirstMax w pair.local ps
        × HasRemote pair
        × (w' ≡ placed request_size parameters pair w)
  unfolding select_pool_pair weight_pools
  select_pool_pair-IsFirstMax w' pair h =
      elim (Result-cases (candidate_pools env w request_size parameters)) [
        | inr (x, e) ↦ err_ok w w' x pair (rw (e, select_pool_pair) at h)
        | inl (ps, e) ↦ elim (Result-cases (pair_loop env w request_size parameters 1 ps)) [
          | inr (x, e1) ↦ err_ok w w' x pair (rw (e, e1, select_pool_pair) at h)
          | inl (pairs, e1) ↦ elim (Result-cases (weight_single_pools w ps)) [
            | inr (x, e2) ↦ err_ok w w' x pair (rw (e, e1, e2, select_pool_pair, weight_pools) at h)
            | inl (q, e2) ↦
                let m = weight_single_pools-IsFirstMax w ps q e2 in
                let i =
                  subst (λ zs. In q zs) (sym (pair_loop-locals 1 ps pairs e1))
                    (IsFirstMax-In w q ps m) in
                let (found, k, l, t) = take_pair-In request_size parameters q pairs w i in
                let (ew, ep) =
                  same_pair (sym t ∙ rw (e, e1, e2, select_pool_pair, weight_pools) at h) in
                (
                  ps,
                  e,
                  subst (λ z. IsFirstMax w z ps) (sym l ∙ ap (λ z. z.local) ep) m,
                  subst HasRemote ep (pair_loop-HasRemote 1 ps pairs found e1 k),
                  sym ew ∙ ap (λ z. placed request_size parameters z w) ep,
                )
          ]
        ]
      ]
