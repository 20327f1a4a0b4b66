-- ===== src/Backend/Capacity/Weight.antt =====
-- The pool with the most free capacity, and the pools with room enough.
use e_sdk_k8s_plugin.Prelude.{
  ℕ, some, List, [], ◌∷◌, ◌++◌, ◌≡◌, refl, sym, arith, inl, inr, All, All-append, Bool-cases,
  append_assoc, append-nil, subst,
}
use e_sdk_k8s_plugin.Prelude.Int.{ℤ, ltb_ℤ, ◌≤ℤ◌, ◌<ℤ◌}
use e_sdk_k8s_plugin.Backend.Model.{World}
use e_sdk_k8s_plugin.Backend.Capacity.{free_capacity, weight_loop, better, weight_by_free_capacity}

module _ (w : World) where
  abbrev pub free : ℕ → ℤ
  free p = free_capacity (w.pool_at p)

  -- `p` is the first pool of the list with the most free capacity.
  pub data IsFirstMax (p : ℕ) (ps : List ℕ) : Type 0 where
    first_max :
        (before after : List ℕ)
        → ps ≡ before ++ p ∷ after
        → All (λ q. free q <ℤ free p) before
        → All (λ q. free q ≤ℤ free p) after
        → IsFirstMax p ps

  All-lt_trans :
      (p q : ℕ) (ps : List ℕ)
      → All (λ r. free r ≤ℤ free p) ps
      → free p <ℤ free q
      → All (λ r. free r <ℤ free q) ps
  All-lt_trans p q [] h lt = tt
  All-lt_trans p q (r ∷ ps) h lt = (omega arith, All-lt_trans p q ps h.1 lt)

  All-le_of_lt :
      (p : ℕ) (ps : List ℕ) → All (λ q. free q <ℤ free p) ps → All (λ q. free q ≤ℤ free p) ps
  All-le_of_lt p [] h = tt
  All-le_of_lt p (q ∷ ps) h = (omega arith, All-le_of_lt p ps h.1)

  -- One more pool behind those that the loop has seen.
  IsFirstMax-better :
      (p q : ℕ) (seen : List ℕ)
      → IsFirstMax p seen
      → IsFirstMax (better w (some p) q) (seen ++ q ∷ [])
  IsFirstMax-better p q seen (first_max before after e lt le) =
      elim (Bool-cases (ltb_ℤ (free p) (free q))) [
        | inl more ↦ rw more (
            first_max seen [] refl
              (subst (All (λ r. free r <ℤ free q)) (sym e) (
                All-append _ before (p ∷ after)
                  (All-lt_trans p q before (All-le_of_lt p before lt) (ground arith))
                  (ground arith, All-lt_trans p q after le (ground arith))))
              tt)
        | inr less ↦ rw less (
            first_max before (after ++ q ∷ []) (rw (e, append_assoc)) lt
              (All-append _ after (q ∷ []) le (ground arith, tt)))
      ]

  weight_loop-IsFirstMax :
      (p : ℕ) (seen ps : List ℕ)
      → IsFirstMax p seen
      → (q : ℕ) × (weight_loop w (some p) ps ≡ some q) × IsFirstMax q (seen ++ ps)
  unfolding weight_loop
  weight_loop-IsFirstMax p seen [] m = (p, refl, subst (IsFirstMax p) (sym (append-nil seen)) m)
  weight_loop-IsFirstMax p seen (q ∷ ps) m =
      let (r, e, m') =
        weight_loop-IsFirstMax (better w (some p) q) (seen ++ q ∷ []) ps
          (IsFirstMax-better p q seen m) in
      (r, e, subst (IsFirstMax r) (append_assoc seen (q ∷ []) ps) m')

  -- From a list that is not empty, `weightByFreeCapacity` takes a pool of the list such that every
  -- pool before it has less free capacity and every pool after it has no more.
  pub weight_by_free_capacity-IsFirstMax :
      (p : ℕ) (ps : List ℕ)
      → (q : ℕ) × (weight_by_free_capacity w (p ∷ ps) ≡ some q) × IsFirstMax q (p ∷ ps)
  unfolding weight_by_free_capacity
  weight_by_free_capacity-IsFirstMax p ps =
      weight_loop-IsFirstMax p (p ∷ []) ps (first_max [] [] refl tt tt)
