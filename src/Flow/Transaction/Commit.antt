-- ===== src/Flow/Transaction/Commit.antt =====
-- What `Commit` has done when it returns.
use e_sdk_k8s_plugin.Prelude.{
  ℕ, suc, ◌+◌, ◌≡◌, refl, ap, Option, none, some, List, [], ◌∷◌, ◌++◌, length, drop, arith,
  Option-cases, inl, inr,
}
use e_sdk_k8s_plugin.Flow.Transaction.{
  TransactionStep, Transaction, Progress, execute, commit_loop, commit,
}

-- `Ran w steps w'`: every step of the list was called in order, none failed, and `w` became `w'`.
pub data Ran {ℓ} {W E : Type ℓ} : W → List (TransactionStep W E) → W → Type ℓ where
  start : {w : W} → Ran w [] w
  more :
      {w u v : W} {steps : List (TransactionStep W E)} (s : TransactionStep W E)
      → execute s.exec w ≡ (u, none)
      → Ran u steps v
      → Ran w (s ∷ steps) v

-- How the loop can end over the steps that were left at index `at`: all of them ran, or the steps
-- `done` ran and the one behind them failed, and then nothing behind that one was called.
pub data Outcome {ℓ} {W E : Type ℓ} (steps : List (TransactionStep W E)) (at : ℕ) (w : W)
    (p : Progress W E) : Type ℓ where
  finished : Ran w steps p.world → p.at ≡ at + length steps → p.error ≡ none → Outcome steps at w p
  stopped :
      (done rest : List (TransactionStep W E)) (s : TransactionStep W E) (mid : W) (e : E)
      → steps ≡ done ++ s ∷ rest
      → Ran w done mid
      → execute s.exec mid ≡ (p.world, some e)
      → p.at ≡ at + length done
      → p.error ≡ some e
      → Outcome steps at w p

module _ {ℓ} {W E : Type ℓ} where
  Outcome-cons :
      (s : TransactionStep W E) (rest : List (TransactionStep W E)) (at : ℕ) (w u : W)
      (p : Progress W E)
      → execute s.exec w ≡ (u, none)
      → Outcome rest (suc at) u p
      → Outcome (s ∷ rest) at w p
  Outcome-cons s rest at w u p call (finished r n e) =
      finished (Ran.more s call r) (omega (arith, n)) e
  Outcome-cons s rest at w u p call (stopped done rest' s' mid x eq r c n e) =
      stopped (s ∷ done) rest' s' mid x (ap (λ zs. s ∷ zs) eq) (Ran.more s call r) c
        (omega (arith, n)) e

  pub commit_loop-Outcome :
      (steps : List (TransactionStep W E)) (at : ℕ) (w : W)
      → Outcome steps at w (commit_loop steps at w)
  unfolding commit_loop
  commit_loop-Outcome [] at w = finished Ran.start (omega arith) refl
  commit_loop-Outcome (s ∷ rest) at w =
      let after = execute s.exec w in
      elim (Option-cases after.1) [
        | inl q ↦
            rw (q, commit_loop)
              (Outcome-cons s rest at w after.0 _ (λ i. (after.0, q i))
                (commit_loop-Outcome rest (suc at) after.0))
        | inr (e, q) ↦
            rw (q, commit_loop)
              (stopped [] rest s w e refl Ran.start (λ i. (after.0, q i)) (omega arith) refl)
      ]

  abbrev pub progress : Transaction W E × W × Option E → Progress W E
  progress (t, w, e) = record { at = t.step_at; world = w; error = e }

  -- `Commit` calls the steps from `stepAt` on in order and stops at the first that fails: then the
  -- error is that step's, `stepAt` is its index and no later step was called. With no failure every
  -- step was called, the error is nil and `stepAt` is behind the last one. The steps are kept.
  pub commit-Outcome :
      (t : Transaction W E) (w : W)
      → Outcome (drop t.step_at t.steps) t.step_at w (progress (commit t w))
        × ((commit t w).0.steps ≡ t.steps)
  unfolding commit
  commit-Outcome t w = (commit_loop-Outcome (drop t.step_at t.steps) t.step_at w, refl)
