-- ===== src/Flow/Transaction/Undo.antt =====
-- What `Rollback` does after `Commit`.
use e_sdk_k8s_plugin.Prelude.{
  ℕ, zero, suc, ◌≡◌, refl, ap, subst, none, some, List, [], ◌∷◌, ◌++◌, length, drop, take, arith,
  get_elem?, take-append, ◌∙◌, All,
}
use e_sdk_k8s_plugin.Flow.Transaction.{
  TransactionStep, Transaction, Progress, execute, commit_loop, commit, undo, rollback_loop,
  rollback,
}
use e_sdk_k8s_plugin.Flow.Transaction.Commit.{Ran, Outcome, commit_loop-Outcome}

rollback_loop-nil {ℓ} : {W : Type ℓ} (E : Type ℓ) (n : ℕ) (w : W) → rollback_loop {E = E} n [] w ≡ w
unfolding rollback_loop
rollback_loop-nil E zero w = refl
rollback_loop-nil E (suc n) w = rollback_loop-nil E n w

module _ {ℓ} {W E : Type ℓ} where
  -- The cancels of a list of steps, the last step's first.
  abbrev pub undo_all : List (TransactionStep W E) → W → W
  undo_all [] w = w
  undo_all (s ∷ steps) w = undo (some s) (undo_all steps w)

  rollback_loop-cons :
      (n : ℕ) (s : TransactionStep W E) (steps : List (TransactionStep W E)) (w : W)
      → rollback_loop (suc n) (s ∷ steps) w ≡ undo (some s) (rollback_loop n steps w)
  unfolding rollback_loop
  rollback_loop-cons zero s steps w = refl
  rollback_loop-cons (suc n) s steps w = rollback_loop-cons n s steps (undo (get_elem? steps n) w)

  rollback_loop-undo_all :
      (n : ℕ) (steps : List (TransactionStep W E)) (w : W)
      → rollback_loop n steps w ≡ undo_all (take n steps) w
  rollback_loop-undo_all zero steps w = unfold rollback_loop in refl
  rollback_loop-undo_all (suc n) [] w = rollback_loop-nil E (suc n) w
  rollback_loop-undo_all (suc n) (s ∷ steps) w =
      rollback_loop-cons n s steps w ∙ ap (undo (some s)) (rollback_loop-undo_all n steps w)

  -- `Rollback` calls the cancels of exactly the steps before `stepAt`, in reverse order.
  rollback-undo_all :
      (t : Transaction W E) (w : W) → rollback t w ≡ undo_all (take t.step_at t.steps) w
  unfolding rollback
  rollback-undo_all t w = rollback_loop-undo_all t.step_at t.steps w

  -- What a caller of the package has to provide: a cancel takes back what a successful call did, and
  -- a call that fails has changed nothing.
  pub record IsUndoable (s : TransactionStep W E) : Type ℓ where
    pub cancels : (w u : W) → execute s.exec w ≡ (u, none) → undo (some s) u ≡ w
    pub atomic : (w u : W) (e : E) → execute s.exec w ≡ (u, some e) → u ≡ w

  Ran-undo_all :
      (steps : List (TransactionStep W E)) (w v : W)
      → All IsUndoable steps
      → Ran w steps v
      → undo_all steps v ≡ w
  Ran-undo_all [] w v h Ran.start = refl
  Ran-undo_all (s ∷ steps) w v h (Ran.more {u = u} _ call r) =
      ap (undo (some s)) (Ran-undo_all steps u v h.1 r) ∙ h.0.cancels w u call

  All-split :
      (done rest : List (TransactionStep W E)) (s : TransactionStep W E)
      → All IsUndoable (done ++ s ∷ rest)
      → All IsUndoable done × IsUndoable s
  All-split [] rest s h = (tt, h.0)
  All-split (x ∷ done) rest s h = let (a, b) = All-split done rest s h.1 in ((h.0, a), b)

  Outcome-undo :
      (steps : List (TransactionStep W E)) (w : W) (p : Progress W E) (e : E)
      → All IsUndoable steps
      → Outcome steps 0 w p
      → p.error ≡ some e
      → rollback_loop p.at steps p.world ≡ w
  Outcome-undo steps w p e h (Outcome.finished r n nil) fail = cc
  Outcome-undo steps w p e h (Outcome.stopped done rest s mid x eq r call n err) fail =
      rollback_loop-undo_all p.at steps p.world
      ∙ ap (λ zs. undo_all zs p.world) (cut ∙ take-append done (s ∷ rest))
      ∙ ap (undo_all done) (parts.1.atomic mid p.world x call)
      ∙ Ran-undo_all done w mid parts.0 r
    where
      at : p.at ≡ length done
      at = omega (arith, n)

      cut : take p.at steps ≡ take (length done) (done ++ s ∷ rest)
      cut = rw (at, eq)

      parts : All IsUndoable done × IsUndoable s
      parts = All-split done rest s (subst (All IsUndoable) eq h)

  -- A transaction whose steps can be undone is all or nothing: when `Commit` of a new transaction
  -- returns an error, `Rollback` brings back the world from before the commit.
  pub rollback-commit :
      (t : Transaction W E) (w : W) (e : E)
      → t.step_at ≡ 0
      → All IsUndoable t.steps
      → (commit t w).2 ≡ some e
      → rollback (commit t w).0 (commit t w).1 ≡ w
  unfolding rollback commit
  rollback-commit t w e z h fail =
      let p = commit_loop (drop t.step_at t.steps) t.step_at w in
      Outcome-undo t.steps w p e h
        (subst (λ n. Outcome (drop n t.steps) n w p) z
          (commit_loop-Outcome (drop t.step_at t.steps) t.step_at w))
        fail
