-- ===== src/Flow/Transaction.antt =====
-- utils/flow/transaction.go. A closure that acts on the storage is a function on a world `W`; a nil
-- closure is `none`; `stepAt` starts at 0 and only grows, so it is a natural number.
pub mod Commit
pub mod Undo
mod Tests
use e_sdk_k8s_plugin.Prelude.{
  ℕ, zero, suc, Option, none, some, List, [], ◌∷◌, ◌++◌, get_elem?, drop,
}

pub record TransactionStep {ℓ} (W E : Type ℓ) : Type ℓ where
  pub exec : Option (W → W × Option E)
  pub on_rollback : Option (W → W)

pub record Transaction {ℓ} (W E : Type ℓ) : Type ℓ where
  pub step_at : ℕ
  pub steps : List (TransactionStep W E)

-- What the loop of `Commit` has at its end: `stepAt`, the world and `err`.
pub record Progress {ℓ} (W E : Type ℓ) : Type ℓ where
  pub at : ℕ
  pub world : W
  pub error : Option E

module _ {ℓ} {W E : Type ℓ} where
  unfoldable pub new_transaction : Transaction W E
  new_transaction = record { step_at = 0; steps = [] }

  unfoldable pub then :
      Transaction W E → Option (W → W × Option E) → Option (W → W) → Transaction W E
  then t exec on_rollback = record t {
    steps = t.steps ++ record { exec = exec; on_rollback = on_rollback } ∷ [];
  }

  -- One call of `exec`, skipped when it is nil.
  abbrev pub execute : Option (W → W × Option E) → W → W × Option E
  execute none w = (w, none)
  execute (some f) w = f w

  -- The rounds of the loop from `stepAt` on, over the steps that are left.
  unfoldable pub commit_loop : List (TransactionStep W E) → ℕ → W → Progress W E
  commit_loop [] at w = record { at = at; world = w; error = none }
  commit_loop (s ∷ rest) at w =
      let after = execute s.exec w in
      let next = commit_loop rest (suc at) after.0 in
      elim after.1 [ none ↦ next | some e ↦ record { at = at; world = after.0; error = some e } ]

  unfoldable pub commit : Transaction W E → W → Transaction W E × W × Option E
  unfolding commit_loop
  commit t w =
      let p = commit_loop (drop t.step_at t.steps) t.step_at w in
      (record t { step_at = p.at }, p.world, p.error)

  -- One call of `onRollback`, skipped when it is nil or the index is out of range.
  abbrev pub undo : Option (TransactionStep W E) → W → W
  undo none w = w
  undo (some s) w = elim s.on_rollback [ none ↦ w | some f ↦ f w ]

  -- `for i := stepAt - 1; i >= 0; i--`, by the number of rounds left.
  unfoldable pub rollback_loop : ℕ → List (TransactionStep W E) → W → W
  rollback_loop zero steps w = w
  rollback_loop (suc i) steps w = rollback_loop i steps (undo (get_elem? steps i) w)

  unfoldable pub rollback : Transaction W E → W → W
  unfolding rollback_loop
  rollback t w = rollback_loop t.step_at t.steps w
