-- ===== src/Flow/Transaction/Tests.antt =====
-- Runs of transactions over a counter: a create that adds 3, and a create that always fails.
use e_sdk_k8s_plugin.Prelude.{ℕ, ◌+◌, ◌-◌, ◌≡◌, refl, none, some, [], ◌∷◌, arith}
use e_sdk_k8s_plugin.Flow.Transaction.{
  TransactionStep, Transaction, new_transaction, then, commit, rollback,
}
use e_sdk_k8s_plugin.Flow.Transaction.Commit.{Outcome, progress, commit-Outcome}
use e_sdk_k8s_plugin.Flow.Transaction.Undo.{IsUndoable, rollback-commit}

abbrev add : TransactionStep ℕ ℕ
add = record { exec = some (λ w. (w + 3, none)); on_rollback = some (λ w. w - 3) }

abbrev refused : TransactionStep ℕ ℕ
refused = record { exec = some (λ w. (w, some 7)); on_rollback = none }

abbrev two_creates : Transaction ℕ ℕ
two_creates = record { step_at = 0; steps = add ∷ refused ∷ add ∷ [] }

commit_stops : commit two_creates 10 ≡ (record two_creates { step_at = 1 }, 13, some 7)
unfolding commit
commit_stops = refl

commit_all : commit (then (then new_transaction add.exec none) none none) 1 ≡ (
  record {
    step_at = 2;
    steps =
        record { exec = add.exec; on_rollback = none }
        ∷ record { exec = none; on_rollback = none }
        ∷ [];
  },
  4,
  none,
)
unfolding commit then new_transaction
commit_all = refl

add-IsUndoable : IsUndoable add
add-IsUndoable = record { cancels = λ w u h. ground arith; atomic = λ w u e h. ground arith }

refused-IsUndoable : IsUndoable refused
refused-IsUndoable = record { cancels = λ w u h. ground arith; atomic = λ w u e h. ground arith }

commit-Outcome_example :
    Outcome (add ∷ refused ∷ add ∷ []) 0 10 (progress (commit two_creates 10))
    × ((commit two_creates 10).0.steps ≡ two_creates.steps)
commit-Outcome_example = commit-Outcome two_creates 10

rollback-commit_example : rollback (commit two_creates 10).0 (commit two_creates 10).1 ≡ 10
unfolding commit
rollback-commit_example =
    rollback-commit two_creates 10 7 refl
      (add-IsUndoable, (refused-IsUndoable, (add-IsUndoable, tt))) refl
