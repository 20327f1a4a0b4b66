-- ===== src/Flow/TaskFlow/Tests.antt =====
-- A flow over a counter: a task that adds 2 and returns an id, then one that fails.
use e_sdk_k8s_plugin.Prelude.{
  ℕ, ◌+◌, ◌-◌, Bool, false, ◌&&◌, Option, none, some, [], ◌∷◌, String, ◌==◌, eqb, if◌then◌else◌,
  ◌≡◌, refl, ap, arith,
}
use e_sdk_k8s_plugin.Prelude.Result.{ok, err}
use e_sdk_k8s_plugin.Flow.TaskFlow.{
  Task, TaskFlow, Progress, new_task_flow, add_task, add_task_without_revert, run_flow, revert_flow,
  run_without_revert,
}
use e_sdk_k8s_plugin.Prelude.Dict.{Dict, lookup}
use e_sdk_k8s_plugin.Flow.TaskFlow.Run.{GivesMap, Outcome, run_flow-Outcome}
use e_sdk_k8s_plugin.Flow.TaskFlow.Undo.{IsUndoable, revert_flow-run_flow}

-- What has the id 5 is taken back; without an id nothing is.
abbrev take_id : Option ℕ → ℕ → ℕ
take_id none w = w
take_id (some i) w = if eqb i 5 then w - 2 else w

abbrev create : Task ℕ ℕ ℕ
create = record {
  name = "create";
  finish = false;
  run = λ params result w. (w + 2, ok (some (("id", 5) ∷ [])));
  revert = some (λ result w. (take_id (lookup "id" result) w, none));
}

abbrev denied : Task ℕ ℕ ℕ
denied = record {
  name = "denied";
  finish = false;
  run = λ params result w. (w, err 9);
  revert = none;
}

abbrev half_done : TaskFlow ℕ ℕ ℕ
half_done = record { name = "f"; tasks = create ∷ denied ∷ []; result = [] }

built :
    add_task
      (add_task (new_task_flow "f") "create" create.run create.revert)
      "denied"
      denied.run
      none
    ≡ half_done
unfolding add_task new_task_flow
built = refl

run_stops : (run_flow half_done [] 10).2 ≡ err 9
unfolding run_flow
run_stops = refl

run_without_revert_runs :
    (run_without_revert {E = ℕ} {V = ℕ}
      (add_task_without_revert (new_task_flow "g") (λ p w. (w + 1, none)))
      []
      1).1
    ≡ 2
unfolding run_without_revert add_task_without_revert new_task_flow
run_without_revert_runs = refl

-- What a run of `create` gives.
first : (w u : ℕ) (r : Option (Dict ℕ)) → create.run [] [] w ≡ (u, ok r) → w + 2 ≡ u
first w u r h = ap (λ z. z.0) h

second :
    (w u : ℕ) (r : Option (Dict ℕ)) → create.run [] [] w ≡ (u, ok r) → some (("id", 5) ∷ []) ≡ r
second w u r h = cc (ap (λ z. z.1) h)

taken_back :
    (later : Dict ℕ) (w u : ℕ)
    → w + 2 ≡ u
    → lookup "id" later ≡ some 5
    → take_id (lookup "id" later) u ≡ w
taken_back later w u h has = rw has (omega arith)

-- Only `create` returns something, its id.
abbrev keys : Task ℕ ℕ ℕ → String → Bool
keys task k = task.name == "create" && "id" == k

create-GivesMap : GivesMap create
unfolding lookup
create-GivesMap params result w u r h = rw (← second w u r h) (refl, tt)

denied-GivesMap : GivesMap denied
denied-GivesMap params result w u r h = ground arith

create-IsUndoable : (params result : Dict ℕ) (w : ℕ) → IsUndoable keys params result w create
unfolding lookup
create-IsUndoable params result w = record {
  gives = λ u r h. create-GivesMap params result w u r h;
  own = λ u r k h f. rw (← second w u r h, lookup, f) refl;
  reverts = λ later u r h old new.
      taken_back later w u (first w u r h) (new "id" 5 (rw (← second w u r h, lookup) refl));
  atomic = λ u e h. ground arith;
}

denied-IsUndoable : (params result : Dict ℕ) (w : ℕ) → IsUndoable keys params result w denied
denied-IsUndoable params result w = record {
  gives = λ u r h. ground arith;
  own = λ u r k h f. ground arith;
  reverts = λ later u r h old new. ground arith;
  atomic = λ u e h. ground arith;
}

run_flow-Outcome_example :
    (done : Progress ℕ ℕ ℕ) × Outcome half_done.tasks [] [] 10 done
    × (run_flow half_done [] 10 ≡ (
      record half_done { tasks = done.tasks; result = done.result },
      done.world,
      elim done.error [ none ↦ ok done.result | some e ↦ err e ],
    ))
run_flow-Outcome_example =
    run_flow-Outcome half_done [] 10 tt (create-GivesMap, (denied-GivesMap, tt))

revert_flow-run_flow_example :
    revert_flow (run_flow half_done [] 10).0 (run_flow half_done [] 10).1 ≡ 10
revert_flow-run_flow_example =
    revert_flow-run_flow keys half_done [] 10 9 (refl, (refl, tt)) refl
      (create-IsUndoable [] [] 10, λ u r h. (denied-IsUndoable [] _ u, λ u' r' h'. tt))
      (((λ k t. refl), tt), (tt, tt)) run_stops
