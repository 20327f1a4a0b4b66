-- ===== src/Flow/TaskFlow/Run.antt =====
-- What `Run` of a flow does and returns.
use e_sdk_k8s_plugin.Prelude.{
  true, Option, none, some, List, [], ◌∷◌, ◌++◌, ◌≡◌, refl, ap, map, All, inl, inr,
}
use e_sdk_k8s_plugin.Prelude.Dict.{Dict}
use e_sdk_k8s_plugin.Prelude.Result.{ok, err, Result-cases}
use e_sdk_k8s_plugin.Flow.TaskFlow.{merge_result, Task, TaskFlow, Progress, run_loop, run_flow}
use e_sdk_k8s_plugin.Flow.TaskFlow.Merge.{
  IsMap, IsResult, Merges, merge_result-Merges, merge_result-IsMap,
}

module _ {ℓ} {W E V : Type ℓ} where
  -- What a task returns is a Go map.
  abbrev pub GivesMap : Task W E V → Type ℓ
  GivesMap task =
      (params result : Dict V) (w u : W) (r : Option (Dict V))
      → task.run params result w ≡ (u, ok r)
      → IsResult r

  abbrev pub finished : Task W E V → Task W E V
  finished task = record task { finish = true }

  -- Every task of the list was called in order, each with the map that the results before it make,
  -- and succeeded; a result map and a world before, and those after.
  pub data Ran (params : Dict V) : List (Task W E V) → Dict V → W → Dict V → W → Type ℓ where
    start : {result : Dict V} {w : W} → Ran params [] result w result w
    more :
        {tasks : List (Task W E V)} {result merged last : Dict V} {w u end : W} (task : Task W E V)
        (r : Option (Dict V))
        → task.run params result w ≡ (u, ok r)
        → Merges result r merged
        → Ran params tasks merged u last end
        → Ran params (task ∷ tasks) result w last end

  -- How a run ends: all tasks ran and are marked, or those of `done` did and the one behind them was
  -- called and failed, and it and the rest are as they were.
  pub data Outcome (tasks : List (Task W E V)) (params result : Dict V) (w : W) (p : Progress W E V)
      : Type ℓ where
    completed :
        Ran params tasks result w p.result p.world
        → p.tasks ≡ map finished tasks
        → p.error ≡ none
        → Outcome tasks params result w p
    stopped :
        (done rest : List (Task W E V)) (task : Task W E V) (mid : W) (e : E)
        → tasks ≡ done ++ task ∷ rest
        → Ran params done result w p.result mid
        → task.run params p.result mid ≡ (p.world, err e)
        → p.tasks ≡ map finished done ++ task ∷ rest
        → p.error ≡ some e
        → Outcome tasks params result w p

  Outcome-cons :
      (task : Task W E V) (rest : List (Task W E V)) (params result : Dict V) (w u : W)
      (r : Option (Dict V)) (p : Progress W E V)
      → task.run params result w ≡ (u, ok r)
      → Merges result r (merge_result result r)
      → Outcome rest params (merge_result result r) u p
      → Outcome (task ∷ rest) params result w (record p { tasks = finished task ∷ p.tasks })
  Outcome-cons task rest params result w u r p call m (completed ran marks e) =
      completed (more task r call m ran) (ap (λ zs. finished task ∷ zs) marks) e
  Outcome-cons task rest params result w u r p call m (stopped done left t mid x eq ran c marks e) =
      stopped (task ∷ done) left t mid x (ap (λ zs. task ∷ zs) eq) (more task r call m ran) c
        (ap (λ zs. finished task ∷ zs) marks) e

  run_loop-Outcome :
      (tasks : List (Task W E V)) (params result : Dict V) (w : W)
      → IsMap result
      → All GivesMap tasks
      → Outcome tasks params result w (run_loop tasks params result w)
  unfolding run_loop
  run_loop-Outcome [] params result w m h = completed start refl refl
  run_loop-Outcome (task ∷ rest) params result w m h =
      let after = task.run params result w in
      elim (Result-cases after.1) [
        | inl (r, e) ↦
            let call : task.run params result w ≡ (after.0, ok r) = λ i. (after.0, e i) in
            rw (e, run_loop)
              (Outcome-cons task rest params result w after.0 r _ call
                (merge_result-Merges result r m (h.0 params result w after.0 r call))
                (run_loop-Outcome rest params (merge_result result r) after.0
                  (merge_result-IsMap result r m) h.1))
        | inr (x, e) ↦
            rw (e, run_loop) (stopped [] rest task w x refl start (λ i. (after.0, e i)) refl refl)
      ]

  -- `Run` calls the tasks in order, each with the map in which the results of those before it were
  -- merged, a later value of a key over an earlier one, and stops at the first task that fails. The tasks that
  -- succeeded are marked as finished, the others are as they were. With no failure it returns the
  -- merged map, else the error of the task that failed. The maps hold each key once.
  pub run_flow-Outcome :
      (p : TaskFlow W E V) (params : Dict V) (w : W)
      → IsMap p.result
      → All GivesMap p.tasks
      → (done : Progress W E V) × Outcome p.tasks params p.result w done
        × (run_flow p params w ≡ (
          record p { tasks = done.tasks; result = done.result },
          done.world,
          elim done.error [ none ↦ ok done.result | some e ↦ err e ],
        ))
  unfolding run_flow
  run_flow-Outcome p params w m h =
      (run_loop p.tasks params p.result w, run_loop-Outcome p.tasks params p.result w m h, refl)
