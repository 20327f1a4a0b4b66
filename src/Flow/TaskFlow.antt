-- ===== src/Flow/TaskFlow.antt =====
-- utils/flow/taskflow.go. Values of the parameter and result maps are of a type `V`; what a task does
-- to the storage, and to maps that it is handed by reference, is a change of the world `W`.
mod Merge
mod Run
mod Undo
mod Tests
use e_sdk_k8s_plugin.Prelude.{
  Bool, true, false, ◌&&◌, Option, none, some, List, [], ◌∷◌, ◌++◌, String, is_some,
}
use e_sdk_k8s_plugin.Prelude.Dict.{Dict, insert}
use e_sdk_k8s_plugin.Prelude.Result.{Result, ok, err}

-- `MergeMap` of utils/utils.go: the entries of every map, a later one over an earlier one.
module _ {ℓ} {V : Type ℓ} where
  pub merge_into : Dict V → Dict V → Dict V
  merge_into new_map [] = new_map
  merge_into new_map ((k, v) ∷ arg) = merge_into (insert k v new_map) arg

  pub merge_all : Dict V → List (Dict V) → Dict V
  merge_all new_map [] = new_map
  merge_all new_map (arg ∷ args) = merge_all (merge_into new_map arg) args

  unfoldable pub merge_map : List (Dict V) → Dict V
  unfolding merge_into merge_all
  merge_map args = merge_all [] args

  -- `if result != nil { p.result = utils.MergeMap(p.result, result) }`
  abbrev pub merge_result : Dict V → Option (Dict V) → Dict V
  merge_result old none = old
  merge_result old (some new) = merge_map (old ∷ new ∷ [])

-- A `TaskRunFunc` gives the new world, and an error or a result map, which may be nil.
abbrev pub RunFunc {ℓ} : (W E V : Type ℓ) → Type ℓ
RunFunc W E V = Dict V → Dict V → W → W × Result E (Option (Dict V))

pub record Task {ℓ} (W E V : Type ℓ) : Type ℓ where
  pub name : String
  pub finish : Bool
  pub run : RunFunc W E V
  pub revert : Option (Dict V → W → W × Option E)

pub record TaskFlow {ℓ} (W E V : Type ℓ) : Type ℓ where
  pub name : String
  pub tasks : List (Task W E V)
  pub result : Dict V

-- What `Run` leaves: the tasks with their flags, the result map, the world and the error.
pub record Progress {ℓ} (W E V : Type ℓ) : Type ℓ where
  pub tasks : List (Task W E V)
  pub result : Dict V
  pub world : W
  pub error : Option E

module _ {ℓ} {W E V : Type ℓ} where
  unfoldable pub new_task_flow : String → TaskFlow W E V
  new_task_flow name = record { name = name; tasks = []; result = [] }

  unfoldable pub add_task :
      TaskFlow W E V → String → RunFunc W E V → Option (Dict V → W → W × Option E) → TaskFlow W E V
  add_task p name run revert = record p {
    tasks = p.tasks ++ record { name = name; finish = false; run = run; revert = revert } ∷ [];
  }

  -- The rounds of the loop of `Run` over the tasks that are left.
  pub run_loop : List (Task W E V) → Dict V → Dict V → W → Progress W E V
  run_loop [] params result w = record { tasks = []; result = result; world = w; error = none }
  run_loop (task ∷ rest) params result w =
      let after = task.run params result w in
      let next = λ (r : Option (Dict V)).
        let p = run_loop rest params (merge_result result r) after.0 in
        record p { tasks = record task { finish = true } ∷ p.tasks } in
      elim after.1 [
        | err e ↦ record { tasks = task ∷ rest; result = result; world = after.0; error = some e }
        | ok r ↦ next r
      ]

  -- `Run` returns the result map, or nil and the error; the flow keeps its flags and its result.
  unfoldable pub run_flow : TaskFlow W E V → Dict V → W → TaskFlow W E V × W × Result E (Dict V)
  unfolding run_loop
  run_flow p params w =
      let done = run_loop p.tasks params p.result w in
      (
        record p { tasks = done.tasks; result = done.result },
        done.world,
        elim done.error [ none ↦ ok done.result | some e ↦ err e ],
      )

  -- One round of `Revert`: the error of a revert is logged and dropped.
  abbrev pub revert_task : Dict V → Task W E V → W → W
  revert_task result task w = revert_call task.finish task.revert
    where
      revert_call : Bool → Option (Dict V → W → W × Option E) → W
      revert_call true (some f) = (f result w).0
      revert_call true none = w
      revert_call false f = w

  -- `for i := len(tasks) - 1; i >= 0; i--`: the last task first.
  pub revert_loop : List (Task W E V) → Dict V → W → W
  revert_loop [] result w = w
  revert_loop (task ∷ rest) result w = revert_task result task (revert_loop rest result w)

  unfoldable pub revert_flow : TaskFlow W E V → W → W
  unfolding revert_loop
  revert_flow p w = revert_loop p.tasks p.result w

  -- The function that `AddTaskWithOutRevert` builds calls `run` and has a nil result.
  abbrev pub build_fun : (Dict V → W → W × Option E) → RunFunc W E V
  build_fun run params result w =
      let after = run params w in (after.0, elim after.1 [ none ↦ ok none | some e ↦ err e ])

  unfoldable pub add_task_without_revert :
      TaskFlow W E V → (Dict V → W → W × Option E) → TaskFlow W E V
  unfolding add_task
  add_task_without_revert p run = add_task p "" (build_fun run) none

  unfoldable pub run_without_revert : TaskFlow W E V → Dict V → W → TaskFlow W E V × W × Option E
  unfolding run_flow
  run_without_revert p params w =
      let after = run_flow p params w in
      (after.0, after.1, elim after.2 [ ok r ↦ none | err e ↦ some e ])
