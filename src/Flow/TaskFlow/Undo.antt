-- ===== src/Flow/TaskFlow/Undo.antt =====
-- `Revert` takes back what a failed `Run` did.
use e_sdk_k8s_plugin.Prelude.{
  Bool, true, false, Option, none, some, List, [], ◌∷◌, String, Bool-cases, Option-cases, subst,
  ◌≡◌, refl, ap, sym, ◌∙◌, All, inl, inr,
}
use e_sdk_k8s_plugin.Prelude.Dict.{Dict, lookup, lookup-nil}
use e_sdk_k8s_plugin.Prelude.Result.{ok, err, error_of, Result-cases}
use e_sdk_k8s_plugin.Flow.TaskFlow.{
  merge_result, Task, TaskFlow, run_loop, run_flow, revert_task, revert_loop, revert_flow,
}
use e_sdk_k8s_plugin.Flow.TaskFlow.Merge.{
  IsMap, IsResult, value_in, or_else, merge_result-Merges, merge_result-IsMap,
}
use e_sdk_k8s_plugin.Flow.TaskFlow.Run.{finished}

error_of_elim {ℓ} :
    {E V : Type ℓ} (o : Option E) (result : Dict V)
    → error_of {A = Dict V} (elim o [ none ↦ ok result | some e ↦ err e ]) ≡ o
error_of_elim none result = refl
error_of_elim (some e) result = refl

module _ {ℓ} {W E V : Type ℓ} (keys : Task W E V → String → Bool) where
  abbrev pub IsUnfinished : Task W E V → Type 0
  IsUnfinished task = task.finish ≡ false

  -- A map still has what a task returned.
  abbrev pub Has : Option (Dict V) → Dict V → Type ℓ
  Has r later = (k : String) (v : V) → value_in k r ≡ some v → lookup k later ≡ some v

  -- What the caller of the package provides for a call of a task: its revert takes back what the call did
  -- if it gets a map that still has what the call was given and what it returned; the call returns
  -- a map of keys of the task's own; and if it fails, it has changed nothing. A task with no revert
  -- changes nothing.
  pub record IsUndoable (params result : Dict V) (w : W) (task : Task W E V) : Type ℓ where
    pub gives : (u : W) (r : Option (Dict V)) → task.run params result w ≡ (u, ok r) → IsResult r
    pub own :
        (u : W) (r : Option (Dict V)) (k : String)
        → task.run params result w ≡ (u, ok r)
        → keys task k ≡ false
        → value_in k r ≡ none
    pub reverts :
        (later : Dict V) (u : W) (r : Option (Dict V))
        → task.run params result w ≡ (u, ok r)
        → Has (some result) later
        → Has r later
        → revert_task later (finished task) u ≡ w
    pub atomic : (u : W) (e : E) → task.run params result w ≡ (u, err e) → u ≡ w

  -- Every call that a run makes is like that.
  abbrev pub AllUndoable : Dict V → List (Task W E V) → Dict V → W → Type ℓ
  AllUndoable params [] result w = Unit
  AllUndoable params (task ∷ rest) result w =
      IsUndoable params result w task
      × ((u : W) (r : Option (Dict V))
          → task.run params result w ≡ (u, ok r)
          → AllUndoable params rest (merge_result result r) u)

  abbrev Without : String → List (Task W E V) → Type 0
  Without k tasks = All (λ other. keys other k ≡ false) tasks

  -- No task returns a key of an earlier one.
  abbrev pub Apart : List (Task W E V) → Type 0
  Apart [] = Unit
  Apart (task ∷ rest) =
      All (λ other. (k : String) → keys task k ≡ true → keys other k ≡ false) rest × Apart rest

  -- What is in the map is of none of the tasks that are left.
  abbrev Fresh : Dict V → List (Task W E V) → Type ℓ
  Fresh result tasks = (k : String) (v : V) → lookup k result ≡ some v → Without k tasks

  apart_at :
      (task : Task W E V) (rest : List (Task W E V)) (k : String)
      → All (λ other. (k : String) → keys task k ≡ true → keys other k ≡ false) rest
      → keys task k ≡ true
      → Without k rest
  apart_at task [] k h t = tt
  apart_at task (other ∷ rest) k h t = (h.0 k t, apart_at task rest k h.1 t)

  module _ (params : Dict V) where
    -- A key that no task returns keeps its value.
    run_loop_keeps :
        (tasks : List (Task W E V)) (result : Dict V) (w : W) (k : String)
        → IsMap result
        → AllUndoable params tasks result w
        → Without k tasks
        → lookup k (run_loop tasks params result w).result ≡ lookup k result
    unfolding run_loop
    run_loop_keeps [] result w k m h apart = refl
    run_loop_keeps (task ∷ rest) result w k m h apart =
        let after = task.run params result w in
        elim (Result-cases after.1) [
          | inl (r, q) ↦
              let call : task.run params result w ≡ (after.0, ok r) = λ i. (after.0, q i) in
              rw (q, run_loop)
                (run_loop_keeps rest (merge_result result r) after.0 k
                    (merge_result-IsMap result r m) (h.1 after.0 r call) apart.1
                  ∙ merge_result-Merges result r m (h.0.gives after.0 r call) k
                  ∙ ap (λ o. or_else o (lookup k result)) (h.0.own after.0 r k call apart.0))
          | inr (x, q) ↦ rw (q, run_loop) refl
        ]

    module _ (task : Task W E V) (rest : List (Task W E V)) (result : Dict V) (w u : W)
        (r : Option (Dict V)) (call : task.run params result w ≡ (u, ok r)) (m : IsMap result)
        (h : AllUndoable params (task ∷ rest) result w) where
      -- What is merged and of no later task is still there at the end.
      kept_to_end :
          (k : String)
          → Without k rest
          → lookup k (run_loop rest params (merge_result result r) u).result
            ≡ or_else (value_in k r) (lookup k result)
      kept_to_end k without =
          run_loop_keeps rest (merge_result result r) u k (merge_result-IsMap result r m)
            (h.1 u r call) without
          ∙ merge_result-Merges result r m (h.0.gives u r call) k

      -- A key that the task returned is of no later one.
      returned_Without :
          Apart (task ∷ rest) → (k : String) (v : V) → value_in k r ≡ some v → Without k rest
      returned_Without apart k v here = elim (Bool-cases (keys task k)) [
        | inl t ↦ apart_at task rest k apart.0 t
        | inr f ↦ absurd (cc (sym here ∙ h.0.own u r k call f))
      ]

      new-Has : Apart (task ∷ rest) → Has r (run_loop rest params (merge_result result r) u).result
      new-Has apart k v here =
          kept_to_end k (returned_Without apart k v here)
          ∙ ap (λ o. or_else o (lookup k result)) here

      old-Has :
          Fresh result (task ∷ rest)
          → Has (some result) (run_loop rest params (merge_result result r) u).result
      old-Has fresh k v here =
          kept_to_end k (fresh k v here).1
          ∙ ap (λ o. or_else o (lookup k result)) (h.0.own u r k call (fresh k v here).0)
          ∙ here

      merged-Fresh :
          Apart (task ∷ rest) → Fresh result (task ∷ rest) → Fresh (merge_result result r) rest
      merged-Fresh apart fresh k v here =
          let merged = sym (merge_result-Merges result r m (h.0.gives u r call) k) ∙ here in
          elim (Option-cases (value_in k r)) [
            | inl e ↦ (fresh k v (ap (λ o. or_else o (lookup k result)) (sym e) ∙ merged)).1
            | inr (v', e) ↦ returned_Without apart k v' e
          ]

  revert_loop_unfinished :
      (tasks : List (Task W E V)) (result : Dict V) (w : W)
      → All IsUnfinished tasks
      → revert_loop tasks result w ≡ w
  unfolding revert_loop
  revert_loop_unfinished [] result w h = refl
  revert_loop_unfinished (task ∷ rest) result w h =
      rw (h.0, revert_loop_unfinished rest result w h.1)

  revert_loop-run_loop :
      (params : Dict V) (tasks : List (Task W E V)) (result : Dict V) (w : W) (e : E)
      → All IsUnfinished tasks
      → AllUndoable params tasks result w
      → Apart tasks
      → Fresh result tasks
      → IsMap result
      → (run_loop tasks params result w).error ≡ some e
      → revert_loop
          (run_loop tasks params result w).tasks
          (run_loop tasks params result w).result
          (run_loop tasks params result w).world
        ≡ w
  unfolding run_loop revert_loop
  revert_loop-run_loop params [] result w e u h apart fresh m fail = cc
  revert_loop-run_loop params (task ∷ rest) result w e u h apart fresh m fail =
      let after = task.run params result w in
      elim (Result-cases after.1) [
        | inl (r, q) ↦
            let result' = merge_result result r in
            let call : task.run params result w ≡ (after.0, ok r) = λ i. (after.0, q i) in
            let last = (run_loop rest params result' after.0).result in
            rw (q, run_loop)
              (ap (revert_task last (finished task)) (
                  revert_loop-run_loop params rest result' after.0 e u.1 (h.1 after.0 r call)
                    apart.1 (merged-Fresh params task rest result w after.0 r call m h apart fresh)
                    (merge_result-IsMap result r m) (rw (q, run_loop) at fail))
                ∙ h.0.reverts last after.0 r call
                    (old-Has params task rest result w after.0 r call m h fresh)
                    (new-Has params task rest result w after.0 r call m h apart))
        | inr (x, q) ↦
            rw (q, run_loop)
              (revert_loop_unfinished (task ∷ rest) result after.0 u
                ∙ h.0.atomic after.0 x (λ i. (after.0, q i)))
      ]

  -- Take a new flow, with no task finished and no result, whose tasks return different keys, and let every
  -- call of a run of it either fail and change nothing, or be taken back by its revert when that gets a
  -- map that still has what the call was given and what it returned. If `Run` returns an error,
  -- `Revert` brings back the world from before the run, whatever tasks had succeeded: the map that
  -- it hands to the reverts has the results of all of them.
  pub revert_flow-run_flow :
      (p : TaskFlow W E V) (params : Dict V) (w : W) (e : E)
      → All IsUnfinished p.tasks
      → p.result ≡ []
      → AllUndoable params p.tasks p.result w
      → Apart p.tasks
      → (run_flow p params w).2 ≡ err e
      → revert_flow (run_flow p params w).0 (run_flow p params w).1 ≡ w
  unfolding run_flow revert_flow
  revert_flow-run_flow p params w e u new h apart fail =
      let done = run_loop p.tasks params p.result w in
      revert_loop-run_loop params p.tasks p.result w e u h apart
        (λ k v here. absurd (cc (sym here ∙ ap (lookup k) new ∙ lookup-nil k)))
        (subst IsMap (sym new) tt) (sym (error_of_elim done.error done.result) ∙ ap error_of fail)
