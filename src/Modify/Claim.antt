-- ===== src/Modify/Claim.antt =====
-- pkg/modify/claim_worker.go: the synchronization of a claim that is not being deleted.
pub mod Completion
use e_sdk_k8s_plugin.Prelude.{
  ℕ, zero, suc, Bool, true, false, ◌&&◌, Option, none, some, List, [], ◌∷◌, ◌++◌, String, ◌==◌,
  if◌then◌else◌, not, length, eqb, is_empty, is_some,
}
use Prim.Native.String
use e_sdk_k8s_plugin.Prelude.Dict.{Dict}
use e_sdk_k8s_plugin.Prelude.Result.{Result, ok, err}
use e_sdk_k8s_plugin.Prelude.Io.{Io, ◌>>=◌, ◌>>◌, return, fail, attempt}
use e_sdk_k8s_plugin.Strconv.{Bytes, same_bytes}
use e_sdk_k8s_plugin.Modify.Model.{
  Api, Claim, ClaimStatus, ClaimPhase, claim_unset, claim_pending, claim_creating, claim_completed,
  Content, ContentPhase, content_unset, content_completed, ModifyContents, StorageClass, Volume,
  ClaimRef, is_claim_phase, at_claim_phase, Fault, not_found, nil_pointer, other, create_failed,
  start_creating, recreating_sc, contains, update_retry_times,
}
use e_sdk_k8s_plugin.Modify.Parameters.{check_parameters, generate_ready_string}
use e_sdk_k8s_plugin.Modify.Classes.{replace_storage_class, is_not_found}
use e_sdk_k8s_plugin.Modify.Status.{
  protect_claim_finalizer, with_phase, update_claim_loop, update_claim_status_with_retry,
  update_claim_phase,
}
use e_sdk_k8s_plugin.Modify.Creation.{create_claim_status}

abbrev pub is_completed : ContentPhase → Bool
is_completed content_completed = true
is_completed _ = false

module _ {W : Type 0} (api : Api W) where
  unfoldable pub set_claim_pending : Claim → Io W Fault Claim
  set_claim_pending claim =
      at_claim_phase claim_unset
        (λ claim.
          update_claim_phase api
            (record claim { status = record claim.status { ready = generate_ready_string 0 0 } })
            claim_pending)
        claim

  unfoldable pub check_source : String → Claim → Io W Fault (Unit {0})
  check_source provisioner claim =
      if claim.source_kind == "StorageClass"
      then (do
        class ← attempt (api.class_of claim.source_name)
        elim class [
          | err e ↦ if is_not_found e then (do api.record_event create_failed; fail e) else fail e
          | ok c ↦ if c.provisioner == provisioner then return tt else (do
            api.record_event create_failed
            fail (other "check spec failed: provisioner"))
        ])
      else (do
        api.record_event create_failed
        fail (other "check spec failed: spec.source.kind is not 'StorageClass'"))

  unfoldable pub pre_create_claim : String → Claim → Io W Fault Claim
  pre_create_claim provisioner claim =
      at_claim_phase claim_pending
        (λ claim. do
          _ ← check_source provisioner claim
          elim (check_parameters claim.spec_parameters) [
            | none ↦ return claim
            | some _ ↦ do api.record_event create_failed; fail (other "check spec failed")
          ])
        claim

  unfoldable pub set_claim_finalizers : Claim → Io W Fault Claim
  set_claim_finalizers claim =
      at_claim_phase claim_pending
        (λ claim.
          if contains claim.finalizers protect_claim_finalizer
          then return claim
          else api.update_claim
              (record claim { finalizers = claim.finalizers ++ protect_claim_finalizer ∷ [] }))
        claim

  abbrev pub started : Claim → ℕ → Claim
  started claim t = record claim {
    status = record claim.status { started_at = some t; phase = claim_creating };
  }

  unfoldable pub set_claim_creating : Claim → Io W Fault Claim
  set_claim_creating claim =
      at_claim_phase claim_pending
        (λ claim. do
          api.record_event start_creating
          λ w. api.update_claim_status (started claim (api.now w)) w)
        claim

  -- The loop of `waitClaimCompleted`: how many contents are completed or gone, and the entries with
  -- the phases that the lister has.
  pub count_completed : List ModifyContents → Io W Fault (ℕ × List ModifyContents)
  count_completed [] = return (0, [])
  count_completed (entry ∷ entries) = do
    found ← attempt (api.content_of entry.modify_content_name)
    elim found [
      | err e ↦
          if is_not_found e
          then (do (n, rest) ← count_completed entries; return (suc n, entry ∷ rest))
          else fail e
      | ok content ↦ do
        (n, rest) ← count_completed entries
        return (
          (if is_completed content.status.phase then suc n else n),
          record entry { status = content.status.phase } ∷ rest,
        )
    ]

  abbrev pub with_progress : Claim → List ModifyContents → ℕ → Claim
  with_progress claim contents completed = record claim {
    status = record claim.status {
      contents = contents;
      ready = generate_ready_string completed (length claim.status.contents);
    };
  }

  abbrev pub finished : Claim → ℕ → Claim
  finished claim t = record claim {
    status = record claim.status { phase = claim_completed; completed_at = some t };
  }

  -- What follows the loop of `waitClaimCompleted`.
  unfoldable pub settle : Claim → ℕ → List ModifyContents → Io W Fault Claim
  settle claim completed contents =
      let clone = with_progress claim contents completed in
      if eqb completed (length claim.status.contents)
      then (do
        r ← attempt (replace_storage_class api claim)
        elim r [
          | err e ↦ do api.record_event recreating_sc; fail e
          | ok _ ↦ λ w.
              update_claim_status_with_retry api (finished clone (api.now w)) update_retry_times w
        ])
      else if same_bytes claim.status.ready clone.status.ready
      then (do api.claim_add_after claim.name; return claim)
      else update_claim_status_with_retry api clone update_retry_times

  unfoldable pub wait_claim_completed : Claim → Io W Fault Claim
  unfolding count_completed
  wait_claim_completed claim =
      at_claim_phase claim_creating
        (λ claim. do
          (completed, contents) ← count_completed claim.status.contents
          settle claim completed contents)
        claim

  -- The functions of `initSyncFunctions`, run until one fails.
  unfoldable pub sync_claim : String → Claim → Io W Fault (Unit {0})
  sync_claim provisioner claim = do
    pending ← set_claim_pending claim
    checked ← pre_create_claim provisioner pending
    guarded ← set_claim_finalizers checked
    creating ← set_claim_creating guarded
    listed ← create_claim_status api creating
    _ ← wait_claim_completed listed
    return tt
