-- ===== src/Modify/Content.antt =====
-- pkg/modify/content_worker.go: the synchronization of a content, which modifies one volume.
pub mod Phases
mod Writes
pub mod Refinement
pub mod Rollback
use e_sdk_k8s_plugin.Prelude.{
  ℕ, zero, suc, Bool, true, false, ◌&&◌, ◌||◌, Option, none, some, List, [], ◌∷◌, ◌++◌, String,
  ◌==◌, if◌then◌else◌, not, is_empty, is_some, any,
}
use e_sdk_k8s_plugin.Prelude.Dict.{Dict, lookup, get_or}
use e_sdk_k8s_plugin.Prelude.Result.{Result, ok, err}
use e_sdk_k8s_plugin.Prelude.Io.{Io, ◌>>=◌, ◌>>◌, return, fail, attempt}
use e_sdk_k8s_plugin.Modify.Model.{
  Api, Claim, Content, ContentSpec, ContentPhase, content_unset, content_pending, content_creating,
  content_staging, content_completed, content_rollback, content_deleting, ModifyVolumeRequest,
  Fault, is_content_phase, at_content_phase, not_found, nil_pointer, other, create_failed,
  start_creating, contains, remove_string, update_retry_times,
}
use e_sdk_k8s_plugin.Modify.Parameters.{check_parameters, generate_rollback_params}
use e_sdk_k8s_plugin.Modify.Classes.{is_not_found}
use e_sdk_k8s_plugin.Modify.Claim.{is_completed}
use e_sdk_k8s_plugin.Modify.Deletion.{has_policy, is_lun}

abbrev pub rescan_label_key : String
rescan_label_key = "modify.xuanwu.huawei.io/needScan"

abbrev pub protect_content_finalizer : String
protect_content_finalizer = "modify.xuanwu.huawei.io/volumemodifycontent-protection"

abbrev pub with_content_phase : Content → ContentPhase → Content
with_content_phase content phase = record content {
  status = record content.status { phase = phase };
}

abbrev pub modify_request : Content → ModifyVolumeRequest
modify_request content = record {
  volume_id = content.spec.volume_handle;
  storage_class_parameters = content.spec.storage_class_parameters;
  mutable_parameters = content.spec.parameters;
}

abbrev pub rollback_request : Content → ModifyVolumeRequest
rollback_request content = record {
  volume_id = content.spec.volume_handle;
  storage_class_parameters = content.spec.storage_class_parameters;
  mutable_parameters = generate_rollback_params content.spec.parameters;
}

-- `reflect.DeepEqual` of two maps of texts, each key once: the same keys and values.
abbrev pub agrees : Dict String → String × String → Bool
agrees m (key, value) = elim (lookup key m) [ none ↦ false | some v ↦ v == value ]

pub all_agree : Dict String → Dict String → Bool
all_agree m [] = true
all_agree m (p ∷ ps) = agrees m p && all_agree m ps

unfoldable pub same_map : Dict String → Dict String → Bool
unfolding all_agree
same_map m n = all_agree n m && all_agree m n

-- A nil map differs from an empty one.
abbrev pub same_optional : Option (Dict String) → Option (Dict String) → Bool
same_optional none none = true
same_optional none (some _) = false
same_optional (some _) none = false
same_optional (some m) (some n) = same_map m n

unfoldable pub can_retry : Content → Content → Bool
can_retry new old =
    if is_some new.deletion_timestamp
    then true
    else if not (old.spec.volume_handle == new.spec.volume_handle)
    then false
    else if not (old.spec.claim_name == new.spec.claim_name)
    then false
    else if not (old.spec.source_volume == new.spec.source_volume)
    then false
    else if not (same_map old.spec.parameters new.spec.parameters)
    then false
    else same_optional old.spec.storage_class_parameters new.spec.storage_class_parameters

-- The claim of a content is gone or is being deleted.
abbrev pub claim_ended : Result Fault Claim → Bool
claim_ended (ok claim) = is_some claim.deletion_timestamp
claim_ended (err e) = is_not_found e

-- `StorageClassParameters != nil && StorageClassParameters["volumeType"] != "lun"`
abbrev pub is_nas : Option (Dict String) → Bool
is_nas none = false
is_nas (some m) = not (is_lun (some m))

module _ {W : Type 0} (api : Api W) where
  unfoldable pub set_content_pending : Content → Io W Fault Content
  set_content_pending content =
      at_content_phase content_unset
        (λ content. api.update_content_status (with_content_phase content content_pending)) content

  unfoldable pub pre_create_content : Content → Io W Fault Content
  pre_create_content content =
      at_content_phase content_pending
        (λ content.
          if is_empty content.spec.parameters
          then (do
            api.record_event create_failed
            fail (other "check spec failed: parameters is empty"))
          else elim (check_parameters content.spec.parameters) [
            | none ↦ return content
            | some _ ↦ do api.record_event create_failed; fail (other "check parameters error")
          ])
        content

  unfoldable pub set_content_finalizers : Content → Io W Fault Content
  set_content_finalizers content =
      at_content_phase content_pending
        (λ content.
          if contains content.finalizers protect_content_finalizer
          then return content
          else api.update_content (record content {
            finalizers = content.finalizers ++ protect_content_finalizer ∷ [];
          }))
        content

  abbrev pub started_content : Content → ℕ → Content
  started_content content t = record content {
    status = record content.status { started_at = some t; phase = content_creating };
  }

  unfoldable pub create_content_status : Content → Io W Fault Content
  create_content_status content =
      at_content_phase content_pending
        (λ content. do
          api.record_event start_creating
          λ w. api.update_content_status (started_content content (api.now w)) w)
        content

  -- The rounds that are left, with the error of the last one.
  pub update_status_loop : Content → ℕ → Fault → Io W Fault Content
  update_status_loop content zero last = fail last
  update_status_loop content (suc n) last = do
    found ← attempt (api.content_of content.name)
    elim found [
      | err e ↦ if is_not_found e then fail e else update_status_loop content n e
      | ok newer ↦
          if can_retry newer content
          then (do
            updated ← attempt (api.update_content_status (record newer { status = content.status }))
            elim updated [ ok c ↦ return c | err e ↦ do api.sleep; update_status_loop content n e ])
          else fail (other "content spec is modified, abort retry")
    ]

  -- With no round at all the source returns a nil content; it is called with ten.
  unfoldable pub update_status_with_retry : Content → ℕ → Io W Fault Content
  unfolding update_status_loop
  update_status_with_retry content retry_times = update_status_loop content retry_times nil_pointer

  unfoldable pub do_rollback : Content → Io W Fault Content
  do_rollback content = do
    response ← attempt (api.modify_volume (rollback_request content))
    elim response [
      | err _ ↦ do
        api.record_event create_failed
        fail (other "call modify volume interface to rollback error")
      | ok _ ↦ return content
    ]

  -- The status that `setContentStatus` writes.
  abbrev pub with_content_status : Content → ContentPhase → ℕ → Content
  with_content_status content phase t = record content {
    status = record content.status {
      phase = phase;
      completed_at = if is_completed phase then some t else content.status.completed_at;
    };
  }

  -- `setContentStatus` after its clone was made.
  unfoldable pub write_status : Content → Io W Fault Content
  write_status clone = do
    updated ← attempt (api.update_content_status clone)
    elim updated [
      | ok c ↦ return c
      | err e ↦ do
        retried ← attempt (update_status_with_retry clone update_retry_times)
        elim retried [ ok c ↦ return c | err _ ↦ do _ ← attempt (do_rollback clone); fail e ]
    ]

  unfoldable pub set_content_status : Content → ContentPhase → Io W Fault Content
  set_content_status content phase w =
      write_status (with_content_status content phase (api.now w)) w

  unfoldable pub finish_modify : Content → Io W Fault Content
  finish_modify content = do
    completed ← set_content_status content content_completed
    api.record_event start_creating
    return completed

  -- The response asks for a rescan of the hosts before the modification is complete.
  abbrev pub needs_staging : Dict String → Bool
  needs_staging attributes =
      get_or attributes "storage" "" == "oceanstor-san"
      && get_or attributes "needStaging" "" == "true"

  unfoldable pub call_volume_modify : Content → Io W Fault Content
  call_volume_modify content =
      at_content_phase content_creating
        (λ content. do
          response ← attempt (api.modify_volume (modify_request content))
          elim response [
            | err _ ↦ do
              api.record_event create_failed
              fail (other "call modify volume insterface error")
            | ok attributes ↦
                if needs_staging attributes
                then set_content_status content content_staging
                else finish_modify content
          ])
        content

  abbrev pub rescanning : Dict String → Bool
  rescanning labels = get_or labels rescan_label_key "" == "true"

  unfoldable pub wait_volume_staged : Content → Io W Fault Content
  wait_volume_staged content =
      at_content_phase content_staging
        (λ content. do
          attachments ← api.attachment_labels content.spec.pv_name
          (if any rescanning attachments
              then (do api.content_add_after content.name; return content)
              else finish_modify content))
        content

  -- The functions of `initContentFunctions`, run until one fails.
  unfoldable pub run_functions : Content → Io W Fault Content
  run_functions content = do
    pending ← set_content_pending content
    checked ← pre_create_content pending
    guarded ← set_content_finalizers checked
    creating ← create_content_status guarded
    modified ← call_volume_modify creating
    wait_volume_staged modified

  unfoldable pub sync_functions : Content → Io W Fault (Unit {0})
  sync_functions content = do _ ← run_functions content; return tt

  -- A claim that was not found is a nil pointer, which the log line of the early return reads.
  unfoldable pub sync_content : Content → Io W Fault (Unit {0})
  sync_content content = if content.spec.claim_name == "" then sync_functions content else (do
    claim ← attempt (api.claim_of content.spec.claim_name)
    (if claim_ended claim && is_nas content.spec.storage_class_parameters
        then elim claim [ ok _ ↦ return tt | err _ ↦ fail nil_pointer ]
        else sync_functions content))

  unfoldable pub rollback_content : Content → Io W Fault Content
  rollback_content content =
      if is_content_phase content.status.phase content_rollback then do_rollback content else (do
        updated ←
            update_status_with_retry (with_content_phase content content_rollback)
              update_retry_times
        do_rollback updated)

  -- The end of `syncDeleteContent`.
  unfoldable pub release_content : Content → Io W Fault (Unit {0})
  release_content content = do
    _ ←
        api.update_content (record content {
          finalizers = remove_string content.finalizers protect_content_finalizer;
        })
    return tt

  unfoldable pub sync_delete_content : Content → Io W Fault (Unit {0})
  sync_delete_content content =
      if is_content_phase content.status.phase content_unset
      then return tt
      else if is_content_phase content.status.phase content_pending
          || is_content_phase content.status.phase content_creating
      then release_content content
      else if has_policy content "rollback"
      then (do rolled ← rollback_content content; release_content rolled)
      else release_content content

  unfoldable pub sync_content_work : String → Io W Fault (Unit {0})
  sync_content_work name = do
    found ← attempt (api.content_of name)
    elim found [
      | err e ↦ if is_not_found e then return tt else fail e
      | ok content ↦
          if is_some content.deletion_timestamp
          then sync_delete_content content
          else sync_content content
    ]
