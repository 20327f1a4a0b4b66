-- ===== src/Modify/Deletion.antt =====
-- pkg/modify/claim_worker.go: the deletion of a claim and of the contents made for it.
use e_sdk_k8s_plugin.Prelude.{
  ℕ, zero, suc, Bool, false, ◌&&◌, ◌||◌, Option, none, some, List, [], ◌∷◌, String, ◌==◌,
  if◌then◌else◌, is_empty, is_some, keep,
}
use e_sdk_k8s_plugin.Prelude.Dict.{Dict, lookup, insert}
use e_sdk_k8s_plugin.Prelude.Result.{ok, err}
use e_sdk_k8s_plugin.Prelude.Io.{Io, ◌>>=◌, ◌>>◌, return, fail, attempt}
use e_sdk_k8s_plugin.Modify.Model.{
  Api, Claim, ClaimPhase, claim_unset, claim_creating, claim_rollback, claim_deleting,
  is_claim_phase, Content, Fault, other, delete_failed, remove_string, update_retry_times,
}
use e_sdk_k8s_plugin.Modify.Classes.{is_not_found, tolerate}
use e_sdk_k8s_plugin.Modify.Status.{
  protect_claim_finalizer, with_phase, update_claim_status_with_retry,
}
use e_sdk_k8s_plugin.Modify.Claim.{wait_claim_completed, sync_claim}

-- `m[key]` of a map that may be nil.
abbrev pub read_map : Option (Dict String) → String → Option String
read_map none key = none
read_map (some m) key = lookup key m

-- The annotation has this value.
abbrev pub has_policy : Content → String → Bool
has_policy content value = elim (read_map content.annotations "modify.xuanwu.io/reclaimPolicy") [
  | none ↦ false
  | some policy ↦ policy == value
]

abbrev pub annotated : Content → String → Content
annotated content value = record content {
  annotations = elim content.annotations [
    | none ↦ some (("modify.xuanwu.io/reclaimPolicy", value) ∷ [])
    | some m ↦ some (insert "modify.xuanwu.io/reclaimPolicy" value m)
  ];
}

-- `class.Parameters["volumeType"] == "lun"`
abbrev pub is_lun : Option (Dict String) → Bool
is_lun parameters = elim (read_map parameters "volumeType") [ none ↦ false | some t ↦ t == "lun" ]

abbrev pub is_creating : ClaimPhase → Bool
is_creating phase = is_claim_phase phase claim_creating

module _ {W : Type 0} (api : Api W) where
  unfoldable pub get_ref_contents_from_lister : String → Io W Fault (List Content)
  get_ref_contents_from_lister claim_name = do
    contents ← api.list_contents
    return (keep (λ content. content.spec.claim_name == claim_name) contents)

  -- The rounds that are left, with the error of the last one.
  pub annotation_loop : Content → String → ℕ → Option Fault → Io W Fault (Unit {0})
  annotation_loop content value zero none = return tt
  annotation_loop content value zero (some e) = fail e
  annotation_loop content value (suc n) last = do
    found ← attempt (api.content_of content.name)
    elim found [
      | err e ↦ if is_not_found e then fail e else annotation_loop content value n (some e)
      | ok newer ↦ if has_policy newer value then return tt else (do
        updated ← attempt (api.update_content (annotated newer value))
        elim updated [
          | ok _ ↦ return tt
          | err e ↦ do api.sleep; annotation_loop content value n (some e)
        ])
    ]

  unfoldable pub add_annotation_to_content : Content → String → ℕ → Io W Fault (Unit {0})
  unfolding annotation_loop
  add_annotation_to_content content value retry_times =
      if has_policy content value then return tt else annotation_loop content value retry_times none

  unfoldable pub delete_ref_content : Content → Io W Fault (Unit {0})
  delete_ref_content content = tolerate is_not_found (api.delete_content content.name)

  -- The two loops of `deleteContent`: the first asks each content to roll back before it is deleted.
  pub delete_contents : Bool → List Content → Io W Fault (Unit {0})
  delete_contents rollback [] = return tt
  delete_contents rollback (content ∷ contents) =
      if is_some content.deletion_timestamp
      then delete_contents rollback contents
      else if rollback
      then (do
        _ ← add_annotation_to_content content "rollback" update_retry_times
        _ ← delete_ref_content content
        delete_contents rollback contents)
      else (do _ ← delete_ref_content content; delete_contents rollback contents)

  -- `deleteContent` in a phase in which nothing was deleted yet.
  unfoldable pub start_deletion : Claim → Io W Fault Claim
  unfolding delete_contents
  start_deletion claim = do
    contents ← get_ref_contents_from_lister claim.name
    class ← attempt (api.class_of claim.source_name)
    elim class [
      | err e ↦ do api.record_event delete_failed; fail (other "fetch storageclass error")
      | ok c ↦
          if is_lun c.parameters && is_creating claim.status.phase
          then (do
            api.record_event delete_failed
            fail (other "can not delete claim while creating with lun type, please wait"))
          else (do
            _ ← delete_contents (is_creating claim.status.phase) contents
            update_claim_status_with_retry api
                (with_phase claim
                  (if is_creating claim.status.phase then claim_rollback else claim_deleting))
                update_retry_times)
    ]

  unfoldable pub delete_content : Claim → Io W Fault Claim
  delete_content claim =
      if is_claim_phase claim.status.phase claim_unset
        || is_claim_phase claim.status.phase claim_deleting
        || is_claim_phase claim.status.phase claim_rollback
      then return claim
      else start_deletion claim

  -- `waitClaimDelete` in one of its two phases.
  unfoldable pub release_claim : Claim → Io W Fault Claim
  release_claim claim = do
    contents ← get_ref_contents_from_lister claim.name
    (if is_empty contents
        then api.update_claim
            (record claim { finalizers = remove_string claim.finalizers protect_claim_finalizer })
        else (do api.claim_add_after claim.name; return claim))

  unfoldable pub wait_claim_delete : Claim → Io W Fault Claim
  wait_claim_delete claim =
      if is_claim_phase claim.status.phase claim_deleting
        || is_claim_phase claim.status.phase claim_rollback
      then release_claim claim
      else return claim

  unfoldable pub sync_delete_claim : Claim → Io W Fault (Unit {0})
  sync_delete_claim claim = do
    settled ← wait_claim_completed api claim
    deleting ← delete_content settled
    _ ← wait_claim_delete deleting
    return tt

  unfoldable pub sync_claim_work : String → String → Io W Fault (Unit {0})
  sync_claim_work provisioner name = do
    found ← attempt (api.claim_of name)
    elim found [
      | err e ↦ if is_not_found e then return tt else fail e
      | ok claim ↦
          if is_some claim.deletion_timestamp
          then sync_delete_claim claim
          else sync_claim api provisioner claim
    ]
