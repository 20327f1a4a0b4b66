-- ===== src/Modify/Examples.antt =====
-- The results on pkg/modify at a claim `c` on the storage class `gold`.
use e_sdk_k8s_plugin.Prelude.{
  false, Option, none, some, [], ◌∷◌, String, ◌==◌, ◌≡◌, refl, if◌then◌else◌, inl, ◌⊎◌, ◌↔◌, All,
  is_empty,
}
use e_sdk_k8s_plugin.Prelude.Dict.{Dict, lookup, insert}
use e_sdk_k8s_plugin.Prelude.Result.{ok, err}
use e_sdk_k8s_plugin.Modify.Model.{
  Claim, claim_creating, claim_completed, Content, content_unset, content_creating,
  content_completed, StorageClass, Fault,
}
use e_sdk_k8s_plugin.Modify.Parameters.{
  check_parameters, generate_backup_sc_name, generate_ready_string,
}
use e_sdk_k8s_plugin.Modify.Parameters.Laws.{Allowed, check_parameters_iff}
use e_sdk_k8s_plugin.Modify.Classes.{
  replace_storage_class, get_storage_class, replace_with, delete_and_recreate_storage_class,
}
use e_sdk_k8s_plugin.Modify.Classes.Replace.{
  Survives, replace_storage_class-Survives, replace_storage_class-absent,
}
use e_sdk_k8s_plugin.Modify.Status.{update_claim_status_with_retry}
use e_sdk_k8s_plugin.Modify.Claim.{wait_claim_completed, settle}
use e_sdk_k8s_plugin.Strconv.{format_int}
use e_sdk_k8s_plugin.Modify.Claim.Completion.{wait_claim_completed-Done, Done}
use e_sdk_k8s_plugin.Modify.Content.{
  sync_content, call_volume_modify, modify_request, rollback_request,
}
use e_sdk_k8s_plugin.Modify.Content.Phases.{Reach}
use e_sdk_k8s_plugin.Modify.Content.Refinement.{sync_content-refines}
use e_sdk_k8s_plugin.Modify.Content.Rollback.{call_volume_modify-undone}
use e_sdk_k8s_plugin.Modify.Sample.{
  Cluster, api, classes, phases, api-ClassLaws, api-PhaseLaws, api-RequestLaws, api-StatusLaws,
}

abbrev metro : Dict String
metro = ("hyperMetro", "true") ∷ ("metroPairSyncSpeed", "3") ∷ []

abbrev lun : Dict String
lun = ("volumeType", "lun") ∷ []

abbrev gold : StorageClass
gold = record { name = "gold"; resource_version = "1"; provisioner = "csi"; parameters = some lun }

abbrev content : Content
content = record {
  name = "c-1";
  deletion_timestamp = none;
  finalizers = [];
  annotations = none;
  spec = record {
    claim_name = "";
    pv_name = "pv";
    volume_handle = "array.lun";
    parameters = metro;
    storage_class_parameters = some lun;
    source_volume = "ns/pvc";
  };
  status = record { phase = content_unset; started_at = none; completed_at = none };
}

abbrev creating : Content
creating = record content { status = record content.status { phase = content_creating } }

abbrev completed : Content
completed = record content { status = record content.status { phase = content_completed } }

abbrev claim : Claim
claim = record {
  name = "c";
  deletion_timestamp = none;
  finalizers = [];
  source_kind = "StorageClass";
  source_name = "gold";
  spec_parameters = metro;
  status = record {
    phase = claim_creating;
    contents =
        record { modify_content_name = "c-1"; source_volume = "ns/pvc"; status = content_unset }
        ∷ [];
    ready = [];
    parameters = metro;
    started_at = none;
    completed_at = none;
  };
}

-- A cluster with the class under a name, and the content.
abbrev cluster : String → Option Content → Cluster
cluster class_name found = record {
  classes = λ n. if class_name == n then some gold else none;
  contents = λ n. if "c-1" == n then found else none;
  claims = λ n. if "c" == n then some claim else none;
  sent = [];
}

check_parameters_iff_example :
    (check_parameters metro ≡ none) ↔ ((is_empty metro ≡ false) × All (Allowed metro) metro)
check_parameters_iff_example = check_parameters_iff metro

replace_storage_class-Survives_example :
    Survives api classes api-ClassLaws claim lun
      (classes (replace_storage_class api claim (cluster "gold" none)).0)
unfolding generate_backup_sc_name
replace_storage_class-Survives_example =
    replace_storage_class-Survives api classes api-ClassLaws claim lun (cluster "gold" none) refl
      (inl refl)

-- A run that succeeds on the backup alone deletes the backup too, and nothing is left of the class.
lost : replace_storage_class api claim (cluster "gold-c" none) ≡ (
  record {
    classes = λ n. if "gold-c" == n then none else if "gold-c" == n then some gold else none;
    contents = (cluster "gold-c" none).contents;
    claims = (cluster "gold-c" none).claims;
    sent = [];
  },
  ok tt,
)
unfolding replace_storage_class get_storage_class replace_with lookup insert
    delete_and_recreate_storage_class generate_backup_sc_name
lost = refl

-- Only the backup is left, as after a crash between the deletion and the creation.
replace_storage_class-absent_example :
    classes (replace_storage_class api claim (cluster "gold-c" none)).0 "gold" ≡ none
replace_storage_class-absent_example =
    replace_storage_class-absent api classes api-ClassLaws claim (cluster "gold-c" none) refl

sync_content-refines_example :
    Reach content_unset (phases (sync_content api content (cluster "gold" (some content))).0 "c-1")
sync_content-refines_example =
    sync_content-refines api phases api-PhaseLaws content (cluster "gold" (some content)) refl

-- Nobody has the content, so that its new status cannot be stored and the modification is undone.
call_volume_modify-undone_example :
    ((d : Content)
      → (call_volume_modify api creating (cluster "gold" none)).1 ≡ ok d
      → (call_volume_modify api creating (cluster "gold" none)).0.sent
        ≡ modify_request creating ∷ [])
    × ((e : Fault)
        → (call_volume_modify api creating (cluster "gold" none)).1 ≡ err e
        → ((refused : Fault) × ((api.modify_volume
                (modify_request creating)
                (cluster "gold" none)).1
              ≡ err refused)
            × ((call_volume_modify api creating (cluster "gold" none)).0.sent
                ≡ modify_request creating ∷ []))
          ⊎ ((call_volume_modify api creating (cluster "gold" none)).0.sent
              ≡ rollback_request creating ∷ modify_request creating ∷ []))
call_volume_modify-undone_example =
    call_volume_modify-undone api (λ w. w.sent) api-RequestLaws creating (cluster "gold" none) refl

abbrev before : Cluster
before = cluster "gold" (some completed)

abbrev settled : Claim
settled = record claim {
  status = record {
    phase = claim_completed;
    contents =
        record { modify_content_name = "c-1"; source_volume = "ns/pvc"; status = content_completed }
        ∷ [];
    ready = b'1' ∷ b'/' ∷ b'1' ∷ [];
    parameters = metro;
    started_at = none;
    completed_at = some 7;
  };
}

settles : (wait_claim_completed api claim before).1 ≡ ok settled
unfolding wait_claim_completed settle replace_storage_class get_storage_class replace_with lookup
    insert delete_and_recreate_storage_class generate_backup_sc_name update_claim_status_with_retry
    generate_ready_string format_int
settles = refl

wait_claim_completed-Done_example :
    All (Done api api-StatusLaws before) claim.status.contents
    × ((replace_storage_class api claim before).1 ≡ ok tt)
wait_claim_completed-Done_example =
    wait_claim_completed-Done api api-StatusLaws claim settled before refl settles refl
