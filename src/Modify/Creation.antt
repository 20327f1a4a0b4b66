-- ===== src/Modify/Creation.antt =====
-- pkg/modify/claim_worker.go: the contents that are made for a claim, one for each of its volumes.
use e_sdk_k8s_plugin.Prelude.{
  Bool, false, ◌&&◌, Option, none, some, List, [], ◌∷◌, ◌++◌, String, ◌==◌, if◌then◌else◌, length,
  is_empty, is_some,
}
use Prim.Native.String
use e_sdk_k8s_plugin.Prelude.Result.{Result, ok, err}
use e_sdk_k8s_plugin.Prelude.Io.{Io, ◌>>=◌, ◌>>◌, return, fail, attempt}
use e_sdk_k8s_plugin.Modify.Model.{
  Api, Claim, claim_creating, Content, content_unset, ModifyContents, StorageClass, Volume,
  ClaimRef, at_claim_phase, Fault, create_failed, update_retry_times,
}
use e_sdk_k8s_plugin.Modify.Parameters.{generate_ready_string}
use e_sdk_k8s_plugin.Modify.Classes.{is_not_found}
use e_sdk_k8s_plugin.Modify.Status.{update_claim_status_with_retry}

-- What a volume must have for `createContents` not to skip it: its handle and its claim.
unfoldable pub modifiable : Claim → Volume → Option (String × ClaimRef)
modifiable claim volume =
    if volume.storage_class_name == claim.source_name && volume.phase == "Bound"
    then elim volume.csi_handle [
      | none ↦ none
      | some handle ↦
          if handle == ""
          then none
          else elim volume.claim_ref [ none ↦ none | some ref ↦ some (handle, ref) ]
    ]
    else none

abbrev pub content_name : Claim → ClaimRef → String
content_name claim ref = String.◌++◌ claim.name (String.◌++◌ "-" ref.uid)

-- `MakeMetaWithNamespace` of pkg/utils/utils.go.
abbrev pub make_meta_with_namespace : String → String → String
make_meta_with_namespace ns name = String.◌++◌ ns (String.◌++◌ "/" name)

-- The content that `createContent` makes.
abbrev pub new_content : Claim → Volume → String → ClaimRef → StorageClass → Content
new_content claim volume handle ref class = record {
  name = content_name claim ref;
  deletion_timestamp = none;
  finalizers = [];
  annotations = none;
  spec = record {
    claim_name = claim.name;
    pv_name = volume.name;
    volume_handle = handle;
    parameters = claim.spec_parameters;
    storage_class_parameters = class.parameters;
    source_volume = make_meta_with_namespace ref.namespace ref.name;
  };
  status = record { phase = content_unset; started_at = none; completed_at = none };
}

-- A claim that the lister has and that is being deleted.
abbrev pub is_deleted : Result Fault Claim → Bool
is_deleted (ok claim) = is_some claim.deletion_timestamp
is_deleted (err _) = false

module _ {W : Type 0} (api : Api W) where
  unfoldable pub fetch_ref_resources : Claim → Io W Fault (List Volume × StorageClass)
  fetch_ref_resources claim = do
    volumes ← api.list_volumes
    class ← attempt (api.class_of claim.source_name)
    elim class [
      | err e ↦ if is_not_found e then (do api.record_event create_failed; fail e) else fail e
      | ok c ↦ return (volumes, c)
    ]

  unfoldable pub create_content :
      Claim → Volume → String → ClaimRef → StorageClass → Io W Fault Content
  create_content claim volume handle ref class = do
    existing ← attempt (api.content_of (content_name claim ref))
    elim existing [
      | ok content ↦ return content
      | err e ↦
          if is_not_found e
          then api.create_content (new_content claim volume handle ref class)
          else fail e
    ]

  abbrev pub modify_entry : Content → ModifyContents
  modify_entry content = record {
    modify_content_name = content.name;
    source_volume = content.spec.source_volume;
    status = content_unset;
  }

  -- The loop over the volumes, with the entries made so far.
  pub contents_loop :
      Claim → StorageClass → List Volume → List ModifyContents → Io W Fault (List ModifyContents)
  contents_loop claim class [] contents = return contents
  contents_loop claim class (volume ∷ volumes) contents = elim (modifiable claim volume) [
    | none ↦ contents_loop claim class volumes contents
    | some (handle, ref) ↦ do
      newer ← attempt (api.claim_of claim.name)
      if is_deleted newer then return contents else (do
        content ← create_content claim volume handle ref class
        contents_loop claim class volumes (contents ++ modify_entry content ∷ []))
  ]

  abbrev pub with_contents : Claim → List ModifyContents → Claim
  with_contents claim contents = record claim {
    status = record claim.status {
      contents = contents;
      parameters = claim.spec_parameters;
      ready = generate_ready_string 0 (length contents);
    };
  }

  unfoldable pub create_contents : Claim → List Volume → StorageClass → Io W Fault Claim
  unfolding contents_loop
  create_contents claim volumes class = do
    contents ← contents_loop claim class volumes claim.status.contents
    (if is_empty contents
        then (do
          api.record_event create_failed
          update_claim_status_with_retry api (with_contents claim contents) update_retry_times)
        else update_claim_status_with_retry api (with_contents claim contents) update_retry_times)

  unfoldable pub create_claim_status : Claim → Io W Fault Claim
  create_claim_status claim =
      at_claim_phase claim_creating
        (λ claim.
          if is_empty claim.status.contents
          then (do
            (volumes, class) ← fetch_ref_resources claim
            create_contents claim volumes class)
          else return claim)
        claim
