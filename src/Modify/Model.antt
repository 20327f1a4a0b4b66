-- ===== src/Modify/Model.antt =====
-- The objects of pkg/modify (client/apis/xuanwu/v1/volumemodifyclaim.go and volumemodifycontent.go) and
-- what the controller calls: the Kubernetes API, the listers and the CSI driver are the record `Api`
-- of operations on a world `W`. An instant is a number, and a nil pointer or map is `none`.
use e_sdk_k8s_plugin.Prelude.{
  ℕ, Bool, true, false, Option, List, [], ◌∷◌, String, ◌==◌, ◌||◌, ◌≡◌, if◌then◌else◌, keep, not,
  eqb, eqb_iff, ap, sym, ◌∙◌, refl,
}
use e_sdk_k8s_plugin.Prelude.Dict.{Dict}
use e_sdk_k8s_plugin.Prelude.Result.{ok}
use e_sdk_k8s_plugin.Prelude.Io.{Io}
use e_sdk_k8s_plugin.Strconv.{Bytes}

pub data ClaimPhase : Type 0 where
  claim_unset claim_pending claim_creating claim_completed claim_rollback claim_deleting :
      ClaimPhase

pub data ContentPhase : Type 0 where
  content_unset content_pending content_creating content_staging content_completed : ContentPhase
  content_rollback content_deleting : ContentPhase

-- The phases are texts in the source; they are compared by their numbers here.
abbrev pub claim_phase_number : ClaimPhase → ℕ
claim_phase_number claim_unset = 0
claim_phase_number claim_pending = 1
claim_phase_number claim_creating = 2
claim_phase_number claim_completed = 3
claim_phase_number claim_rollback = 4
claim_phase_number claim_deleting = 5

abbrev pub is_claim_phase : ClaimPhase → ClaimPhase → Bool
is_claim_phase p q = eqb (claim_phase_number p) (claim_phase_number q)

abbrev pub content_phase_number : ContentPhase → ℕ
content_phase_number content_unset = 0
content_phase_number content_pending = 1
content_phase_number content_creating = 2
content_phase_number content_staging = 3
content_phase_number content_completed = 4
content_phase_number content_rollback = 5
content_phase_number content_deleting = 6

abbrev pub is_content_phase : ContentPhase → ContentPhase → Bool
is_content_phase p q = eqb (content_phase_number p) (content_phase_number q)

pub is_claim_phase_iff : (p q : ClaimPhase) → is_claim_phase p q ≡ true → p ≡ q
is_claim_phase_iff p q t = back p ∙ ap phase_of ((eqb_iff _ _).0 t) ∙ sym (back q)
  where
    phase_of : ℕ → ClaimPhase
    phase_of n =
        if eqb n 0
        then claim_unset
        else if eqb n 1
        then claim_pending
        else if eqb n 2
        then claim_creating
        else if eqb n 3
        then claim_completed
        else if eqb n 4
        then claim_rollback
        else claim_deleting

    back : (p : ClaimPhase) → p ≡ phase_of (claim_phase_number p)
    back claim_unset = refl
    back claim_pending = refl
    back claim_creating = refl
    back claim_completed = refl
    back claim_rollback = refl
    back claim_deleting = refl

pub is_content_phase_iff : (p q : ContentPhase) → is_content_phase p q ≡ true → p ≡ q
is_content_phase_iff p q t = back p ∙ ap phase_of ((eqb_iff _ _).0 t) ∙ sym (back q)
  where
    phase_of : ℕ → ContentPhase
    phase_of n =
        if eqb n 0
        then content_unset
        else if eqb n 1
        then content_pending
        else if eqb n 2
        then content_creating
        else if eqb n 3
        then content_staging
        else if eqb n 4
        then content_completed
        else if eqb n 5
        then content_rollback
        else content_deleting

    back : (p : ContentPhase) → p ≡ phase_of (content_phase_number p)
    back content_unset = refl
    back content_pending = refl
    back content_creating = refl
    back content_staging = refl
    back content_completed = refl
    back content_rollback = refl
    back content_deleting = refl

pub record ModifyContents : Type 0 where
  pub modify_content_name : String
  pub source_volume : String
  pub status : ContentPhase

pub record ClaimStatus : Type 0 where
  pub phase : ClaimPhase
  pub contents : List ModifyContents
  pub ready : Bytes
  pub parameters : Dict String
  pub started_at : Option ℕ
  pub completed_at : Option ℕ

-- `VolumeModifyClaim`: the fields of its metadata, `spec` and `status` that the controller uses.
pub record Claim : Type 0 where
  pub name : String
  pub deletion_timestamp : Option ℕ
  pub finalizers : List String
  pub source_kind : String
  pub source_name : String
  pub spec_parameters : Dict String
  pub status : ClaimStatus

pub record ContentSpec : Type 0 where
  pub claim_name : String
  pub pv_name : String
  pub volume_handle : String
  pub parameters : Dict String
  pub storage_class_parameters : Option (Dict String)
  pub source_volume : String

pub record ContentStatus : Type 0 where
  pub phase : ContentPhase
  pub started_at : Option ℕ
  pub completed_at : Option ℕ

pub record Content : Type 0 where
  pub name : String
  pub deletion_timestamp : Option ℕ
  pub finalizers : List String
  pub annotations : Option (Dict String)
  pub spec : ContentSpec
  pub status : ContentStatus

-- What is used of the objects of Kubernetes.
pub record StorageClass : Type 0 where
  pub name : String
  pub resource_version : String
  pub provisioner : String
  pub parameters : Option (Dict String)

pub record ClaimRef : Type 0 where
  pub namespace : String
  pub name : String
  pub uid : String

pub record Volume : Type 0 where
  pub namespace : String
  pub name : String
  pub storage_class_name : String
  pub phase : String
  pub csi_handle : Option String
  pub claim_ref : Option ClaimRef

pub record ModifyVolumeRequest : Type 0 where
  pub volume_id : String
  pub storage_class_parameters : Option (Dict String)
  pub mutable_parameters : Dict String

-- What `apiErrors.IsNotFound` and `IsAlreadyExists` tell apart; `nil_pointer` is a run-time panic.
pub data Fault : Type 0 where
  not_found already_exists nil_pointer : Fault
  other : String → Fault

-- The reasons of the recorded events.
pub data Reason : Type 0 where
  create_failed start_creating delete_failed recreating_sc : Reason

pub record Api (W : Type 0) : Type 0 where
  -- claimLister and contentLister
  pub claim_of : String → Io W Fault Claim
  pub content_of : String → Io W Fault Content
  pub list_contents : Io W Fault (List Content)
  -- clientSet and contentClient
  pub update_claim : Claim → Io W Fault Claim
  pub update_claim_status : Claim → Io W Fault Claim
  pub create_content : Content → Io W Fault Content
  pub update_content : Content → Io W Fault Content
  pub update_content_status : Content → Io W Fault Content
  pub delete_content : String → Io W Fault (Unit {0})
  -- client
  pub class_of : String → Io W Fault StorageClass
  pub create_class : StorageClass → Io W Fault StorageClass
  pub delete_class : String → Io W Fault (Unit {0})
  pub list_volumes : Io W Fault (List Volume)
  pub attachment_labels : String → Io W Fault (List (Dict String))
  -- modifyClient
  pub modify_volume : ModifyVolumeRequest → Io W Fault (Dict String)
  -- eventRecorder, the delayed `AddAfter` of the two queues, the clock and `time.Sleep`
  pub record_event : Reason → W → W
  pub claim_add_after : String → W → W
  pub content_add_after : String → W → W
  pub sleep : W → W
  pub now : W → ℕ

-- `if claim.Status.Phase != phase { return claim, nil }`, before the rest of a function.
abbrev pub at_claim_phase :
    {W : Type 0} → ClaimPhase → (Claim → Io W Fault Claim) → Claim → Io W Fault Claim
at_claim_phase phase body claim w =
    if is_claim_phase claim.status.phase phase then body claim w else (w, ok claim)

abbrev pub at_content_phase :
    {W : Type 0} → ContentPhase → (Content → Io W Fault Content) → Content → Io W Fault Content
at_content_phase phase body content w =
    if is_content_phase content.status.phase phase then body content w else (w, ok content)

-- `Contains` of utils/utils.go on texts.
unfoldable pub contains : List String → String → Bool
contains [] target = false
contains (source ∷ sources) target = source == target || contains sources target

-- `RemoveString` of utils/utils.go.
unfoldable pub remove_string : List String → String → List String
remove_string slice s = keep (λ item. not (item == s)) slice

-- `UpdateRetryTimes`.
abbrev pub update_retry_times : ℕ
update_retry_times = 10
