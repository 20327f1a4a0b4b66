-- ===== src/Modify/Sample.antt =====
-- A small cluster, as a concrete interpretation of the calls of pkg/modify for the tests: the classes,
-- contents and claims by name, and the requests that the driver was sent.
use e_sdk_k8s_plugin.Prelude.{
  Option, none, some, List, [], ◌∷◌, String, ◌==◌, ◌≡◌, refl, if◌then◌else◌, inl, ap, sym, ◌∙◌,
  arith, eq_iff, subst,
}
use e_sdk_k8s_plugin.Prelude.Dict.{Dict}
use e_sdk_k8s_plugin.Prelude.Result.{Result, ok, err}
use e_sdk_k8s_plugin.Modify.Model.{
  Api, Claim, Content, ContentPhase, content_unset, StorageClass, Fault, not_found, already_exists,
  ModifyVolumeRequest,
}
use e_sdk_k8s_plugin.Modify.Classes.Store.{Classes, ClassLaws, Read, Create, Delete}
use e_sdk_k8s_plugin.Modify.Content.Phases.{Phases, PhaseLaws, Wrote, Returned, same_ok}
use e_sdk_k8s_plugin.Modify.Content.Rollback.{RequestLaws}
use e_sdk_k8s_plugin.Modify.Claim.Completion.{StatusLaws}

pub record Cluster : Type 0 where
  pub classes : String → Option StorageClass
  pub contents : String → Option Content
  pub claims : String → Option Claim
  pub sent : List ModifyVolumeRequest

abbrev pub found : {A : Type 0} → Option A → Result Fault A
found none = err not_found
found (some a) = ok a

abbrev pub put : {A : Type 0} → String → Option A → (String → Option A) → String → Option A
put name value m other = if name == other then value else m other

abbrev pub read_class : String → Option StorageClass → Result Fault StorageClass
read_class name none = err not_found
read_class name (some c) = ok (record c { name = name })

abbrev create_at :
    StorageClass → Cluster → Option StorageClass → Cluster × Result Fault StorageClass
create_at c w none = (record w { classes = put c.name (some c) w.classes }, ok c)
create_at c w (some _) = (w, err already_exists)

abbrev delete_at : String → Cluster → Option StorageClass → Cluster × Result Fault (Unit {0})
delete_at n w none = (w, err not_found)
delete_at n w (some _) = (record w { classes = put n none w.classes }, ok tt)

-- The status of a content that is there is written.
abbrev write_at : Content → Cluster → Option Content → Cluster × Result Fault Content
write_at c w none = (w, err not_found)
write_at c w (some _) = (record w { contents = put c.name (some c) w.contents }, ok c)

abbrev update_at : Content → Cluster → Option Content → Cluster × Result Fault Content
update_at c w none = (w, err not_found)
update_at c w (some old) = (w, ok (record c { status = old.status }))

abbrev named : String → Option Content → Result Fault Content
named name none = err not_found
named name (some c) = ok (record c { name = name })

abbrev pub api : Api Cluster
api = record {
  claim_of = λ n w. (w, found (w.claims n));
  content_of = λ n w. (w, named n (w.contents n));
  list_contents = λ w. (w, ok []);
  update_claim = λ c w. (w, ok c);
  update_claim_status = λ c w. (w, ok c);
  create_content = λ c w. (w, ok c);
  update_content = λ c w. update_at c w (w.contents c.name);
  update_content_status = λ c w. write_at c w (w.contents c.name);
  delete_content = λ n w. (w, ok tt);
  class_of = λ n w. (w, read_class n (w.classes n));
  create_class = λ c w. create_at c w (w.classes c.name);
  delete_class = λ n w. delete_at n w (w.classes n);
  list_volumes = λ w. (w, ok []);
  attachment_labels = λ n w. (w, ok []);
  modify_volume = λ r w. (record w { sent = r ∷ w.sent }, ok []);
  record_event = λ r w. w;
  claim_add_after = λ n w. w;
  content_add_after = λ n w. w;
  sleep = λ w. w;
  now = λ w. 7;
}

abbrev pub parameters_of : Option StorageClass → Option (Option (Dict String))
parameters_of none = none
parameters_of (some c) = some c.parameters

abbrev pub classes : Cluster → Classes
classes w n = parameters_of (w.classes n)

abbrev pub phase_of : Option Content → ContentPhase
phase_of none = content_unset
phase_of (some c) = c.status.phase

abbrev pub phases : Cluster → Phases
phases w n = phase_of (w.contents n)

put_there :
    {A B : Type 0} (f : Option A → B) (name other : String) (value : Option A)
    (m : String → Option A)
    → f (put name value m other) ≡ (if name == other then f value else f (m other))
put_there f name other value m = ground arith

put_here :
    {A : Type 0} (name : String) (value : Option A) (m : String → Option A)
    → put name value m name ≡ value
put_here name value m = rw ((eq_iff name name).1 refl)

read_lem :
    (n : String) (w : Cluster) (o : Option StorageClass)
    → w.classes n ≡ o
    → Read (classes w) n (classes w) (read_class n o)
read_lem n w none e = ((λ _. refl), ap parameters_of e)
read_lem n w (some c) e = ((λ _. refl), ap parameters_of e, refl)

create_lem :
    (c : StorageClass) (w : Cluster) (o : Option StorageClass)
    → w.classes c.name ≡ o
    → Create (classes w) c (classes (create_at c w o).0) (create_at c w o).1
create_lem c w none e =
    ((λ n. put_there parameters_of c.name n (some c) w.classes), ap parameters_of e)
create_lem c w (some d) e = ((λ _. refl), (λ h. cc (sym (ap parameters_of e) ∙ h)))

delete_lem :
    (n : String) (w : Cluster) (o : Option StorageClass)
    → w.classes n ≡ o
    → Delete (classes w) n (classes (delete_at n w o).0) (delete_at n w o).1
delete_lem n w none e = ((λ _. refl), ap parameters_of e)
delete_lem n w (some c) e = λ m. put_there parameters_of n m none w.classes

pub api-ClassLaws : ClassLaws api classes
api-ClassLaws = record {
  read = λ n w. read_lem n w (w.classes n) refl;
  create = λ c w. create_lem c w (w.classes c.name) refl;
  delete = λ n w. delete_lem n w (w.classes n) refl;
}

named_lem : (n : String) (o : Option Content) (c : Content) → named n o ≡ ok c → c.name ≡ n
named_lem n none c e = cc
named_lem n (some d) c e = ap (λ x. x.name) (sym (same_ok e))

write_lem :
    (c : Content) (w : Cluster) (o : Option Content)
    → Wrote (phases w) c (phases (write_at c w o).0) (write_at c w o).1
write_lem c w none = inl refl
write_lem c w (some _) = (ap phase_of (put_here c.name (some c) w.contents), refl, refl)

update_lem :
    (c : Content) (w : Cluster) (o : Option Content)
    → w.contents c.name ≡ o
    → (phases (update_at c w o).0 ≡ phases w)
      × Returned c.name (phases w c.name) (update_at c w o).1
update_lem c w none e = (refl, λ d eq. absurd (cc eq))
update_lem c w (some old) e = (
  refl,
  λ d eq.
      subst (λ x. (x.name ≡ c.name) × (phases w c.name ≡ x.status.phase)) (same_ok eq)
        (refl, ap phase_of e),
)

pub api-PhaseLaws : PhaseLaws api phases
api-PhaseLaws = record {
  read = λ n w. (refl, named_lem n (w.contents n));
  write = λ c w. write_lem c w (w.contents c.name);
  update = λ c w. update_lem c w (w.contents c.name) refl;
  claims = λ n w. refl;
  modify = λ r w. refl;
  attachments = λ n w. refl;
  event = λ r w. refl;
  add_after = λ n w. refl;
  slept = λ w. refl;
}

write_sends_none :
    (c : Content) (w : Cluster) (o : Option Content) → (write_at c w o).0.sent ≡ w.sent
write_sends_none c w none = refl
write_sends_none c w (some _) = refl

update_sends_none :
    (c : Content) (w : Cluster) (o : Option Content) → (update_at c w o).0.sent ≡ w.sent
update_sends_none c w none = refl
update_sends_none c w (some _) = refl

pub api-RequestLaws : RequestLaws api (λ w. w.sent)
api-RequestLaws = record {
  modify = λ r w. refl;
  read = λ n w. refl;
  write = λ c w. write_sends_none c w (w.contents c.name);
  update = λ c w. update_sends_none c w (w.contents c.name);
  event = λ r w. refl;
  slept = λ w. refl;
}

same_claim : {a b : Claim} → ◌≡◌ {A = Result Fault Claim} (ok a) (ok b) → a ≡ b
same_claim e = cc

pub api-StatusLaws : StatusLaws api
api-StatusLaws = record {
  read = λ n w. refl;
  write = λ c d w e. ap (λ x. x.status) (sym (same_claim e));
}
