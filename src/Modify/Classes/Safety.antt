-- ===== src/Modify/Classes/Safety.antt =====
-- What replacing a storage class leaves in the cluster, whichever call fails.
use Prim.Native.String
use text.Mathlib.TextLemmas.{append_cancel_left, append-nil as text_append-nil, cons-append}
use e_sdk_k8s_plugin.Prelude.{
  Bool, true, false, Option, none, some, String, ◌==◌, ◌≡◌, ◌≢◌, ◌⊎◌, inl, inr, ap, sym, ◌∙◌, arith,
  eq_iff, Bool-cases, subst,
}
use e_sdk_k8s_plugin.Prelude.Dict.{Dict}
use e_sdk_k8s_plugin.Prelude.Result.{Result, err, Result-cases}
use e_sdk_k8s_plugin.Prelude.Io.{Io, ◌>>=◌}
use e_sdk_k8s_plugin.Modify.Model.{Api, StorageClass, Fault}
use e_sdk_k8s_plugin.Modify.Parameters.{generate_backup_sc_name}
use e_sdk_k8s_plugin.Modify.Classes.{
  delete_and_recreate_storage_class, is_not_found, is_already_exists, tolerate,
}
use e_sdk_k8s_plugin.Modify.Classes.Store.{
  Classes, ClassLaws, passed, create_kept, create_made, delete_kept, delete_done,
}

-- A tolerated call either lets the rest run or stops.
pub tolerate_rule :
    {W A B : Type 0} (Holds : W × Result Fault B → Type 0) (passes : Fault → Bool)
    (call : Io W Fault A) (next : Unit {0} → Io W Fault B) (w : W)
    → (passed passes (call w).1 ≡ true → Holds (next tt (call w).0))
    → ((e : Fault) → Holds ((call w).0, err e))
    → Holds ((tolerate passes call >>= next) w)
tolerate_rule Holds passes call next w good bad = elim (Result-cases (call w).1) [
  | inl (a, r) ↦ rw r (good (rw r))
  | inr (e, r) ↦ elim (Bool-cases (passes e)) [
    | inl t ↦ rw (r, t) (good (rw r t))
    | inr f ↦ rw (r, f) (bad e)
  ]
]

backup_name_differs : (claim_name sc : String) → generate_backup_sc_name claim_name sc ≢ sc
unfolding generate_backup_sc_name
backup_name_differs claim_name sc e =
    let tail =
      append_cancel_left sc (String.◌++◌ "-" claim_name) "" (e ∙ sym (text_append-nil sc)) in
    cc (sym (cons-append _ "" claim_name) ∙ tail)

-- The name of the backup and the name of the class are different texts.
pub backup_is_other :
    (claim_name sc : String)
    → ((generate_backup_sc_name claim_name sc == sc) ≡ false)
      × ((sc == generate_backup_sc_name claim_name sc) ≡ false)
backup_is_other claim_name sc = ground (
  arith,
  backup_name_differs claim_name sc,
  eq_iff (generate_backup_sc_name claim_name sc) sc,
  eq_iff sc (generate_backup_sc_name claim_name sc),
)

module _ {W : Type 0} (api : Api W) (classes : W → Classes) (laws : ClassLaws api classes) where
  -- The old parameters stand under one of the two names, or the new class is there.
  abbrev pub Recoverable :
      String → String → Option (Dict String) → Option (Dict String) → Classes → Type 0
  Recoverable sc backup old new c = (c sc ≡ some old) ⊎ (c backup ≡ some old) ⊎ (c sc ≡ some new)

  -- The four calls one after the other.
  module _ (claim_name : String) (old create : StorageClass) (w : W) where
    abbrev pub backup : String
    backup = generate_backup_sc_name claim_name old.name

    abbrev saved : StorageClass
    saved = record old { name = backup; resource_version = "" }

    abbrev fresh : StorageClass
    fresh = record create { resource_version = "" }

    abbrev after_backup : W
    after_backup = (api.create_class saved w).0

    abbrev after_delete : W
    after_delete = (api.delete_class old.name after_backup).0

    abbrev after_create : W
    after_create = (api.create_class fresh after_delete).0

    -- What is under the backup's name may be a backup of an earlier try.
    abbrev pub Free : Type 0
    Free = (classes w backup ≡ none) ⊎ (classes w backup ≡ some old.parameters)

    backed_up :
        Free
        → passed is_already_exists (api.create_class saved w).1 ≡ true
        → classes after_backup backup ≡ some old.parameters
    backed_up free t = create_made _ _ saved _ t (laws.create saved w) free

    still_backed_up :
        classes after_backup backup ≡ some old.parameters
        → classes after_delete backup ≡ some old.parameters
    still_backed_up h =
        delete_kept _ _ old.name _ backup (laws.delete old.name after_backup)
          (backup_is_other claim_name old.name).1
        ∙ h

    recreated :
        create.name ≡ old.name
        → passed is_not_found (api.delete_class old.name after_backup).1 ≡ true
        → passed is_already_exists (api.create_class fresh after_delete).1 ≡ true
        → classes after_create old.name ≡ some create.parameters
    recreated same t t' =
        subst (λ n. classes after_create n ≡ some create.parameters) same
          (create_made _ _ fresh _ t' (laws.create fresh after_delete) (
            inl (
              ap (classes after_delete) same
              ∙ delete_done _ _ old.name _ t (laws.delete old.name after_backup))))

    backup_removed :
        classes after_create old.name ≡ some create.parameters
        → classes (api.delete_class backup after_create).0 old.name ≡ some create.parameters
    backup_removed h =
        delete_kept _ _ backup _ old.name (laws.delete backup after_create)
          (backup_is_other claim_name old.name).0
        ∙ h

    pub recreate_kept :
        create.name ≡ old.name
        → classes w old.name ≡ some old.parameters
        → Free
        → Recoverable old.name backup old.parameters create.parameters
            (classes (delete_and_recreate_storage_class api claim_name old.name old create w).0)
    unfolding delete_and_recreate_storage_class
    recreate_kept same here free =
        tolerate_rule Holds is_already_exists (api.create_class saved) _ w
          (λ t.
            let b = still_backed_up (backed_up free t) in
            tolerate_rule Holds is_not_found (api.delete_class old.name) _ after_backup
              (λ t'.
                tolerate_rule Holds is_already_exists (api.create_class fresh)
                  (λ _. api.delete_class backup) after_delete
                  (λ t''. inr (inr (backup_removed (recreated same t' t''))))
                  (λ e.
                    inr
                      (inl (create_kept _ _ fresh _ backup _ (laws.create fresh after_delete) b))))
              (λ e. inr (inl b)))
          (λ e. inl (create_kept _ _ saved _ old.name _ (laws.create saved w) here))
      where
        Holds : W × Result Fault (Unit {0}) → Type 0
        Holds r = Recoverable old.name backup old.parameters create.parameters (classes r.0)
