-- ===== src/Modify/Classes/Replace.antt =====
-- Replacing a storage class as a whole: nothing is lost while the class is there, and a class that is
-- already gone does not come back.
use e_sdk_k8s_plugin.Prelude.{
  true, false, Option, none, some, String, ◌==◌, ◌≡◌, ◌⊎◌, inl, inr, refl, sym, ◌∙◌, arith, eq_iff,
  Bool-cases, subst,
}
use e_sdk_k8s_plugin.Prelude.Dict.{Dict, lookup}
use e_sdk_k8s_plugin.Prelude.Result.{Result, ok, err, Result-cases}
use e_sdk_k8s_plugin.Modify.Model.{Api, Claim, StorageClass, Fault}
use e_sdk_k8s_plugin.Modify.Parameters.{generate_backup_sc_name}
use e_sdk_k8s_plugin.Modify.Classes.{
  replace_storage_class, replace_with, get_storage_class, delete_and_recreate_storage_class,
  merge_parameters, is_not_found, is_already_exists,
}
use e_sdk_k8s_plugin.Modify.Classes.Store.{
  Classes, ClassLaws, Read-name, Read-found, Read-Same, Read-missing, create_absent, delete_absent,
}
use e_sdk_k8s_plugin.Modify.Classes.Merge.{merge_parameters_lem, over}
use e_sdk_k8s_plugin.Modify.Classes.Safety.{
  recreate_kept, Recoverable, tolerate_rule, backup_is_other,
}

module _ {W : Type 0} (api : Api W) (classes : W → Classes) (laws : ClassLaws api classes) where
  get_found :
      (claim_name sc : String) (p : Option (Dict String)) (w : W)
      → classes w sc ≡ some p
      → ((c : StorageClass) × (get_storage_class api claim_name sc w
            ≡ ((api.class_of sc w).0, ok c))
          × (c.name ≡ sc)
          × (c.parameters ≡ p))
        ⊎ ((e : Fault) × (get_storage_class api claim_name sc w ≡ ((api.class_of sc w).0, err e)))
  unfolding get_storage_class
  get_found claim_name sc p w here =
      elim (Read-found _ _ sc (api.class_of sc w).1 p (laws.read sc w) here) [
        | inl (c, r, n, q) ↦ inl (c, rw (r, get_storage_class), n, q)
        | inr (e, r, f) ↦ inr (e, rw (r, get_storage_class, f))
      ]

  -- What is under the backup's name may be a backup of an earlier try.
  abbrev pub Free : String → String → Option (Dict String) → Classes → Type 0
  Free claim_name sc p c =
      (c (generate_backup_sc_name claim_name sc) ≡ none)
      ⊎ (c (generate_backup_sc_name claim_name sc) ≡ some p)

  recreated :
      (claim_name sc : String) (p new : Option (Dict String)) (c : StorageClass) (w : W)
      → c.name ≡ sc
      → c.parameters ≡ p
      → classes w sc ≡ some p
      → Free claim_name sc p (classes w)
      → Recoverable api classes laws sc (generate_backup_sc_name claim_name sc) p new (
          classes
            (delete_and_recreate_storage_class api claim_name sc c
              (record c { parameters = new })
              w).0)
  recreated claim_name sc p new c w n q =
      subst
        (λ s.
          classes w s ≡ some p
          → Free claim_name s p (classes w)
          → Recoverable api classes laws s (generate_backup_sc_name claim_name s) p new (
              classes
                (delete_and_recreate_storage_class api claim_name s c
                  (record c { parameters = new }) w).0))
        n
        (subst
          (λ p'.
            classes w c.name ≡ some p'
            → Free claim_name c.name p' (classes w)
            → Recoverable api classes laws c.name (generate_backup_sc_name claim_name c.name) p' new
                (classes
                  (delete_and_recreate_storage_class api claim_name c.name c
                    (record c { parameters = new }) w).0))
          q (recreate_kept api classes laws claim_name c (record c { parameters = new }) w refl))

  -- The class keeps its old parameters or has the new ones, or the backup has the old ones.
  abbrev pub Survives : Claim → Dict String → Classes → Type 0
  Survives claim old c =
      (c claim.source_name ≡ some (some old))
      ⊎ (c (generate_backup_sc_name claim.name claim.source_name) ≡ some (some old))
      ⊎ ((new : Dict String) × (c claim.source_name ≡ some (some new))
          × ((k : String) → lookup k new ≡ over claim.status.parameters (lookup k old) k))

  replaced :
      (claim : Claim) (old : Dict String) (c : StorageClass) (w : W)
      → c.name ≡ claim.source_name
      → c.parameters ≡ some old
      → classes w claim.source_name ≡ some (some old)
      → Free claim.name claim.source_name (some old) (classes w)
      → Survives claim old (classes (replace_with api claim c w).0)
  unfolding replace_with
  replaced claim old c w n q here free =
      let (need, new, e, law) = merge_parameters_lem false old claim.status.parameters in
      elim (Bool-cases need) [
        | inl t ↦
            rw (q, e, t, replace_with)
              (elim (recreated claim.name claim.source_name (some old) (some new) c w n q here
                free) [
                  | inl h ↦ inl h
                  | inr (inl h) ↦ inr (inl h)
                  | inr (inr h) ↦ inr (inr (new, h, law))
                ])
        | inr f ↦ rw (q, e, f, replace_with) (inl here)
      ]

  -- If the storage class of a claim is there, with parameters, and its backup's name is free or holds
  -- a backup of the same parameters, then whichever call of `replaceStorageClass` fails, and whether or not a
  -- failed call took effect, afterwards the class still has its old parameters, or the backup has
  -- them, or the class has the old parameters overridden by exactly those of the claim.
  pub replace_storage_class-Survives :
      (claim : Claim) (old : Dict String) (w : W)
      → classes w claim.source_name ≡ some (some old)
      → Free claim.name claim.source_name (some old) (classes w)
      → Survives claim old (classes (replace_storage_class api claim w).0)
  unfolding replace_storage_class
  replace_storage_class-Survives claim old w here free =
      let same = Read-Same _ _ _ _ (laws.read claim.source_name w) in
      elim (get_found claim.name claim.source_name (some old) w here) [
        | inl (c, g, n, q) ↦
            rw (g, replace_storage_class)
              (replaced claim old c _ n q (same _ ∙ here)
                (subst (λ o. (o ≡ none) ⊎ (o ≡ some (some old))) (sym (same _)) free))
        | inr (e, g) ↦ rw (g, replace_storage_class) (inl (same _ ∙ here))
      ]

  -- The calls after the backup was read all name the backup, but for a deletion of the class itself.
  absent_recreate :
      (claim_name sc : String) (old create : StorageClass) (w : W)
      → (create.name == sc) ≡ false
      → classes w sc ≡ none
      → classes (delete_and_recreate_storage_class api claim_name sc old create w).0 sc ≡ none
  unfolding delete_and_recreate_storage_class
  absent_recreate claim_name sc old create w f h =
      let save = record old {
        name = generate_backup_sc_name claim_name sc;
        resource_version = "";
      } in
      let fresh = record create { resource_version = "" } in
      let w1 = (api.create_class save w).0 in
      let w2 = (api.delete_class sc w1).0 in
      let w3 = (api.create_class fresh w2).0 in
      let h1 =
        create_absent _ _ save _ sc (laws.create save w) (backup_is_other claim_name sc).0 h in
      let h2 = delete_absent _ _ sc _ sc (laws.delete sc w1) h1 in
      let h3 = create_absent _ _ fresh _ sc (laws.create fresh w2) f h2 in
      tolerate_rule Absent is_already_exists (api.create_class save) _ w
        (λ t.
          tolerate_rule Absent is_not_found (api.delete_class sc) _ w1
            (λ t'.
              tolerate_rule Absent is_already_exists (api.create_class fresh)
                (λ _. api.delete_class (generate_backup_sc_name claim_name sc)) w2
                (λ t''. delete_absent _ _ _ _ sc (laws.delete _ w3) h3) (λ e. h3))
            (λ e. h2))
        (λ e. h1)
    where
      Absent : W × Result Fault (Unit {0}) → Type 0
      Absent r = classes r.0 sc ≡ none

  absent_replace :
      (claim : Claim) (c : StorageClass) (w : W)
      → (c.name == claim.source_name) ≡ false
      → classes w claim.source_name ≡ none
      → classes (replace_with api claim c w).0 claim.source_name ≡ none
  unfolding replace_with
  absent_replace claim c w f h =
      elim (Result-cases (merge_parameters false c.parameters claim.status.parameters)) [
        | inl ((need, new), e) ↦ elim (Bool-cases need) [
          | inl t ↦
              rw (e, t, replace_with)
                (absent_recreate claim.name claim.source_name c (record c { parameters = new }) w f
                  h)
          | inr f' ↦ rw (e, f', replace_with) h
        ]
        | inr (x, e) ↦ rw (e, replace_with) h
      ]

  -- If the storage class of a claim is not there when `replaceStorageClass` runs, it is not there
  -- afterwards either, whichever of its calls succeed: what it creates has the name of the backup.
  pub replace_storage_class-absent :
      (claim : Claim) (w : W)
      → classes w claim.source_name ≡ none
      → classes (replace_storage_class api claim w).0 claim.source_name ≡ none
  unfolding replace_storage_class get_storage_class
  replace_storage_class-absent claim w h =
      let sc = claim.source_name in
      let saved = generate_backup_sc_name claim.name sc in
      let w1 = (api.class_of sc w).0 in
      let h1 = Read-Same _ _ sc _ (laws.read sc w) sc ∙ h in
      let (e, r) = Read-missing _ _ sc _ (laws.read sc w) h in
      let h2 = Read-Same _ _ saved _ (laws.read saved w1) sc ∙ h1 in
      elim (Bool-cases (is_not_found e)) [
        | inl t ↦ elim (Result-cases (api.class_of saved w1).1) [
          | inl (c, r') ↦
              rw (r, t, r', replace_storage_class, get_storage_class)
                (absent_replace claim c _
                  (read_other c claim.name sc (Read-name _ _ saved _ c (laws.read saved w1) r')) h2)
          | inr (e', r') ↦ rw (r, t, r', replace_storage_class, get_storage_class) h2
        ]
        | inr f ↦ rw (r, f, replace_storage_class, get_storage_class) h1
      ]
    where
      read_other :
          (c : StorageClass) (claim_name sc : String)
          → (c.name == generate_backup_sc_name claim_name sc) ≡ true
          → (c.name == sc) ≡ false
      read_other c claim_name sc t = ground (
        arith,
        eq_iff c.name (generate_backup_sc_name claim_name sc),
        (backup_is_other claim_name sc).0,
      )
