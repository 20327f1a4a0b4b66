-- ===== src/Modify/Classes.antt =====
-- pkg/modify/claim_worker.go: the storage class of a completed claim is replaced by one with the new
-- parameters, over a backup.
pub mod Store
mod Merge
mod Safety
pub mod Replace
use e_sdk_k8s_plugin.Prelude.{
  ℕ, Bool, true, false, ◌||◌, Option, none, some, List, [], ◌∷◌, String, ◌==◌, if◌then◌else◌, not,
}
use e_sdk_k8s_plugin.Prelude.Dict.{Dict, lookup, insert}
use e_sdk_k8s_plugin.Prelude.Result.{Result, ok, err}
use e_sdk_k8s_plugin.Prelude.Io.{Io, ◌>>=◌, return, fail, attempt}
use e_sdk_k8s_plugin.Modify.Model.{
  Api, Claim, StorageClass, Fault, not_found, already_exists, nil_pointer, other,
}
use e_sdk_k8s_plugin.Modify.Parameters.{generate_backup_sc_name}

-- An error that the test lets pass is dropped; the value is not used after it.
abbrev pub tolerate : {W A : Type 0} → (Fault → Bool) → Io W Fault A → Io W Fault (Unit {0})
tolerate passes call = do
  r ← attempt call
  elim r [ ok a ↦ return tt | err e ↦ if passes e then return tt else fail e ]

abbrev pub is_not_found : Fault → Bool
is_not_found not_found = true
is_not_found _ = false

abbrev pub is_already_exists : Fault → Bool
is_already_exists already_exists = true
is_already_exists _ = false

-- The class keeps a parameter with this value.
abbrev pub holds_parameter : Option (Dict String) → String → String → Bool
holds_parameter none key value = false
holds_parameter (some m) key value = elim (lookup key m) [ none ↦ false | some old ↦ old == value ]

-- A write to a nil map panics.
abbrev pub set_parameter :
    Option (Dict String) → String → String → Result Fault (Option (Dict String))
set_parameter none key value = err nil_pointer
set_parameter (some m) key value = ok (some (insert key value m))

-- The loop of `replaceStorageClass` over the new parameters: whether one was written, and the parameters.
pub merge_parameters :
    Bool → Option (Dict String) → Dict String → Result Fault (Bool × Option (Dict String))
merge_parameters need_replace old [] = ok (need_replace, old)
merge_parameters need_replace old ((key, value) ∷ rest) =
    let kept = merge_parameters need_replace old rest in
    if holds_parameter old key value then kept else elim (set_parameter old key value) [
      | err e ↦ err e
      | ok new ↦ merge_parameters true new rest
    ]

module _ {W : Type 0} (api : Api W) where
  unfoldable pub get_storage_class : String → String → Io W Fault StorageClass
  get_storage_class claim_name sc_name = do
    class ← attempt (api.class_of sc_name)
    elim class [
      | ok c ↦ return c
      | err e ↦
          if is_not_found e
          then api.class_of (generate_backup_sc_name claim_name sc_name)
          else fail e
    ]

  unfoldable pub delete_and_recreate_storage_class :
      String → String → StorageClass → StorageClass → Io W Fault (Unit {0})
  delete_and_recreate_storage_class claim_name old_sc_name old create = do
    let backup_sc_name = generate_backup_sc_name claim_name old_sc_name
    _ ←
        tolerate is_already_exists
          (api.create_class (record old { name = backup_sc_name; resource_version = "" }))
    _ ← tolerate is_not_found (api.delete_class old_sc_name)
    _ ← tolerate is_already_exists (api.create_class (record create { resource_version = "" }))
    api.delete_class backup_sc_name

  -- What `replaceStorageClass` does with the class that it found.
  unfoldable pub replace_with : Claim → StorageClass → Io W Fault (Unit {0})
  unfolding merge_parameters
  replace_with claim class =
      elim (merge_parameters false class.parameters claim.status.parameters) [
        | err e ↦ fail e
        | ok (false, _) ↦ return tt
        | ok (true, new) ↦
            delete_and_recreate_storage_class claim.name claim.source_name class
              (record class { parameters = new })
      ]

  unfoldable pub replace_storage_class : Claim → Io W Fault (Unit {0})
  replace_storage_class claim = do
    class ← get_storage_class claim.name claim.source_name
    replace_with claim class
