-- ===== src/Qos/Policies.antt =====
-- What deleting a policy of an object leaves on the array.
use e_sdk_k8s_plugin.Prelude.{Option, none, some, List, String, if◌then◌else◌, is_empty, ◌≡◌}
use e_sdk_k8s_plugin.Prelude.Result.{Result, ok, err}
use e_sdk_k8s_plugin.Qos.Client.{Array, Response, text_field, list_name, left_list, delete_qos}

-- The objects of the policies that exist, as the array documents them: a call that fails changes
-- nothing, and a read gives the list of the policy.
pub record PolicyLaws {W : Type 0} (cli : Array W) (objects : W → String → Option (List String))
    : Type 0 where
  pub read :
      (id store kind text : String) (response : Response) (members : List String) (w : W)
      → (cli.get_qos_by_id id store w).1 ≡ ok response
      → text_field response (list_name kind) ≡ some text
      → cli.unmarshal text ≡ ok members
      → objects w id ≡ some members
  pub read_same : (id store : String) (w : W) → objects (cli.get_qos_by_id id store w).0 ≡ objects w
  pub update :
      (id store list : String) (members : List String) (w : W)
      → (cli.update_qos id store list members w).1 ≡ ok tt
      → objects (cli.update_qos id store list members w).0 id ≡ some members
  pub update_failed :
      (id store list e : String) (members : List String) (w : W)
      → (cli.update_qos id store list members w).1 ≡ err e
      → objects (cli.update_qos id store list members w).0 ≡ objects w
  pub deactivate :
      (id store : String) (w : W) → objects (cli.deactivate_qos id store w).0 ≡ objects w
  pub delete :
      (id store : String) (w : W)
      → (cli.delete_qos id store w).1 ≡ ok tt
      → objects (cli.delete_qos id store w).0 id ≡ none
  pub delete_failed :
      (id store e : String) (w : W)
      → (cli.delete_qos id store w).1 ≡ err e
      → objects (cli.delete_qos id store w).0 ≡ objects w

-- A policy without an object does not exist.
abbrev pub remaining : String → List String → Option (List String)
remaining obj_id members =
    if is_empty (left_list obj_id members) then none else some (left_list obj_id members)

module _ {W : Type 0} (cli : Array W) (objects : W → String → Option (List String))
    (laws : PolicyLaws cli objects) where
  -- After the removal, or as it was after a failure.
  abbrev Removed : String → String → List String → W × Result String (Unit {0}) → Type 0
  Removed qos_id obj_id members r =
      (r.1 ≡ ok tt → objects r.0 qos_id ≡ remaining obj_id members)
      × ((e : String) → r.1 ≡ err e → objects r.0 qos_id ≡ some members)
