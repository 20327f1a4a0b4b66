-- ===== src/Qos/Client.antt =====
-- storage/oceanstorage/oceanstor/smartx/smartx.go: the operations of the client on QoS policies and
-- snapshots. The REST client of the array is the record `Array` of operations on a world `W`; a
-- response is a map whose values are texts or something else (`none`).
use Prim.Native.String
use e_sdk_k8s_plugin.Prelude.{
  not, Option, none, some, List, String, ◌==◌, if◌then◌else◌, keep, any, is_empty,
}
use e_sdk_k8s_plugin.Prelude.Int.{ℤ}
use e_sdk_k8s_plugin.Prelude.Dict.{Dict, lookup}
use e_sdk_k8s_plugin.Prelude.Result.{Result, ok, err}
use e_sdk_k8s_plugin.Prelude.Io.{Io, ◌>>=◌, return, fail, attempt}
use e_sdk_k8s_plugin.Qos.{is_lower}

abbrev pub Response : Type 0
Response = Dict (Option String)

pub record CreateQosArgs : Type 0 where
  pub name : String
  pub obj_id : String
  pub obj_type : String
  pub v_store_id : String
  pub params : Dict ℤ

pub record Array (W : Type 0) : Type 0 where
  -- Setting `IOPRIORITY` to 3.
  pub update_file_system : String → Io W String (Unit {0})
  pub update_lun : String → Io W String (Unit {0})
  pub create_qos : CreateQosArgs → Io W String Response
  pub get_qos_by_id : String → String → Io W String Response
  pub activate_qos : String → String → Io W String (Unit {0})
  pub deactivate_qos : String → String → Io W String (Unit {0})
  -- The list under the name `LUNLIST` or `FSLIST`.
  pub update_qos : String → String → String → List String → Io W String (Unit {0})
  pub delete_qos : String → String → Io W String (Unit {0})
  pub create_lun_snapshot : String → String → Io W String Response
  pub activate_lun_snapshot : String → Io W String (Unit {0})
  pub deactivate_lun_snapshot : String → Io W String (Unit {0})
  pub delete_lun_snapshot : String → Io W String (Unit {0})
  pub create_fs_snapshot : String → String → Io W String Response
  pub delete_fs_snapshot : String → Io W String (Unit {0})
  -- `time.Now().Format` and `json.Unmarshal` into a list of texts.
  pub now_text : W → String
  pub unmarshal : String → Result String (List String)

abbrev pub text_field : Response → String → Option String
text_field response key = elim (lookup key response) [ none ↦ none | some v ↦ v ]

unfoldable pub get_qos_name : String → String → String → String
get_qos_name now obj_id obj_type =
    String.◌++◌ "k8s_" (String.◌++◌ obj_type (String.◌++◌ obj_id (String.◌++◌ "_" now)))

abbrev pub list_name : String → String
list_name obj_type = if obj_type == "fs" then "FSLIST" else "LUNLIST"

-- The loop that collects the other objects.
unfoldable pub left_list : String → List String → List String
left_list obj_id objects = keep (λ i. not (i == obj_id)) objects

module _ {W : Type 0} (cli : Array W) where
  abbrev pub require : Option String → String → Io W String String
  require none message = fail message
  require (some text) message = return text

  -- A lower limit needs a high priority of the object.
  unfoldable pub raise_priority : String → String → Dict ℤ → Io W String (Unit {0})
  raise_priority obj_id obj_type params =
      if any (λ p. is_lower p.0) params
      then if obj_type == "fs" then cli.update_file_system obj_id else cli.update_lun obj_id
      else return tt

  unfoldable pub create_qos : String → String → String → Dict ℤ → Io W String String
  create_qos obj_id obj_type v_store_id params = do
    _ ← raise_priority obj_id obj_type params
    qos ← λ w.
        cli.create_qos
          (record {
            name = get_qos_name (cli.now_text w) obj_id obj_type;
            obj_id = obj_id;
            obj_type = obj_type;
            v_store_id = v_store_id;
            params = params;
          })
          w
    qos_id ← require (text_field qos "ID") "qos ID is expected as string"
    qos_status ←
        require (text_field qos "ENABLESTATUS") "ENABLESTATUS parameter is expected as string"
    _ ← (if qos_status == "false" then cli.activate_qos qos_id v_store_id else return tt)
    return qos_id

  -- `DeleteQos` after the objects of the policy are known.
  unfoldable pub detach : String → String → String → String → List String → Io W String (Unit {0})
  detach qos_id obj_id obj_type v_store_id objects =
      let left = left_list obj_id objects in
      if is_empty left
      then (do _ ← cli.deactivate_qos qos_id v_store_id; cli.delete_qos qos_id v_store_id)
      else cli.update_qos qos_id v_store_id (list_name obj_type) left

  unfoldable pub delete_qos : String → String → String → String → Io W String (Unit {0})
  delete_qos qos_id obj_id obj_type v_store_id = do
    qos ← cli.get_qos_by_id qos_id v_store_id
    list_text ←
        require (text_field qos (list_name obj_type))
          "qos volume list is expected as marshaled string"
    elim (cli.unmarshal list_text) [
      | err e ↦ fail e
      | ok objects ↦ detach qos_id obj_id obj_type v_store_id objects
    ]

  unfoldable pub create_lun_snapshot : String → String → Io W String Response
  create_lun_snapshot name src_lun_id = do
    snapshot ← cli.create_lun_snapshot name src_lun_id
    snapshot_id ← require (text_field snapshot "ID") "snapshot ID is expected as string"
    activated ← attempt (cli.activate_lun_snapshot snapshot_id)
    elim activated [
      | ok _ ↦ return snapshot
      | err e ↦ do _ ← attempt (cli.delete_lun_snapshot snapshot_id); fail e
    ]

  unfoldable pub delete_lun_snapshot : String → Io W String (Unit {0})
  delete_lun_snapshot snapshot_id = do
    _ ← cli.deactivate_lun_snapshot snapshot_id
    cli.delete_lun_snapshot snapshot_id

  unfoldable pub create_fs_snapshot : String → String → Io W String String
  create_fs_snapshot name src_fs_id = do
    snapshot ← cli.create_fs_snapshot name src_fs_id
    require (text_field snapshot "ID") "snapshot ID is expected as string"

  unfoldable pub delete_fs_snapshot : String → Io W String (Unit {0})
  delete_fs_snapshot snapshot_id = cli.delete_fs_snapshot snapshot_id
