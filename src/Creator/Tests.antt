-- ===== src/Creator/Tests.antt =====
-- A filesystem that exists already, on an array that refuses an access to its share.
use e_sdk_k8s_plugin.Prelude.{true, none, some, List, [], ◌∷◌, String, ◌≡◌, refl, ap}
use e_sdk_k8s_plugin.Prelude.Int.{pos}
use e_sdk_k8s_plugin.Prelude.Dict.{Dict, lookup}
use e_sdk_k8s_plugin.Prelude.Result.{ok, err}
use e_sdk_k8s_plugin.Qos.Client.{Array}
use e_sdk_k8s_plugin.Flow.Transaction.{commit, rollback, then, new_transaction}
use e_sdk_k8s_plugin.Creator.{
  FilesystemCreator, Nas, create_resources, create_filesystem, get_pool_id, creation, qos_steps_if,
  nfs_steps_if, create_nfs_share, allow_share_access, traverse_share_accesses, rollback_share,
}
use e_sdk_k8s_plugin.Creator.Existing.{create_resources-existing}

-- The deletions so far.
abbrev World : Type 0
World = List String

abbrev existing : Dict String
existing = ("ID", "7") ∷ []

abbrev array : Array World
array = record {
  update_file_system = λ id w. (w, ok tt);
  update_lun = λ id w. (w, ok tt);
  create_qos = λ args w. (w, err "full");
  get_qos_by_id = λ id store w. (w, err "absent");
  activate_qos = λ id store w. (w, ok tt);
  deactivate_qos = λ id store w. (w, ok tt);
  update_qos = λ id store list members w. (w, ok tt);
  delete_qos = λ id store w. (w, ok tt);
  create_lun_snapshot = λ name lun w. (w, err "full");
  activate_lun_snapshot = λ id w. (w, ok tt);
  deactivate_lun_snapshot = λ id w. (w, ok tt);
  delete_lun_snapshot = λ id w. (w, ok tt);
  create_fs_snapshot = λ name fs w. (w, err "full");
  delete_fs_snapshot = λ id w. (w, ok tt);
  now_text = λ w. "20240101000000";
  unmarshal = λ text. ok [];
}

abbrev cli : Nas World
cli = record {
  array = array;
  get_pool_by_name = λ name w. (w, ok (some (("ID", "0") ∷ [])));
  get_file_system_by_name = λ name w. (w, ok (some existing));
  create_file_system = λ req w. (w, err "exists");
  delete_file_system = λ id store w. (id ∷ w, ok tt);
  get_nfs_share_by_path = λ path store w. (w, ok (some (("ID", "8") ∷ [])));
  create_nfs_share = λ req w. (w, err "exists");
  delete_nfs_share = λ id store w. (w, ok tt);
  get_nfs_share_access_count = λ id store w. (w, ok (pos 0));
  get_nfs_share_access_range = λ id store from to w. (w, ok []);
  delete_nfs_share_access = λ id store w. (w, ok tt);
  allow_nfs_share_access = λ req w. (w, err "refused");
  parse_uint_32 = λ text. ok 0;
  unmarshal_map = λ text. ok [];
  split = λ text. text ∷ [];
  get_origin_share_path = λ name. name;
}

abbrev creator : FilesystemCreator
creator = record {
  v_store_id = "0";
  fs_name = "pvc_1";
  storage_pool_name = "pool";
  storage_pool_id = "1";
  description = "";
  qos = none;
  is_create_nfs_share = true;
  is_create_qos = true;
  auth_client = "*";
  squash = (pos 0, pos 0);
  krb = (pos 0, pos 0, pos 0);
  capacity = pos 1;
  alloc_type = pos 1;
  is_show_snap_dir = none;
  snapshot_reserve_per = none;
  file_system_mode = "0";
  unix_permissions = "";
  workload_type_id = "";
  advanced_options = "";
  standby_request = [];
}

refused : create_resources cli creator [] ≡ ("7" ∷ [], err "refused")
unfolding create_resources commit creation qos_steps_if nfs_steps_if then new_transaction
    create_filesystem get_pool_id create_nfs_share allow_share_access traverse_share_accesses
    rollback lookup rollback_share
refused = refl

create_resources-existing_example : (v : World) × ((create_resources cli creator []).0 ≡ "7" ∷ v)
unfolding lookup get_pool_id
create_resources-existing_example =
    create_resources-existing cli creator [] "1" existing "refused" refl refl
      (ap (λ r. r.1) refused)
