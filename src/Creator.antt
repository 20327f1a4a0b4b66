-- ===== src/Creator.antt =====
-- storage/oceanstorage/oceanstor/volume/creator: base.go and filesystem.go, the creation of a
-- filesystem with its share, its access and its QoS as one transaction. The REST client of the
-- array is the record `Nas` of operations on a world `W`; a response is a map of texts, and a nil map
-- is `none`. The variables that the closures of the transaction share are in `Shared`.
pub mod Existing
mod Tests
use Prim.Native.String
use e_sdk_k8s_plugin.Prelude.{
  ℕ, zero, suc, ◌+◌, Bool, true, false, not, ◌||◌, Option, none, some, List, [], ◌∷◌, String, ◌==◌,
  ltb, if◌then◌else◌, is_empty, is_some,
}
use e_sdk_k8s_plugin.Prelude.Int.{ℤ, pos, negsuc, pos_part}
use e_sdk_k8s_plugin.Prelude.Dict.{Dict, lookup, get_or, insert}
use e_sdk_k8s_plugin.Prelude.Result.{Result, ok, err, error_of}
use e_sdk_k8s_plugin.Prelude.Io.{Io, ◌>>=◌, ◌>>◌, return, fail, attempt}
use e_sdk_k8s_plugin.Backend.Model.{Value, text, flag, number}
use e_sdk_k8s_plugin.Flow.Transaction.{
  Transaction, new_transaction, then as add_step, commit, rollback,
}
use e_sdk_k8s_plugin.Qos.Client.{Array, create_qos, delete_qos}
use e_sdk_k8s_plugin.Modify.Model.{contains}

-- The request of an access to a share, but for the constants `AccessVal` 1 and `Sync` 0.
pub record ShareAccessParams : Type 0 where
  pub share_id : String
  pub v_store_id : String
  pub auth_client : String
  pub squash : ℤ × ℤ
  pub krb : ℤ × ℤ × ℤ

pub record AllowRequest : Type 0 where
  pub name : String
  pub access : ShareAccessParams

pub record ShareRequest : Type 0 where
  pub sharepath : String
  pub fsid : String
  pub description : String
  pub v_store : String

abbrev pub Request : Type 0
Request = Dict Value

-- The fields of `FilesystemCreator`, with those of its `BaseCreator`, that the creation uses.
pub record FilesystemCreator : Type 0 where
  pub v_store_id : String
  pub fs_name : String
  pub storage_pool_name : String
  pub storage_pool_id : String
  pub description : String
  pub qos : Option (Dict ℤ)
  pub is_create_nfs_share : Bool
  pub is_create_qos : Bool
  pub auth_client : String
  pub squash : ℤ × ℤ
  pub krb : ℤ × ℤ × ℤ
  pub capacity : ℤ
  pub alloc_type : ℤ
  pub is_show_snap_dir : Option Bool
  pub snapshot_reserve_per : Option ℤ
  pub file_system_mode : String
  pub unix_permissions : String
  pub workload_type_id : String
  pub advanced_options : String
  pub standby_request : Request

pub record Nas (W : Type 0) : Type 0 where
  pub array : Array W
  pub get_pool_by_name : String → Io W String (Option (Dict String))
  pub get_file_system_by_name : String → Io W String (Option (Dict String))
  pub create_file_system : Request → Io W String (Dict String)
  -- By ID, and vStore when there is one.
  pub delete_file_system : String → String → Io W String (Unit {0})
  pub get_nfs_share_by_path : String → String → Io W String (Option (Dict String))
  pub create_nfs_share : ShareRequest → Io W String (Dict String)
  pub delete_nfs_share : String → String → Io W String (Unit {0})
  pub get_nfs_share_access_count : String → String → Io W String ℤ
  -- An item that is no map is `none`.
  pub get_nfs_share_access_range :
      String → String → ℕ → ℕ → Io W String (List (Option (Dict String)))
  pub delete_nfs_share_access : String → String → Io W String (Unit {0})
  pub allow_nfs_share_access : AllowRequest → Io W String (Unit {0})
  -- `strconv.ParseUint(text, 0, 32)`, `json.Unmarshal` into a map, `strings.Split(text, ";")` and `GetOriginSharePath`
  pub parse_uint_32 : String → Result String ℕ
  pub unmarshal_map : String → Result String Request
  pub split : String → List String
  pub get_origin_share_path : String → String

-- What the closures of a transaction share, with the world.
pub record Shared (W : Type 0) : Type 0 where
  pub world : W
  pub fs_id : String
  pub share_id : String
  pub qos_id : String

abbrev pub id_of : Dict String → String
id_of m = get_or m "ID" ""

-- `for k, v := range src { req[k] = v }`
pub write_all : Request → Request → Request
write_all [] req = req
write_all ((k, v) ∷ rest) req = write_all rest (insert k v req)

-- `CombineMap` of pkg/utils/utils.go, over the second map.
pub combine_map : Request → Request → Request
combine_map res [] = res
combine_map res ((k, v) ∷ rest) =
    combine_map (if is_some (lookup k res) then res else insert k v res) rest

module _ {W : Type 0} (cli : Nas W) (c : FilesystemCreator) where
  unfoldable pub get_pool_id : String → Io W String String
  get_pool_id storage_pool_name =
      if not (c.storage_pool_id == "") then return c.storage_pool_id else (do
        pool ← cli.get_pool_by_name storage_pool_name
        elim pool [
          | none ↦ fail "storage pool doesn't exist"
          | some p ↦ if id_of p == "" then fail "storage pool doesn't exist" else return (id_of p)
        ])

  abbrev pub with_text : String → String → Request → Request
  with_text key value req = if not (value == "") then insert key (text value) req else req

  abbrev pub with_optional : String → Option Value → Request → Request
  with_optional key none req = req
  with_optional key (some value) req = insert key value req

  abbrev pub flag_value : Option Bool → Option Value
  flag_value none = none
  flag_value (some b) = some (flag b)

  abbrev pub number_value : Option ℤ → Option Value
  number_value none = none
  number_value (some z) = some (number z true)

  -- The fields of the request before the workload type and the advanced options.
  unfoldable pub base_request : String → Request
  base_request pool_id =
      let req = write_all c.standby_request (
        ("NAME", text c.fs_name)
        ∷ ("PARENTID", text pool_id)
        ∷ ("CAPACITY", number c.capacity true)
        ∷ ("DESCRIPTION", text c.description)
        ∷ ("ALLOCTYPE", number c.alloc_type true)
        ∷ ("fileSystemMode", text c.file_system_mode)
        ∷ []) in
      let req1 =
        if c.file_system_mode == "1" then insert "vstoreId" (text c.v_store_id) req else req in
      with_optional "SNAPSHOTRESERVEPER" (number_value c.snapshot_reserve_per) (
        with_optional "ISSHOWSNAPDIR" (flag_value c.is_show_snap_dir)
          (with_text "unixPermissions" c.unix_permissions req1))

  unfoldable pub with_workload : Request → Result String Request
  with_workload req =
      if not (c.workload_type_id == "")
      then elim (cli.parse_uint_32 c.workload_type_id) [
        | err e ↦ err e
        | ok id ↦ ok (insert "workloadTypeId" (number (pos id) true) req)
      ]
      else ok req

  unfoldable pub gen_create_request : String → Result String Request
  gen_create_request pool_id = elim (with_workload (base_request pool_id)) [
    | err e ↦ err e
    | ok req ↦
        if not (c.advanced_options == "")
        then elim (cli.unmarshal_map c.advanced_options) [
          | err e ↦ err e
          | ok options ↦ ok (combine_map options req)
        ]
        else ok req
  ]

  unfoldable pub create_filesystem : Io W String String
  create_filesystem = do
    pool_id ← get_pool_id c.storage_pool_name
    fs ← cli.get_file_system_by_name c.fs_name
    elim fs [
      | some existing ↦ return (id_of existing)
      | none ↦ elim (gen_create_request pool_id) [
        | err e ↦ fail e
        | ok req ↦ do created ← cli.create_file_system req; return (id_of created)
      ]
    ]

  unfoldable pub create_nfs_share : String → String → Io W String String
  create_nfs_share fs_id v_store_id = if not c.is_create_nfs_share then return "" else (do
    share ← cli.get_nfs_share_by_path (cli.get_origin_share_path c.fs_name) v_store_id
    elim share [
      | some existing ↦ return (id_of existing)
      | none ↦ do
        created ← cli.create_nfs_share (record {
          sharepath = cli.get_origin_share_path c.fs_name;
          fsid = fs_id;
          description = c.description;
          v_store = v_store_id;
        })
        return (id_of created)
    ])

  unfoldable pub rollback_share : String → String → Io W String (Unit {0})
  rollback_share share_id v_store_id =
      if not c.is_create_nfs_share then return tt else cli.delete_nfs_share share_id v_store_id

  pub do_all : (Dict String → W → W) → List (Option (Dict String)) → W → W
  do_all visit [] w = w
  do_all visit (none ∷ clients) w = do_all visit clients w
  do_all visit (some m ∷ clients) w = do_all visit clients (visit m w)

  -- The pages from `num` on; there are fewer of them than `count`.
  pub traverse_loop : ℕ → ℤ → String → String → (Dict String → W → W) → ℕ → Io W String (Unit {0})
  traverse_loop zero count share_id v_store_id visit num = return tt
  traverse_loop (suc fuel) count share_id v_store_id visit num =
      if not (ltb num (pos_part count)) then return tt else (do
        clients ← cli.get_nfs_share_access_range share_id v_store_id num (num + 100)
        (if is_empty clients then return tt else (do
          do_all visit clients
          traverse_loop fuel count share_id v_store_id visit (num + 100))))

  unfoldable pub traverse_share_accesses :
      String → String → (Dict String → W → W) → Io W String (Unit {0})
  unfolding traverse_loop
  traverse_share_accesses share_id v_store_id visit = do
    count ← cli.get_nfs_share_access_count share_id v_store_id
    traverse_loop (pos_part count) count share_id v_store_id visit 0

  -- An error is only logged.
  unfoldable pub remove_share_access : String → Dict String → W → W
  remove_share_access v_store_id auth_client w =
      if id_of auth_client == ""
      then w
      else (cli.delete_nfs_share_access (id_of auth_client) v_store_id w).0

  pub create_auth_clients : ShareAccessParams → List String → Io W String (Unit {0})
  create_auth_clients params [] = return tt
  create_auth_clients params (name ∷ names) = do
    _ ← cli.allow_nfs_share_access (record { name = name; access = params })
    create_auth_clients params names

  unfoldable pub allow_share_access : ShareAccessParams → Io W String (Unit {0})
  unfolding create_auth_clients
  allow_share_access params = if not c.is_create_nfs_share then return tt else (do
    _ ←
        traverse_share_accesses params.share_id params.v_store_id
          (remove_share_access params.v_store_id)
    create_auth_clients params (cli.split params.auth_client))

  unfoldable pub rollback_share_access : String → String → String → Io W String (Unit {0})
  rollback_share_access share_id v_store_id auth_client =
      if not c.is_create_nfs_share
      then return tt
      else traverse_share_accesses share_id v_store_id (λ m w.
        if contains (cli.split auth_client) (get_or m "NAME" "")
        then remove_share_access v_store_id m w
        else w)

  abbrev pub get_share_access_params : String → ShareAccessParams
  get_share_access_params share_id = record {
    share_id = share_id;
    v_store_id = c.v_store_id;
    auth_client = c.auth_client;
    squash = c.squash;
    krb = c.krb;
  }

  unfoldable pub create_fs_qos : String → String → Io W String String
  create_fs_qos fs_id v_store_id = elim c.qos [
    | none ↦ return ""
    | some params ↦
        if not c.is_create_qos then return "" else create_qos cli.array fs_id "fs" v_store_id params
  ]

  unfoldable pub rollback_qos : String → String → String → Io W String (Unit {0})
  rollback_qos qos_id fs_id v_store_id = elim c.qos [
    | none ↦ return tt
    | some params ↦
        if not c.is_create_qos then return tt else delete_qos cli.array qos_id fs_id "fs" v_store_id
  ]

  -- A closure that assigns what a call returns, also what it returns with an error: an empty text.
  abbrev pub assign :
      Io W String String → (String → Shared W → Shared W) → Shared W → Shared W × Option String
  assign call set s =
      let r = call s.world in
      elim r.1 [
        | ok id ↦ (set id (record s { world = r.0 }), none)
        | err e ↦ (set "" (record s { world = r.0 }), some e)
      ]

  -- A closure that only calls, and a cancel, whose error is only logged.
  abbrev pub perform : Io W String (Unit {0}) → Shared W → Shared W × Option String
  perform call s = let r = call s.world in (record s { world = r.0 }, error_of r.1)

  abbrev pub cancel : Io W String (Unit {0}) → Shared W → Shared W
  cancel call s = record s { world = (call s.world).0 }

  abbrev pub filesystem_exec : Shared W → Shared W × Option String
  filesystem_exec = assign create_filesystem (λ id s. record s { fs_id = id })

  abbrev pub filesystem_cancel : Shared W → Shared W
  filesystem_cancel s = cancel (cli.delete_file_system s.fs_id c.v_store_id) s

  unfoldable pub nfs_steps_if : Bool → Transaction (Shared W) String → Transaction (Shared W) String
  nfs_steps_if false t = t
  nfs_steps_if true t =
      add_step
        (add_step t
          (some λ s.
            assign (create_nfs_share s.fs_id c.v_store_id) (λ id s. record s { share_id = id }) s)
          (some λ s. cancel (rollback_share s.share_id c.v_store_id) s))
        (some λ s. perform (allow_share_access (get_share_access_params s.share_id)) s)
        (some λ s. cancel (rollback_share_access s.share_id c.v_store_id c.auth_client) s)

  abbrev pub add_nfs_share_transaction_step :
      Transaction (Shared W) String → Transaction (Shared W) String
  add_nfs_share_transaction_step t = nfs_steps_if c.is_create_nfs_share t

  unfoldable pub qos_steps_if :
      Bool → Option (Dict ℤ) → Transaction (Shared W) String → Transaction (Shared W) String
  qos_steps_if false q t = t
  qos_steps_if true none t = t
  qos_steps_if true (some _) t =
      add_step t
        (some λ s. assign (create_fs_qos s.fs_id c.v_store_id) (λ id s. record s { qos_id = id }) s)
        (some λ s. cancel (rollback_qos s.qos_id s.fs_id c.v_store_id) s)

  abbrev pub add_qos_transaction_step :
      Transaction (Shared W) String → Transaction (Shared W) String
  add_qos_transaction_step t = qos_steps_if c.is_create_qos c.qos t

  -- The transaction of `createResources` on a new creator.
  unfoldable pub creation : Transaction (Shared W) String
  creation = add_qos_transaction_step (
      add_nfs_share_transaction_step
        (add_step new_transaction (some filesystem_exec) (some filesystem_cancel)))

  abbrev pub shared : W → Shared W
  shared w = record { world = w; fs_id = ""; share_id = ""; qos_id = "" }

  unfoldable pub create_resources : Io W String String
  create_resources w =
      let r = commit creation (shared w) in
      elim r.2 [ none ↦ (r.1.world, ok r.1.fs_id) | some e ↦ ((rollback r.0 r.1).world, err e) ]
