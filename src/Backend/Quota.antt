-- ===== src/Backend/Quota.antt =====
-- `IsStorageQuotaAvailable` of storage/fusionstorage/utils/utils.go: the storageQuota of a storage class.
pub mod Laws
mod Tests
use Prim.Native.Nat.{◌^◌, ◌-◌}
use e_sdk_k8s_plugin.Prelude.{
  ℕ, Bool, true, false, not, ◌&&◌, ◌||◌, Option, none, some, String, ◌==◌, if◌then◌else◌,
}
use e_sdk_k8s_plugin.Prelude.Int.{ℤ, pos, ltb_ℤ}
use e_sdk_k8s_plugin.Prelude.Dict.{lookup}
use e_sdk_k8s_plugin.Prelude.Result.{Result, ok, err}
use e_sdk_k8s_plugin.Backend.Model.{Value, number, Parameters, as_text, Env}

pub data QuotaError : Type 0 where
  not_json no_space_quota bad_space_quota hard_with_grace grace_not_integer grace_range : QuotaError

unfoldable pub check_quota_type_valid : String → Bool
check_quota_type_valid space_quota = space_quota == "softQuota" || space_quota == "hardQuota"

-- `TransToIntStrict` of utils/utils.go.
unfoldable pub trans_to_int_strict : Value → Option ℤ
trans_to_int_strict (number whole true) = some whole
trans_to_int_strict _ = none

unfoldable pub extract_storage_quota_parameters : Env → String → Result QuotaError Parameters
extract_storage_quota_parameters env config = elim (env.unmarshal config) [
  | none ↦ err not_json
  | some params ↦ ok params
]

abbrev pub delay_days_max_limit : ℤ
delay_days_max_limit = pos 4294967294

abbrev check_grace_period : Value → Option QuotaError
check_grace_period delay = elim (trans_to_int_strict delay) [
  | none ↦ some grace_not_integer
  | some grace_period ↦
      if ltb_ℤ grace_period (pos 0) || ltb_ℤ delay_days_max_limit grace_period
      then some grace_range
      else none
]

abbrev check_delay : String → Option Value → Option QuotaError
check_delay space_quota none = none
check_delay space_quota (some delay) =
    if space_quota == "hardQuota" then some hard_with_grace else check_grace_period delay

abbrev check_space_quota : Option String → Parameters → Option QuotaError
check_space_quota none params = some no_space_quota
check_space_quota (some space_quota) params =
    if not (check_quota_type_valid space_quota)
    then some bad_space_quota
    else check_delay space_quota (lookup "gracePeriod" params)

unfoldable pub is_storage_quota_available : Env → String → Option QuotaError
unfolding trans_to_int_strict check_quota_type_valid extract_storage_quota_parameters
is_storage_quota_available env config = elim (extract_storage_quota_parameters env config) [
  | err e ↦ some e
  | ok params ↦ check_space_quota (as_text (lookup "spaceQuota" params)) params
]
