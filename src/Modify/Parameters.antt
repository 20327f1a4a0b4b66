-- ===== src/Modify/Parameters.antt =====
-- pkg/modify: the parameters of a claim, the names and texts that are made from it, and the request
-- that undoes a modification.
pub mod Laws
use e_sdk_k8s_plugin.Prelude.{
  ℕ, Bool, true, false, ◌&&◌, ◌||◌, Option, none, some, List, [], ◌∷◌, ◌++◌, String, ◌==◌,
  if◌then◌else◌, is_empty, is_none, not,
}
use Prim.Native.String
use e_sdk_k8s_plugin.Prelude.Dict.{Dict, lookup}
use e_sdk_k8s_plugin.Prelude.Int.{ℤ, pos, ltb_ℤ}
use e_sdk_k8s_plugin.Strconv.{Bytes, codes, parse_int, format_int}
use e_sdk_k8s_plugin.Modify.Model.{Content, contains}

abbrev pub support_features : List String
support_features = "hyperMetro" ∷ "metroPairSyncSpeed" ∷ []

-- The errors of the checks.
pub data ParameterError : Type 0 where
  parameters_empty hyper_metro_not_true speed_without_metro speed_not_integer speed_out_of_range :
      ParameterError
  not_supported : List String → ParameterError

abbrev pub metro_pair_sync_speed_low : ℤ
metro_pair_sync_speed_low = pos 1

abbrev pub metro_pair_sync_speed_highest : ℤ
metro_pair_sync_speed_highest = pos 4

unfoldable pub check_hyper_metro : String → Option ParameterError
check_hyper_metro value = if value == "true" then none else some hyper_metro_not_true

unfoldable pub check_metro_pair_sync_speed : String → Dict String → Option ParameterError
check_metro_pair_sync_speed value params =
    if elim (lookup "hyperMetro" params) [ none ↦ false | some hyper_metro ↦ hyper_metro == "true" ]
    then elim (parse_int (codes value)) [
      | none ↦ some speed_not_integer
      | some speed ↦
          if ltb_ℤ speed metro_pair_sync_speed_low || ltb_ℤ metro_pair_sync_speed_highest speed
          then some speed_out_of_range
          else none
    ]
    else some speed_without_metro

-- `featureCheckFunc[key]`, called with the value and all the parameters.
unfoldable pub feature_check : String → String → Dict String → Option ParameterError
feature_check key value params =
    if key == "hyperMetro"
    then check_hyper_metro value
    else if key == "metroPairSyncSpeed"
    then check_metro_pair_sync_speed value params
    else none

-- The loop over the parameters, with those met so far that are not supported.
pub check_loop : Dict String → List String → Dict String → Option ParameterError
check_loop params not_supports [] =
    if is_empty not_supports then none else some (not_supported not_supports)
check_loop params not_supports ((key, value) ∷ rest) =
    let skipped = check_loop params (not_supports ++ key ∷ []) rest in
    let passed = check_loop params not_supports rest in
    if contains support_features key
    then elim (feature_check key value params) [ none ↦ passed | some e ↦ some e ]
    else skipped

unfoldable pub check_parameters : Dict String → Option ParameterError
unfolding check_loop
check_parameters params =
    if is_empty params then some parameters_empty else check_loop params [] params

-- completed/total
unfoldable pub generate_ready_string : ℕ → ℕ → Bytes
generate_ready_string completed total = format_int (pos completed) ++ b'/' ∷ format_int (pos total)

unfoldable pub generate_backup_sc_name : String → String → String
generate_backup_sc_name claim_name sc_name = String.◌++◌ sc_name (String.◌++◌ "-" claim_name)

unfoldable pub generate_rollback_params : Dict String → Dict String
generate_rollback_params params = elim (lookup "hyperMetro" params) [
  | none ↦ []
  | some v ↦ ("hyperMetro", "false") ∷ []
]
