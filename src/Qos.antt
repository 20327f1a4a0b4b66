-- ===== src/Qos.antt =====
-- storage/oceanstorage/oceanstor/smartx/smartx.go: the parameters of quality of service, and the
-- operations on QoS policies and snapshots over the client of the storage array. JSON decoding, the
-- clock and what is used of a float64 are parameters of the model.
pub mod Client
pub mod Support
pub mod Policies
mod Tests
use text.Mathlib.Text.{starts_with}
use e_sdk_k8s_plugin.Prelude.{
  ℕ, Bool, true, false, ◌&&◌, ◌||◌, not, Option, none, some, List, [], ◌∷◌, String, ◌==◌, eqb,
  if◌then◌else◌, keep, any, is_empty, is_some,
}
use e_sdk_k8s_plugin.Prelude.Int.{ℤ, pos, negsuc, ltb_ℤ, leb_ℤ}
use e_sdk_k8s_plugin.Prelude.Dict.{Dict, lookup}
use e_sdk_k8s_plugin.Prelude.Result.{Result, ok, err}

-- What the code does with a float64: `int(v)`, `v * kilo` and `big.NewFloat(v).IsInt()`.
pub record Floats (F : Type 0) : Type 0 where
  pub trunc : F → ℤ
  pub times_kilo : F → F
  pub is_int : F → Bool

-- A value of the decoded configuration.
pub data QosValue (F : Type 0) : Type 0 where
  float : F → QosValue F
  not_float : QosValue F

pub data QosError : Type 0 where
  unmarshal_failed not_supported lower_and_upper missing_parameter : QosError
  invalid_type invalid_key invalid_value not_integer : String → QosError

-- pkg/constants/storage.go
abbrev pub is_dorado_v6_or_v7 : String → Bool
is_dorado_v6_or_v7 product = product == "DoradoV6" || product == "DoradoV7"

abbrev pub equals : ℕ → ℤ → Bool
equals n (pos m) = eqb m n
equals n (negsuc _) = false

abbrev pub positive : ℤ → Bool
positive value = ltb_ℤ (pos 0) value

abbrev pub max_999999999 : ℤ
max_999999999 = pos 999999999

unfoldable pub dorado_parameter_validators : String → Option (ℤ → Bool)
dorado_parameter_validators key =
    if key == "IOTYPE"
    then some (equals 2)
    else if key == "MAXBANDWIDTH"
    then some positive
    else if key == "MAXIOPS"
    then some (λ value. ltb_ℤ (pos 99) value)
    else none

unfoldable pub ocean_stor_v3_v5_parameter_validators : String → Option (ℤ → Bool)
ocean_stor_v3_v5_parameter_validators key =
    if key == "IOTYPE"
    then some (λ value. equals 0 value || equals 1 value || equals 2 value)
    else if key == "MAXBANDWIDTH"
    then some positive
    else if key == "MINBANDWIDTH"
    then some positive
    else if key == "MAXIOPS"
    then some positive
    else if key == "MINIOPS"
    then some positive
    else if key == "LATENCY"
    then some positive
    else none

abbrev pub within : ℤ → ℤ → Bool
within low value = ltb_ℤ low value && leb_ℤ value max_999999999

unfoldable pub dorado_v6_v7_parameter_validators : String → Option (ℤ → Bool)
dorado_v6_v7_parameter_validators key =
    if key == "IOTYPE"
    then some (equals 2)
    else if key == "MAXBANDWIDTH"
    then some (within (pos 0))
    else if key == "MINBANDWIDTH"
    then some (within (pos 0))
    else if key == "MAXIOPS"
    then some (within (pos 99))
    else if key == "MINIOPS"
    then some (within (pos 99))
    else if key == "LATENCY"
    then some (λ value. equals 500 value || equals 1500 value)
    else none

unfoldable pub ocean_stor_qos_validators : String → Option (String → Option (ℤ → Bool))
ocean_stor_qos_validators product =
    if product == "DoradoV7"
    then some dorado_v6_v7_parameter_validators
    else if product == "DoradoV6"
    then some dorado_v6_v7_parameter_validators
    else if product == "DoradoV3"
    then some dorado_parameter_validators
    else if product == "OceanStorV3"
    then some ocean_stor_v3_v5_parameter_validators
    else if product == "OceanStorV5"
    then some ocean_stor_v3_v5_parameter_validators
    else none

abbrev pub ocean_stor_common_parameters : List String
ocean_stor_common_parameters =
    "MAXBANDWIDTH" ∷ "MINBANDWIDTH" ∷ "MAXIOPS" ∷ "MINIOPS" ∷ "LATENCY" ∷ []

-- A product that is not listed has no parameters.
unfoldable pub ocean_stor_qos_mandatory_parameters : String → List String
ocean_stor_qos_mandatory_parameters product =
    if product == "DoradoV7" || product == "DoradoV6"
    then ocean_stor_common_parameters
    else if product == "DoradoV3"
    then "MAXBANDWIDTH" ∷ "MAXIOPS" ∷ []
    else if product == "OceanStorV3" || product == "OceanStorV5"
    then ocean_stor_common_parameters
    else []

abbrev pub is_lower : String → Bool
is_lower key = starts_with key "MIN" || starts_with key "LATENCY"

abbrev pub is_upper : String → Bool
is_upper key = not (is_lower key) && starts_with key "MAX"

module _ {F : Type 0} (floats : Floats F) where
  -- The loop of `validateQoSParametersSupport`, with the limits met so far.
  pub support_loop : String → (String → Option (ℤ → Bool)) → Dict F → Bool → Bool → Option QosError
  support_loop product validator [] lower_limit upper_limit =
      if not (is_dorado_v6_or_v7 product) && lower_limit && upper_limit
      then some lower_and_upper
      else none
  support_loop product validator ((k, v) ∷ rest) lower_limit upper_limit =
      let next =
        support_loop product validator rest (lower_limit || is_lower k)
          (upper_limit || is_upper k) in
      elim (validator k) [
        | none ↦ some (invalid_key k)
        | some f ↦ if f (floats.trunc v) then next else some (invalid_value k)
      ]

  unfoldable pub validate_qos_parameters_support : String → Dict F → Option QosError
  unfolding support_loop
  validate_qos_parameters_support product qos_param = elim (ocean_stor_qos_validators product) [
    | none ↦ some not_supported
    | some validator ↦ support_loop product validator qos_param false false
  ]

  abbrev pub translated : String → String → F → F
  translated product key value =
      if is_dorado_v6_or_v7 product && key == "LATENCY" then floats.times_kilo value else value

  -- The loop of `ExtractQoSParameters`.
  pub extract_loop : String → Dict (QosValue F) → Result QosError (Dict F)
  extract_loop product [] = ok []
  extract_loop product ((key, not_float) ∷ rest) = err (invalid_type key)
  extract_loop product ((key, float value) ∷ rest) = elim (extract_loop product rest) [
    | err e ↦ err e
    | ok params ↦ ok ((key, translated product key value) ∷ params)
  ]

  module _ (decode : String → Option (Dict (QosValue F))) where
    unfoldable pub extract_qos_parameters : String → String → Result QosError (Dict F)
    unfolding extract_loop
    extract_qos_parameters product qos_config = elim (decode qos_config) [
      | none ↦ err unmarshal_failed
      | some unmarshal_params ↦ extract_loop product unmarshal_params
    ]

    unfoldable pub check_qos_parameter_support : String → String → Option QosError
    check_qos_parameter_support product qos_config =
        elim (extract_qos_parameters product qos_config) [
          | err e ↦ some e
          | ok qos_param ↦ validate_qos_parameters_support product qos_param
        ]

  -- The loop of `ValidateQoSParameters` over the values.
  pub integers : Dict F → Result QosError (Dict ℤ)
  integers [] = ok []
  integers ((key, value) ∷ rest) =
      if not (floats.is_int value) then err (not_integer key) else elim (integers rest) [
        | err e ↦ err e
        | ok params ↦ ok ((key, floats.trunc value) ∷ params)
      ]

  unfoldable pub validate_qos_parameters : String → Dict F → Result QosError (Dict ℤ)
  unfolding integers
  validate_qos_parameters product qos_param =
      if any (λ param. is_some (lookup param qos_param))
        (ocean_stor_qos_mandatory_parameters product)
      then integers qos_param
      else err missing_parameter
