-- ===== src/Qos/Tests.antt =====
-- The results on the quality of service at concrete parameters and policies; a float64 is an integer here.
use e_sdk_k8s_plugin.Prelude.{
  Bool, true, false, Option, none, some, List, [], ◌∷◌, String, ◌==◌, ◌&&◌, ◌≡◌, ◌↔◌, if◌then◌else◌,
  any, All, is_some,
}
use e_sdk_k8s_plugin.Prelude.Int.{ℤ, pos}
use e_sdk_k8s_plugin.Prelude.Dict.{Dict, lookup}
use e_sdk_k8s_plugin.Prelude.Result.{Result, ok, err}
use e_sdk_k8s_plugin.Qos.{
  Floats, validate_qos_parameters_support, validate_qos_parameters, ocean_stor_qos_validators,
  ocean_stor_qos_mandatory_parameters, is_lower, is_upper,
}
use e_sdk_k8s_plugin.Qos.Support.{
  Valid, limits_conflict, truncated, validate_qos_parameters_support_iff,
  validate_qos_parameters_iff,
}
use e_sdk_k8s_plugin.Qos.Client.{Array, Response, delete_qos}

abbrev floats : Floats ℤ
floats = record { trunc = λ z. z; times_kilo = λ z. z; is_int = λ z. true }

abbrev bandwidth : Dict ℤ
bandwidth = ("IOTYPE", pos 2) ∷ ("MAXBANDWIDTH", pos 10) ∷ []

validate_qos_parameters_support_iff_example :
    (validate_qos_parameters_support floats "DoradoV3" bandwidth ≡ none) ↔ (
      (validator : String → Option (ℤ → Bool)) × (ocean_stor_qos_validators "DoradoV3"
        ≡ some validator)
      × All (Valid floats validator) bandwidth
      × (limits_conflict floats "DoradoV3"
            (any (λ p. is_lower p.0) bandwidth)
            (any (λ p. is_upper p.0) bandwidth)
          ≡ false))
validate_qos_parameters_support_iff_example =
    validate_qos_parameters_support_iff floats "DoradoV3" bandwidth

validate_qos_parameters_iff_example :
    (validate_qos_parameters floats "DoradoV3" bandwidth ≡ ok bandwidth) ↔ (
      (any
          (λ param. is_some (lookup param bandwidth))
          (ocean_stor_qos_mandatory_parameters "DoradoV3")
        ≡ true)
      × All (λ p. floats.is_int p.1 ≡ true) bandwidth
      × (bandwidth ≡ truncated floats bandwidth))
validate_qos_parameters_iff_example =
    validate_qos_parameters_iff floats "DoradoV3" bandwidth bandwidth

-- An array with one policy, `q`, of the objects `a` and `b`, of `b` alone, or gone.
data World : Type 0 where
  two one gone : World

abbrev held : World → Option (List String)
held two = some ("a" ∷ "b" ∷ [])
held one = some ("b" ∷ [])
held gone = none

abbrev objects : World → String → Option (List String)
objects w id = if "q" == id then held w else none

abbrev read_back : World → Bool → Result String Response
read_back two true = ok (("LUNLIST", some "[a,b]") ∷ [])
read_back _ _ = err "not found"

abbrev kept_only : World → Bool → World × Result String (Unit {0})
kept_only two true = (one, ok tt)
kept_only w _ = (w, err "refused")

abbrev is_b : List String → Bool
is_b (m ∷ []) = "b" == m
is_b _ = false

abbrev dropped : World → Bool → World × Result String (Unit {0})
dropped w true = (gone, ok tt)
dropped w false = (w, err "refused")

abbrev cli : Array World
cli = record {
  update_file_system = λ id w. (w, ok tt);
  update_lun = λ id w. (w, ok tt);
  create_qos = λ args w. (w, err "full");
  get_qos_by_id = λ id store w. (w, read_back w ("q" == id));
  activate_qos = λ id store w. (w, ok tt);
  deactivate_qos = λ id store w. (w, ok tt);
  update_qos = λ id store list members w. kept_only w ("q" == id && is_b members);
  delete_qos = λ id store w. dropped w ("q" == id);
  create_lun_snapshot = λ name lun w. (w, err "full");
  activate_lun_snapshot = λ id w. (w, ok tt);
  deactivate_lun_snapshot = λ id w. (w, ok tt);
  delete_lun_snapshot = λ id w. (w, ok tt);
  create_fs_snapshot = λ name fs w. (w, err "full");
  delete_fs_snapshot = λ id w. (w, ok tt);
  now_text = λ w. "20240101000000";
  unmarshal = λ text. ok ("a" ∷ "b" ∷ []);
}
