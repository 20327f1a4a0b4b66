-- ===== src/Backend/Quota/Tests.antt =====
-- A quota with a grace period, as its decoded parameters and as the text of a storage class.
use e_sdk_k8s_plugin.Prelude.{true, none, some, [], ◌∷◌, ◌≡◌, ◌↔◌}
use e_sdk_k8s_plugin.Prelude.Int.{pos}
use e_sdk_k8s_plugin.Backend.Model.{Parameters, text, number}
use e_sdk_k8s_plugin.Backend.Sample.{env}
use e_sdk_k8s_plugin.Backend.Quota.{is_storage_quota_available}
use e_sdk_k8s_plugin.Backend.Quota.Laws.{IsQuota, is_storage_quota_available_iff}

abbrev soft : Parameters
soft = ("spaceQuota", text "softQuota") ∷ ("gracePeriod", number (pos 30) true) ∷ []

is_storage_quota_available_iff_example :
    (is_storage_quota_available env "soft" ≡ none)
    ↔ ((params : Parameters) × (env.unmarshal "soft" ≡ some params) × IsQuota params)
is_storage_quota_available_iff_example = is_storage_quota_available_iff env "soft"
