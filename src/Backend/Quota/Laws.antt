-- ===== src/Backend/Quota/Laws.antt =====
-- The quotas that are accepted.
use e_sdk_k8s_plugin.Prelude.{
  ℕ, true, false, Option, none, some, String, ◌==◌, ◌≡◌, ◌↔◌, refl, ◌⊎◌, inl, inr, arith, eq_iff,
  ◌≤◌, Option-cases,
}
use e_sdk_k8s_plugin.Prelude.Int.{pos, negsuc}
use e_sdk_k8s_plugin.Prelude.Dict.{lookup}
use e_sdk_k8s_plugin.Backend.Model.{Value, text, number, Parameters, Env, as_text}
use e_sdk_k8s_plugin.Backend.Quota.{
  is_storage_quota_available, check_space_quota, check_delay, trans_to_int_strict,
  check_quota_type_valid,
}

-- The documented form of a quota: a soft or hard space quota, and for a soft one an optional whole
-- number of grace days.
pub data IsQuota (params : Parameters) : Type 0 where
  no_grace :
      (kind : String)
      → lookup "spaceQuota" params ≡ some (text kind)
      → ((kind ≡ "softQuota") ⊎ (kind ≡ "hardQuota"))
      → lookup "gracePeriod" params ≡ none
      → IsQuota params
  grace :
      (days : ℕ)
      → lookup "spaceQuota" params ≡ some (text "softQuota")
      → lookup "gracePeriod" params ≡ some (number (pos days) true)
      → days ≤ 4294967294
      → IsQuota params

-- A quota that is decoded to `params` is accepted if `params` has the documented form.
is_storage_quota_available_complete :
    (env : Env) (config : String) (params : Parameters)
    → env.unmarshal config ≡ some params
    → IsQuota params
    → is_storage_quota_available env config ≡ none
unfolding is_storage_quota_available
is_storage_quota_available_complete env config params e (IsQuota.no_grace kind k (inl s) g) =
    ground (arith, eq_iff kind "softQuota")
is_storage_quota_available_complete env config params e (IsQuota.no_grace kind k (inr s) g) =
    ground (arith, eq_iff kind "hardQuota")
is_storage_quota_available_complete env config params e (IsQuota.grace days k g le) =
    ground (arith, eq_iff "softQuota" "hardQuota")

-- What an accepted grace period is.
abbrev IsGrace : String → Option Value → Type 0
IsGrace kind o =
    (o ≡ none)
    ⊎ ((days : ℕ) × (o ≡ some (number (pos days) true))
        × (days ≤ 4294967294)
        × ((kind == "hardQuota") ≡ false))

check_delay-IsGrace :
    (kind : String) (o : Option Value) → check_delay kind o ≡ none → IsGrace kind o
unfolding trans_to_int_strict
check_delay-IsGrace kind none h = inl refl
check_delay-IsGrace kind (some (number (pos n) true)) h = inr (n, refl, ground arith, ground arith)
check_delay-IsGrace kind (some (number (negsuc n) true)) h = absurd (ground arith)
check_delay-IsGrace kind (some (number z false)) h = absurd (ground arith)
check_delay-IsGrace kind (some v) h = absurd (ground arith)

IsQuota-of_parts :
    (kind : String) (params : Parameters)
    → lookup "spaceQuota" params ≡ some (text kind)
    → ((kind ≡ "softQuota") ⊎ (kind ≡ "hardQuota"))
    → IsGrace kind (lookup "gracePeriod" params)
    → IsQuota params
IsQuota-of_parts kind params k t (inl g) = IsQuota.no_grace kind k t g
IsQuota-of_parts kind params k (inl soft) (inr (days, g, le, ne)) = IsQuota.grace days (cc) g le
IsQuota-of_parts kind params k (inr hard) (inr (days, g, le, ne)) =
    absurd (ground (arith, eq_iff kind "hardQuota"))

check_space_quota-IsQuota :
    (params : Parameters) (o : Option Value)
    → lookup "spaceQuota" params ≡ o
    → check_space_quota (as_text o) params ≡ none
    → IsQuota params
unfolding check_quota_type_valid
check_space_quota-IsQuota params none e h = cc
check_space_quota-IsQuota params (some (text kind)) e h =
    IsQuota-of_parts kind params e
      (ground (arith, eq_iff kind "softQuota", eq_iff kind "hardQuota"))
      (check_delay-IsGrace kind (lookup "gracePeriod" params)
        (ground (arith, eq_iff kind "softQuota", eq_iff kind "hardQuota")))
check_space_quota-IsQuota params (some v) e h = cc

-- A quota that is accepted is JSON, and has the documented form.
is_storage_quota_available_sound :
    (env : Env) (config : String)
    → is_storage_quota_available env config ≡ none
    → (params : Parameters) × (env.unmarshal config ≡ some params) × IsQuota params
unfolding is_storage_quota_available
is_storage_quota_available_sound env config h = elim (Option-cases (env.unmarshal config)) [
  | inl e ↦ absurd (ground arith)
  | inr (params, e) ↦
      (params, e, check_space_quota-IsQuota params (lookup "spaceQuota" params) refl (ground arith))
]

-- A storage quota is accepted exactly if it is JSON of the documented form.
pub is_storage_quota_available_iff :
    (env : Env) (config : String)
    → (is_storage_quota_available env config ≡ none)
      ↔ ((params : Parameters) × (env.unmarshal config ≡ some params) × IsQuota params)
is_storage_quota_available_iff env config = (
  is_storage_quota_available_sound env config,
  λ h. is_storage_quota_available_complete env config h.0 h.1 h.2,
)
