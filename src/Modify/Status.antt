-- ===== src/Modify/Status.antt =====
-- pkg/modify/claim_worker.go: the writing of a claim's status.
use e_sdk_k8s_plugin.Prelude.{ℕ, zero, suc, String, if◌then◌else◌}
use e_sdk_k8s_plugin.Prelude.Result.{ok, err}
use e_sdk_k8s_plugin.Prelude.Io.{Io, ◌>>=◌, ◌>>◌, return, fail, attempt}
use e_sdk_k8s_plugin.Modify.Model.{Api, Claim, ClaimPhase, Fault, nil_pointer}
use e_sdk_k8s_plugin.Modify.Classes.{is_not_found}

abbrev pub protect_claim_finalizer : String
protect_claim_finalizer = "modify.xuanwu.huawei.io/volumemodifyclaim-protection"

abbrev pub with_phase : Claim → ClaimPhase → Claim
with_phase claim phase = record claim { status = record claim.status { phase = phase } }

module _ {W : Type 0} (api : Api W) where
  -- The rounds that are left, with the error of the last one.
  unfoldable pub update_claim_loop : Claim → ℕ → Fault → Io W Fault Claim
  update_claim_loop claim zero last = fail last
  update_claim_loop claim (suc n) last = do
    found ← attempt (api.claim_of claim.name)
    elim found [
      | err e ↦ if is_not_found e then fail e else update_claim_loop claim n e
      | ok newer ↦ do
        updated ← attempt (api.update_claim_status (record newer { status = claim.status }))
        elim updated [ ok c ↦ return c | err e ↦ do api.sleep; update_claim_loop claim n e ]
    ]

  -- With no round at all the source returns a nil claim; it is called with ten.
  unfoldable pub update_claim_status_with_retry : Claim → ℕ → Io W Fault Claim
  unfolding update_claim_loop
  update_claim_status_with_retry claim retry_times = update_claim_loop claim retry_times nil_pointer

  unfoldable pub update_claim_phase : Claim → ClaimPhase → Io W Fault Claim
  update_claim_phase claim phase = api.update_claim_status (with_phase claim phase)
