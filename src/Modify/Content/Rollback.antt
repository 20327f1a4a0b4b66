-- ===== src/Modify/Content/Rollback.antt =====
-- The requests that the driver is sent: a modification that cannot be recorded is undone.
use e_sdk_k8s_plugin.Prelude.{
  ℕ, zero, suc, true, List, ◌∷◌, String, ◌≡◌, refl, ap, ◌∙◌, ◌⊎◌, inl, inr, Bool-cases,
}
use e_sdk_k8s_plugin.Prelude.Result.{Result, ok, err, Result-cases}
use e_sdk_k8s_plugin.Modify.Model.{
  Api, Content, content_creating, content_staging, content_completed, Fault, is_content_phase,
  nil_pointer, create_failed, update_retry_times, ModifyVolumeRequest, Reason,
}
use e_sdk_k8s_plugin.Modify.Classes.{is_not_found}
use e_sdk_k8s_plugin.Modify.Content.{
  can_retry, update_status_loop, update_status_with_retry, do_rollback, rollback_request,
  write_status, set_content_status, with_content_status, finish_modify, call_volume_modify,
  modify_request, needs_staging,
}

-- What the driver was sent, the latest request first; only `ModifyVolume` sends one.
pub record RequestLaws {W : Type 0} (api : Api W) (sent : W → List ModifyVolumeRequest)
    : Type 0 where
  pub modify : (r : ModifyVolumeRequest) (w : W) → sent (api.modify_volume r w).0 ≡ r ∷ sent w
  pub read : (n : String) (w : W) → sent (api.content_of n w).0 ≡ sent w
  pub write : (c : Content) (w : W) → sent (api.update_content_status c w).0 ≡ sent w
  pub update : (c : Content) (w : W) → sent (api.update_content c w).0 ≡ sent w
  pub event : (r : Reason) (w : W) → sent (api.record_event r w) ≡ sent w
  pub slept : (w : W) → sent (api.sleep w) ≡ sent w

module _ {W : Type 0} (api : Api W) (sent : W → List ModifyVolumeRequest)
    (laws : RequestLaws api sent) where
  loop_sends_none :
      (c : Content) (n : ℕ) (last : Fault) (w : W)
      → sent (update_status_loop api c n last w).0 ≡ sent w
  unfolding update_status_loop
  loop_sends_none c zero last w = refl
  loop_sends_none c (suc n) last w =
      let w1 = (api.content_of c.name w).0 in
      let same = laws.read c.name w in
      elim (Result-cases (api.content_of c.name w).1) [
        | inr (e, r) ↦ elim (Bool-cases (is_not_found e)) [
          | inl t ↦ rw (r, t, update_status_loop) same
          | inr f ↦ rw (r, f, update_status_loop) (loop_sends_none c n e w1 ∙ same)
        ]
        | inl (newer, r) ↦ elim (Bool-cases (can_retry newer c)) [
          | inr f ↦ rw (r, f, update_status_loop) same
          | inl t ↦
              let written = record newer { status = c.status } in
              let w2 = (api.update_content_status written w1).0 in
              let same2 = laws.write written w1 ∙ same in
              elim (Result-cases (api.update_content_status written w1).1) [
                | inl (c', r') ↦ rw (r, t, r', update_status_loop) same2
                | inr (e, r') ↦
                    rw (r, t, r', update_status_loop)
                      (loop_sends_none c n e (api.sleep w2) ∙ laws.slept w2 ∙ same2)
              ]
        ]
      ]

  rollback_sends :
      (c : Content) (w : W) → sent (do_rollback api c w).0 ≡ rollback_request c ∷ sent w
  unfolding do_rollback
  rollback_sends c w = elim (Result-cases (api.modify_volume (rollback_request c) w).1) [
    | inl (a, r) ↦ rw (r, do_rollback) (laws.modify _ w)
    | inr (e, r) ↦ rw (r, do_rollback) (laws.event _ _ ∙ laws.modify _ w)
  ]

  -- A status that was written sends nothing; one that was not sends the rollback.
  abbrev Undone : Content → W → W × Result Fault Content → Type 0
  Undone c w r =
      ((d : Content) → r.1 ≡ ok d → sent r.0 ≡ sent w)
      × ((e : Fault) → r.1 ≡ err e → sent r.0 ≡ rollback_request c ∷ sent w)

  write_status-Undone : (c : Content) (w : W) → Undone c w (write_status api c w)
  unfolding write_status update_status_with_retry
  write_status-Undone c w =
      let w1 = (api.update_content_status c w).0 in
      let w2 = (update_status_loop api c update_retry_times nil_pointer w1).0 in
      let same = laws.write c w in
      let same2 = loop_sends_none c update_retry_times nil_pointer w1 ∙ same in
      elim (Result-cases (api.update_content_status c w).1) [
        | inl (c', r) ↦ rw (r, write_status) ((λ d e. same), (λ e eq. absurd (cc eq)))
        | inr (e, r) ↦
            elim (Result-cases (update_status_loop api c update_retry_times nil_pointer w1).1) [
              | inl (c', r') ↦
                  rw (r, r', write_status, update_status_with_retry)
                    ((λ d e. same2), (λ e eq. absurd (cc eq)))
              | inr (e', r') ↦
                  rw (r, r', write_status, update_status_with_retry)
                    (
                      (λ d eq. absurd (cc eq)),
                      (λ e eq. rollback_sends c w2 ∙ ap (λ q. rollback_request c ∷ q) same2),
                    )
            ]
      ]

  finish-Undone : (c : Content) (w : W) → Undone c w (finish_modify api c w)
  unfolding finish_modify set_content_status
  finish-Undone c w =
      let clone = with_content_status api c content_completed (api.now w) in
      let u = write_status-Undone clone w in
      elim (Result-cases (write_status api clone w).1) [
        | inl (c', r) ↦
            rw (r, finish_modify, set_content_status)
              ((λ d e. laws.event _ _ ∙ u.0 c' r), (λ e eq. absurd (cc eq)))
        | inr (e, r) ↦
            rw (r, finish_modify, set_content_status) ((λ d eq. absurd (cc eq)), (λ e' eq. u.1 e r))
      ]

  -- When `callVolumeModify` handles a content that is being created it sends the modification once.
  -- If it fails, then either the driver refused the modification, and nothing else was sent, or the
  -- new status could not be stored, and then the rollback of the modification was sent after it.
  pub call_volume_modify-undone :
      (c : Content) (w : W)
      → is_content_phase c.status.phase content_creating ≡ true
      → ((d : Content)
          → (call_volume_modify api c w).1 ≡ ok d
          → sent (call_volume_modify api c w).0 ≡ modify_request c ∷ sent w)
        × ((e : Fault)
            → (call_volume_modify api c w).1 ≡ err e
            → ((refused : Fault) × ((api.modify_volume (modify_request c) w).1 ≡ err refused)
                × (sent (call_volume_modify api c w).0 ≡ modify_request c ∷ sent w))
              ⊎ (sent (call_volume_modify api c w).0
                  ≡ rollback_request c ∷ modify_request c ∷ sent w))
  unfolding call_volume_modify set_content_status
  call_volume_modify-undone c w p =
      let w1 = (api.modify_volume (modify_request c) w).0 in
      let once = laws.modify (modify_request c) w in
      elim (Result-cases (api.modify_volume (modify_request c) w).1) [
        | inr (e, r) ↦
            rw (p, r, call_volume_modify)
              (
                (λ d eq. absurd (cc eq)),
                (λ e' eq. inl (e, refl, laws.event create_failed w1 ∙ once)),
              )
        | inl (attributes, r) ↦ elim (Bool-cases (needs_staging api attributes)) [
          | inl t ↦
              let u =
                write_status-Undone (with_content_status api c content_staging (api.now w1)) w1 in
              rw (p, r, t, call_volume_modify)
                (
                  (λ d eq. u.0 d eq ∙ once),
                  (λ e eq. inr (u.1 e eq ∙ ap (λ q. rollback_request c ∷ q) once)),
                )
          | inr f ↦
              let u = finish-Undone c w1 in
              rw (p, r, f, call_volume_modify)
                (
                  (λ d eq. u.0 d eq ∙ once),
                  (λ e eq. inr (u.1 e eq ∙ ap (λ q. rollback_request c ∷ q) once)),
                )
        ]
      ]
