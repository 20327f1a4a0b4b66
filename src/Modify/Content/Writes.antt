-- ===== src/Modify/Content/Writes.antt =====
-- Writing the status of a content, once or with retries: the stored phase is the old or the new one.
use e_sdk_k8s_plugin.Prelude.{
  ℕ, zero, suc, String, ◌≡◌, refl, sym, subst, ◌∙◌, ◌⊎◌, inl, inr, Bool-cases,
}
use e_sdk_k8s_plugin.Prelude.Result.{Result, ok, err, Result-cases}
use e_sdk_k8s_plugin.Modify.Model.{
  Api, Content, ContentPhase, Fault, nil_pointer, update_retry_times,
}
use e_sdk_k8s_plugin.Modify.Classes.{is_not_found}
use e_sdk_k8s_plugin.Modify.Content.{
  can_retry, update_status_loop, update_status_with_retry, do_rollback, rollback_request,
  write_status, set_content_status, with_content_status,
}
use e_sdk_k8s_plugin.Modify.Content.Phases.{
  ContentStep, Reach, here, step, Phases, PhaseLaws, Moves, Returned, Wrote, same_ok,
}

module _ {W : Type 0} (api : Api W) (phases : W → Phases) (laws : PhaseLaws api phases) where
  -- A write of a phase that may have failed, with what the caller gets.
  abbrev pub Writes : String → ContentPhase → ContentPhase → W × Result Fault Content → Type 0
  Writes name from to r =
      ((phases r.0 name ≡ from) ⊎ (phases r.0 name ≡ to)) × Returned name (phases r.0 name) r.1

  pub Writes-Moves :
      (name : String) (from to : ContentPhase) (r : W × Result Fault Content)
      → ContentStep from to
      → Writes name from to r
      → Moves phases name from r
  Writes-Moves name from to r s (inl e, back) = (here (sym e), back)
  Writes-Moves name from to r s (inr e, back) =
      (subst (λ p. Reach from p) (sym e) (step (here refl) s), back)

  -- One call of the API.
  written :
      (before : Phases) (c : Content) (after : Phases) (r : Result Fault Content)
      → Wrote before c after r
      → ((after c.name ≡ before c.name) ⊎ (after c.name ≡ c.status.phase))
        × Returned c.name (after c.name) r
  written before c after (ok c') law = (
    inr law.0,
    λ d e.
        subst (λ d. (d.name ≡ c.name) × (after c.name ≡ d.status.phase)) (same_ok e)
          (law.1, law.0 ∙ sym law.2),
  )
  written before c after (err e) law = (law, λ d eq. absurd (cc eq))

  pub write_once :
      (c : Content) (from : ContentPhase) (w : W)
      → (phases w c.name ≡ from) ⊎ (phases w c.name ≡ c.status.phase)
      → Writes c.name from c.status.phase (api.update_content_status c w)
  write_once c from w h =
      let (now, back) =
        written (phases w) c (phases (api.update_content_status c w).0) _ (laws.write c w) in
      (
        elim now [
          | inl same ↦ elim h [ inl e ↦ inl (same ∙ e) | inr e ↦ inr (same ∙ e) ]
          | inr e ↦ inr e
        ],
        back,
      )

  Near : Content → ContentPhase → W → Type 0
  Near c from w = (phases w c.name ≡ from) ⊎ (phases w c.name ≡ c.status.phase)

  Near-same :
      (c : Content) (from : ContentPhase) (w w' : W)
      → phases w' ≡ phases w
      → Near c from w
      → Near c from w'
  unfolding Near
  Near-same c from w w' e h = subst (λ p. (p c.name ≡ from) ⊎ (p c.name ≡ c.status.phase)) (sym e) h

  -- The status is written to the object that the lister has under the name.
  write_newer :
      (c newer : Content) (from : ContentPhase) (w : W)
      → newer.name ≡ c.name
      → Near c from w
      → Writes c.name from c.status.phase
          (api.update_content_status (record newer { status = c.status }) w)
  unfolding Near
  write_newer c newer from w n h =
      let sent = record newer { status = c.status } in
      subst (λ n. Writes n from c.status.phase (api.update_content_status sent w)) n
        (write_once sent from w
          (subst (λ n. (phases w n ≡ from) ⊎ (phases w n ≡ c.status.phase)) (sym n) h))

  loop-Writes :
      (c : Content) (from : ContentPhase) (n : ℕ) (last : Fault) (w : W)
      → Near c from w
      → Writes c.name from c.status.phase (update_status_loop api c n last w)
  unfolding update_status_loop Near
  loop-Writes c from zero last w h = (h, λ d eq. absurd (cc eq))
  loop-Writes c from (suc n) last w h =
      let w1 = (api.content_of c.name w).0 in
      let h1 = Near-same c from w w1 (laws.read c.name w).0 h in
      elim (Result-cases (api.content_of c.name w).1) [
        | inr (e, r) ↦ elim (Bool-cases (is_not_found e)) [
          | inl t ↦ rw (r, t, update_status_loop) (h1, λ d eq. absurd (cc eq))
          | inr f ↦ rw (r, f, update_status_loop) (loop-Writes c from n e w1 h1)
        ]
        | inl (newer, r) ↦ elim (Bool-cases (can_retry newer c)) [
          | inr f ↦ rw (r, f, update_status_loop) (h1, λ d eq. absurd (cc eq))
          | inl t ↦
              let sent = record newer { status = c.status } in
              let one = write_newer c newer from w1 ((laws.read c.name w).1 newer r) h1 in
              let w2 = (api.update_content_status sent w1).0 in
              elim (Result-cases (api.update_content_status sent w1).1) [
                | inl (c', r') ↦
                    rw (r, t, r', update_status_loop) (one.0, λ d eq. one.1 d (r' ∙ eq))
                | inr (e, r') ↦
                    rw (r, t, r', update_status_loop)
                      (loop-Writes c from n e (api.sleep w2)
                        (Near-same c from w2 _ (laws.slept w2) one.0))
              ]
        ]
      ]

  rollback_unmoved : (c : Content) (w : W) → phases (do_rollback api c w).0 ≡ phases w
  unfolding do_rollback
  rollback_unmoved c w = elim (Result-cases (api.modify_volume (rollback_request c) w).1) [
    | inl (a, r) ↦ rw (r, do_rollback) (laws.modify _ w)
    | inr (e, r) ↦ rw (r, do_rollback) (laws.event _ _ ∙ laws.modify _ w)
  ]

  write_status-Writes :
      (c : Content) (from : ContentPhase) (w : W)
      → phases w c.name ≡ from
      → Writes c.name from c.status.phase (write_status api c w)
  unfolding write_status update_status_with_retry Near
  write_status-Writes c from w h =
      let one = write_once c from w (inl h) in
      let w1 = (api.update_content_status c w).0 in
      let more = loop-Writes c from update_retry_times nil_pointer w1 one.0 in
      let w2 = (update_status_loop api c update_retry_times nil_pointer w1).0 in
      elim (Result-cases (api.update_content_status c w).1) [
        | inl (c', r) ↦ rw (r, write_status) (one.0, λ d eq. one.1 d (r ∙ eq))
        | inr (e, r) ↦
            elim (Result-cases (update_status_loop api c update_retry_times nil_pointer w1).1) [
              | inl (c', r') ↦
                  rw (r, r', write_status, update_status_with_retry)
                    (more.0, λ d eq. more.1 d (r' ∙ eq))
              | inr (e', r') ↦
                  rw (r, r', write_status, update_status_with_retry)
                    (Near-same c from w2 _ (rollback_unmoved c w2) more.0, λ d eq. absurd (cc eq))
            ]
      ]

  pub set-Moves :
      (c : Content) (from to : ContentPhase) (w : W)
      → ContentStep from to
      → phases w c.name ≡ from
      → Moves phases c.name from (set_content_status api c to w)
  unfolding set_content_status
  set-Moves c from to w s h =
      Writes-Moves c.name from to _ s
        (write_status-Writes (with_content_status api c to (api.now w)) from w h)
