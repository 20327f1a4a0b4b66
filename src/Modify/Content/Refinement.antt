-- ===== src/Modify/Content/Refinement.antt =====
-- Every write of a content's phase is a step of the abstract machine.
use e_sdk_k8s_plugin.Prelude.{
  Bool, [], ◌∷◌, ◌++◌, String, ◌==◌, ◌&&◌, ◌≡◌, refl, ap, sym, subst, ◌∙◌, inl, inr, Bool-cases,
  Option-cases, is_empty, any,
}
use e_sdk_k8s_plugin.Prelude.Result.{ok, err, Result-cases}
use e_sdk_k8s_plugin.Prelude.Io.{Io, ◌>>=◌}
use e_sdk_k8s_plugin.Modify.Model.{
  Api, Content, ContentPhase, content_unset, content_pending, content_creating, content_staging,
  content_completed, Fault, contains, create_failed, start_creating,
}
use e_sdk_k8s_plugin.Modify.Parameters.{check_parameters}
use e_sdk_k8s_plugin.Modify.Content.{
  set_content_pending, pre_create_content, set_content_finalizers, create_content_status,
  set_content_status, finish_modify, call_volume_modify, wait_volume_staged, sync_functions,
  run_functions, claim_ended, is_nas, with_content_phase, started_content, sync_content,
  protect_content_finalizer, modify_request, needs_staging, rescanning,
}
use e_sdk_k8s_plugin.Modify.Content.Phases.{
  ContentStep, accept, start, stage, finish, scanned, Reach, here, Phases, PhaseLaws, Moves, Sound,
  Returned, at_content_phase-Sound, chain, stopped, unmoved,
}
use e_sdk_k8s_plugin.Modify.Content.Writes.{set-Moves, write_once, Writes-Moves}

module _ {W : Type 0} (api : Api W) (phases : W → Phases) (laws : PhaseLaws api phases) where
  -- What is stored does not change afterwards.
  Moves-later :
      (name : String) (from : ContentPhase) (w w' : W) (c : Content)
      → phases w' ≡ phases w
      → Moves phases name from (w, ok c)
      → Moves phases name from (w', ok c)
  Moves-later name from w w' c e m =
      subst (λ p. Reach from (p name) × Returned name (p name) (ok c)) (sym e) m

  finish-Moves :
      (c : Content) (from : ContentPhase) (w : W)
      → ContentStep from content_completed
      → phases w c.name ≡ from
      → Moves phases c.name from (finish_modify api c w)
  unfolding finish_modify
  finish-Moves c from w s h =
      let m = set-Moves api phases laws c from content_completed w s h in
      elim (Result-cases (set_content_status api c content_completed w).1) [
        | inr (e, r) ↦ rw (r, finish_modify) (m.0, λ d eq. absurd (cc eq))
        | inl (c', r) ↦
            rw (r, finish_modify)
              (Moves-later c.name from _ _ c' (laws.event start_creating _)
                (m.0, λ d eq. m.1 d (r ∙ eq)))
      ]

  -- A run that fails after the phase was left as it is, and one that returns the content as it is.
  fails :
      (name : String) (from : ContentPhase) (w w' : W) (e : Fault)
      → phases w' ≡ phases w
      → phases w name ≡ from
      → Moves phases name from (w', err e)
  fails name from w w' e same h =
      stopped phases name from w' e (here (sym h ∙ ap (λ p. p name) (sym same)))

  stays :
      (c : Content) (from : ContentPhase) (w w' : W)
      → phases w' ≡ phases w
      → phases w c.name ≡ from
      → c.status.phase ≡ from
      → Moves phases c.name from (w', ok c)
  stays c from w w' same h p =
      Moves-later c.name from w w' c same
        (subst (λ q. Moves phases c.name q (w, ok c)) p (unmoved phases c w (h ∙ sym p)))

  set_content_pending-Sound : Sound phases (set_content_pending api)
  unfolding set_content_pending
  set_content_pending-Sound = at_content_phase-Sound phases content_unset _ (λ c w h _.
      Writes-Moves api phases laws c.name content_unset content_pending _ accept
        (write_once api phases laws (with_content_phase c content_pending) content_unset w (inl h)))

  pre_create_content-Sound : Sound phases (pre_create_content api)
  unfolding pre_create_content
  pre_create_content-Sound = at_content_phase-Sound phases content_pending _ (λ c w h p.
      elim (Bool-cases (is_empty c.spec.parameters)) [
        | inl t ↦ rw t (fails c.name content_pending w _ _ (laws.event create_failed w) h)
        | inr f ↦ elim (Option-cases (check_parameters c.spec.parameters)) [
          | inl n ↦ rw (f, n) (stays c content_pending w w refl h p)
          | inr (x, n) ↦
              rw (f, n) (fails c.name content_pending w _ _ (laws.event create_failed w) h)
        ]
      ])

  set_content_finalizers-Sound : Sound phases (set_content_finalizers api)
  unfolding set_content_finalizers
  set_content_finalizers-Sound = at_content_phase-Sound phases content_pending _ (λ c w h p.
      let guarded = record c { finalizers = c.finalizers ++ protect_content_finalizer ∷ [] } in
      let (same, back) = laws.update guarded w in
      elim (Bool-cases (contains c.finalizers protect_content_finalizer)) [
        | inl t ↦ rw t (stays c content_pending w w refl h p)
        | inr f ↦ rw f (
          here (sym h ∙ ap (λ q. q c.name) (sym same)),
          subst (λ q. Returned c.name (q c.name) (api.update_content guarded w).1) (sym same) back,
        )
      ])

  create_content_status-Sound : Sound phases (create_content_status api)
  unfolding create_content_status
  create_content_status-Sound = at_content_phase-Sound phases content_pending _ (λ c w h _.
      let w1 = api.record_event start_creating w in
      Writes-Moves api phases laws c.name content_pending content_creating _ start (
        write_once api phases laws (started_content api c (api.now w1)) content_pending w1
          (inl (ap (λ p. p c.name) (laws.event start_creating w) ∙ h))))

  call_volume_modify-Sound : Sound phases (call_volume_modify api)
  unfolding call_volume_modify
  call_volume_modify-Sound = at_content_phase-Sound phases content_creating _ (λ c w h p.
      let w1 = (api.modify_volume (modify_request c) w).0 in
      let h1 = ap (λ q. q c.name) (laws.modify (modify_request c) w) ∙ h in
      elim (Result-cases (api.modify_volume (modify_request c) w).1) [
        | inr (e, r) ↦ rw r (fails c.name content_creating w1 _ _ (laws.event create_failed w1) h1)
        | inl (attributes, r) ↦ elim (Bool-cases (needs_staging api attributes)) [
          | inl t ↦
              rw (r, t) (set-Moves api phases laws c content_creating content_staging w1 stage h1)
          | inr f ↦ rw (r, f) (finish-Moves c content_creating w1 finish h1)
        ]
      ])

  wait_volume_staged-Sound : Sound phases (wait_volume_staged api)
  unfolding wait_volume_staged
  wait_volume_staged-Sound = at_content_phase-Sound phases content_staging _ (λ c w h p.
      let w1 = (api.attachment_labels c.spec.pv_name w).0 in
      let h1 = ap (λ q. q c.name) (laws.attachments c.spec.pv_name w) ∙ h in
      elim (Result-cases (api.attachment_labels c.spec.pv_name w).1) [
        | inr (e, r) ↦ rw r (fails c.name content_staging w w1 e (laws.attachments _ w) h)
        | inl (attachments, r) ↦ elim (Bool-cases (any (rescanning api) attachments)) [
          | inl t ↦ rw (r, t) (stays c content_staging w1 _ (laws.add_after c.name w1) h1 p)
          | inr f ↦ rw (r, f) (finish-Moves c content_staging w1 scanned h1)
        ]
      ])

  then_Sound :
      (f g : Content → Io W Fault Content)
      → Sound phases f
      → Sound phases g
      → Sound phases (λ c. f c >>= g)
  then_Sound f g sf sg c w h = chain phases c.name c.status.phase (f c) g w (sf c w h) sg

  run_functions-Sound : Sound phases (run_functions api)
  unfolding run_functions
  run_functions-Sound = then_Sound (set_content_pending api) _ set_content_pending-Sound (
      then_Sound (pre_create_content api) _ pre_create_content-Sound (
        then_Sound (set_content_finalizers api) _ set_content_finalizers-Sound (
          then_Sound (create_content_status api) _ create_content_status-Sound (
            then_Sound (call_volume_modify api) _ call_volume_modify-Sound
              wait_volume_staged-Sound))))

  sync_functions-Reach :
      (c : Content) (w : W)
      → phases w c.name ≡ c.status.phase
      → Reach c.status.phase (phases (sync_functions api c w).0 c.name)
  unfolding sync_functions
  sync_functions-Reach c w h =
      let m = run_functions-Sound c w h in
      elim (Result-cases (run_functions api c w).1) [
        | inl (d, r) ↦ rw (r, sync_functions) m.0
        | inr (e, r) ↦ rw (r, sync_functions) m.0
      ]

  stops : Content → W → Bool
  stops c w =
      claim_ended (api.claim_of c.spec.claim_name w).1 && is_nas c.spec.storage_class_parameters

  -- A run of `syncContent` on a content that was read as it is stored, whatever its calls return and
  -- whether or not a failed write took effect, leaves a stored phase that the abstract machine
  -- reaches from the one before: Pending, Creating, Staging when needed, and Completed, in this order.
  pub sync_content-refines :
      (c : Content) (w : W)
      → phases w c.name ≡ c.status.phase
      → Reach (phases w c.name) (phases (sync_content api c w).0 c.name)
  unfolding sync_content stops
  sync_content-refines c w h =
      subst (λ p. Reach p (phases (sync_content api c w).0 c.name)) (sym h)
        (elim (Bool-cases (c.spec.claim_name == "")) [
          | inl t ↦ rw (t, sync_content) (sync_functions-Reach c w h)
          | inr f ↦
              let w1 = (api.claim_of c.spec.claim_name w).0 in
              let h1 = ap (λ q. q c.name) (laws.claims c.spec.claim_name w) ∙ h in
              elim (Bool-cases (stops c w)) [
                | inl t ↦ elim (Result-cases (api.claim_of c.spec.claim_name w).1) [
                  | inl (claim, r) ↦ rw (f, t, r, sync_content) (here (sym h1))
                  | inr (e, r) ↦ rw (f, t, r, sync_content) (here (sym h1))
                ]
                | inr f' ↦ rw (f, f', sync_content) (sync_functions-Reach c w1 h1)
              ]
        ])
