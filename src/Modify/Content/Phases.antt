-- ===== src/Modify/Content/Phases.antt =====
-- The phases of a content as an abstract machine, and what the Kubernetes API documents of the stored
-- phase: only the status subresource writes it, and a write that fails may have taken effect.
use e_sdk_k8s_plugin.Prelude.{String, ◌≡◌, refl, ap, sym, subst, ◌∙◌, ◌⊎◌, inl, inr, Bool-cases}
use e_sdk_k8s_plugin.Prelude.Result.{Result, ok, err, Result-cases}
use e_sdk_k8s_plugin.Prelude.Io.{Io, ◌>>=◌}
use e_sdk_k8s_plugin.Modify.Model.{
  Api, Content, ContentPhase, content_unset, content_pending, content_creating, content_staging,
  content_completed, Fault, is_content_phase, at_content_phase, is_content_phase_iff,
  ModifyVolumeRequest, Reason,
}

-- What the controller may do to the phase of a content that is not being deleted.
pub data ContentStep : ContentPhase → ContentPhase → Type 0 where
  accept : ContentStep content_unset content_pending
  start : ContentStep content_pending content_creating
  stage : ContentStep content_creating content_staging
  finish : ContentStep content_creating content_completed
  scanned : ContentStep content_staging content_completed

pub data Reach (from : ContentPhase) : ContentPhase → Type 0 where
  here : {to : ContentPhase} → from ≡ to → Reach from to
  step : {mid to : ContentPhase} → Reach from mid → ContentStep mid to → Reach from to

pub join : {p q r : ContentPhase} → Reach p q → Reach q r → Reach p r
join {p} reach (here e) = subst (λ x. Reach p x) e reach
join reach (step more s) = step (join reach more) s

abbrev pub Phases : Type 0
Phases = String → ContentPhase

-- What a call returns is the stored object.
abbrev pub Returned : String → ContentPhase → Result Fault Content → Type 0
Returned name stored r = (c : Content) → r ≡ ok c → (c.name ≡ name) × (stored ≡ c.status.phase)

abbrev pub Wrote : Phases → Content → Phases → Result Fault Content → Type 0
Wrote before c after (ok c') =
    (after c.name ≡ c.status.phase) × (c'.name ≡ c.name) × (c'.status.phase ≡ c.status.phase)
Wrote before c after (err _) = (after c.name ≡ before c.name) ⊎ (after c.name ≡ c.status.phase)

pub record PhaseLaws {W : Type 0} (api : Api W) (phases : W → Phases) : Type 0 where
  pub read :
      (n : String) (w : W)
      → (phases (api.content_of n w).0 ≡ phases w)
        × ((c : Content) → (api.content_of n w).1 ≡ ok c → c.name ≡ n)
  pub write :
      (c : Content) (w : W)
      → Wrote
          (phases w)
          c
          (phases (api.update_content_status c w).0)
          (api.update_content_status c w).1
  pub update :
      (c : Content) (w : W)
      → (phases (api.update_content c w).0 ≡ phases w)
        × Returned c.name (phases w c.name) (api.update_content c w).1
  pub claims : (n : String) (w : W) → phases (api.claim_of n w).0 ≡ phases w
  pub modify : (r : ModifyVolumeRequest) (w : W) → phases (api.modify_volume r w).0 ≡ phases w
  pub attachments : (n : String) (w : W) → phases (api.attachment_labels n w).0 ≡ phases w
  pub event : (r : Reason) (w : W) → phases (api.record_event r w) ≡ phases w
  pub add_after : (n : String) (w : W) → phases (api.content_add_after n w) ≡ phases w
  pub slept : (w : W) → phases (api.sleep w) ≡ phases w

pub same_ok : {a b : Content} → ◌≡◌ {A = Result Fault Content} (ok a) (ok b) → a ≡ b
same_ok e = cc

module _ {W : Type 0} (phases : W → Phases) where
  -- A run from a stored phase: it moves along the steps, and what it returns is what is stored.
  abbrev pub Moves : String → ContentPhase → W × Result Fault Content → Type 0
  Moves name from r = Reach from (phases r.0 name) × Returned name (phases r.0 name) r.1

  -- A function on a content that was read as it is stored.
  abbrev pub Sound : (Content → Io W Fault Content) → Type 0
  Sound f =
      (content : Content) (w : W)
      → phases w content.name ≡ content.status.phase
      → Moves content.name content.status.phase (f content w)

  pub unmoved :
      (content : Content) (w : W)
      → phases w content.name ≡ content.status.phase
      → Moves content.name content.status.phase (w, ok content)
  unmoved content w h = (
    here (sym h),
    λ c e.
        subst (λ d. (d.name ≡ content.name) × (phases w content.name ≡ d.status.phase)) (same_ok e)
          (refl, h),
  )

  pub stopped :
      (name : String) (from : ContentPhase) (w : W) (e : Fault)
      → Reach from (phases w name)
      → Moves name from (w, err e)
  stopped name from w e reach = (reach, λ c eq. absurd (cc eq))

  -- Only a content in that phase reaches the body.
  pub at_content_phase-Sound :
      (phase : ContentPhase) (body : Content → Io W Fault Content)
      → ((content : Content) (w : W)
          → phases w content.name ≡ phase
          → content.status.phase ≡ phase
          → Moves content.name phase (body content w))
      → Sound (at_content_phase phase body)
  at_content_phase-Sound phase body sound content w h =
      elim (Bool-cases (is_content_phase content.status.phase phase)) [
        | inl t ↦
            let e = is_content_phase_iff content.status.phase phase t in
            rw t (
              subst (λ p. Moves content.name p (body content w)) (sym e)
                (sound content w (h ∙ e) e))
        | inr f ↦ rw f (unmoved content w h)
      ]

  -- One function after another.
  pub chain :
      (name : String) (from : ContentPhase) (call : Io W Fault Content)
      (next : Content → Io W Fault Content) (w : W)
      → Moves name from (call w)
      → Sound next
      → Moves name from ((call >>= next) w)
  chain name from call next w m sound = elim (Result-cases (call w).1) [
    | inl (c, e) ↦
        let (n, stored) = m.1 c e in
        let w' = (call w).0 in
        let after =
          subst (λ n. Moves n c.status.phase (next c w')) n
            (sound c w' (ap (phases w') n ∙ stored)) in
        rw e (join (subst (λ p. Reach from p) stored m.0) after.0, after.1)
    | inr (e, r) ↦ rw r (stopped name from (call w).0 e m.0)
  ]
