-- ===== src/Modify/Claim/Completion.antt =====
-- When a claim becomes completed: every content is, and `replaceStorageClass` returned no error.
use e_sdk_k8s_plugin.Prelude.{
  ℕ, zero, suc, ◌≤◌, Bool, true, false, List, [], ◌∷◌, String, if◌then◌else◌, length, eqb, eqb_iff,
  All, ◌≡◌, refl, ap, sym, subst, ◌∙◌, ◌⊎◌, inl, inr, Bool-cases, arith,
}
use e_sdk_k8s_plugin.Prelude.Result.{Result, ok, err, Result-cases}
use e_sdk_k8s_plugin.Prelude.Io.{◌>>=◌}
use e_sdk_k8s_plugin.Strconv.{same_bytes}
use e_sdk_k8s_plugin.Modify.Model.{
  Api, Claim, ClaimStatus, claim_creating, claim_completed, Content, ModifyContents, Fault,
  nil_pointer, is_claim_phase, is_claim_phase_iff, update_retry_times,
}
use e_sdk_k8s_plugin.Modify.Classes.{replace_storage_class, is_not_found}
use e_sdk_k8s_plugin.Modify.Status.{update_claim_loop, update_claim_status_with_retry}
use e_sdk_k8s_plugin.Modify.Claim.{
  wait_claim_completed, count_completed, settle, is_completed, with_progress,
}

-- Reading the lister's cache changes nothing, and a status that was written is returned.
pub record StatusLaws {W : Type 0} (api : Api W) : Type 0 where
  pub read : (n : String) (w : W) → (api.content_of n w).0 ≡ w
  pub write : (c d : Claim) (w : W) → (api.update_claim_status c w).1 ≡ ok d → d.status ≡ c.status

module _ {W : Type 0} (api : Api W) (laws : StatusLaws api) where
  -- The lister has no such content, or has it as completed.
  abbrev pub Done : W → ModifyContents → Type 0
  Done w entry =
      ((e : Fault) × ((api.content_of entry.modify_content_name w).1 ≡ err e)
        × (is_not_found e ≡ true))
      ⊎ ((c : Content) × ((api.content_of entry.modify_content_name w).1 ≡ ok c)
          × (is_completed c.status.phase ≡ true))

  abbrev number_of : Result Fault (ℕ × List ModifyContents) → ℕ
  number_of (ok x) = x.0
  number_of (err e) = 0

  -- What the loop returns: no more than there are, and as many only if each is done.
  abbrev Counted : List ModifyContents → W → W × Result Fault (ℕ × List ModifyContents) → Type 0
  Counted entries w r =
      (r.0 ≡ w)
      × (number_of r.1 ≤ length entries)
      × ((x : ℕ × List ModifyContents) → r.1 ≡ ok x → x.0 ≡ length entries → All (Done w) entries)

  -- The loop goes on behind an entry that counts or does not.
  Counted-more :
      (entry : ModifyContents) (entries : List ModifyContents) (w : W) (one : Bool)
      (last : ModifyContents)
      → (one ≡ true → Done w entry)
      → Counted entries w (count_completed api entries w)
      → Counted (entry ∷ entries) w (
          (count_completed api entries >>= λ x w.
          (w, ok ((if one then suc x.0 else x.0), last ∷ x.1)))
            w)
  Counted-more entry entries w one last done (same, most, all_done) =
      elim (Result-cases (count_completed api entries w).1) [
        | inr (e, r) ↦ rw r (same, omega arith, λ x eq. absurd (cc eq))
        | inl (x, r) ↦ elim (Bool-cases one) [
          | inl t ↦
              rw (r, t)
                (
                  same,
                  omega (arith, subst (λ q. number_of q ≤ length entries) r most),
                  λ y eq full. (done t, all_done x r (omega (arith, ap number_of eq, full))),
                )
          | inr f ↦
              rw (r, f)
                (
                  same,
                  omega (arith, subst (λ q. number_of q ≤ length entries) r most),
                  λ y eq full. absurd (
                      omega (
                        arith,
                        ap number_of eq,
                        full,
                        subst (λ q. number_of q ≤ length entries) r most,
                      )),
                )
        ]
      ]

  -- The loop behind its first entry, with what is made of that.
  abbrev behind :
      List ModifyContents → Bool → ModifyContents → W → W × Result Fault (ℕ × List ModifyContents)
  behind entries one last =
      count_completed api entries >>= λ x w. (w, ok ((if one then suc x.0 else x.0), last ∷ x.1))

  count_listed :
      (entry : ModifyContents) (entries : List ModifyContents) (c : Content) (w : W)
      → (api.content_of entry.modify_content_name w).1 ≡ ok c
      → count_completed api (entry ∷ entries) w
        ≡ behind entries (is_completed c.status.phase) (record entry { status = c.status.phase }) w
  unfolding count_completed
  count_listed entry entries c w r = rw (r, laws.read entry.modify_content_name w, count_completed)

  count_gone :
      (entry : ModifyContents) (entries : List ModifyContents) (e : Fault) (w : W)
      → (api.content_of entry.modify_content_name w).1 ≡ err e
      → is_not_found e ≡ true
      → count_completed api (entry ∷ entries) w ≡ behind entries true entry w
  unfolding count_completed
  count_gone entry entries e w r t =
      rw (r, t, laws.read entry.modify_content_name w, count_completed)

  count_failed :
      (entry : ModifyContents) (entries : List ModifyContents) (e : Fault) (w : W)
      → (api.content_of entry.modify_content_name w).1 ≡ err e
      → is_not_found e ≡ false
      → count_completed api (entry ∷ entries) w ≡ (w, err e)
  unfolding count_completed
  count_failed entry entries e w r f =
      rw (r, f, laws.read entry.modify_content_name w, count_completed)

  count_completed_lem :
      (entries : List ModifyContents) (w : W) → Counted entries w (count_completed api entries w)
  unfolding count_completed
  count_completed_lem [] w = (refl, omega arith, λ x e full. tt)
  count_completed_lem (entry ∷ entries) w =
      let rest = count_completed_lem entries w in
      elim (Result-cases (api.content_of entry.modify_content_name w).1) [
        | inl (c, r) ↦
            subst (Counted (entry ∷ entries) w) (sym (count_listed entry entries c w r)) (
              Counted-more entry entries w (is_completed c.status.phase) _ (λ t. inr (c, r, t))
                rest)
        | inr (e, r) ↦ elim (Bool-cases (is_not_found e)) [
          | inl t ↦
              subst (Counted (entry ∷ entries) w) (sym (count_gone entry entries e w r t))
                (Counted-more entry entries w true entry (λ _. inl (e, r, t)) rest)
          | inr f ↦
              subst (Counted (entry ∷ entries) w) (sym (count_failed entry entries e w r f))
                (refl, omega arith, λ x eq. absurd (cc eq))
        ]
      ]

  loop_status :
      (c d : Claim) (n : ℕ) (last : Fault) (w : W)
      → (update_claim_loop api c n last w).1 ≡ ok d
      → d.status ≡ c.status
  unfolding update_claim_loop
  loop_status c d zero last w h = absurd (cc h)
  loop_status c d (suc n) last w h = elim (Result-cases (api.claim_of c.name w).1) [
    | inr (e, r) ↦ elim (Bool-cases (is_not_found e)) [
      | inl t ↦ absurd (cc (rw (r, t, update_claim_loop) at h))
      | inr f ↦ loop_status c d n e _ (rw (r, f, update_claim_loop) at h)
    ]
    | inl (newer, r) ↦
        let w1 = (api.claim_of c.name w).0 in
        let sent = record newer { status = c.status } in
        elim (Result-cases (api.update_claim_status sent w1).1) [
          | inl (c', r') ↦ laws.write sent d w1 (r' ∙ (rw (r, r', update_claim_loop) at h))
          | inr (e, r') ↦ loop_status c d n e _ (rw (r, r', update_claim_loop) at h)
        ]
  ]

  retry_status :
      (c d : Claim) (w : W)
      → (update_claim_status_with_retry api c update_retry_times w).1 ≡ ok d
      → d.status ≡ c.status
  unfolding update_claim_status_with_retry
  retry_status c d w h = loop_status c d update_retry_times nil_pointer w h

  same_claim : {a b : Claim} → ◌≡◌ {A = Result Fault Claim} (ok a) (ok b) → a ≡ b
  same_claim e = cc

  not_yet :
      (c d : Claim) → c.status.phase ≡ claim_creating → c ≡ d → d.status.phase ≡ claim_completed → ⊥
  not_yet c d p e done = cc

  later :
      (c d : Claim) {clone : ClaimStatus}
      → clone.phase ≡ claim_creating
      → d.status ≡ clone
      → d.status.phase ≡ claim_completed
      → ⊥
  later c d p e done = cc

  settle_done :
      (c d : Claim) (n : ℕ) (entries : List ModifyContents) (w : W)
      → c.status.phase ≡ claim_creating
      → (settle api c n entries w).1 ≡ ok d
      → d.status.phase ≡ claim_completed
      → (n ≡ length c.status.contents) × ((replace_storage_class api c w).1 ≡ ok tt)
  unfolding settle
  settle_done c d n entries w p h done = elim (Bool-cases (eqb n (length c.status.contents))) [
    | inl t ↦ elim (Result-cases (replace_storage_class api c w).1) [
      | inl (u, r) ↦ ((eqb_iff _ _).0 t, r)
      | inr (e, r) ↦ absurd (cc (rw (t, r, settle) at h))
    ]
    | inr f ↦
        let clone = with_progress api c entries n in
        elim (Bool-cases (same_bytes c.status.ready clone.status.ready)) [
          | inl t ↦ absurd (not_yet c d p (same_claim (rw (f, t, settle) at h)) done)
          | inr f' ↦ absurd (
              later c d {clone = clone.status} p (retry_status clone d w (rw (f, f', settle) at h))
                done)
        ]
  ]

  -- If `waitClaimCompleted` returns a claim that was being created as completed, then the lister had
  -- each of its contents as completed or did not have it, and `replaceStorageClass` returned no error.
  pub wait_claim_completed-Done :
      (c d : Claim) (w : W)
      → is_claim_phase c.status.phase claim_creating ≡ true
      → (wait_claim_completed api c w).1 ≡ ok d
      → d.status.phase ≡ claim_completed
      → All (Done w) c.status.contents × ((replace_storage_class api c w).1 ≡ ok tt)
  unfolding wait_claim_completed
  wait_claim_completed-Done c d w p h done =
      let (same, most, all_done) = count_completed_lem c.status.contents w in
      elim (Result-cases (count_completed api c.status.contents w).1) [
        | inr (e, r) ↦ absurd (cc (rw (p, r, wait_claim_completed) at h))
        | inl (x, r) ↦
            let (full, replaced) =
              settle_done c d x.0 x.1 w (is_claim_phase_iff c.status.phase claim_creating p)
                (rw (p, r, same, wait_claim_completed) at h) done in
            (all_done x r full, replaced)
      ]
