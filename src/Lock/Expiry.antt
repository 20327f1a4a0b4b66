-- ===== src/Lock/Expiry.antt =====
-- After the wait for a lock file timed out, a lock can have two owners.
use e_sdk_k8s_plugin.Prelude.{
  ℕ, Bool, true, false, String, ◌==◌, eqb, eqb_iff, if◌then◌else◌, ◌≡◌, refl, ap, ◌∙◌, inl, inr,
  arith, eq_iff, Bool-cases, ◌≢◌,
}
use e_sdk_k8s_plugin.Lock.{
  System, Place, outside, waiting, locked, Step, lock, Timeout, time_out, moved, try_lock,
  delete_lock_file, set_file,
}
use e_sdk_k8s_plugin.Lock.Exclusion.{owns, files_after_delete}

not_moved :
    (places : ℕ → Place) (p q : ℕ) (place : Place)
    → p ≢ q
    → (if eqb p q then place else places q) ≡ places q
not_moved places p q place apart = elim (Bool-cases (eqb p q)) [
  | inl t ↦ absurd (apart ((eqb_iff p q).0 t))
  | inr f ↦ rw f
]

deleted_here :
    (name : String) (files : String → Bool) → (if name == name then false else files name) ≡ false
deleted_here name files = ground (arith, eq_iff name name)

locks_it :
    (r : ℕ) (name operation : String) (places : ℕ → Place)
    → owns (if eqb r r then locked name operation else places r) name ≡ true
locks_it r name operation places = rw ((eqb_iff r r).1 refl) ((eq_iff name name).1 refl)

-- If a process owns a lock, and the wait of another process for it times out, then a third one that
-- is waiting for it can take it at once, while the first still owns it: the file that `waitGetLock`
-- deletes after a timeout is the owner's.
pub Timeout-shared :
    (s : System) (p q r : ℕ) (name first second : String)
    → owns (s.places p) name ≡ true
    → s.places q ≡ waiting name first
    → s.places r ≡ waiting name second
    → q ≢ p
    → q ≢ r
    → r ≢ p
    → (t : System) × (u : System) × Timeout s t
      × Step t u
      × (owns (u.places p) name ≡ true)
      × (owns (u.places r) name ≡ true)
unfolding try_lock
Timeout-shared s p q r name first second own at_q at_r qp qr rp =
    let freed = delete_lock_file name s.locks in
    let t = moved q outside freed s in
    let u = moved r (locked name second) (set_file name true freed) t in
    let absent = files_after_delete name name s.locks ∙ deleted_here name s.locks.files in
    (
      t,
      u,
      time_out q name first at_q,
      lock r name second (set_file name true freed) (not_moved s.places q r outside qr ∙ at_r)
          (rw (absent, try_lock)),
      ap (λ place. owns place name)
            (not_moved t.places r p (locked name second) rp ∙ not_moved s.places q p outside qp)
          ∙ own,
      locks_it r name second t.places,
    )
