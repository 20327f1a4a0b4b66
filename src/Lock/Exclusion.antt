-- ===== src/Lock/Exclusion.antt =====
-- While no wait for a lock file times out, a lock has one owner.
use e_sdk_k8s_plugin.Prelude.{
  ℕ, Bool, true, false, Option, some, String, ◌==◌, eqb, eqb_iff, if◌then◌else◌, ◌≡◌, refl, ap, sym,
  subst, ◌∙◌, inl, inr, arith, eq_iff, Bool-cases, Option-cases,
}
use e_sdk_k8s_plugin.Prelude.Result.{Result, ok}
use e_sdk_k8s_plugin.Lock.{
  Locks, System, Place, outside, waiting, locked, holding, leaving, Step, call, lock, enter,
  give_up, leave, unlock, Run, done, after, start, moved, try_lock, delete_lock_file,
  wait_get_semaphore, release_semaphore, set_file, acquire, release,
}

-- The process has made the file of this lock and not deleted it yet.
abbrev pub owns : Place → String → Bool
owns outside name = false
owns (waiting _ _) name = false
owns (locked n _) name = n == name
owns (holding n _) name = n == name
owns (leaving n _) name = n == name

pub record IsExclusive (s : System) : Type 0 where
  pub has_file : (p : ℕ) (name : String) → owns (s.places p) name ≡ true → s.locks.files name ≡ true
  pub single :
      (p q : ℕ) (name : String)
      → owns (s.places p) name ≡ true
      → owns (s.places q) name ≡ true
      → p ≡ q

-- A process other than the one that moved is where it was.
place_of :
    (s : System) (p q : ℕ) (place : Place)
    → eqb p q ≡ false
    → (if eqb p q then place else s.places q) ≡ s.places q
place_of s p q place f = rw f

owned_before :
    (s : System) (p q : ℕ) (place : Place) (name : String)
    → (owns place name ≡ true → owns (s.places p) name ≡ true)
    → owns (if eqb p q then place else s.places q) name ≡ true
    → owns (s.places q) name ≡ true
owned_before s p q place name less h = elim (Bool-cases (eqb p q)) [
  | inl t ↦ subst (λ r. owns (s.places r) name ≡ true) ((eqb_iff p q).0 t) (less (rw t at h))
  | inr f ↦ rw f at h
]

-- A move that keeps the files, to a place that owns no more.
moved-IsExclusive :
    (s : System) (p : ℕ) (place : Place) (locks : Locks)
    → ((name : String) → locks.files name ≡ s.locks.files name)
    → ((name : String) → owns place name ≡ true → owns (s.places p) name ≡ true)
    → IsExclusive s
    → IsExclusive (moved p place locks s)
moved-IsExclusive s p place locks files less inv = record {
  has_file =
      λ q name h. files name ∙ inv.has_file q name (owned_before s p q place name (less name) h);
  single = λ q r name h h'.
      inv.single q r name (owned_before s p q place name (less name) h)
        (owned_before s p r place name (less name) h');
}

pub files_after_delete :
    (name other : String) (locks : Locks)
    → (delete_lock_file name locks).files other
      ≡ (if name == other then false else locks.files other)
unfolding delete_lock_file
files_after_delete name other locks = elim (Bool-cases (locks.files name)) [
  | inl t ↦ rw (t, delete_lock_file)
  | inr f ↦ rw (f, delete_lock_file) (absent_anyway (locks.files) name other f)
]
  where
    absent_anyway :
        (files : String → Bool) (name other : String)
        → files name ≡ false
        → files other ≡ (if name == other then false else files other)
    absent_anyway files name other f = elim (Bool-cases (name == other)) [
      | inl t ↦ rw t (ap files (sym ((eq_iff name other).0 t)) ∙ f)
      | inr f' ↦ rw f'
    ]

outside_owns_nothing :
    (s : System) (p q : ℕ) (name : String)
    → owns (if eqb p q then outside else s.places q) name ≡ true
    → (eqb p q ≡ false) × (owns (s.places q) name ≡ true)
outside_owns_nothing s p q name h = elim (Bool-cases (eqb p q)) [
  | inl t ↦ absurd (cc (rw t at h))
  | inr f ↦ (f, rw f at h)
]

-- A move that deletes the file that the process owned.
freed-IsExclusive :
    (s : System) (p : ℕ) (name : String)
    → ((other : String) → owns (s.places p) other ≡ (name == other))
    → IsExclusive s
    → IsExclusive (moved p outside (delete_lock_file name s.locks) s)
freed-IsExclusive s p name owned inv = record {
  has_file = λ q other h.
      let (apart, h') = outside_owns_nothing s p q other h in
      files_after_delete name other s.locks ∙ kept q other apart h';
  single = λ q r other h h'.
      inv.single q r other (outside_owns_nothing s p q other h).1
        (outside_owns_nothing s p r other h').1;
}
  where
    kept :
        (q : ℕ) (other : String)
        → eqb p q ≡ false
        → owns (s.places q) other ≡ true
        → (if name == other then false else s.locks.files other) ≡ true
    kept q other apart h = elim (Bool-cases (name == other)) [
      | inl t ↦ absurd (cc (sym apart ∙ (eqb_iff p q).1 (inv.single p q other (owned other ∙ t) h)))
      | inr f ↦ rw f (inv.has_file q other h)
    ]

taken_lem :
    (name : String) (locks locks' : Locks)
    → try_lock name locks ≡ (true, locks')
    → (locks.files name ≡ false) × (locks' ≡ set_file name true locks)
unfolding try_lock
taken_lem name locks locks' h = elim (Bool-cases (locks.files name)) [
  | inl t ↦ absurd (cc (ap (λ r. r.0) (rw (t, try_lock) at h)))
  | inr f ↦ (f, sym (ap (λ r. r.1) (rw (f, try_lock) at h)))
]

-- The file was absent, so no other process owned the lock.
locked-IsExclusive :
    (s : System) (p : ℕ) (name operation : String)
    → s.locks.files name ≡ false
    → IsExclusive s
    → IsExclusive (moved p (locked name operation) (set_file name true s.locks) s)
locked-IsExclusive s p name operation absent inv = record {
  has_file = λ q other h. elim (Bool-cases (eqb p q)) [
    | inl t ↦ made other (rw t at h)
    | inr f ↦ still other (inv.has_file q other (rw f at h))
  ];
  single = λ q r other h h'. elim (Bool-cases (eqb p q)) [
    | inl t ↦ elim (Bool-cases (eqb p r)) [
      | inl t' ↦ sym ((eqb_iff p q).0 t) ∙ (eqb_iff p r).0 t'
      | inr f ↦ absurd (clash r other (rw t at h) (rw f at h'))
    ]
    | inr f ↦ elim (Bool-cases (eqb p r)) [
      | inl t ↦ absurd (clash q other (rw t at h') (rw f at h))
      | inr f' ↦ inv.single q r other (rw f at h) (rw f' at h')
    ]
  ];
}
  where
    made :
        (other : String)
        → (name == other) ≡ true
        → (if name == other then true else s.locks.files other) ≡ true
    made other t = rw t

    still :
        (other : String)
        → s.locks.files other ≡ true
        → (if name == other then true else s.locks.files other) ≡ true
    still other t = ground arith

    clash : (q : ℕ) (other : String) → (name == other) ≡ true → owns (s.places q) other ≡ true → ⊥
    clash q other t h =
        cc (sym absent ∙ ap s.locks.files ((eq_iff name other).0 t) ∙ inv.has_file q other h)

same_locks :
    {a b : Locks} → ◌≡◌ {A = Option (Result String Locks)} (some (ok a)) (some (ok b)) → a ≡ b
same_locks e = cc

-- An operation on a semaphore keeps the files.
waited_files :
    (operation : String) (locks locks' : Locks)
    → wait_get_semaphore operation locks ≡ some (ok locks')
    → (name : String) → locks'.files name ≡ locks.files name
unfolding wait_get_semaphore
waited_files operation locks locks' h name = elim (Option-cases (locks.semaphores operation)) [
  | inl e ↦ absurd (cc (rw (e, wait_get_semaphore) at h))
  | inr (s, e) ↦ elim (Option-cases (acquire s)) [
    | inl a ↦ absurd (cc (rw (e, a, wait_get_semaphore) at h))
    | inr (s', a) ↦ sym (ap (λ l. l.files name) (same_locks (rw (e, a, wait_get_semaphore) at h)))
  ]
]

released_files :
    (operation : String) (locks locks' : Locks)
    → release_semaphore operation locks ≡ some (ok locks')
    → (name : String) → locks'.files name ≡ locks.files name
unfolding release_semaphore
released_files operation locks locks' h name = elim (Option-cases (locks.semaphores operation)) [
  | inl e ↦ absurd (cc (rw (e, release_semaphore) at h))
  | inr (s, e) ↦ elim (Option-cases (release s)) [
    | inl a ↦ absurd (cc (rw (e, a, release_semaphore) at h))
    | inr (s', a) ↦ sym (ap (λ l. l.files name) (same_locks (rw (e, a, release_semaphore) at h)))
  ]
]

Step-IsExclusive : (s t : System) → Step s t → IsExclusive s → IsExclusive t
Step-IsExclusive s _ (call p name operation at) inv =
    moved-IsExclusive s p (waiting name operation) s.locks (λ _. refl) (λ _ h. absurd (cc h)) inv
Step-IsExclusive s _ (lock p name operation locks at h) inv =
    let (absent, made) = taken_lem name s.locks locks h in
    subst (λ l. IsExclusive (moved p (locked name operation) l s)) (sym made)
      (locked-IsExclusive s p name operation absent inv)
Step-IsExclusive s _ (enter p name operation locks at h) inv =
    moved-IsExclusive s p (holding name operation) locks (waited_files operation s.locks locks h)
      (λ other o. ap (λ place. owns place other) at ∙ o) inv
Step-IsExclusive s _ (give_up p name operation at) inv =
    freed-IsExclusive s p name (λ other. ap (λ place. owns place other) at) inv
Step-IsExclusive s _ (leave p name operation locks at h) inv =
    moved-IsExclusive s p (leaving name operation) locks (released_files operation s.locks locks h)
      (λ other o. ap (λ place. owns place other) at ∙ o) inv
Step-IsExclusive s _ (unlock p name operation at) inv =
    freed-IsExclusive s p name (λ other. ap (λ place. owns place other) at) inv

Run-IsExclusive : (s t : System) → Run s t → IsExclusive s → IsExclusive t
Run-IsExclusive s _ done inv = inv
Run-IsExclusive s _ (after run step) inv = Step-IsExclusive _ _ step (Run-IsExclusive s _ run inv)

-- In every state that is reached from the initialised locks without a timeout of a lock file, however
-- the calls of `SyncLock` and `SyncUnlock` interleave, no two processes are between taking and giving
-- back the same lock, and the file of a lock that is taken exists.
pub start-IsExclusive :
    (connector_threads : ℕ) (s : System) → Run (start connector_threads) s → IsExclusive s
start-IsExclusive connector_threads s run =
    Run-IsExclusive (start connector_threads) s run
      (record { has_file = λ p name h. absurd (cc h); single = λ p q name h h'. absurd (cc h) })
