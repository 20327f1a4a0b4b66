-- ===== src/Lock.antt =====
-- connector/utils/lock and utils/client_semaphore.go: the lock files that keep two operations on one
-- device apart, and the semaphores that bound the operations of a kind. The calls of several callers
-- interleave: each of them is a process, and an atomic action is what runs under the mutex or
-- is one operation on a channel. Creating a file that is absent succeeds.
pub mod Exclusion
pub mod Expiry
mod Tests
use e_sdk_k8s_plugin.Prelude.{
  ℕ, zero, suc, ◌+◌, ◌-◌, Bool, true, false, not, Option, none, some, String, ◌==◌, eqb, ltb,
  if◌then◌else◌, ◌≡◌,
}
use e_sdk_k8s_plugin.Prelude.Result.{Result, ok, err}

-- `Semaphore`: `used` is the length of the channel.
pub record Semaphore : Type 0 where
  pub permits : ℕ
  pub used : ℕ

abbrev pub new_semaphore : ℕ → Semaphore
new_semaphore permits = record { permits = permits; used = 0 }

unfoldable pub available_permits : Semaphore → ℕ
available_permits s = s.permits - s.used

-- A send to the channel; `none` while it is full.
unfoldable pub acquire : Semaphore → Option Semaphore
acquire s = if ltb s.used s.permits then some (record s { used = s.used + 1 }) else none

-- A receive; `none` while the channel is empty.
unfoldable pub release : Semaphore → Option Semaphore
release s = if ltb 0 s.used then some (record s { used = s.used - 1 }) else none

-- The lock files that exist, by the name of the lock, and `semaphoreMap`.
pub record Locks : Type 0 where
  pub files : String → Bool
  pub semaphores : String → Option Semaphore

-- `InitLock` after the files were cleared.
unfoldable pub init_lock : ℕ → Locks
init_lock connector_threads = record {
  files = λ name. false;
  semaphores = λ operation.
      if operation == "connect"
      then some (new_semaphore connector_threads)
      else if operation == "disConnect"
      then some (new_semaphore connector_threads)
      else if operation == "extend"
      then some (new_semaphore connector_threads)
      else none;
}

abbrev pub set_file : String → Bool → Locks → Locks
set_file name there locks = record locks {
  files = λ other. if name == other then there else locks.files other;
}

abbrev pub set_semaphore : String → Semaphore → Locks → Locks
set_semaphore operation s locks = record locks {
  semaphores = λ other. if operation == other then some s else locks.semaphores other;
}

-- The condition that `waitGetLock` tries again and again: whether the lock was taken.
unfoldable pub try_lock : String → Locks → Bool × Locks
try_lock name locks =
    if not (locks.files name) then (true, set_file name true locks) else (false, locks)

-- `deleteLockFile`, whoever made the file.
unfoldable pub delete_lock_file : String → Locks → Locks
delete_lock_file name locks = if not (locks.files name) then locks else set_file name false locks

-- The send of `waitGetSemaphore`: `none` while it blocks.
unfoldable pub wait_get_semaphore : String → Locks → Option (Result String Locks)
wait_get_semaphore operation locks = elim (locks.semaphores operation) [
  | none ↦ some (err "acquire semaphore failed, wrong type")
  | some s ↦ elim (acquire s) [
    | none ↦ none
    | some s' ↦ some (ok (set_semaphore operation s' locks))
  ]
]

-- `releaseSemaphore`: a nil semaphore is used when the type is unknown, which panics.
unfoldable pub release_semaphore : String → Locks → Option (Result String Locks)
release_semaphore operation locks = elim (locks.semaphores operation) [
  | none ↦ some (err "nil pointer")
  | some s ↦ elim (release s) [
    | none ↦ none
    | some s' ↦ some (ok (set_semaphore operation s' locks))
  ]
]

-- Where a process is: outside, in `waitGetLock`, in `waitGetSemaphore`, between `SyncLock` and
-- `SyncUnlock`, or behind `releaseSemaphore`.
pub data Place : Type 0 where
  outside : Place
  waiting locked holding leaving : String → String → Place

pub record System : Type 0 where
  pub locks : Locks
  pub places : ℕ → Place

abbrev pub moved : ℕ → Place → Locks → System → System
moved p place locks s = record {
  locks = locks;
  places = λ q. if eqb p q then place else s.places q;
}

-- The atomic actions of `SyncLock` and `SyncUnlock`.
pub data Step (s : System) : System → Type 0 where
  call :
      (p : ℕ) (name operation : String)
      → s.places p ≡ outside
      → Step s (moved p (waiting name operation) s.locks s)
  lock :
      (p : ℕ) (name operation : String) (locks : Locks)
      → s.places p ≡ waiting name operation
      → try_lock name s.locks ≡ (true, locks)
      → Step s (moved p (locked name operation) locks s)
  enter :
      (p : ℕ) (name operation : String) (locks : Locks)
      → s.places p ≡ locked name operation
      → wait_get_semaphore operation s.locks ≡ some (ok locks)
      → Step s (moved p (holding name operation) locks s)
  -- The semaphore is of no known type, or the wait for it timed out.
  give_up :
      (p : ℕ) (name operation : String)
      → s.places p ≡ locked name operation
      → Step s (moved p outside (delete_lock_file name s.locks) s)
  leave :
      (p : ℕ) (name operation : String) (locks : Locks)
      → s.places p ≡ holding name operation
      → release_semaphore operation s.locks ≡ some (ok locks)
      → Step s (moved p (leaving name operation) locks s)
  unlock :
      (p : ℕ) (name operation : String)
      → s.places p ≡ leaving name operation
      → Step s (moved p outside (delete_lock_file name s.locks) s)

-- The wait for a lock file timed out: `waitGetLock` deletes the file.
pub data Timeout (s : System) : System → Type 0 where
  time_out :
      (p : ℕ) (name operation : String)
      → s.places p ≡ waiting name operation
      → Timeout s (moved p outside (delete_lock_file name s.locks) s)

-- A run without a timeout of a lock.
pub data Run (s : System) : System → Type 0 where
  done : Run s s
  after : {t u : System} → Run s t → Step t u → Run s u

abbrev pub start : ℕ → System
start connector_threads = record { locks = init_lock connector_threads; places = λ p. outside }
