-- ===== src/Lock/Tests.antt =====
-- Two callers of one lock.
use e_sdk_k8s_plugin.Prelude.{true, ◌≡◌, refl}
use e_sdk_k8s_plugin.Lock.{
  System, waiting, locked, Step, call, lock, Run, done, after, start, moved, Timeout, set_file,
  init_lock, try_lock,
}
use e_sdk_k8s_plugin.Lock.Exclusion.{owns, IsExclusive, start-IsExclusive}
use e_sdk_k8s_plugin.Lock.Expiry.{Timeout-shared}

abbrev asked : System
asked = moved 0 (waiting "lun" "connect") (start 4).locks (start 4)

abbrev taken : System
taken = moved 0 (locked "lun" "connect") (set_file "lun" true (start 4).locks) asked

first_run : Run (start 4) taken
unfolding init_lock try_lock
first_run = after (after done (call 0 "lun" "connect" refl)) (lock 0 "lun" "connect" _ refl refl)

start-IsExclusive_example : IsExclusive taken
start-IsExclusive_example = start-IsExclusive 4 taken first_run

-- Two more wait for it.
abbrev crowded : System
crowded =
    moved 2 (waiting "lun" "connect") taken.locks
      (moved 1 (waiting "lun" "disConnect") taken.locks taken)

Timeout-shared_example :
    (t : System) × (u : System) × Timeout crowded t
    × Step t u
    × (owns (u.places 0) "lun" ≡ true)
    × (owns (u.places 2) "lun" ≡ true)
Timeout-shared_example =
    Timeout-shared crowded 0 1 2 "lun" "disConnect" "connect" refl refl refl (λ e. cc e) (λ e. cc e)
      (λ e. cc e)
