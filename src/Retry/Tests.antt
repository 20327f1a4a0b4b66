-- ===== src/Retry/Tests.antt =====
-- A function that fails below 3 and counts its calls, retried with a sleep that changes nothing.
use e_sdk_k8s_plugin.Prelude.{ℕ, ◌+◌, ◌≡◌, refl, arith, Option, none, some, ltb, if◌then◌else◌}
use e_sdk_k8s_plugin.Prelude.Int.{pos}
use e_sdk_k8s_plugin.Retry.{do_attempts}
use e_sdk_k8s_plugin.Retry.Laws.{do_attempts_success, do_attempts_failure}

abbrev count_up : ℕ → ℕ × Option ℕ
count_up w = (w + 1, if ltb w 3 then some w else none)

abbrev idle : ℕ → ℕ → ℕ
idle period w = w

do_attempts_success_example :
    do_attempts idle count_up (record { attempts = pos 5; period = 1 }) 2 ≡ (4, none)
do_attempts_success_example =
    do_attempts_success idle count_up (record { attempts = pos 5; period = 1 }) 1 2 (omega arith)
      ((2, refl), tt) refl

do_attempts_failure_example :
    do_attempts idle count_up (record { attempts = pos 2; period = 1 }) 0 ≡ (2, some 1)
do_attempts_failure_example =
    do_attempts_failure idle count_up (record { attempts = pos 2; period = 1 }) 1 0 refl
      ((0, refl), ((1, refl), tt))
