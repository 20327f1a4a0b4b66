-- ===== src/Retry/Laws.antt =====
-- The first call that succeeds decides, and with none the last error is returned.
use e_sdk_k8s_plugin.Prelude.{ℕ, zero, suc, ◌≤◌, ◌<◌, Option, none, some, ◌≡◌, arith}
use e_sdk_k8s_plugin.Prelude.Int.{pos, ◌≤ℤ◌}
use e_sdk_k8s_plugin.Retry.{Attempt, do_loop, do_attempts, rounds}

module _ {ℓ} {W E P : Type ℓ} (sleep : P → W → W) (do_call : W → W × Option E) where
  -- The world before the call number `k`, if every call before it failed.
  abbrev pub world_before : ℕ → P → W → W
  world_before zero period w = w
  world_before (suc k) period w = world_before k period (sleep period (do_call w).0)

  -- Every one of the first `k` calls fails.
  abbrev pub FailsUntil : ℕ → P → W → Type ℓ
  FailsUntil zero period w = Unit
  FailsUntil (suc k) period w =
      ((e : E) × ((do_call w).1 ≡ some e)) × FailsUntil k period (sleep period (do_call w).0)

  do_loop_success :
      (n k : ℕ) (period : P) (last : Option E) (w : W)
      → k < n
      → FailsUntil k period w
      → (do_call (world_before k period w)).1 ≡ none
      → do_loop sleep do_call n period last w ≡ ((do_call (world_before k period w)).0, none)
  unfolding do_loop
  do_loop_success zero k period last w lt f s = absurd (omega arith)
  do_loop_success (suc n) zero period last w lt f s = rw (s, do_loop)
  do_loop_success (suc n) (suc k) period last w lt f s =
      rw (f.0.1, do_loop)
        (do_loop_success n k period _ (sleep period (do_call w).0) (omega arith) f.1 s)

  do_loop_failure :
      (n : ℕ) (period : P) (last : Option E) (w : W)
      → FailsUntil (suc n) period w
      → do_loop sleep do_call (suc n) period last w
        ≡ (world_before (suc n) period w, (do_call (world_before n period w)).1)
  unfolding do_loop
  do_loop_failure zero period last w f =
      rw (f.0.1, do_loop) (λ i. (sleep period (do_call w).0, f.0.1 i))
  do_loop_failure (suc n) period last w f =
      rw (f.0.1, do_loop) (do_loop_failure n period (do_call w).1 (sleep period (do_call w).0) f.1)

  -- If the calls before number `k` fail, call `k` succeeds and `k` is less than the number of
  -- attempts, `Do` returns nil with the world that call `k` left: there is no later call or sleep.
  pub do_attempts_success :
      (r : Attempt P) (k : ℕ) (w : W)
      → suc k ≤ rounds sleep do_call r.attempts
      → FailsUntil k r.period w
      → (do_call (world_before k r.period w)).1 ≡ none
      → do_attempts sleep do_call r w ≡ ((do_call (world_before k r.period w)).0, none)
  unfolding do_attempts
  do_attempts_success r k w = do_loop_success _ k r.period none w

  -- If every attempt fails, and there is at least one, `Do` makes exactly that many calls, each
  -- followed by the sleep, and returns the error of the last.
  pub do_attempts_failure :
      (r : Attempt P) (n : ℕ) (w : W)
      → r.attempts ≡ pos (suc n)
      → FailsUntil (suc n) r.period w
      → do_attempts sleep do_call r w
        ≡ (world_before (suc n) r.period w, (do_call (world_before n r.period w)).1)
  unfolding do_attempts
  do_attempts_failure r n w e f = rw e (do_loop_failure n r.period none w f)

  -- With no positive number of attempts `Do` returns nil without a single call.
  pub do_attempts-none :
      (r : Attempt P) (w : W) → r.attempts ≤ℤ pos 0 → do_attempts sleep do_call r w ≡ (w, none)
  unfolding do_attempts do_loop
  do_attempts-none r w h = ground arith
