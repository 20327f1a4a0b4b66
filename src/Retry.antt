-- ===== src/Retry.antt =====
-- utils/retry/retry.go: `Attempts(n).Period(p).Do(f)`. The function `do` acts on a world `W`; the
-- sleep between two calls is an action `sleep` of the Go runtime on that world.
mod Laws
mod Tests
use e_sdk_k8s_plugin.Prelude.{ℕ, zero, suc, Option, none, some}
use e_sdk_k8s_plugin.Prelude.Int.{ℤ, pos, negsuc}

pub record Attempt {ℓ} (P : Type ℓ) : Type ℓ where
  pub attempts : ℤ
  pub period : P

module _ {ℓ} {W E P : Type ℓ} (sleep : P → W → W) (do_call : W → W × Option E) where
  -- The rounds of the loop that are left, with `err` as the last call left it.
  pub do_loop : ℕ → P → Option E → W → W × Option E
  do_loop zero period last w = (w, last)
  do_loop (suc n) period last w =
      let after = do_call w in
      let next = do_loop n period after.1 (sleep period after.0) in
      elim after.1 [ none ↦ (after.0, none) | some e ↦ next ]

  -- `i < attempts` holds for no round when `attempts` is not positive.
  abbrev pub rounds : ℤ → ℕ
  rounds (pos n) = n
  rounds (negsuc n) = 0

  unfoldable pub do_attempts : Attempt P → W → W × Option E
  unfolding do_loop
  do_attempts r w = do_loop (rounds r.attempts) r.period none w
