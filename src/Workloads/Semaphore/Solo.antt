-- ===== src/Workloads/Semaphore/Solo.antt =====
-- One call of `consume` or `produce` that no other thread interferes with.
use schtest.Prelude.{ℕ, zero, suc, ◌≡◌, ◌≢◌, true, false, arith, none, ◌∷◌, if◌then◌else◌}
use schtest.Util.Clock
use schtest.Workloads.Semaphore.{
  amount_of, has_waiter, mark, Semaphore, Env, timed_out, Call, Pc, top, waiting, done, is_possible,
  new_count, step,
}

module _ (slots capacity : ℕ) where
  -- A call that no other thread interferes with, for a number of steps.
  unfoldable pub run : Call → Env → ℕ → Semaphore × Pc → Semaphore × Pc
  run c env zero (s, pc) = (s, pc)
  run c env (suc n) (s, pc) = run c env n (step slots capacity c env s pc)

  -- A call that is possible ends in four steps at most, when nobody interferes and the weak
  -- compare-exchange does not fail for no reason. It returns true and sets the count; if the word
  -- had the flag, it restarts the wake timer and wakes as many waiters as it was told to.
  pub run-possible :
      (c : Call) (env : Env) (s : Semaphore)
      → env.spurious ≡ false
      → is_possible c s.max (amount_of s.count) ≡ true
      → run c env 4 (s, top) ≡ (
          if has_waiter s.count
          then (
            record s {
              count = new_count c (amount_of s.count);
              wake = Clock.reset slots env.now s.wake;
              wakes = c.wake ∷ s.wakes;
            },
            done true,
          )
          else (record s { count = new_count c (amount_of s.count) }, done true))
  unfolding run step
  run-possible c env s steady able = ground arith

  -- A call that is not possible is waiting after three steps, on the word that it has marked, and
  -- has changed nothing else.
  pub run-impossible :
      (c : Call) (env : Env) (s : Semaphore)
      → env.spurious ≡ false
      → is_possible c s.max (amount_of s.count) ≡ false
      → let cur = if has_waiter s.count then s.count else mark s.count in
        run c env 3 (s, top) ≡ (record s { count = cur }, waiting cur (Clock.cookie slots s.wake))
  unfolding run step
  run-impossible c env s steady unable = ground arith

  -- A call without a timeout never returns false, given that FUTEX_WAIT without a timeout does not
  -- report one.
  pub untimed :
      (c : Call) (env : Env) (s : Semaphore) (pc : Pc)
      → c.timeout ≡ none
      → env.futex_wait none ≢ timed_out
      → pc ≢ done false
      → (step slots capacity c env s pc).1 ≢ done false
  unfolding step
  untimed c env s top t w h = ground arith
  untimed c env s pc t w h = ground arith
