-- ===== src/Cases/Topology/Waker.antt =====
-- The semaphore of a process of `come_together` in src/cases/topology.rs: nothing consumes from it.
use schtest.Prelude.{
  ℕ, ◌+◌, ◌%◌, ◌^◌, ◌≤◌, ◌<◌, ◌≡◌, ◌≢◌, refl, ap, ◌∙◌, Bool, true, false, some, none, List, [], ◌∷◌,
  arith,
}
use schtest.Workloads.Semaphore.{
  amount_of, has_waiter, Semaphore, Env, top, done, timed_out, is_possible, new_count, new,
}
use schtest.Workloads.Semaphore.Word.{amount_of-eq, has_waiter-eq}
use schtest.Workloads.Semaphore.Commits.{possible_produce}
use schtest.Workloads.Semaphore.Interleave.{new-max}
use schtest.Workloads.Semaphore.Solo.{run, run-possible}
use schtest.Workloads.Semaphore.Stuck.{run_each, run_each-impossible}
use schtest.Cases.Topology.{wakeup, wake_call, finished, waker}

-- The iterations of all rounds.
abbrev pub total_iters : List ℕ → ℕ
total_iters [] = 0
total_iters (n ∷ ns) = n + total_iters ns

-- A semaphore without a waiter.
record Quiet (s : Semaphore) (amount max : ℕ) : Type 0 where
  pub count : s.count ≡ amount
  pub same_max : s.max ≡ max

round-Quiet :
    (env : Env) (n amount max : ℕ) (s : Semaphore)
    → env.spurious ≡ false
    → Quiet s amount max
    → amount + n ≤ max
    → max < 2 ^ 31
    → (s' : Semaphore) × (run 0 0 (wake_call n) env 4 (s, top) ≡ (s', done true))
      × Quiet s' (amount + n) max
unfolding new_count
round-Quiet env n amount max s steady q fits small = (
  record s { count = new_count (wake_call n) (amount_of s.count) },
  run-possible 0 0 (wake_call n) env s steady able ∙ rw no_waiter refl,
  record { count = ap (λ k. (k + n) % 2 ^ 32) held ∙ omega arith; same_max = q.same_max },
)
  where
    held : amount_of s.count ≡ amount
    held = amount_of-eq s.count ∙ omega (arith, q.count)

    able : is_possible (wake_call n) s.max (amount_of s.count) ≡ true
    able =
        possible_produce n n none s.max (amount_of s.count) (omega (arith, held, q.same_max))
          (omega (arith, q.same_max))

    no_waiter : has_waiter s.count ≡ false
    no_waiter = ground (arith, has_waiter-eq s.count (omega (arith, q.count)), q.count)

waker-Quiet :
    (env : Env) (rounds : List ℕ) (amount max : ℕ) (s : Semaphore)
    → env.spurious ≡ false
    → Quiet s amount max
    → amount + total_iters rounds ≤ max
    → max < 2 ^ 31
    → (s' : Semaphore) × (waker env rounds s ≡ some s') × Quiet s' (amount + total_iters rounds) max
unfolding waker
waker-Quiet env [] amount max s steady q fits small =
    (s, refl, record { count = omega (arith, q.count); same_max = q.same_max })
waker-Quiet env (n ∷ rounds) amount max s steady q fits small =
    let (s', e, q') = round-Quiet env n amount max s steady q (omega arith) small in
    let (r, e', qr) = waker-Quiet env rounds (amount + n) max s' steady q' (omega arith) small in
    (
      r,
      rw (ap finished e, waker) e',
      record { count = omega (arith, qr.count); same_max = qr.same_max },
    )

impossible_produce :
    (v max amount : ℕ)
    → max < amount + v
    → amount + v < 2 ^ 32
    → is_possible (wake_call v) max amount ≡ false
unfolding is_possible
impossible_produce v max amount h small = ground arith

-- What is left of the semaphore after some rounds, and of the call of one more.
pub record StuckAfter (now cores : ℕ) (env : Env) (envs : ℕ → Env) (rounds : List ℕ)
    (next steps : ℕ) (result : Bool) : Type 0 where
  pub after : Semaphore
  pub rounds_end : waker env rounds (wakeup now cores) ≡ some after
  pub no_return : (run_each 0 0 (wake_call next) envs steps (after, top)).1 ≢ done result

-- With fewer than 2 ^ 31 cores: as long as the rounds of a process have no more iterations together than
-- there are cores, their calls of `produce` end, if the compare-exchange never fails spuriously. The
-- call of the round that exceeds this, of fewer than 2 ^ 31 iterations, has not returned after any
-- number of steps, whatever the environment answers, as nothing consumes from the semaphore; a wait
-- without a timeout does not time out.
pub waker-StuckAfter :
    (now cores : ℕ) (env : Env) (envs : ℕ → Env) (rounds : List ℕ) (next steps : ℕ) (result : Bool)
    → cores < 2 ^ 31
    → next < 2 ^ 31
    → total_iters rounds ≤ cores
    → cores < total_iters rounds + next
    → env.spurious ≡ false
    → ((i : ℕ) → (envs i).futex_wait none ≢ timed_out)
    → StuckAfter now cores env envs rounds next steps result
unfolding new
waker-StuckAfter now cores env envs rounds next steps result small next_small fits over steady
      untimed =
    let (s, e, q) =
      waker-Quiet env rounds 0 cores (wakeup now cores) steady
        (record {
          count = refl;
          same_max = new-max 0 0 now (cores % 2 ^ 32) (omega arith) ∙ omega arith;
        })
        (omega arith) small in
    record {
      after = s;
      rounds_end = e;
      no_return =
          (run_each-impossible 0 0 (wake_call next) envs steps s result refl untimed
            (omega (arith, q.count)) (impossible s q)).0;
    }
  where
    impossible :
        (s : Semaphore)
        → Quiet s (0 + total_iters rounds) cores
        → is_possible (wake_call next) s.max (amount_of s.count) ≡ false
    impossible s q =
        impossible_produce next s.max (amount_of s.count)
          (omega (arith, amount_of-eq s.count, q.count, q.same_max))
          (omega (arith, amount_of-eq s.count, q.count))
