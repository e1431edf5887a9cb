-- ===== src/Workloads/Semaphore/Stuck.antt =====
-- A call of `consume` or `produce` that nobody makes possible.
use schtest.Prelude.{
  ℕ, zero, suc, ◌+◌, ◌^◌, ◌<◌, ◌≡◌, ◌≢◌, ◌==◌, refl, Option-cases, ap, ◌∙◌, sym, Bool, false, arith,
  none, Bool-cases, inl, inr,
}
use schtest.Util.Clock
use schtest.Workloads.Semaphore.{
  waiter, amount_of, has_waiter, mark, Semaphore, Env, Waited, timed_out, woken, failed, Call, Pc,
  top, decide, park, waiting, measure, resetting, waking, done, is_possible, step, decide_step,
  wait_step, measure_step,
}
use schtest.Workloads.Semaphore.Word.{amount_of-eq, has_waiter-eq, mark-eq}

-- The word, below 2 ^ 32, has the amount.
record Holds (a word : ℕ) : Type 0 where
  pub bounded : word < 2 ^ 32
  pub amount : amount_of word ≡ a

mark-Holds : (a cur : ℕ) → has_waiter cur ≡ false → Holds a cur → Holds a (mark cur)
mark-Holds a cur unmarked h = record {
  bounded = omega (arith, eq, below);
  amount = amount_of-eq (mark cur) ∙ omega (arith, eq, below, amount_of-eq cur, h.amount);
}
  where
    below : cur < waiter
    below = ground (arith, has_waiter-eq cur h.bounded, unmarked)

    eq : mark cur ≡ cur + waiter
    eq = mark-eq cur below

-- The states of a call that has not succeeded, of a semaphore with that amount.
IsBlocked : ℕ → Pc → Type 0
IsBlocked a (decide cur) = Holds a cur
IsBlocked a resetting = ⊥
IsBlocked a waking = ⊥
IsBlocked a (done result) = ⊥
IsBlocked a _ = Unit

record Blocked (a m : ℕ) (at : Semaphore × Pc) : Type 0 where
  pub word : Holds a at.0.count
  pub same_max : at.0.max ≡ m
  pub call : IsBlocked a at.1

module _ (slots capacity : ℕ) where
  -- The steps of a call that nobody interferes with, under changing answers of the environment.
  unfoldable pub run_each : Call → (ℕ → Env) → ℕ → Semaphore × Pc → Semaphore × Pc
  unfolding step
  run_each c envs zero at = at
  run_each c envs (suc n) at =
      step slots capacity c (envs n) (run_each c envs n at).0 (run_each c envs n at).1

  module _ (c : Call) (a m : ℕ) (untimed : c.timeout ≡ none)
      (impossible : is_possible c m a ≡ false) where
    decide-Blocked :
        (env : Env) (s : Semaphore) (cur : ℕ)
        → Holds a s.count
        → s.max ≡ m
        → Holds a cur
        → Blocked a m (decide_step slots capacity c env s cur)
    unfolding decide_step IsBlocked
    decide-Blocked env s cur w e h =
        rw (still, decide_step)
          (elim (Bool-cases (has_waiter cur)) [
            | inl marked ↦ rw marked (record { word = w; same_max = e; call = tt })
            | inr unmarked ↦ rw unmarked (elim (Bool-cases env.spurious) [
              | inl fails ↦ rw fails (record { word = w; same_max = e; call = tt })
              | inr steady ↦ rw steady (elim (Bool-cases (s.count == cur)) [
                | inl same ↦
                    rw same (record { word = mark-Holds a cur unmarked h; same_max = e; call = tt })
                | inr other ↦ rw other (record { word = w; same_max = e; call = tt })
              ])
            ])
          ])
      where
        still : is_possible c s.max (amount_of cur) ≡ false
        still = rw (h.amount, e) impossible

    wait-Blocked :
        (env : Env) (s : Semaphore) (cookie : ℕ) (answer : Waited)
        → env.futex_wait c.timeout ≡ answer
        → answer ≢ timed_out
        → Holds a s.count
        → s.max ≡ m
        → Blocked a m (wait_step slots capacity c env s cookie)
    unfolding wait_step IsBlocked
    wait-Blocked env s cookie timed_out e t w k = absurd (t refl)
    wait-Blocked env s cookie woken e t w k =
        rw (e, wait_step)
          (elim (Bool-cases (slots == 0)) [
            | inl none_kept ↦ rw none_kept (record { word = w; same_max = k; call = tt })
            | inr kept ↦ rw kept (record { word = w; same_max = k; call = tt })
          ])
    wait-Blocked env s cookie failed e t w k =
        rw (e, wait_step) (record { word = w; same_max = k; call = tt })

    measure-Blocked :
        (env : Env) (s : Semaphore) (cookie : ℕ)
        → Holds a s.count
        → s.max ≡ m
        → Blocked a m (measure_step slots capacity env s cookie)
    unfolding measure_step IsBlocked
    measure-Blocked env s cookie w k =
        elim (Option-cases (Clock.elapsed slots env.now s.wake cookie)) [
          | inl e ↦ rw (e, measure_step) (record { word = w; same_max = k; call = tt })
          | inr (t, e) ↦
              rw (e, measure_step)
                (elim (Bool-cases (capacity == 0)) [
                  | inl none_kept ↦ rw none_kept (record { word = w; same_max = k; call = tt })
                  | inr kept ↦ rw kept (record { word = w; same_max = k; call = tt })
                ])
        ]

    step-Blocked :
        (env : Env) (s : Semaphore) (pc : Pc)
        → env.futex_wait none ≢ timed_out
        → Blocked a m (s, pc)
        → Blocked a m (step slots capacity c env s pc)
    unfolding step IsBlocked
    step-Blocked env s top t b = record { word = b.word; same_max = b.same_max; call = b.word }
    step-Blocked env s (decide cur) t b = decide-Blocked env s cur b.word b.same_max b.call
    step-Blocked env s (park cur) t b = record { word = b.word; same_max = b.same_max; call = tt }
    step-Blocked env s (waiting cur cookie) t b =
        wait-Blocked env s cookie _ refl (λ e. t (ap env.futex_wait (sym untimed) ∙ e)) b.word
          b.same_max
    step-Blocked env s (measure cookie) t b = measure-Blocked env s cookie b.word b.same_max
    step-Blocked env s resetting t b = absurd b.call
    step-Blocked env s waking t b = absurd b.call
    step-Blocked env s (done result) t b = absurd b.call

    run_each-Blocked :
        (envs : ℕ → Env) (n : ℕ) (at : Semaphore × Pc)
        → ((i : ℕ) → (envs i).futex_wait none ≢ timed_out)
        → Blocked a m at
        → Blocked a m (run_each c envs n at)
    unfolding run_each
    run_each-Blocked envs zero at t b = b
    run_each-Blocked envs (suc n) at t b =
        step-Blocked (envs n) (run_each c envs n at).0 (run_each c envs n at).1 (t n)
          (run_each-Blocked envs n at t b)

  not_done : (a : ℕ) (pc : Pc) (result : Bool) → IsBlocked a pc → pc ≢ done result
  unfolding IsBlocked
  not_done a (done b) result h e = h
  not_done a top result h e = cc
  not_done a (decide cur) result h e = cc
  not_done a (park cur) result h e = cc
  not_done a (waiting cur cookie) result h e = cc
  not_done a (measure cookie) result h e = cc
  not_done a resetting result h e = cc
  not_done a waking result h e = cc

  -- A call without a timeout that is not possible and that nobody interferes with has not returned
  -- after any number of steps, whatever the environment answers, and leaves the amount as it is.
  pub run_each-impossible :
      (c : Call) (envs : ℕ → Env) (n : ℕ) (s : Semaphore) (result : Bool)
      → c.timeout ≡ none
      → ((i : ℕ) → (envs i).futex_wait none ≢ timed_out)
      → s.count < 2 ^ 32
      → is_possible c s.max (amount_of s.count) ≡ false
      → ((run_each c envs n (s, top)).1 ≢ done result)
        × (amount_of (run_each c envs n (s, top)).0.count ≡ amount_of s.count)
  unfolding IsBlocked
  run_each-impossible c envs n s result untimed t bounded impossible =
      let b =
        run_each-Blocked c (amount_of s.count) s.max untimed impossible envs n (s, top) t
          (record {
            word = record { bounded = bounded; amount = refl };
            same_max = refl;
            call = tt;
          }) in
      (not_done (amount_of s.count) (run_each c envs n (s, top)).1 result b.call, b.word.amount)
