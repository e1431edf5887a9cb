-- ===== src/Cases/Latency/Exchange.antt =====
-- The two threads of a process of `adaptive_priority` in src/cases/latency.rs, over a semaphore for
-- requests and one for answers, each with a maximum of one. A call of a semaphore is one step, as in
-- Cases/Basic.
pub mod Rounds
mod Tests
use schtest.Prelude.{ℕ, ◌+◌, Bool, true, false, Option, none, some, if◌then◌else◌}
use schtest.Workloads.Semaphore.{is_possible, new_count}
use schtest.Workloads.Process.{signal, claim}
use schtest.Cases.Basic.{Side, producing, turn}

-- The amounts of the semaphores, the thread that counts iterations, whether the other one is between
-- its two calls, and how often that has worked.
pub record Exchange : Type 0 where
  pub sem : ℕ
  pub sem_ret : ℕ
  pub asker : Side
  pub working : Bool
  pub worked : ℕ

-- A step of the thread that produces a request and consumes the answer, for each iteration.
pub ask : Exchange → Option Exchange
ask e = elim (turn e.asker e.sem e.sem_ret) [
  | none ↦ none
  | some (sem, sem_ret, side) ↦ some (record {
    sem = sem;
    sem_ret = sem_ret;
    asker = side;
    working = e.working;
    worked = e.worked;
  })
]

-- A step of the thread that consumes a request, works, and produces the answer.
pub serve : Exchange → Option Exchange
serve e =
    if e.working
    then (if is_possible signal 1 e.sem_ret
        then some (record {
          sem = e.sem;
          sem_ret = new_count signal e.sem_ret;
          asker = e.asker;
          working = false;
          worked = e.worked + 1;
        })
        else none)
    else (if is_possible claim 1 e.sem
        then some (record {
          sem = new_count claim e.sem;
          sem_ret = e.sem_ret;
          asker = e.asker;
          working = true;
          worked = e.worked;
        })
        else none)

-- Both threads when the iterations of a round have been received.
abbrev pub asked : ℕ → Exchange
asked iters = record {
  sem = 0;
  sem_ret = 0;
  asker = record { left = iters; stage = producing };
  working = false;
  worked = 0;
}
