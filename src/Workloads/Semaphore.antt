-- ===== src/Workloads/Semaphore.antt =====
-- src/workloads/semaphore.rs: a counting semaphore in one atomic word, with a flag for waiters.
-- `consume` and `produce` are loops of atomic steps; the kernel's futex, the clock, spurious
-- failures of a weak compare-exchange and the drawn random index are what the environment answers
-- to a step. The wake timers and the reservoir are updated in one step each.
pub mod Commits
pub mod Interleave
pub mod Solo
pub mod Stuck
pub mod Steps
mod Tests
pub mod Word
use schtest.Prelude.{
  ℕ, zero, suc, ◌+◌, ◌-◌, ◌^◌, Bool, true, false, ◌&&◌, Option, none, some, List, [], ◌∷◌, leb,
  ◌==◌, if◌then◌else◌, u32, bit_and, bit_or,
}
use schtest.Util.Clock
use schtest.Util.Clock.{SplitTimer}
use schtest.Util.Stats.Reservoir
use schtest.Util.Stats.Reservoir.{Reservoir}

abbrev pub waiter : ℕ
waiter = 0x80000000

-- `cur & !WAITER`, the test of `cur & WAITER`, and `cur | WAITER`
unfoldable pub amount_of : ℕ → ℕ
amount_of cur = bit_and cur (2 ^ 32 - 1 - waiter)

unfoldable pub has_waiter : ℕ → Bool
has_waiter cur = bit_and cur waiter == waiter

pub mark : ℕ → ℕ
mark cur = bit_or cur waiter

-- `wakes` is a history of the arguments of FUTEX_WAKE, newest first; the program does not keep it.
pub record Semaphore : Type 0 where
  pub count : ℕ
  pub max : ℕ
  pub wake : SplitTimer
  pub reservoir : Reservoir ℕ
  pub wakes : List ℕ

-- What FUTEX_WAIT answers: 0, ETIMEDOUT, or another error.
pub data Waited : Type 0 where
  woken timed_out failed : Waited

-- `futex_wait` is given the timeout, if there is one.
pub record Env : Type 0 where
  pub spurious : Bool
  pub now : ℕ
  pub random_index : ℕ
  pub futex_wait : Option ℕ → Waited

-- The two methods, with `v`, `wake` and `timeout`.
pub data Method : Type 0 where
  consume produce : Method

pub record Call : Type 0 where
  pub method : Method
  pub v : ℕ
  pub wake : ℕ
  pub timeout : Option ℕ

-- Where a call stands: before a load of the word; with the loaded word, before the compare-exchange
-- that it calls for; marked as a waiter, before reading the cookie; in FUTEX_WAIT; woken, before
-- taking the wake-up time; after success with a waiter, before resetting the timer and before
-- FUTEX_WAKE; returned.
pub data Pc : Type 0 where
  top : Pc
  decide : (cur : ℕ) → Pc
  park : (cur : ℕ) → Pc
  waiting : (cur cookie : ℕ) → Pc
  measure : (cookie : ℕ) → Pc
  resetting : Pc
  waking : Pc
  done : (result : Bool) → Pc

-- The test and the new count of `consume`: `amount >= v` and `amount - v`; and of `produce`:
-- `amount + v <= self.max` and `amount + v`.
unfoldable pub is_possible : Call → ℕ → ℕ → Bool
is_possible c max amount = elim c.method [
  | consume ↦ leb c.v amount
  | produce ↦ leb (u32 (amount + c.v)) max
]

unfoldable pub new_count : Call → ℕ → ℕ
new_count c amount = elim c.method [ consume ↦ amount - c.v | produce ↦ u32 (amount + c.v) ]

-- A weak compare-exchange of the word.
abbrev pub exchange : Env → Semaphore → ℕ → ℕ → Pc → Pc → Semaphore × Pc
exchange env s cur count on_ok on_err =
    if env.spurious
    then (s, on_err)
    else if s.count == cur
    then (record s { count = count }, on_ok)
    else (s, on_err)

-- `slots` and `capacity` are the `S` and `R` of the source.
module _ (slots capacity : ℕ) where
  unfoldable pub new : ℕ → ℕ → Semaphore
  new now max = record {
    count = 0;
    max = bit_and max (2 ^ 32 - 1 - waiter);
    wake = Clock.new slots now;
    reservoir = Reservoir.new capacity;
    wakes = [];
  }

  -- The body of the loop, from the loaded word on. A failed compare-exchange of a success goes on
  -- at the end of the loop, one of a mark reloads and continues: both load the word again.
  pub decide_step : Call → Env → Semaphore → ℕ → Semaphore × Pc
  decide_step c env s cur =
      if is_possible c s.max (amount_of cur)
      then exchange env s cur (new_count c (amount_of cur))
          (if has_waiter cur then resetting else done true) top
      else if has_waiter cur
      then (s, park cur)
      else exchange env s cur (mark cur) (park (mark cur)) top

  pub wait_step : Call → Env → Semaphore → ℕ → Semaphore × Pc
  wait_step c env s cookie = elim (env.futex_wait c.timeout) [
    | timed_out ↦ (s, done false)
    | woken ↦ (s, if slots == 0 then top else measure cookie)
    | failed ↦ (s, top)
  ]

  pub measure_step : Env → Semaphore → ℕ → Semaphore × Pc
  measure_step env s cookie = elim (Clock.elapsed slots env.now s.wake cookie) [
    | none ↦ (s, top)
    | some t ↦ if capacity == 0 then (s, top) else (
      record s { reservoir = Reservoir.sample capacity env.random_index t s.reservoir },
      top,
    )
  ]

  unfoldable pub step : Call → Env → Semaphore → Pc → Semaphore × Pc
  unfolding decide_step wait_step measure_step
  step c env s top = (s, decide s.count)
  step c env s (decide cur) = decide_step c env s cur
  step c env s (park cur) = (s, waiting cur (Clock.cookie slots s.wake))
  step c env s (waiting cur cookie) = wait_step c env s cookie
  step c env s (measure cookie) = measure_step env s cookie
  step c env s resetting = (record s { wake = Clock.reset slots env.now s.wake }, waking)
  step c env s waking = (record s { wakes = c.wake ∷ s.wakes }, done true)
  step c env s (done result) = (s, done result)

  -- `collect_wake_stats`, over a digest as in `Reservoir.add_all`
  module _ {κ} {D : Type κ} {F : Type κ} (merge_unsorted : D → List F → D) (to_f64 : ℕ → F) where
    unfoldable pub collect_wake_stats : Semaphore → D → Option (D × Semaphore)
    collect_wake_stats s dist =
        elim (Reservoir.add_all capacity merge_unsorted to_f64 dist s.reservoir) [
          | none ↦ none
          | some d ↦ some (d, record s { reservoir = Reservoir.reset capacity s.reservoir })
        ]
