-- ===== src/Util/Clock.antt =====
-- src/util/clock.rs: `Timer` and `SplitTimer`. A reading of the clock, `now`, is what
-- `Instant::now().duration_since(reference)` gives in nanoseconds: a number of any size, which the
-- code cuts to 64 bits. Each atomic access is one operation.
pub mod Cookies
mod Tests
use schtest.Prelude.{
  ℕ, zero, suc, ◌+◌, ◌-◌, ◌%◌, Option, none, some, List, leb, ◌==◌, if◌then◌else◌, get_elem?, set,
  replicate, u64, add64,
}

-- `start` is an AtomicU64. The reference time is the zero of the clock.
pub record Timer : Type 0 where
  pub start : ℕ

-- `Timer::new`: the first reading is of the very instant that becomes the reference, or later.
pub timer_new : ℕ → Timer
timer_new now = record { start = u64 now }

pub timer_elapsed : ℕ → Timer → ℕ
timer_elapsed now t = if leb (u64 now) t.start then 0 else u64 now - t.start

pub timer_reset : ℕ → Timer → Timer
timer_reset now t = record t { start = u64 now }

-- `SplitTimer<S>`: the timers are an array of `S`, the index an AtomicU64.
pub record SplitTimer : Type 0 where
  pub timers : List Timer
  pub index : ℕ

module _ (slots : ℕ) where
  -- `SplitTimer::new`, with one reading for all timers.
  unfoldable pub new : ℕ → SplitTimer
  unfolding timer_new
  new now = record { timers = replicate slots (timer_new now); index = 0 }

  -- `fetch_add` returns the old index and wraps.
  pub take_index : SplitTimer → SplitTimer
  take_index t = record t { index = add64 t.index 1 }

  -- The store of a reset, to the slot of the index that it took.
  pub store_start : ℕ → ℕ → SplitTimer → SplitTimer
  unfolding timer_reset
  store_start now orig_index t = elim (get_elem? t.timers (orig_index % slots)) [
    | none ↦ t
    | some timer ↦ record t { timers = set t.timers (orig_index % slots) (timer_reset now timer) }
  ]

  pub reset : ℕ → SplitTimer → SplitTimer
  unfolding take_index store_start
  reset now t = if slots == 0 then t else store_start now t.index (take_index t)

  unfoldable pub cookie : SplitTimer → ℕ
  cookie t = t.index

  -- The reading of the cookie's slot, unless the slot may have been taken again.
  pub elapsed : ℕ → SplitTimer → ℕ → Option ℕ
  unfolding timer_elapsed
  elapsed now t cookie = if slots == 0 then none else elim (get_elem? t.timers (cookie % slots)) [
    | none ↦ none
    | some timer ↦ if leb (add64 cookie slots) t.index then none else some (timer_elapsed now timer)
  ]
