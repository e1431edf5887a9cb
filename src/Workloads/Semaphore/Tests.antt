-- ===== src/Workloads/Semaphore/Tests.antt =====
-- A semaphore with a maximum of 10, alone and shared by two threads.
use schtest.Prelude.{ℕ, ◌+◌, ◌≤◌, ◌≡◌, ◌==◌, refl, true, false, none, [], ◌∷◌, arith, if◌then◌else◌}
use schtest.Util.Clock.{SplitTimer, cookie}
use schtest.Util.Clock
use schtest.Util.Stats.Reservoir
use schtest.Workloads.Semaphore.{
  amount_of, has_waiter, mark, Semaphore, Env, failed, consume, produce, Call, top, decide, done,
  is_possible, new_count, new, step,
}
use schtest.Workloads.Semaphore.Steps.{IsValid, Stepped, step-Stepped}
use schtest.Workloads.Semaphore.Interleave.{
  System, calls, turn, Reach, fresh, later, advance, Reach-balance, Reach-waiting,
}
use schtest.Workloads.Semaphore.Solo.{run}

abbrev sem : ℕ → Semaphore
sem count = record {
  count = count;
  max = 10;
  wake = record { timers = []; index = 0 };
  reservoir = record { samples = []; count = 0 };
  wakes = [];
}

abbrev take : ℕ → Call
take v = record { method = consume; v = v; wake = 1; timeout = none }

abbrev give : ℕ → Call
give v = record { method = produce; v = v; wake = 1; timeout = none }

abbrev env : Env
env = record { spurious = false; now = 7; random_index = 0; futex_wait = λ t. failed }

sem-IsValid : IsValid (sem 5)
unfolding amount_of
sem-IsValid = record { word = omega arith; small = omega arith; within = omega arith }

-- the flag and 5, and a call that takes 3 of them
consume_wakes : (run 0 0 (take 3) env 4 (sem 0x80000005, top)).0.wakes ≡ 1 ∷ []
unfolding run step amount_of has_waiter is_possible new_count
consume_wakes = refl

step-Stepped_example :
    Stepped 0 0 (take 3) (sem 5) (decide 5) (step 0 0 (take 3) env (sem 5) (decide 5))
step-Stepped_example =
    step-Stepped 0 0 (take 3) env (sem 5) (decide 5) (omega arith) sem-IsValid (omega arith)

-- Thread 0 waits to consume 2; thread 1 produces 3.
abbrev idle : System
idle = record {
  semaphore = new 0 0 0 10;
  threads = λ i. record { call = take 2; pc = done true };
  produced = 0;
  consumed = 0;
}

abbrev calling : ℕ → Call → System → System
calling i c s = record s {
  threads = λ j. if i == j then record { call = c; pc = top } else s.threads j;
}

abbrev go : ℕ → System → System
go i s = advance 0 0 env s i

abbrev asleep : System
asleep = go 0 (go 0 (go 0 (calling 0 (take 2) idle)))

abbrev supplied : System
supplied = go 1 (go 1 (calling 1 (give 3) asleep))

asleep-Reach : Reach 0 0 10 asleep
asleep-Reach =
    later
      (later
        (later (later (fresh 0 (take 2) (omega arith)) (calls 0 (take 2) (omega arith)))
          (turn 0 env))
        (turn 0 env))
      (turn 0 env)

supplied-Reach : Reach 0 0 10 supplied
supplied-Reach =
    later (later (later asleep-Reach (calls 1 (give 3) (omega arith))) (turn 1 env)) (turn 1 env)

Reach-balance_example :
    (amount_of supplied.semaphore.count + supplied.consumed ≡ supplied.produced)
    × (amount_of supplied.semaphore.count ≤ supplied.semaphore.max)
Reach-balance_example = Reach-balance 0 0 supplied-Reach

supplied_amount : (amount_of supplied.semaphore.count ≡ 3) × (supplied.produced ≡ 3)
unfolding step new amount_of has_waiter is_possible new_count mark Clock.new Reservoir.new
    Clock.cookie
supplied_amount = (refl, refl)

Reach-waiting_example :
    (has_waiter 0x80000000 ≡ true) × (is_possible (take 2) 10 (amount_of 0x80000000) ≡ false)
unfolding step new amount_of has_waiter is_possible new_count mark Clock.new Reservoir.new
    Clock.cookie
Reach-waiting_example = Reach-waiting 0 0 asleep-Reach 0 0x80000000 0 refl
