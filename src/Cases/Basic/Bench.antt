-- ===== src/Cases/Basic/Bench.antt =====
-- The benchmark `ping_pong` of src/cases/basic.rs: its names, and what it measures after each round.
mod Tests
use schtest.Prelude.{ℕ, Bool, true, false, Option, none, some, List, [], ◌∷◌, ◌++◌, map}
use schtest.Prelude.Text.{codes}
use schtest.Util.Stats.Estimates.{Floats, Value}
use schtest.Util.Stats.Distribution.{Digest, new}
use schtest.Workloads.Semaphore.{Semaphore, collect_wake_stats}
use schtest.Workloads.Benchmark.Measure.{BenchResult, latency, Reply, failed, ran, measured_call}
use schtest.Cases.Basic.{WakeType, same_hyperthread, same_core, same_complex, same_node, unpinned}

-- `Display for WakeType`
pub text : WakeType → List ℕ
text same_hyperthread = codes "SameHyperthread"
text same_core = codes "SameCore"
text same_complex = codes "SameComplex"
text same_node = codes "SameNode"
text unpinned = codes "Unpinned"

-- The parameters of the registered benchmarks, and the name of each, as `benchmark!` forms it.
abbrev pub wake_types : List WakeType
wake_types = same_hyperthread ∷ same_core ∷ same_complex ∷ same_node ∷ unpinned ∷ []

pub bench_name : (name : List ℕ) → WakeType → List ℕ
unfolding text
bench_name name w = name ++ (codes "/" ++ text w)

pub names : List (List ℕ)
unfolding bench_name
names = map (bench_name (codes "ping_pong")) wake_types

module _ {F D : Type 0} (f : Floats F) (t : Value F ℕ) (digest : Digest F D) where
  abbrev collect : Semaphore → D → Option (D × Semaphore)
  unfolding collect_wake_stats
  collect = collect_wake_stats 256 1024 digest.merge_unsorted t.to_f64

  -- The wake times of both semaphores, with the semaphores afterwards; none is a read of a slot that
  -- was never written.
  pub wake_latency : Semaphore → Semaphore → Option (BenchResult D × Semaphore × Semaphore)
  unfolding collect
  wake_latency sem1 sem2 = elim (collect sem1 (new f digest t)) [
    | none ↦ none
    | some (d, sem1') ↦ elim (collect sem2 d) [
      | none ↦ none
      | some (d', sem2') ↦ some (latency d', sem1', sem2')
    ]
  ]

  -- The closure of `measure!`, once the wait of the context has answered.
  pub measured_round : (waits : Bool) → Semaphore → Semaphore → (elapsed : ℕ) → Option (Reply D)
  unfolding measured_call wake_latency
  measured_round false sem1 sem2 elapsed = some failed
  measured_round true sem1 sem2 elapsed = elim (wake_latency sem1 sem2) [
    | none ↦ none
    | some (result, sem1_after, sem2_after) ↦ some (measured_call true (ran result elapsed))
  ]
