-- ===== src/Cases/Topology.antt =====
-- src/cases/topology.rs: what the cases of the topology compute from the CPUs that they observe.
-- A HashMap is an association list; an insertion goes in front, and hides an older one. The
-- spinners, the processes and their statistics are given as what they answer.
pub mod Different
pub mod Spread
pub mod Together
pub mod Waker
mod Tests
use schtest.Prelude.{
  ℕ, zero, suc, ◌+◌, ◌-◌, ◌/◌, ◌%◌, ◌^◌, ◌==◌, Bool, true, false, ◌||◌, not, Option, none, some,
  List, [], ◌∷◌, ◌++◌, if◌then◌else◌, length, ltb, add64, sub64,
}
use schtest.Prelude.Int.{ℤ, eq_ℤ}
use schtest.Util.System.{Hyperthread, Core, CoreComplex, Node, System}
use schtest.Workloads.Semaphore.{Semaphore, Env, Call, produce, Pc, top, done, new}
use schtest.Workloads.Semaphore.Solo.{run}

-- `logical_to_physical`: a CPU with the identifier of its core, or of its complex.
abbrev pub Physical : Type 0
Physical = List (ℕ × ℤ)

pub insert_threads : ℤ → List Hyperthread → Physical → Physical
insert_threads id [] m = m
insert_threads id (h ∷ hs) m = insert_threads id hs ((h.id, id) ∷ m)

-- The loop of `spread_out`.
pub core_ids : List Core → Physical → Physical
unfolding insert_threads
core_ids [] m = m
core_ids (c ∷ cs) m = core_ids cs (insert_threads c.id c.hyperthreads m)

-- The loops of `come_together`.
pub complex_cores : ℤ → List Core → Physical → Physical
unfolding insert_threads
complex_cores id [] m = m
complex_cores id (c ∷ cs) m = complex_cores id cs (insert_threads id c.hyperthreads m)

pub complex_ids : List CoreComplex → Physical → Physical
unfolding complex_cores
complex_ids [] m = m
complex_ids (c ∷ cs) m = complex_ids cs (complex_cores c.id c.cores m)

pub node_ids : List Node → Physical → Physical
unfolding complex_ids
node_ids [] m = m
node_ids (n ∷ ns) m = node_ids ns (complex_ids n.complexes m)

pub physical_of : ℕ → Physical → Option ℤ
physical_of cpu [] = none
physical_of cpu ((c, id) ∷ m) = if c == cpu then some id else physical_of cpu m

-- `counts`: how often a core was observed.
abbrev pub Counts : Type 0
Counts = List (ℤ × ℕ)

-- `*counts.entry(id).or_insert(0) += 1`
pub bump : ℤ → Counts → Counts
bump id [] = (id, 1) ∷ []
bump id ((k, n) ∷ m) = if eq_ℤ k id then (k, n + 1) ∷ m else (k, n) ∷ bump id m

-- One look at the last CPUs of the spinners; a CPU without a core is passed over.
pub observe : Physical → List ℕ → Counts → Counts
unfolding physical_of bump
observe physical [] counts = counts
observe physical (cpu ∷ cpus) counts = elim (physical_of cpu physical) [
  | none ↦ observe physical cpus counts
  | some id ↦ observe physical cpus (bump id counts)
]

-- The loop over looks, from a number on; `seen` is what each of them sees.
pub observe_all : Physical → (seen : ℕ → List ℕ) → (left i : ℕ) → Counts → Counts
unfolding observe
observe_all physical seen zero i counts = counts
observe_all physical seen (suc left) i counts =
    observe_all physical seen left (suc i) (observe physical (seen i) counts)

-- The migrations of the processes, which have different pids, in order; none if there is an error.
pub read_migrations : List (Option ℕ) → Option (List ℕ)
read_migrations [] = some []
read_migrations (none ∷ rs) = none
read_migrations (some n ∷ rs) = elim (read_migrations rs) [ none ↦ none | some ns ↦ some (n ∷ ns) ]

-- The sum of the differences; where the counter falls, the subtraction wraps around.
pub delta_migrations : List ℕ → List ℕ → ℕ → ℕ
delta_migrations (b ∷ bs) (a ∷ rest) sum = delta_migrations bs rest (add64 sum (sub64 a b))
delta_migrations bs rest sum = sum

-- The metric of `spread_out`; `none` is an error of `stats` or of `wait`.
module _ {F : Type 0} (of_usize : ℕ → F) (div : F → F → F) where
  unfoldable pub spread_metric :
      List Core
      → (before after : List (Option ℕ)) → (seen : ℕ → List ℕ) → (waited : Bool) → (iters : ℕ)
      → Option F
  unfolding core_ids observe_all read_migrations delta_migrations
  spread_metric cores before after seen waited iters = elim (read_migrations before) [
    | none ↦ none
    | some old ↦
        let counts = observe_all (core_ids cores []) seen (iters / 10) 0 [] in
        if waited
        then elim (read_migrations after) [
          | none ↦ none
          | some now ↦
              if ltb 0 (delta_migrations old now 0)
              then some (of_usize 0)
              else some (div (of_usize (length counts)) (of_usize (length cores)))
        ]
        else none
  ]

-- The counters of `come_together`.
pub record Tally : Type 0 where
  pub mismatches : ℕ
  pub total : ℕ

-- The spinners of one process, with the complex of the first of them; `none` is a CPU that is not
-- in the map, which panics.
pub tally_set : Physical → Option ℤ → List ℕ → Tally → Option Tally
unfolding physical_of
tally_set physical complex [] t = some t
tally_set physical complex (cpu ∷ cpus) t = elim (physical_of cpu physical) [
  | none ↦ none
  | some local_complex ↦ elim complex [
    | none ↦ tally_set physical (some local_complex) cpus (record t { total = t.total + 1 })
    | some id ↦ tally_set physical (some id) cpus (record {
      mismatches = if eq_ℤ id local_complex then t.mismatches else t.mismatches + 1;
      total = t.total + 1;
    })
  ]
]

-- One look at the spinners of all processes.
pub tally_sets : Physical → List (List ℕ) → Tally → Option Tally
unfolding tally_set
tally_sets physical [] t = some t
tally_sets physical (set ∷ sets) t = elim (tally_set physical none set t) [
  | none ↦ none
  | some t' ↦ tally_sets physical sets t'
]

pub tally_all : Physical → (seen : ℕ → List (List ℕ)) → (left i : ℕ) → Tally → Option Tally
unfolding tally_sets
tally_all physical seen zero i t = some t
tally_all physical seen (suc left) i t = elim (tally_sets physical (seen i) t) [
  | none ↦ none
  | some t' ↦ tally_all physical seen left (suc i) t'
]

-- The result of a metric: a value, an error, or a panic.
pub data Metric (F : Type 0) : Type 0 where
  ok : F → Metric F
  err panicked : Metric F

module _ {F : Type 0} (of_usize : ℕ → F) (div sub : F → F → F) where
  -- The metric of `come_together`.
  unfoldable pub together_metric :
      List Node → (seen : ℕ → List (List ℕ)) → (waited : Bool) → (iters : ℕ) → Metric F
  unfolding node_ids tally_all
  together_metric nodes seen waited iters =
      elim (tally_all (node_ids nodes []) seen (iters / 10) 0
        (record { mismatches = 0; total = 0 })) [
          | none ↦ panicked
          | some t ↦
              if waited
              then ok (sub (of_usize 1) (div (of_usize t.mismatches) (of_usize t.total)))
              else err
        ]

-- The end of both cases: an error if the final value is below the target.
unfoldable pub verdict : {F : Type 0} → (lt : F → F → Bool) → (final_value target : F) → Bool
verdict lt final_value target = not (lt final_value target)

-- `needs_numa_or_complexes`; `none` is a panic without a node.
pub needs_numa_or_complexes : System → Option Bool
needs_numa_or_complexes s = elim s.nodes [
  | [] ↦ none
  | n ∷ [] ↦ some (ltb 1 (length n.complexes))
  | n ∷ (m ∷ ns) ↦ some true
]

-- The semaphore of a process of `come_together`, which has as its maximum the number of cores, and
-- the call of each round.
abbrev pub wakeup : (now cores : ℕ) → Semaphore
wakeup now cores = new 0 0 now (cores % 2 ^ 32)

abbrev pub wake_call : ℕ → Call
wake_call iters = record { method = produce; v = iters; wake = iters; timeout = none }

abbrev finished : Semaphore × Pc → Option Semaphore
finished (s, done result) = some s
finished (s, pc) = none

-- The loop of the process over rounds, each of them alone and in four steps.
pub waker : Env → List ℕ → Semaphore → Option Semaphore
unfolding run
waker env [] s = some s
waker env (iters ∷ rest) s = elim (finished (run 0 0 (wake_call iters) env 4 (s, top))) [
  | none ↦ none
  | some s' ↦ waker env rest s'
]
