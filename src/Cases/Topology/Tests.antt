-- ===== src/Cases/Topology/Tests.antt =====
-- A machine of two packages with two cores each, whose cores have the same identifiers.
use schtest.Prelude.{ℕ, ◌+◌, ◌*◌, ◌≡◌, refl, true, false, some, List, [], ◌∷◌, arith, length}
use schtest.Prelude.Int.{pos}
use schtest.Util.System.{Core, Node}
use schtest.Workloads.Semaphore.{Env, failed}
use schtest.Cases.Topology.{
  core_ids, observe_all, spread_metric, together_metric, needs_numa_or_complexes, ok, panicked,
}
use schtest.Cases.Topology.Different.{count_different}
use schtest.Cases.Topology.Spread.{all_seen_ids, observe_all-count_different}
use schtest.Cases.Topology.Waker.{StuckAfter, waker-StuckAfter}

abbrev core : ℕ → ℕ → Core
core id cpu = record { id = pos id; hyperthreads = record { id = cpu } ∷ [] }

abbrev node : ℕ → ℕ → Node
node id cpu = record {
  id = pos id;
  complexes = record { id = pos 0; cores = core 0 cpu ∷ core 1 (cpu + 1) ∷ [] } ∷ [];
}

abbrev nodes : List Node
nodes = node 0 0 ∷ node 1 2 ∷ []

abbrev cores : List Core
cores = core 0 0 ∷ core 0 2 ∷ core 1 1 ∷ core 1 3 ∷ []

-- Every CPU is busy at each look.
abbrev seen : ℕ → List ℕ
seen i = 0 ∷ 1 ∷ 2 ∷ 3 ∷ []

-- Two of two cores are counted for each package, but only two of four in all.
two_of_four : spread_metric (λ n. n) (λ a b. a * 10 + b) cores [] [] seen true 20 ≡ some 24
unfolding spread_metric
two_of_four = refl

-- The processes span both packages, without a mismatch.
no_mismatch :
    together_metric
      (λ n. n)
      (λ a b. a * 10 + b)
      (λ a b. a * 1000 + b)
      nodes
      (λ i. seen i ∷ [])
      true
      10
    ≡ ok 1004
unfolding together_metric
no_mismatch = refl

unknown_cpu :
    together_metric (λ n. n) (λ a b. a) (λ a b. a) nodes (λ i. (7 ∷ []) ∷ []) true 10 ≡ panicked
unfolding together_metric
unknown_cpu = refl

two_nodes :
    needs_numa_or_complexes (record { nodes = nodes; all_cores = []; cpu_to_topology = [] })
    ≡ some true
unfolding needs_numa_or_complexes
two_nodes = refl

abbrev env : Env
env = record { spurious = false; now = 7; random_index = 0; futex_wait = λ t. failed }

observe_all-count_different_example :
    length (observe_all (core_ids cores []) seen 2 0 [])
    ≡ count_different (all_seen_ids (core_ids cores []) seen 2 0)
observe_all-count_different_example = observe_all-count_different (core_ids cores []) seen 2

-- With 4 cores, rounds of 1 and 2 iterations end, and one of 4 does not.
waker-StuckAfter_example : StuckAfter 0 4 env (λ i. env) (1 ∷ 2 ∷ []) 4 100 true
waker-StuckAfter_example =
    waker-StuckAfter 0 4 env (λ i. env) (1 ∷ 2 ∷ []) 4 100 true (omega arith) (omega arith)
      (omega arith) (omega arith) refl (λ i e. cc)
