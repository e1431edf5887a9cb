-- ===== src/Util/System/Tests.antt =====
-- A machine with two complexes: cores 1 and 0 in the first, core 2 in the second.
use schtest.Prelude.{ℕ, ◌≡◌, refl, true, some, List, [], ◌∷◌, arith}
use schtest.Prelude.Int.{pos}
use schtest.Util.System.{
  Hyperthread, Core, Node, System, new, core_at, found, system_mask, core_mask, hyperthread_mask,
  or_masks, cpu_set, cpu_or, insert_nodes,
}
use schtest.Util.System.Affinity.{Kernel}
use schtest.Util.System.Masks.{
  Masked, system_mask-Masked, system_cpus, gather, node_cpus, complex_cpus, core_cpus,
}

abbrev thread : ℕ → Hyperthread
thread n = record { id = n }

abbrev core_0 : Core
core_0 = record { id = pos 0; hyperthreads = thread 0 ∷ thread 65 ∷ [] }

abbrev core_1 : Core
core_1 = record { id = pos 1; hyperthreads = thread 1 ∷ [] }

abbrev core_2 : Core
core_2 = record { id = pos 2; hyperthreads = thread 2 ∷ [] }

abbrev nodes : List Node
nodes =
    record {
      id = pos 0;
      complexes =
          record { id = pos 0; cores = core_1 ∷ core_0 ∷ [] }
          ∷ record { id = pos 1; cores = core_2 ∷ [] }
          ∷ [];
    }
    ∷ []

abbrev system : System
system = record {
  nodes = nodes;
  all_cores = core_0 ∷ core_1 ∷ core_2 ∷ [];
  cpu_to_topology = (insert_nodes 0 nodes []);
}

new-system : new nodes ≡ system
unfolding new
new-system = refl

core_of_65 : core_at (new nodes) 65 ≡ found core_0
unfolding new core_at
core_of_65 = refl

mask_of_core_0 :
    core_mask core_0 ≡ some (1 ∷ 2 ∷ 0 ∷ 0 ∷ 0 ∷ 0 ∷ 0 ∷ 0 ∷ 0 ∷ 0 ∷ 0 ∷ 0 ∷ 0 ∷ 0 ∷ 0 ∷ 0 ∷ [])
unfolding core_mask or_masks hyperthread_mask cpu_set cpu_or
mask_of_core_0 = refl

system_mask-Masked_example : Masked (system_mask system) (system_cpus system)
unfolding system_cpus node_cpus complex_cpus core_cpus gather
system_mask-Masked_example = system_mask-Masked system (omega arith)

abbrev steady : Kernel
steady = record { get_ok = true; set_ok = true; restore_ok = true }
