-- ===== src/Util/System.antt =====
-- src/util/system.rs: CPU masks and the topology of the machine.
-- A hyperthread is named by its CPU number, which is not negative; the other identifiers may be.
-- A `cpu_set_t` is 16 words of 64 bits.
pub mod Affinity
pub mod Display
pub mod Load
pub mod Lookup
pub mod Masks
pub mod Sorted
mod Tests
use schtest.Prelude.{
  ℕ, zero, suc, ◌+◌, ◌/◌, ◌%◌, ◌^◌, Bool, true, false, Option, none, some, List, [], ◌∷◌, ◌++◌,
  ◌==◌, if◌then◌else◌, get_elem?, set, replicate, length, bit_or,
}
use schtest.Prelude.Int.{ℤ, leb_ℤ}

abbrev pub Mask : Type 0
Mask = List ℕ

abbrev pub zeroed : Mask
zeroed = replicate 16 0

-- `none` is a write past the end of the set.
pub cpu_set : ℕ → Mask → Option Mask
cpu_set cpu mask = elim (get_elem? mask (cpu / 64)) [
  | none ↦ none
  | some word ↦ some (set mask (cpu / 64) (bit_or word (2 ^ (cpu % 64))))
]

pub cpu_or : Mask → Mask → Mask
cpu_or [] src = []
cpu_or (d ∷ dest) [] = d ∷ dest
cpu_or (d ∷ dest) (s ∷ src) = bit_or d s ∷ cpu_or dest src

pub record Hyperthread : Type 0 where
  pub id : ℕ

pub record Core : Type 0 where
  pub id : ℤ
  pub hyperthreads : List Hyperthread

pub record CoreComplex : Type 0 where
  pub id : ℤ
  pub cores : List Core

pub record Node : Type 0 where
  pub id : ℤ
  pub complexes : List CoreComplex

-- The loop of the `mask` methods of `Core`, `CoreComplex`, `Node` and `System`: or the masks of
-- the parts together.
pub or_masks {ℓ} : {A : Type ℓ} → (A → Option Mask) → Mask → List A → Option Mask
or_masks part_mask mask [] = some mask
or_masks part_mask mask (x ∷ xs) = elim (part_mask x) [
  | none ↦ none
  | some m ↦ or_masks part_mask (cpu_or mask m) xs
]

pub hyperthread_mask : Hyperthread → Option Mask
hyperthread_mask h = cpu_set h.id zeroed

pub core_mask : Core → Option Mask
core_mask c = or_masks hyperthread_mask zeroed c.hyperthreads

pub complex_mask : CoreComplex → Option Mask
complex_mask c = or_masks core_mask zeroed c.cores

pub node_mask : Node → Option Mask
node_mask n = or_masks complex_mask zeroed n.complexes

-- `Node::cores`
pub node_cores : List CoreComplex → List Core
node_cores [] = []
node_cores (c ∷ cs) = c.cores ++ node_cores cs

-- Where a CPU is: the indices of its node, complex and core.
pub record Place : Type 0 where
  pub node_idx : ℕ
  pub complex_idx : ℕ
  pub core_idx : ℕ

pub record System : Type 0 where
  pub nodes : List Node
  pub all_cores : List Core
  pub cpu_to_topology : List (ℕ × Place)

-- The loops of `System::new` that fill the map; an insertion goes in front, and hides an older one.
abbrev pub Places : Type 0
Places = List (ℕ × Place)

pub insert_threads : Place → List Hyperthread → Places → Places
insert_threads p [] m = m
insert_threads p (h ∷ hs) m = insert_threads p hs ((h.id, p) ∷ m)

pub insert_cores : ℕ → ℕ → ℕ → List Core → Places → Places
unfolding insert_threads
insert_cores node_idx complex_idx core_idx [] m = m
insert_cores node_idx complex_idx core_idx (c ∷ cs) m =
    insert_cores node_idx complex_idx (core_idx + 1) cs (
      insert_threads
        (record { node_idx = node_idx; complex_idx = complex_idx; core_idx = core_idx })
        c.hyperthreads m)

pub insert_complexes : ℕ → ℕ → List CoreComplex → Places → Places
unfolding insert_cores
insert_complexes node_idx complex_idx [] m = m
insert_complexes node_idx complex_idx (c ∷ cs) m =
    insert_complexes node_idx (complex_idx + 1) cs (insert_cores node_idx complex_idx 0 c.cores m)

pub insert_nodes : ℕ → List Node → Places → Places
unfolding insert_complexes
insert_nodes node_idx [] m = m
insert_nodes node_idx (n ∷ ns) m =
    insert_nodes (node_idx + 1) ns (insert_complexes node_idx 0 n.complexes m)

-- `sort_by_key` on the identifier: a stable sort.
pub insert_core : Core → List Core → List Core
insert_core c [] = c ∷ []
insert_core c (d ∷ ds) = if leb_ℤ c.id d.id then c ∷ d ∷ ds else d ∷ insert_core c ds

pub sort_cores : List Core → List Core
unfolding insert_core
sort_cores [] = []
sort_cores (c ∷ cs) = insert_core c (sort_cores cs)

pub gather_cores : List Node → List Core
unfolding node_cores
gather_cores [] = []
gather_cores (n ∷ ns) = node_cores n.complexes ++ gather_cores ns

pub new : List Node → System
unfolding gather_cores sort_cores insert_nodes
new nodes = record {
  nodes = nodes;
  all_cores = sort_cores (gather_cores nodes);
  cpu_to_topology = insert_nodes 0 nodes [];
}

pub system_mask : System → Option Mask
system_mask s = or_masks node_mask zeroed s.nodes

unfoldable pub count_threads : List Core → ℕ
count_threads [] = 0
count_threads (c ∷ cs) = length c.hyperthreads + count_threads cs

unfoldable pub logical_cpus : System → ℕ
unfolding count_threads
logical_cpus s = count_threads s.all_cores

pub count_complexes : List Node → ℕ
count_complexes [] = 0
count_complexes (n ∷ ns) = length n.complexes + count_complexes ns

pub complexes : System → ℕ
unfolding count_complexes
complexes s = count_complexes s.nodes

-- The lookups, given the CPU that the kernel reports: an index out of range panics.
pub data Found {ℓ} (A : Type ℓ) : Type ℓ where
  found : A → Found A
  not_found panicked : Found A

abbrev pub at_index {ℓ κ} : {A : Type ℓ} {B : Type κ} → List A → ℕ → (A → Found B) → Found B
at_index xs i k = elim (get_elem? xs i) [ none ↦ panicked | some x ↦ k x ]

pub get_place : ℕ → Places → Option Place
get_place cpu [] = none
get_place cpu ((c, p) ∷ m) = if c == cpu then some p else get_place cpu m

pub node_at : System → ℕ → Found Node
unfolding get_place
node_at s cpu = elim (get_place cpu s.cpu_to_topology) [
  | none ↦ not_found
  | some p ↦ at_index s.nodes p.node_idx found
]

pub complex_at : System → ℕ → Found CoreComplex
unfolding get_place
complex_at s cpu = elim (get_place cpu s.cpu_to_topology) [
  | none ↦ not_found
  | some p ↦ at_index s.nodes p.node_idx (λ n. at_index n.complexes p.complex_idx found)
]

pub core_at : System → ℕ → Found Core
unfolding get_place
core_at s cpu = elim (get_place cpu s.cpu_to_topology) [
  | none ↦ not_found
  | some p ↦
      at_index s.nodes p.node_idx
        (λ n. at_index n.complexes p.complex_idx (λ c. at_index c.cores p.core_idx found))
]

pub find_thread : ℕ → List Hyperthread → Found Hyperthread
find_thread cpu [] = not_found
find_thread cpu (h ∷ hs) = if h.id == cpu then found h else find_thread cpu hs

pub hyperthread_at : System → ℕ → Found Hyperthread
unfolding core_at find_thread
hyperthread_at s cpu = elim (core_at s cpu) [
  | found c ↦ find_thread cpu c.hyperthreads
  | not_found ↦ not_found
  | panicked ↦ panicked
]

-- `current_cpu` fails if `sched_getcpu` does.
abbrev pub current {ℓ} : {A : Type ℓ} → (ℕ → Found A) → Option ℕ → Found A
current lookup none = not_found
current lookup (some cpu) = lookup cpu
