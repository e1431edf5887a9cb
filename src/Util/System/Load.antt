-- ===== src/Util/System/Load.antt =====
-- `System::load` of src/util/system.rs: the topology is read from the directories of the CPUs in
-- sysfs, grouped in ordered maps, and turned into nodes. What the file system holds is given.
pub mod Rows
pub mod Ordered
pub mod Present
pub mod Located
mod Tests
use schtest.Prelude.{
  ℕ, zero, suc, ◌+◌, ◌-◌, ◌%◌, ◌^◌, ◌==◌, Bool, true, false, Option, none, some, List, [], ◌∷◌,
  ◌++◌, map, if◌then◌else◌, ltb,
}
use schtest.Prelude.Int.{ℤ, pos, negsuc, pos_part, leb_ℤ}
use schtest.Prelude.Text.{trim}
use schtest.Util.Sched.{parse_i32}
use schtest.Util.System.{Hyperthread, Core, CoreComplex, Node, System, new}

-- A file: there is none, or it cannot be opened or read as text, or its text.
pub data File : Type 0 where
  absent : File
  failed : File
  contains : (text : List ℕ) → File

-- An entry of the `cache` directory, with its files `level` and `id`.
pub data CacheEntry : Type 0 where
  unreadable : CacheEntry
  index : (level id : File) → CacheEntry

pub data CacheDir : Type 0 where
  no_cache : CacheDir
  unlistable : CacheDir
  entries : List CacheEntry → CacheDir

-- The directory of a CPU.
pub record CpuDir : Type 0 where
  pub physical_package_id : File
  pub core_id : File
  pub die_id : File
  pub cache : CacheDir

-- `as i32`
unfoldable pub as_i32 : ℕ → ℤ
as_i32 n = let low = n % 2 ^ 32 in if ltb low (2 ^ 31) then pos low else negsuc (2 ^ 32 - 1 - low)

pub unwrap_or : ℤ → Option ℤ → ℤ
unwrap_or default none = default
unwrap_or default (some n) = n

-- An identifier from a file that may be missing; `none` is an error that `load` passes on.
pub read_id : ℤ → File → Option ℤ
unfolding unwrap_or
read_id default absent = some default
read_id default failed = none
read_id default (contains text) = some (unwrap_or default (parse_i32 (trim text)))

abbrev is_three : ℤ → Bool
is_three (pos n) = n == 3
is_three (negsuc n) = false

-- The loop over the cache directory: it stops at the first level 3 cache with an identifier.
pub find_l3 : List CacheEntry → Option ℤ
find_l3 [] = some (pos 0)
find_l3 (unreadable ∷ es) = none
find_l3 (index absent id ∷ es) = find_l3 es
find_l3 (index failed id ∷ es) = none
find_l3 (index (contains level) id ∷ es) = elim (parse_i32 (trim level)) [
  | none ↦ find_l3 es
  | some level_num ↦
      if is_three level_num
      then elim id [
        | absent ↦ find_l3 es
        | failed ↦ none
        | contains text ↦ elim (parse_i32 (trim text)) [
          | none ↦ find_l3 es
          | some id_num ↦ some id_num
        ]
      ]
      else find_l3 es
]

pub read_cache : CacheDir → Option ℤ
unfolding find_l3
read_cache no_cache = some (pos 0)
read_cache unlistable = none
read_cache (entries es) = find_l3 es

pub read_complex : CpuDir → Option ℤ
unfolding read_id read_cache
read_complex c = elim c.die_id [
  | absent ↦ read_cache c.cache
  | failed ↦ none
  | contains text ↦ read_id (pos 0) (contains text)
]

pub record Ids : Type 0 where
  pub node_id : ℤ
  pub complex_id : ℤ
  pub core_id : ℤ

pub read_ids : ℕ → CpuDir → Option Ids
unfolding read_id read_complex as_i32
read_ids cpu_id c = elim (read_id (pos 0) c.physical_package_id) [
  | none ↦ none
  | some node_id ↦ elim (read_id (as_i32 cpu_id) c.core_id) [
    | none ↦ none
    | some core_id ↦ elim (read_complex c) [
      | none ↦ none
      | some complex_id ↦
          some (record { node_id = node_id; complex_id = complex_id; core_id = core_id })
    ]
  ]
]

-- A `BTreeMap` with keys of type i32: its entries, in the order of the keys.
abbrev pub BTreeMap {ℓ} : Type ℓ → Type ℓ
BTreeMap V = List (ℤ × V)

-- Change the value of a key, which is the default if there is none: `entry(k).or_default()`.
pub change {ℓ} : {V : Type ℓ} → V → ℤ → (V → V) → BTreeMap V → BTreeMap V
change default k f [] = (k, f default) ∷ []
change default k f ((j, v) ∷ m) =
    if leb_ℤ k j
    then if leb_ℤ j k then (j, f v) ∷ m else (k, f default) ∷ (j, v) ∷ m
    else (j, v) ∷ change default k f m

abbrev pub Cores : Type 0
Cores = BTreeMap (List ℕ)

abbrev pub Complexes : Type 0
Complexes = BTreeMap Cores

abbrev pub Topology : Type 0
Topology = BTreeMap Complexes

-- A CPU number that is not negative as an i32 is kept as it is.
abbrev pub push_cpu : ℕ → List ℕ → List ℕ
push_cpu cpu_id cpus = cpus ++ (pos_part (as_i32 cpu_id) ∷ [])

pub add_cpu : ℕ → Ids → Topology → Topology
unfolding change as_i32
add_cpu cpu_id i =
    change [] i.node_id (change [] i.complex_id (change [] i.core_id (push_cpu cpu_id)))

-- The loop over the CPUs, from `cpu_id` on; a CPU without a directory is skipped.
pub add_cpus : (ℕ → Option CpuDir) → (left cpu_id : ℕ) → Topology → Option Topology
unfolding add_cpu read_ids
add_cpus dir zero cpu_id topology = some topology
add_cpus dir (suc left) cpu_id topology = elim (dir cpu_id) [
  | none ↦ add_cpus dir left (suc cpu_id) topology
  | some c ↦ elim (read_ids cpu_id c) [
    | none ↦ none
    | some i ↦ add_cpus dir left (suc cpu_id) (add_cpu cpu_id i topology)
  ]
]

abbrev pub to_thread : ℕ → Hyperthread
to_thread cpu_id = record { id = cpu_id }

abbrev pub to_core : ℤ × List ℕ → Core
to_core (core_id, cpu_ids) = record { id = core_id; hyperthreads = map to_thread cpu_ids }

abbrev pub to_complex : ℤ × Cores → CoreComplex
to_complex (complex_id, cores_map) = record { id = complex_id; cores = map to_core cores_map }

abbrev pub to_node : ℤ × Complexes → Node
to_node (node_id, complexes_map) = record { id = node_id; complexes = map to_complex complexes_map }

pub data Loaded : Type 0 where
  ok : System → Loaded
  no_cpus : Loaded
  io_error : Loaded

-- `num_cpus` is the answer of `sysconf`.
pub load : ℤ → (ℕ → Option CpuDir) → Loaded
unfolding add_cpus
load (pos zero) dir = no_cpus
load (pos (suc n)) dir = elim (add_cpus dir (suc n) 0 []) [
  | none ↦ io_error
  | some topology ↦ ok (new (map to_node topology))
]
load (negsuc n) dir = no_cpus
