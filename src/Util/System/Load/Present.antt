-- ===== src/Util/System/Load/Present.antt =====
-- `System::load` of src/util/system.rs against the CPUs that sysfs has a directory of.
use mathlib.Core.List.{Perm, Permᴰ, append-nil}
use mathlib.Core.List.Perm
use mathlib.Core.List.Permᴰ
use schtest.Prelude.{
  ℕ, zero, suc, ◌+◌, ◌^◌, ◌≤◌, ◌<◌, ◌≡◌, refl, ap, subst, Option, none, some, List, [], ◌∷◌, ◌++◌,
  map, arith, inl, inr, Option-cases, Bool-cases, ◌==◌, ==_iff,
}
use schtest.Prelude.Int.{ℤ, pos, pos_part}
use schtest.Util.System.{Core, CoreComplex, Node, new}
use schtest.Util.System.Load.{
  CpuDir, as_i32, Ids, read_ids, Topology, add_cpu, add_cpus, to_core, to_complex, to_node, Loaded,
  ok, no_cpus, io_error, load,
}
use schtest.Util.System.Load.Rows.{
  Row, row, collect, core_rows, complex_rows, node_rows, collect-add_cpu,
}
use schtest.Util.System.Load.Ordered.{
  IsOrderedTopology, IsAscendingNodes, add_cpu-IsOrderedTopology, nodes-IsAscendingNodes,
}

-- The rows of the CPUs from `cpu` on that have a directory, in the order of their numbers.
unfoldable pub present : (ℕ → Option CpuDir) → (left cpu : ℕ) → List Row
present dir zero cpu = []
present dir (suc left) cpu = elim (dir cpu) [
  | none ↦ present dir left (suc cpu)
  | some c ↦ elim (read_ids cpu c) [
    | none ↦ present dir left (suc cpu)
    | some i ↦ record { ids = i; cpu = cpu } ∷ present dir left (suc cpu)
  ]
]

-- A directory among the first `n` CPUs that cannot be read.
pub record Broken (dir : ℕ → Option CpuDir) (n : ℕ) : Type 0 where
  pub cpu : ℕ
  pub below : cpu < n
  pub files : CpuDir
  pub there : dir cpu ≡ some files
  pub failing : read_ids cpu files ≡ none

-- The rows of the nodes of a system.
abbrev pub rows_of_core : ℤ → ℤ → Core → List Row
rows_of_core n c k = map (λ h. row n c k.id h.id) k.hyperthreads

abbrev pub rows_of_complex : ℤ → CoreComplex → List Row
rows_of_complex n c = collect (rows_of_core n c.id) c.cores

abbrev pub rows_of_node : Node → List Row
rows_of_node n = collect (rows_of_complex n.id) n.complexes

abbrev pub rows_of : List Node → List Row
rows_of ns = collect rows_of_node ns

collect-map {ℓ κ μ} :
    {A : Type ℓ} {B : Type κ} {C : Type μ} (f : B → List C) (h : A → B) (g : A → List C)
    → ((x : A) → f (h x) ≡ g x)
    → (xs : List A) → collect f (map h xs) ≡ collect g xs
collect-map f h g e [] = refl
collect-map f h g e (x ∷ xs) = rw (e x, collect-map f h g e xs) refl

map-map {ℓ κ μ} :
    {A : Type ℓ} {B : Type κ} {C : Type μ} (f : B → C) (h : A → B) (xs : List A)
    → map f (map h xs) ≡ map (λ x. f (h x)) xs
map-map f h [] = refl
map-map f h (x ∷ xs) = ap (λ ys. f (h x) ∷ ys) (map-map f h xs)

rows_of-map : (m : Topology) → rows_of (map to_node m) ≡ collect node_rows m
rows_of-map = collect-map rows_of_node to_node node_rows (λ (n, complexes).
    collect-map (rows_of_complex n) to_complex (complex_rows n)
      (λ (c, cores).
        collect-map (rows_of_core n c) to_core (core_rows n c) (λ (k, cpus). map-map _ _ cpus)
          cores)
      complexes)

as_i32_small : (n : ℕ) → n < 2 ^ 31 → pos_part (as_i32 n) ≡ n
unfolding as_i32
as_i32_small n h = ground arith

-- The files of every CPU with a directory, of those from `first` and below `until`, can be read.
abbrev pub AllRead : (ℕ → Option CpuDir) → (first until : ℕ) → Type 0
AllRead dir first until =
    (k : ℕ) (c : CpuDir)
    → first ≤ k
    → k < until
    → dir k ≡ some c
    → (i : Ids) × (read_ids k c ≡ some i)

module _ (dir : ℕ → Option CpuDir) (left cpu : ℕ) where
  AllRead-first :
      ((c : CpuDir) → dir cpu ≡ some c → (i : Ids) × (read_ids cpu c ≡ some i))
      → AllRead dir (suc cpu) (suc cpu + left)
      → AllRead dir cpu (cpu + suc left)
  AllRead-first here rest k c l h e = elim (Bool-cases (cpu == k)) [
    | inl at ↦
        subst (λ j. dir j ≡ some c → (i : Ids) × (read_ids j c ≡ some i)) ((==_iff cpu k).0 at)
          (here c) e
    | inr off ↦ rest k c (ground arith) (omega arith) e
  ]

  AllRead-absent :
      dir cpu ≡ none → AllRead dir (suc cpu) (suc cpu + left) → AllRead dir cpu (cpu + suc left)
  AllRead-absent e = AllRead-first (λ c f. absurd (cc))

  AllRead-there :
      (c : CpuDir) (i : Ids)
      → dir cpu ≡ some c
      → read_ids cpu c ≡ some i
      → AllRead dir (suc cpu) (suc cpu + left)
      → AllRead dir cpu (cpu + suc left)
  AllRead-there c i e f = AllRead-first (λ c' g. (i, cc))

-- What the loop over the CPUs has done: it could read all CPUs that are there, and adds the rows of the CPUs that are there, or one of
-- them cannot be read.
data AddsAs (dir : ℕ → Option CpuDir) (left cpu : ℕ) (m : Topology) : Option Topology → Type 0 where
  added :
      (m' : Topology)
      → AllRead dir cpu (cpu + left)
      → Permᴰ (collect node_rows m') (present dir left cpu ++ collect node_rows m)
      → IsOrderedTopology m'
      → AddsAs dir left cpu m (some m')
  broken : Broken dir (cpu + left) → AddsAs dir left cpu m none

module _ (dir : ℕ → Option CpuDir) (left cpu : ℕ) (m : Topology) where
  skipped :
      (r : Option Topology)
      → dir cpu ≡ none
      → present dir (suc left) cpu ≡ present dir left (suc cpu)
      → AddsAs dir left (suc cpu) m r
      → AddsAs dir (suc left) cpu m r
  skipped none f e (broken b) = broken (subst (Broken dir) (omega arith) b)
  skipped (some _) f e (added m' a p o) = added m' (AllRead-absent dir left cpu f a) (rw e p) o

  kept :
      (c : CpuDir) (i : Ids) (r : Option Topology)
      → dir cpu ≡ some c
      → read_ids cpu c ≡ some i
      → pos_part (as_i32 cpu) ≡ cpu
      → present dir (suc left) cpu ≡ record { ids = i; cpu = cpu } ∷ present dir left (suc cpu)
      → AddsAs dir left (suc cpu) (add_cpu cpu i m) r
      → AddsAs dir (suc left) cpu m r
  kept c i none d f s e (broken b) = broken (subst (Broken dir) (omega arith) b)
  kept c i (some _) d f s e (added m' a p o) =
      added m' (AllRead-there dir left cpu c i d f a)
        (rw e (
          Permᴰ.trans p (
            Permᴰ.trans (Permᴰ.append_left (present dir left (suc cpu)) here)
              (Permᴰ.middle _ (present dir left (suc cpu)) (collect node_rows m)))))
        o
    where
      here :
          Permᴰ
            (collect node_rows (add_cpu cpu i m))
            (record { ids = i; cpu = cpu } ∷ collect node_rows m)
      here =
          subst
            (λ k.
              Permᴰ (collect node_rows (add_cpu cpu i m))
                (record { ids = i; cpu = k } ∷ collect node_rows m))
            s (collect-add_cpu cpu i m)

add_cpus-AddsAs :
    (dir : ℕ → Option CpuDir) (left cpu : ℕ) (m : Topology)
    → cpu + left ≤ 2 ^ 31
    → IsOrderedTopology m
    → AddsAs dir left cpu m (add_cpus dir left cpu m)
unfolding add_cpus present
add_cpus-AddsAs dir zero cpu m h o = added m (λ k c l u. absurd (omega arith)) (Permᴰ.refl _) o
add_cpus-AddsAs dir (suc left) cpu m h o = elim (Option-cases (dir cpu)) [
  | inl e ↦
      rw (e, add_cpus)
        (skipped dir left cpu m _ e (rw (e, present) refl)
          (add_cpus-AddsAs dir left (suc cpu) m (omega arith) o))
  | inr (c, e) ↦ elim (Option-cases (read_ids cpu c)) [
    | inl f ↦
        rw (e, f, add_cpus)
          (broken (record { cpu = cpu; below = omega arith; files = c; there = e; failing = f }))
    | inr (i, f) ↦
        rw (e, f, add_cpus)
          (kept dir left cpu m c i _ e f (as_i32_small cpu (omega arith)) (rw (e, f, present) refl)
            (add_cpus-AddsAs dir left (suc cpu) (add_cpu cpu i m) (omega arith)
              (add_cpu-IsOrderedTopology cpu i m o)))
  ]
]

-- The result of `load`: with no CPUs an error; if all CPUs that are there could be read, a system that
-- holds them, each once and under the identifiers that were read, with ascending identifiers; or an error for one of
-- them that cannot be read.
pub data LoadsAs (dir : ℕ → Option CpuDir) (n : ℕ) : Loaded → Type 0 where
  none_configured : n ≡ 0 → LoadsAs dir n no_cpus
  system_of :
      (nodes : List Node)
      → AllRead dir 0 n
      → Perm (rows_of nodes) (present dir n 0)
      → IsAscendingNodes nodes
      → LoadsAs dir n (ok (new nodes))
  failed_at : Broken dir n → LoadsAs dir n io_error

finished :
    (dir : ℕ → Option CpuDir) (n : ℕ) (r : Option Topology)
    → add_cpus dir (suc n) 0 [] ≡ r
    → AddsAs dir (suc n) 0 [] r
    → LoadsAs dir (suc n) (load (pos (suc n)) dir)
unfolding load
finished dir n none e (broken b) = rw (e, load) (failed_at (subst (Broken dir) (omega arith) b))
finished dir n (some _) e (added m a p o) =
    rw (e, load)
      (system_of (map to_node m) (subst (AllRead dir 0) (omega arith) a) rows
        (nodes-IsAscendingNodes m o))
  where
    rows : Perm (rows_of (map to_node m)) (present dir (suc n) 0)
    rows = rw rows_of-map (Perm.trans ∣ p ∣₁ (rw append-nil (Perm.refl _)))

-- With at most 2 ^ 31 CPUs, `load` gives a system only if every directory that is there could be
-- read; it has each CPU that has a directory once, under the identifiers that were read for it, and
-- identifiers that ascend at each level without a repetition. Otherwise it gives the error of a directory that cannot be read; or, with no CPU, an error.
pub load-LoadsAs : (n : ℕ) (dir : ℕ → Option CpuDir) → n ≤ 2 ^ 31 → LoadsAs dir n (load (pos n) dir)
unfolding load
load-LoadsAs zero dir h = none_configured refl
load-LoadsAs (suc n) dir h =
    finished dir n _ refl (add_cpus-AddsAs dir (suc n) 0 [] (omega arith) (tt, tt))
