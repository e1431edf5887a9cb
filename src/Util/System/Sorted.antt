-- ===== src/Util/System/Sorted.antt =====
-- The cores that `System::new` gathers and sorts, and how they are counted.
use mathlib.Core.List.{Perm}
use mathlib.Core.List.Perm
use schtest.Prelude.{
  ℕ, suc, ◌+◌, ◌≡◌, refl, List, [], ◌∷◌, ◌++◌, length, length-append, All, arith, ap, ◌∙◌,
  Bool-cases, inl, inr,
}
use schtest.Prelude.Int.{ℤ, ◌≤ℤ◌, leb_ℤ}
use schtest.Util.System.{
  Hyperthread, Core, CoreComplex, Node, insert_core, sort_cores, gather_cores, node_cores, new,
  count_threads, logical_cpus,
}
use schtest.Util.System.Masks.{gather, core_cpus, complex_cpus, node_cpus, system_cpus}

abbrev pub IsSorted : List Core → Type 0
IsSorted [] = Unit
IsSorted (c ∷ cs) = All (λ (d : Core). c.id ≤ℤ d.id) cs × IsSorted cs

insert_core-perm : (c : Core) (cs : List Core) → Perm (insert_core c cs) (c ∷ cs)
unfolding insert_core
insert_core-perm c [] = Perm.refl _
insert_core-perm c (d ∷ ds) = elim (Bool-cases (leb_ℤ c.id d.id)) [
  | inl le ↦ rw le (Perm.refl _)
  | inr gt ↦ rw gt (Perm.trans (Perm.cons d (insert_core-perm c ds)) (Perm.swap c d ds))
]

sort_cores-perm : (cs : List Core) → Perm (sort_cores cs) cs
unfolding sort_cores
sort_cores-perm [] = Perm.refl _
sort_cores-perm (c ∷ cs) =
    Perm.trans (insert_core-perm c (sort_cores cs)) (Perm.cons c (sort_cores-perm cs))

-- Every element of a list with a core inserted is above what was below both.
All-insert_core :
    (i : ℤ) (c : Core) (cs : List Core)
    → i ≤ℤ c.id
    → All (λ (d : Core). i ≤ℤ d.id) cs
    → All (λ (d : Core). i ≤ℤ d.id) (insert_core c cs)
unfolding insert_core
All-insert_core i c [] h k = (h, tt)
All-insert_core i c (d ∷ ds) h k = elim (Bool-cases (leb_ℤ c.id d.id)) [
  | inl le ↦ rw le (h, k)
  | inr gt ↦ rw gt (k.0, All-insert_core i c ds h k.1)
]

All-weaken :
    (i j : ℤ) (cs : List Core)
    → i ≤ℤ j
    → All (λ (d : Core). j ≤ℤ d.id) cs
    → All (λ (d : Core). i ≤ℤ d.id) cs
All-weaken i j [] h k = tt
All-weaken i j (d ∷ ds) h k = (omega (arith, h, k.0), All-weaken i j ds h k.1)

insert_core-IsSorted : (c : Core) (cs : List Core) → IsSorted cs → IsSorted (insert_core c cs)
unfolding insert_core
insert_core-IsSorted c [] h = (tt, tt)
insert_core-IsSorted c (d ∷ ds) h = elim (Bool-cases (leb_ℤ c.id d.id)) [
  | inl le ↦ rw le (((ground arith), All-weaken c.id d.id ds (ground arith) h.0), h)
  | inr gt ↦ rw gt (All-insert_core d.id c ds (ground arith) h.0, insert_core-IsSorted c ds h.1)
]

sort_cores-IsSorted : (cs : List Core) → IsSorted (sort_cores cs)
unfolding sort_cores
sort_cores-IsSorted [] = tt
sort_cores-IsSorted (c ∷ cs) = insert_core-IsSorted c (sort_cores cs) (sort_cores-IsSorted cs)

-- The cores of a system are those of its nodes, each as often, sorted by identifier.
pub new-cores :
    (nodes : List Node)
    → Perm (new nodes).all_cores (gather_cores nodes) × IsSorted (new nodes).all_cores
unfolding new
new-cores nodes = (sort_cores-perm (gather_cores nodes), sort_cores-IsSorted (gather_cores nodes))

count-insert_core :
    (c : Core) (cs : List Core) → count_threads (insert_core c cs) ≡ count_threads (c ∷ cs)
unfolding insert_core count_threads
count-insert_core c [] = refl
count-insert_core c (d ∷ ds) = ground (arith, count-insert_core c ds)

count-sort_cores : (cs : List Core) → count_threads (sort_cores cs) ≡ count_threads cs
unfolding sort_cores count_threads
count-sort_cores [] = refl
count-sort_cores (c ∷ cs) =
    count-insert_core c (sort_cores cs)
    ∙ ap (λ (n : ℕ). length c.hyperthreads + n) (count-sort_cores cs)

count-append : (xs ys : List Core) → count_threads (xs ++ ys) ≡ count_threads xs + count_threads ys
unfolding count_threads
count-append [] ys = omega arith
count-append (x ∷ xs) ys = omega (arith, count-append xs ys)

threads : (hs : List Hyperthread) → length (gather (λ (h : Hyperthread). h.id ∷ []) hs) ≡ length hs
unfolding gather
threads [] = refl
threads (h ∷ hs) = ap suc (threads hs)

count-cores : (cs : List Core) → count_threads cs ≡ length (gather core_cpus cs)
unfolding count_threads gather core_cpus
count-cores [] = refl
count-cores (c ∷ cs) = omega (
  arith,
  length-append (core_cpus c) (gather core_cpus cs),
  threads c.hyperthreads,
  count-cores cs,
)

count-complexes :
    (cs : List CoreComplex) → count_threads (node_cores cs) ≡ length (gather complex_cpus cs)
unfolding node_cores gather complex_cpus count_threads
count-complexes [] = refl
count-complexes (c ∷ cs) = omega (
  arith,
  length-append (complex_cpus c) (gather complex_cpus cs),
  count-append c.cores (node_cores cs),
  count-cores c.cores,
  count-complexes cs,
)

count-nodes : (ns : List Node) → count_threads (gather_cores ns) ≡ length (gather node_cpus ns)
unfolding gather_cores gather node_cpus count_threads
count-nodes [] = refl
count-nodes (n ∷ ns) = omega (
  arith,
  length-append (node_cpus n) (gather node_cpus ns),
  count-append (node_cores n.complexes) (gather_cores ns),
  count-complexes n.complexes,
  count-nodes ns,
)

-- The number of logical CPUs, which is counted over the sorted cores, is the number of
-- hyperthreads in the nodes.
pub logical_cpus-new :
    (nodes : List Node) → logical_cpus (new nodes) ≡ length (system_cpus (new nodes))
unfolding logical_cpus new system_cpus
logical_cpus-new nodes = count-sort_cores (gather_cores nodes) ∙ count-nodes nodes
