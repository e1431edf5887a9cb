-- ===== src/Util/System/Load/Ordered.antt =====
-- The order of the maps of src/util/system.rs, `System::load`: their keys ascend, without a repetition.
use schtest.Prelude.{
  ℕ, suc, ◌+◌, ◌≤◌, ◌≡◌, refl, ap, List, [], ◌∷◌, map, arith, Bool-cases, inl, inr, All,
}
use schtest.Prelude.Int.{ℤ, leb_ℤ, pos_part, neg_part}
use schtest.Util.System.{Core, CoreComplex, Node}
use schtest.Util.System.Load.{
  BTreeMap, change, Cores, Complexes, Topology, Ids, push_cpu, add_cpu, to_core, to_complex,
  to_node,
}

infix 50 ◌<ℤ◌
abbrev pub ◌<ℤ◌ : ℤ → ℤ → Type 0
a <ℤ b = suc (pos_part a + neg_part b) ≤ pos_part b + neg_part a

-- Identifiers that ascend, each one once.
abbrev pub IsAscending : List ℤ → Type 0
IsAscending [] = Unit
IsAscending (k ∷ ks) = All (λ j. k <ℤ j) ks × IsAscending ks

abbrev pub keys {ℓ} : {V : Type ℓ} → BTreeMap V → List ℤ
keys [] = []
keys ((k, v) ∷ m) = k ∷ keys m

module _ {ℓ} {V : Type ℓ} (default : V) (k : ℤ) (f : V → V) where
  keys_above :
      (i : ℤ) (m : BTreeMap V)
      → i <ℤ k
      → All (λ j. i <ℤ j) (keys m)
      → All (λ j. i <ℤ j) (keys (change default k f m))
  unfolding change
  keys_above i [] h a = (h, tt)
  keys_above i ((j, v) ∷ m) h a = elim (Bool-cases (leb_ℤ k j)) [
    | inl le ↦ elim (Bool-cases (leb_ℤ j k)) [
      | inl ge ↦ rw (le, ge) a
      | inr lt ↦ rw (le, lt) (h, a)
    ]
    | inr gt ↦ rw gt (a.0, keys_above i m h a.1)
  ]

  above : (i j : ℤ) (ks : List ℤ) → i <ℤ j → All (λ l. j <ℤ l) ks → All (λ l. i <ℤ l) ks
  above i j [] h a = tt
  above i j (l ∷ ks) h a = (omega (arith, h, a.0), above i j ks h a.1)

  change-IsAscending :
      (m : BTreeMap V) → IsAscending (keys m) → IsAscending (keys (change default k f m))
  unfolding change
  change-IsAscending [] h = (tt, tt)
  change-IsAscending ((j, v) ∷ m) h = elim (Bool-cases (leb_ℤ k j)) [
    | inl le ↦ elim (Bool-cases (leb_ℤ j k)) [
      | inl ge ↦ rw (le, ge) h
      | inr lt ↦ rw (le, lt) ((ground arith, above k j (keys m) (ground arith) h.0), h)
    ]
    | inr gt ↦ rw gt (keys_above j m (ground arith) h.0, change-IsAscending m h.1)
  ]

  -- A property of every value.
  change-All {κ} :
      (P : V → Type κ) (m : BTreeMap V)
      → P default
      → ((v : V) → P v → P (f v))
      → All (λ e. P e.1) m
      → All (λ e. P e.1) (change default k f m)
  unfolding change
  change-All P [] d keeps h = (keeps default d, tt)
  change-All P ((j, v) ∷ m) d keeps h = elim (Bool-cases (leb_ℤ k j)) [
    | inl le ↦ elim (Bool-cases (leb_ℤ j k)) [
      | inl ge ↦ rw (le, ge) (keeps v h.0, h.1)
      | inr lt ↦ rw (le, lt) (keeps default d, h)
    ]
    | inr gt ↦ rw gt (h.0, change-All P m d keeps h.1)
  ]

abbrev pub IsOrderedCores : Cores → Type 0
IsOrderedCores m = IsAscending (keys m)

abbrev pub IsOrderedComplexes : Complexes → Type 0
IsOrderedComplexes m = IsAscending (keys m) × All (λ e. IsOrderedCores e.1) m

abbrev pub IsOrderedTopology : Topology → Type 0
IsOrderedTopology m = IsAscending (keys m) × All (λ e. IsOrderedComplexes e.1) m

pub add_cpu-IsOrderedTopology :
    (cpu : ℕ) (i : Ids) (m : Topology) → IsOrderedTopology m → IsOrderedTopology (add_cpu cpu i m)
unfolding add_cpu
add_cpu-IsOrderedTopology cpu i m h = (
  change-IsAscending [] i.node_id (change [] i.complex_id (change [] i.core_id (push_cpu cpu))) m
      h.0,
  change-All [] i.node_id (change [] i.complex_id (change [] i.core_id (push_cpu cpu)))
      IsOrderedComplexes m (tt, tt) complexes h.1,
)
  where
    complexes :
        (v : Complexes)
        → IsOrderedComplexes v
        → IsOrderedComplexes (change [] i.complex_id (change [] i.core_id (push_cpu cpu)) v)
    complexes v h = (
      change-IsAscending [] i.complex_id (change [] i.core_id (push_cpu cpu)) v h.0,
      change-All [] i.complex_id (change [] i.core_id (push_cpu cpu)) IsOrderedCores v tt
          (change-IsAscending [] i.core_id (push_cpu cpu)) h.1,
    )

-- The same of the nodes: the identifiers of the nodes, of the complexes of each, and of the cores of
-- each of these.
abbrev pub core_ids : List Core → List ℤ
core_ids [] = []
core_ids (c ∷ cs) = c.id ∷ core_ids cs

abbrev pub complex_ids : List CoreComplex → List ℤ
complex_ids [] = []
complex_ids (c ∷ cs) = c.id ∷ complex_ids cs

abbrev pub node_ids : List Node → List ℤ
node_ids [] = []
node_ids (n ∷ ns) = n.id ∷ node_ids ns

abbrev pub IsAscendingComplex : CoreComplex → Type 0
IsAscendingComplex c = IsAscending (core_ids c.cores)

abbrev pub IsAscendingNode : Node → Type 0
IsAscendingNode n = IsAscending (complex_ids n.complexes) × All IsAscendingComplex n.complexes

abbrev pub IsAscendingNodes : List Node → Type 0
IsAscendingNodes ns = IsAscending (node_ids ns) × All IsAscendingNode ns

core_ids-map : (m : Cores) → core_ids (map to_core m) ≡ keys m
core_ids-map [] = refl
core_ids-map ((k, v) ∷ m) = ap (λ ks. k ∷ ks) (core_ids-map m)

complex_ids-map : (m : Complexes) → complex_ids (map to_complex m) ≡ keys m
complex_ids-map [] = refl
complex_ids-map ((k, v) ∷ m) = ap (λ ks. k ∷ ks) (complex_ids-map m)

node_ids-map : (m : Topology) → node_ids (map to_node m) ≡ keys m
node_ids-map [] = refl
node_ids-map ((k, v) ∷ m) = ap (λ ks. k ∷ ks) (node_ids-map m)

complexes_ascend :
    (m : Complexes) → All (λ e. IsOrderedCores e.1) m → All IsAscendingComplex (map to_complex m)
complexes_ascend [] h = tt
complexes_ascend ((k, v) ∷ m) h = (rw (core_ids-map v) h.0, complexes_ascend m h.1)

nodes_ascend :
    (m : Topology) → All (λ e. IsOrderedComplexes e.1) m → All IsAscendingNode (map to_node m)
nodes_ascend [] h = tt
nodes_ascend ((k, v) ∷ m) h =
    ((rw (complex_ids-map v) h.0.0, complexes_ascend v h.0.1), nodes_ascend m h.1)

pub nodes-IsAscendingNodes : (m : Topology) → IsOrderedTopology m → IsAscendingNodes (map to_node m)
nodes-IsAscendingNodes m h = (rw (node_ids-map m) h.0, nodes_ascend m h.1)
