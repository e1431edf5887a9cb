-- ===== src/Util/System/Load/Located.antt =====
-- The lookups of src/util/system.rs in a system that `load` has read.
use mathlib.Core.List.{Perm, Permᴰ}
use mathlib.Core.Logic.{∥∥₁_elim}
use schtest.Prelude.{
  ℕ, zero, suc, ◌+◌, ◌^◌, ◌≤◌, ◌<◌, ◌≡◌, ◌≢◌, refl, sym, subst, ◌∙◌, Bool, true, false, ◌||◌, ◌&&◌,
  not, Option, none, some, List, [], ◌∷◌, ◌++◌, map, arith, inl, inr, Option-cases, Bool-cases,
  ◌==◌, ==_iff, get_elem?,
}
use schtest.Prelude.Int.{ℤ, pos, negsuc, leb_ℤ}
use schtest.Util.System.{Hyperthread, Core, CoreComplex, Node, System, new}
use schtest.Util.System.Lookup.{has_thread, in_cores, in_complexes, in_nodes, Located, new-Located}
use schtest.Util.System.Load.{CpuDir, Ids, read_ids, Loaded, ok, no_cpus, io_error, load}
use schtest.Util.System.Load.Rows.{Row, row, collect, leb_ℤ-antisym}
use schtest.Util.System.Load.Present.{
  present, rows_of_core, rows_of_complex, rows_of_node, rows_of, LoadsAs, none_configured,
  system_of, failed_at, load-LoadsAs,
}

any {ℓ} : {A : Type ℓ} → (A → Bool) → List A → Bool
any test [] = false
any test (r ∷ rs) = test r || any test rs

module _ {ℓ} {A : Type ℓ} (test : A → Bool) where
  any-append : (xs ys : List A) → any test (xs ++ ys) ≡ (any test xs || any test ys)
  unfolding any
  any-append [] ys = refl
  any-append (x ∷ xs) ys = ground (arith, any-append xs ys)

  any-Permᴰ : {xs ys : List A} → Permᴰ xs ys → any test xs ≡ any test ys
  unfolding any
  any-Permᴰ Permᴰ.nil = refl
  any-Permᴰ (Permᴰ.cons {a} {b} e p) = rw (e, any-Permᴰ p) refl
  any-Permᴰ (Permᴰ.swap {a} {b} {a'} {b'} {l} e f) = rw (e, f) (ground arith)
  any-Permᴰ (Permᴰ.trans p q) = any-Permᴰ p ∙ any-Permᴰ q

  any-Perm : {xs ys : List A} → Perm xs ys → any test xs ≡ any test ys
  any-Perm p = ∥∥₁_elim p (hlevel) any-Permᴰ

  -- A part of what is collected, at an index of the list.
  any-collect {κ} :
      {B : Type κ} (f : B → List A) (bs : List B) (i : ℕ) (b : B)
      → get_elem? bs i ≡ some b
      → any test (collect f bs) ≡ false
      → any test (f b) ≡ false
  any-collect f [] i b e h = absurd (cc)
  any-collect f (c ∷ bs) zero b e h =
      subst (λ d. any test (f d) ≡ false) {x = c} (ground arith)
        (ground (arith, any-append (f c) (collect f bs)))
  any-collect f (c ∷ bs) (suc i) b e h =
      any-collect f bs i b e (ground (arith, any-append (f c) (collect f bs)))

abbrev on_cpu : ℕ → Row → Bool
on_cpu cpu r = r.cpu == cpu

any-rows_of_core :
    (cpu : ℕ) (n c k : ℤ) (hs : List Hyperthread)
    → any (on_cpu cpu) (map (λ (h : Hyperthread). row n c k h.id) hs) ≡ has_thread cpu hs
unfolding any has_thread
any-rows_of_core cpu n c k [] = refl
any-rows_of_core cpu n c k (h ∷ hs) = ground (arith, any-rows_of_core cpu n c k hs)

any-rows_of_complex :
    (cpu : ℕ) (n c : ℤ) (ks : List Core)
    → any (on_cpu cpu) (collect (rows_of_core n c) ks) ≡ in_cores cpu ks
unfolding any in_cores
any-rows_of_complex cpu n c [] = refl
any-rows_of_complex cpu n c (k ∷ ks) =
    any-append (on_cpu cpu) (rows_of_core n c k) (collect (rows_of_core n c) ks)
    ∙ rw (any-rows_of_core cpu n c k.id k.hyperthreads, any-rows_of_complex cpu n c ks) refl

any-rows_of_node :
    (cpu : ℕ) (n : ℤ) (cs : List CoreComplex)
    → any (on_cpu cpu) (collect (rows_of_complex n) cs) ≡ in_complexes cpu cs
unfolding any in_complexes
any-rows_of_node cpu n [] = refl
any-rows_of_node cpu n (c ∷ cs) =
    any-append (on_cpu cpu) (rows_of_complex n c) (collect (rows_of_complex n) cs)
    ∙ rw (any-rows_of_complex cpu n c.id c.cores, any-rows_of_node cpu n cs) refl

any-rows_of : (cpu : ℕ) (ns : List Node) → any (on_cpu cpu) (rows_of ns) ≡ in_nodes cpu ns
unfolding any in_nodes
any-rows_of cpu [] = refl
any-rows_of cpu (n ∷ ns) =
    any-append (on_cpu cpu) (rows_of_node n) (rows_of ns)
    ∙ rw (any-rows_of_node cpu n.id n.complexes, any-rows_of cpu ns) refl

-- Whether a row is at odds with what is read for its CPU.
same : ℤ → ℤ → Bool
same a b = leb_ℤ a b && leb_ℤ b a

differs : (ℕ → Option CpuDir) → Row → Bool
unfolding same
differs dir r = elim (dir r.cpu) [
  | none ↦ true
  | some c ↦ elim (read_ids r.cpu c) [
    | none ↦ true
    | some i ↦ not (
        same i.node_id r.ids.node_id
        && (same i.complex_id r.ids.complex_id && same i.core_id r.ids.core_id))
  ]
]

same_self : (a : ℤ) → same a a ≡ true
unfolding same
same_self (pos n) = ground arith
same_self (negsuc n) = ground arith

same-eq : (a b : ℤ) → same a b ≡ true → b ≡ a
unfolding same
same-eq a b h = leb_ℤ-antisym a b (ground arith) (ground arith)

agrees :
    (dir : ℕ → Option CpuDir) (cpu : ℕ) (c : CpuDir) (i : Ids)
    → dir cpu ≡ some c
    → read_ids cpu c ≡ some i
    → differs dir (record { ids = i; cpu = cpu }) ≡ false
unfolding differs
agrees dir cpu c i e f =
    rw (e, f, differs, same_self i.node_id, same_self i.complex_id, same_self i.core_id) refl

-- What is read for the CPU of a row that does not differ.
agreed :
    (dir : ℕ → Option CpuDir) (cpu : ℕ) (c : CpuDir) (i j : Ids)
    → dir cpu ≡ some c
    → read_ids cpu c ≡ some i
    → differs dir (record { ids = j; cpu = cpu }) ≡ false
    → (j.node_id ≡ i.node_id) × (j.complex_id ≡ i.complex_id) × (j.core_id ≡ i.core_id)
unfolding differs
agreed dir cpu c i j e f d = (
  same-eq i.node_id j.node_id (ground (arith, all)),
  same-eq i.complex_id j.complex_id (ground (arith, all)),
  same-eq i.core_id j.core_id (ground (arith, all)),
)
  where
    all :
        (same i.node_id j.node_id && (same i.complex_id j.complex_id && same i.core_id j.core_id))
        ≡ true
    all = ground (arith, d, e, f)

present-agrees :
    (dir : ℕ → Option CpuDir) (left cpu : ℕ) → any (differs dir) (present dir left cpu) ≡ false
unfolding any present
present-agrees dir zero cpu = refl
present-agrees dir (suc left) cpu = elim (Option-cases (dir cpu)) [
  | inl e ↦ rw (e, present) (present-agrees dir left (suc cpu))
  | inr (c, e) ↦ elim (Option-cases (read_ids cpu c)) [
    | inl f ↦ rw (e, f, present) (present-agrees dir left (suc cpu))
    | inr (i, f) ↦
        rw (e, f, present, any) (rw (agrees dir cpu c i e f) (present-agrees dir left (suc cpu)))
  ]
]

present-has :
    (dir : ℕ → Option CpuDir) (left cpu k : ℕ) (c : CpuDir) (i : Ids)
    → cpu ≤ k
    → k < cpu + left
    → dir k ≡ some c
    → read_ids k c ≡ some i
    → any (on_cpu k) (present dir left cpu) ≡ true
unfolding any present
present-has dir zero cpu k c i l h e f = absurd (omega arith)
present-has dir (suc left) cpu k c i l h e f = elim (Option-cases (dir cpu)) [
  | inl n ↦
      rw (n, present) (present-has dir left (suc cpu) k c i (other (λ s. cc)) (omega arith) e f)
  | inr (c', e') ↦ elim (Option-cases (read_ids cpu c')) [
    | inl n ↦
        rw (e', n, present)
          (present-has dir left (suc cpu) k c i (other (λ s. cc)) (omega arith) e f)
    | inr (i', f') ↦ elim (Bool-cases (cpu == k)) [
      | inl at ↦ rw (e', f', present, any) (rw at refl)
      | inr off ↦
          rw (e', f', present, any)
            (rw off (present-has dir left (suc cpu) k c i (other (ground arith)) (omega arith) e f))
    ]
  ]
]
  where
    other : cpu ≢ k → suc cpu ≤ k
    other h = omega arith

-- The row of a CPU that a core has is not at odds with what is read, if no row of the core is.
row_of_core :
    (test : Row → Bool) (cpu : ℕ) (n c k : ℤ) (hs : List Hyperthread)
    → has_thread cpu hs ≡ true
    → any test (map (λ (h : Hyperthread). row n c k h.id) hs) ≡ false
    → test (row n c k cpu) ≡ false
unfolding any has_thread
row_of_core test cpu n c k [] h a = absurd (cc)
row_of_core test cpu n c k (x ∷ hs) h a = elim (Bool-cases (x.id == cpu)) [
  | inl at ↦ subst (λ i. test (row n c k i) ≡ false) ((==_iff x.id cpu).0 at) (ground arith)
  | inr off ↦ row_of_core test cpu n c k hs (ground arith) (ground arith)
]

-- What the lookups find for a CPU, and that it has the identifiers that were read for the CPU.
pub record Placed (s : System) (cpu : ℕ) (i : Ids) : Type 0 where
  pub located : Located s cpu
  pub node_id : located.node.id ≡ i.node_id
  pub complex_id : located.complex.id ≡ i.complex_id
  pub core_id : located.core.id ≡ i.core_id

module _ (n : ℕ) (dir : ℕ → Option CpuDir) (cpu : ℕ) (c : CpuDir) (i : Ids) (below : cpu < n)
    (there : dir cpu ≡ some c) (read : read_ids cpu c ≡ some i) where
  new-Placed :
      (nodes : List Node) → Perm (rows_of nodes) (present dir n 0) → Placed (new nodes) cpu i
  unfolding new
  new-Placed nodes p = record { located = l; node_id = eqs.0; complex_id = eqs.1; core_id = eqs.2 }
    where
      inside : in_nodes cpu nodes ≡ true
      inside =
          sym (any-rows_of cpu nodes)
          ∙ any-Perm (on_cpu cpu) p
          ∙ present-has dir n 0 cpu c i (omega arith) (omega arith) there read

      l : Located (new nodes) cpu
      l = new-Located nodes cpu inside

      ids : Ids
      ids = record { node_id = l.node.id; complex_id = l.complex.id; core_id = l.core.id }

      fits : differs dir (record { ids = ids; cpu = cpu }) ≡ false
      fits = row_of_core (differs dir) cpu _ _ _ l.core.hyperthreads l.thread_of_core (
          any-collect (differs dir) (rows_of_core l.node.id l.complex.id) l.complex.cores _ l.core
            l.core_of_complex.1
            (any-collect (differs dir) (rows_of_complex l.node.id) l.node.complexes _ l.complex
              l.complex_of_node.1
              (any-collect (differs dir) rows_of_node nodes _ l.node l.node_of_system.1
                (any-Perm (differs dir) p ∙ present-agrees dir n 0))))

      eqs : (l.node.id ≡ i.node_id) × (l.complex.id ≡ i.complex_id) × (l.core.id ≡ i.core_id)
      eqs = agreed dir cpu c i ids there read fits

-- A CPU whose files were read, and what the lookups find for it.
abbrev pub ReadAndPlaced : CpuDir → System → ℕ → Type 0
ReadAndPlaced c s cpu = (i : Ids) × (read_ids cpu c ≡ some i) × Placed s cpu i

LoadsAs-Placed :
    (n : ℕ) (dir : ℕ → Option CpuDir) (cpu : ℕ) (c : CpuDir)
    → cpu < n
    → dir cpu ≡ some c
    → (r : Loaded) (s : System) → r ≡ ok s
    → LoadsAs dir n r
    → ReadAndPlaced c s cpu
LoadsAs-Placed n dir cpu c below there no_cpus s e (none_configured z) = absurd (cc)
LoadsAs-Placed n dir cpu c below there (ok _) s e (system_of nodes all p a) =
    let (i, read) = all cpu c (omega arith) below there in
    (i, read, subst (λ t. Placed t cpu i) (cc) (new-Placed n dir cpu c i below there read nodes p))
LoadsAs-Placed n dir cpu c below there io_error s e (failed_at b) = absurd (cc)

-- If `load` has read a system of at most 2 ^ 31 CPUs, the files of a CPU that has a directory could be
-- read, and no lookup for that CPU fails or panics: they find a node, a complex of it, a core of that
-- and the hyperthread, under the identifiers that were read for it.
pub load-Placed :
    (n : ℕ) (dir : ℕ → Option CpuDir) (cpu : ℕ) (c : CpuDir) (s : System)
    → n ≤ 2 ^ 31
    → load (pos n) dir ≡ ok s
    → cpu < n
    → dir cpu ≡ some c
    → ReadAndPlaced c s cpu
load-Placed n dir cpu c s h e below there =
    LoadsAs-Placed n dir cpu c below there (load (pos n) dir) s e (load-LoadsAs n dir h)
