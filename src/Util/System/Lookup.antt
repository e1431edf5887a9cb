-- ===== src/Util/System/Lookup.antt =====
-- The lookups of src/util/system.rs in a system that `new` has made.
use schtest.Prelude.{
  ℕ, ◌+◌, ◌≡◌, ◌≢◌, refl, Bool, true, false, ◌||◌, some, List, [], ◌∷◌, ◌++◌, ◌==◌, get_elem?,
  length, length-append, get_elem?-append_end, All, arith, ap, ◌∙◌, sym, subst, is_some, Bool-cases,
  Option-cases, ==_iff, inl, inr,
}
use mathlib.Core.List.{append_assoc}
use schtest.Util.System.{
  Hyperthread, Core, CoreComplex, Node, System, Place, Places, insert_threads, insert_cores,
  insert_complexes, insert_nodes, new, found, not_found, get_place, node_at, complex_at, core_at,
  find_thread, hyperthread_at,
}

unfoldable pub has_thread : ℕ → List Hyperthread → Bool
has_thread cpu [] = false
has_thread cpu (h ∷ hs) = h.id == cpu || has_thread cpu hs

-- The place names a node, a complex in it and a core in that, and the core has the CPU.
pub record IsAt (nodes : List Node) (cpu : ℕ) (p : Place) : Type 0 where
  pub node : Node
  pub complex : CoreComplex
  pub core : Core
  pub node_found : get_elem? nodes p.node_idx ≡ some node
  pub complex_found : get_elem? node.complexes p.complex_idx ≡ some complex
  pub core_found : get_elem? complex.cores p.core_idx ≡ some core
  pub here : has_thread cpu core.hyperthreads ≡ true

abbrev AllAt : List Node → Places → Type 0
AllAt nodes m = All (λ e. IsAt nodes e.0 e.1) m

has_thread-append_end :
    (pre : List Hyperthread) (h : Hyperthread) (post : List Hyperthread)
    → has_thread h.id (pre ++ (h ∷ post)) ≡ true
unfolding has_thread
has_thread-append_end [] h post = ground arith
has_thread-append_end (g ∷ pre) h post = ground (arith, has_thread-append_end pre h post)

module _ (nodes : List Node) (node : Node) (complex : CoreComplex) (core : Core) (p : Place)
    (en : get_elem? nodes p.node_idx ≡ some node)
    (ec : get_elem? node.complexes p.complex_idx ≡ some complex)
    (ek : get_elem? complex.cores p.core_idx ≡ some core) where
  insert_threads-AllAt :
      (pre hs : List Hyperthread) (m : Places)
      → core.hyperthreads ≡ pre ++ hs
      → AllAt nodes m
      → AllAt nodes (insert_threads p hs m)
  unfolding insert_threads
  insert_threads-AllAt pre [] m e h = h
  insert_threads-AllAt pre (x ∷ hs) m e h =
      insert_threads-AllAt (pre ++ (x ∷ [])) hs ((x.id, p) ∷ m)
        (e ∙ sym (append_assoc pre (x ∷ []) hs)) (at_x, h)
    where
      at_x : IsAt nodes x.id p
      at_x = record {
        node = node;
        complex = complex;
        core = core;
        node_found = en;
        complex_found = ec;
        core_found = ek;
        here = rw e (has_thread-append_end pre x hs);
      }

-- The element behind a prefix of a list.
at_prefix {ℓ} :
    {A : Type ℓ} (all pre : List A) (x : A) (post : List A) (i : ℕ)
    → all ≡ pre ++ (x ∷ post)
    → i ≡ length pre
    → get_elem? all i ≡ some x
at_prefix all pre x post i e n = rw (e, n) (get_elem?-append_end pre post x)

module _ (nodes : List Node) (node : Node) (complex : CoreComplex) (n c : ℕ)
    (en : get_elem? nodes n ≡ some node) (ec : get_elem? node.complexes c ≡ some complex) where
  insert_cores-AllAt :
      (pre cs : List Core) (k : ℕ) (m : Places)
      → complex.cores ≡ pre ++ cs
      → k ≡ length pre
      → AllAt nodes m
      → AllAt nodes (insert_cores n c k cs m)
  unfolding insert_cores
  insert_cores-AllAt pre [] k m e l h = h
  insert_cores-AllAt pre (x ∷ cs) k m e l h =
      insert_cores-AllAt (pre ++ (x ∷ [])) cs (k + 1) _ (e ∙ sym (append_assoc pre (x ∷ []) cs))
        (omega (arith, length-append pre (x ∷ [])))
        (insert_threads-AllAt nodes node complex x _ en ec (at_prefix complex.cores pre x cs k e l)
          [] x.hyperthreads m refl h)

module _ (nodes : List Node) (node : Node) (n : ℕ) (en : get_elem? nodes n ≡ some node) where
  insert_complexes-AllAt :
      (pre cs : List CoreComplex) (c : ℕ) (m : Places)
      → node.complexes ≡ pre ++ cs
      → c ≡ length pre
      → AllAt nodes m
      → AllAt nodes (insert_complexes n c cs m)
  unfolding insert_complexes
  insert_complexes-AllAt pre [] c m e l h = h
  insert_complexes-AllAt pre (x ∷ cs) c m e l h =
      insert_complexes-AllAt (pre ++ (x ∷ [])) cs (c + 1) _ (e ∙ sym (append_assoc pre (x ∷ []) cs))
        (omega (arith, length-append pre (x ∷ [])))
        (insert_cores-AllAt nodes node x n c en (at_prefix node.complexes pre x cs c e l) [] x.cores
          0 m refl refl h)

module _ (nodes : List Node) where
  insert_nodes-AllAt :
      (pre ns : List Node) (n : ℕ) (m : Places)
      → nodes ≡ pre ++ ns
      → n ≡ length pre
      → AllAt nodes m
      → AllAt nodes (insert_nodes n ns m)
  unfolding insert_nodes
  insert_nodes-AllAt pre [] n m e l h = h
  insert_nodes-AllAt pre (x ∷ ns) n m e l h =
      insert_nodes-AllAt (pre ++ (x ∷ [])) ns (n + 1) _ (e ∙ sym (append_assoc pre (x ∷ []) ns))
        (omega (arith, length-append pre (x ∷ [])))
        (insert_complexes-AllAt nodes x n (at_prefix nodes pre x ns n e l) [] x.complexes 0 m refl
          refl h)

get_place-IsAt :
    (nodes : List Node) (cpu : ℕ) (m : Places) (p : Place)
    → AllAt nodes m
    → get_place cpu m ≡ some p
    → IsAt nodes cpu p
unfolding get_place
get_place-IsAt nodes cpu [] p h e = absurd (cc)
get_place-IsAt nodes cpu ((c, q) ∷ m) p h e = elim (Bool-cases (c == cpu)) [
  | inl same ↦
      subst (λ k. IsAt nodes k p) ((==_iff c cpu).0 same) (subst (IsAt nodes c) (ground arith) h.0)
  | inr other ↦ get_place-IsAt nodes cpu m p h.1 (ground arith)
]

-- Whether a CPU is in the topology.
unfoldable pub in_cores : ℕ → List Core → Bool
in_cores cpu [] = false
in_cores cpu (c ∷ cs) = has_thread cpu c.hyperthreads || in_cores cpu cs

unfoldable pub in_complexes : ℕ → List CoreComplex → Bool
in_complexes cpu [] = false
in_complexes cpu (c ∷ cs) = in_cores cpu c.cores || in_complexes cpu cs

unfoldable pub in_nodes : ℕ → List Node → Bool
in_nodes cpu [] = false
in_nodes cpu (n ∷ ns) = in_complexes cpu n.complexes || in_nodes cpu ns

abbrev is_placed : ℕ → Places → Bool
is_placed cpu m = is_some (get_place cpu m)

placed-insert_threads :
    (cpu : ℕ) (p : Place) (hs : List Hyperthread) (m : Places)
    → is_placed cpu (insert_threads p hs m) ≡ (has_thread cpu hs || is_placed cpu m)
unfolding insert_threads has_thread get_place
placed-insert_threads cpu p [] m = refl
placed-insert_threads cpu p (h ∷ hs) m =
    ground (arith, placed-insert_threads cpu p hs ((h.id, p) ∷ m))

placed-insert_cores :
    (cpu n c k : ℕ) (cs : List Core) (m : Places)
    → is_placed cpu (insert_cores n c k cs m) ≡ (in_cores cpu cs || is_placed cpu m)
unfolding insert_cores in_cores
placed-insert_cores cpu n c k [] m = refl
placed-insert_cores cpu n c k (x ∷ cs) m =
    let p : Place = record { node_idx = n; complex_idx = c; core_idx = k } in
    ground (
      arith,
      placed-insert_cores cpu n c (k + 1) cs (insert_threads p x.hyperthreads m),
      placed-insert_threads cpu p x.hyperthreads m,
    )

placed-insert_complexes :
    (cpu n c : ℕ) (cs : List CoreComplex) (m : Places)
    → is_placed cpu (insert_complexes n c cs m) ≡ (in_complexes cpu cs || is_placed cpu m)
unfolding insert_complexes in_complexes
placed-insert_complexes cpu n c [] m = refl
placed-insert_complexes cpu n c (x ∷ cs) m = ground (
  arith,
  placed-insert_complexes cpu n (c + 1) cs (insert_cores n c 0 x.cores m),
  placed-insert_cores cpu n c 0 x.cores m,
)

placed-insert_nodes :
    (cpu n : ℕ) (ns : List Node) (m : Places)
    → is_placed cpu (insert_nodes n ns m) ≡ (in_nodes cpu ns || is_placed cpu m)
unfolding insert_nodes in_nodes
placed-insert_nodes cpu n [] m = refl
placed-insert_nodes cpu n (x ∷ ns) m = ground (
  arith,
  placed-insert_nodes cpu (n + 1) ns (insert_complexes n 0 x.complexes m),
  placed-insert_complexes cpu n 0 x.complexes m,
)

find_thread-found :
    (cpu : ℕ) (hs : List Hyperthread)
    → has_thread cpu hs ≡ true
    → (h : Hyperthread) × (find_thread cpu hs ≡ found h) × (h.id ≡ cpu)
unfolding has_thread find_thread
find_thread-found cpu [] e = absurd (cc)
find_thread-found cpu (h ∷ hs) e = elim (Bool-cases (h.id == cpu)) [
  | inl same ↦ (h, rw same, (==_iff h.id cpu).0 same)
  | inr other ↦ let (g, f, i) = find_thread-found cpu hs (ground arith) in (g, rw other f, i)
]

-- What the four lookups give for a CPU: nested in one another, and the hyperthread is that CPU.
pub record Located (s : System) (cpu : ℕ) : Type 0 where
  pub node : Node
  pub complex : CoreComplex
  pub core : Core
  pub thread : Hyperthread
  pub node_found : node_at s cpu ≡ found node
  pub complex_found : complex_at s cpu ≡ found complex
  pub core_found : core_at s cpu ≡ found core
  pub thread_found : hyperthread_at s cpu ≡ found thread
  pub same_cpu : thread.id ≡ cpu
  pub node_of_system : (i : ℕ) × (get_elem? s.nodes i ≡ some node)
  pub complex_of_node : (i : ℕ) × (get_elem? node.complexes i ≡ some complex)
  pub core_of_complex : (i : ℕ) × (get_elem? complex.cores i ≡ some core)
  pub thread_of_core : has_thread cpu core.hyperthreads ≡ true

found_at :
    (s : System) (cpu : ℕ) (p : Place) (h : IsAt s.nodes cpu p)
    → get_place cpu s.cpu_to_topology ≡ some p
    → (node_at s cpu ≡ found h.node)
      × (complex_at s cpu ≡ found h.complex)
      × (core_at s cpu ≡ found h.core)
unfolding node_at complex_at core_at
found_at s cpu p h e = ground (arith, h.node_found, h.complex_found, h.core_found)

thread_at :
    (s : System) (cpu : ℕ) (c : Core) (h : Hyperthread)
    → core_at s cpu ≡ found c
    → find_thread cpu c.hyperthreads ≡ found h
    → hyperthread_at s cpu ≡ found h
unfolding hyperthread_at
thread_at s cpu c h e f = ground arith

-- For a CPU of the topology that a system was made of, no lookup fails or panics: they find a
-- node, a complex of it, a core of that with the CPU, and the hyperthread with its number.
pub new-Located :
    (nodes : List Node) (cpu : ℕ) → in_nodes cpu nodes ≡ true → Located (new nodes) cpu
unfolding new
new-Located nodes cpu inside = elim (Option-cases (get_place cpu (insert_nodes 0 nodes []))) [
  | inl e ↦ absurd (true≢false (sym placed ∙ ap is_some e))
  | inr (p, e) ↦ located p e
]
  where
    placed : is_placed cpu (insert_nodes 0 nodes []) ≡ true
    placed = placed-insert_nodes cpu 0 nodes [] ∙ ap (λ b. b || is_placed cpu []) inside

    true≢false : true ≢ false
    true≢false e = cc

    located :
        (p : Place) → get_place cpu (insert_nodes 0 nodes []) ≡ some p → Located (new nodes) cpu
    located p e =
        let h : IsAt nodes cpu p =
          get_place-IsAt nodes cpu (insert_nodes 0 nodes []) p
            (insert_nodes-AllAt nodes [] nodes 0 [] refl refl tt) e in
        let at = found_at (new nodes) cpu p h e in
        let (g, found_g, same) = find_thread-found cpu h.core.hyperthreads h.here in
        record {
          node = h.node;
          complex = h.complex;
          core = h.core;
          thread = g;
          node_found = at.0;
          complex_found = at.1;
          core_found = at.2;
          thread_found = thread_at (new nodes) cpu h.core g at.2 found_g;
          same_cpu = same;
          node_of_system = (p.node_idx, h.node_found);
          complex_of_node = (p.complex_idx, h.complex_found);
          core_of_complex = (p.core_idx, h.core_found);
          thread_of_core = h.here;
        }

-- For any other CPU each lookup reports that it was not found.
pub new-not_found :
    (nodes : List Node) (cpu : ℕ)
    → in_nodes cpu nodes ≡ false
    → (node_at (new nodes) cpu ≡ not_found)
      × (complex_at (new nodes) cpu ≡ not_found)
      × (core_at (new nodes) cpu ≡ not_found)
      × (hyperthread_at (new nodes) cpu ≡ not_found)
unfolding new node_at complex_at core_at hyperthread_at
new-not_found nodes cpu outside = ground (arith, placed-insert_nodes cpu 0 nodes [])
