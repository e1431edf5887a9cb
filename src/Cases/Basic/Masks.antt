-- ===== src/Cases/Basic/Masks.antt =====
-- The mask that `ping_pong` of src/cases/basic.rs chooses where `check_wake_type` allows it.
use schtest.Prelude.{◌≡◌, refl, Bool, true, false, Option, some, List, [], ◌∷◌, length, ltb}
use mathlib.Core.Option.{some-injective}
use schtest.Util.System.{
  Mask, Core, Hyperthread, CoreComplex, Node, System, hyperthread_mask, core_mask, complex_mask,
  node_mask, system_mask,
}
use schtest.Cases.Basic.{
  WakeType, same_hyperthread, same_core, same_complex, same_node, unpinned, first, chosen_mask,
  check_wake_type,
}

-- There is a node, and the first one has a complex, as in each system that `load` has read.
abbrev pub has_complex : System → Bool
has_complex s = elim s.nodes [
  | [] ↦ false
  | n ∷ ns ↦ elim n.complexes [ [] ↦ false | c ∷ cs ↦ true ]
]

-- The mask of a hyperthread, core, complex, node or system.
pub data PartMask (s : System) : WakeType → Option (Option Mask) → Type 0 where
  of_thread :
      (c : Core) (cs : List Core) (h g : Hyperthread) (hs : List Hyperthread)
      → s.all_cores ≡ c ∷ cs
      → c.hyperthreads ≡ h ∷ (g ∷ hs)
      → PartMask s same_hyperthread (some (hyperthread_mask h))
  of_core :
      (c d : Core) (cs : List Core)
      → s.all_cores ≡ c ∷ (d ∷ cs)
      → PartMask s same_core (some (core_mask c))
  of_complex :
      (n : Node) (ns : List Node) (c : CoreComplex) (cs : List CoreComplex)
      → s.nodes ≡ n ∷ ns
      → n.complexes ≡ c ∷ cs
      → PartMask s same_complex (some (complex_mask c))
  of_node :
      (n m : Node) (ns : List Node)
      → s.nodes ≡ n ∷ (m ∷ ns)
      → PartMask s same_node (some (node_mask n))
  of_system : PartMask s unpinned (some (system_mask s))

thread_mask :
    (s : System) (cores : List Core)
    → s.all_cores ≡ cores
    → first cores (λ c. some (ltb 1 (length c.hyperthreads))) ≡ some true
    → PartMask s same_hyperthread
        (first cores (λ c. first c.hyperthreads (λ h. some (hyperthread_mask h))))
thread_mask s [] e h = absurd (cc)
thread_mask s (c ∷ cs) e h = threads c.hyperthreads refl (some-injective _ _ h)
  where
    threads :
        (hs : List Hyperthread)
        → c.hyperthreads ≡ hs
        → ltb 1 (length hs) ≡ true
        → PartMask s same_hyperthread (first hs (λ h. some (hyperthread_mask h)))
    threads [] f l = absurd (cc)
    threads (g ∷ []) f l = absurd (cc)
    threads (g ∷ (h ∷ hs)) f l = of_thread c cs g h hs e f

core_mask_lem :
    (s : System) (cores : List Core)
    → s.all_cores ≡ cores
    → ltb 1 (length cores) ≡ true
    → PartMask s same_core (first cores (λ c. some (core_mask c)))
core_mask_lem s [] e h = absurd (cc)
core_mask_lem s (c ∷ []) e h = absurd (cc)
core_mask_lem s (c ∷ (d ∷ cs)) e h = of_core c d cs e

node_mask_lem :
    (s : System) (nodes : List Node)
    → s.nodes ≡ nodes
    → ltb 1 (length nodes) ≡ true
    → PartMask s same_node (first nodes (λ n. some (node_mask n)))
node_mask_lem s [] e h = absurd (cc)
node_mask_lem s (n ∷ []) e h = absurd (cc)
node_mask_lem s (n ∷ (m ∷ ns)) e h = of_node n m ns e

complex_mask_lem :
    (s : System) (nodes : List Node)
    → s.nodes ≡ nodes
    → elim nodes [ [] ↦ false | n ∷ ns ↦ elim n.complexes [ [] ↦ false | c ∷ cs ↦ true ] ] ≡ true
    → PartMask s same_complex (first nodes (λ n. first n.complexes (λ c. some (complex_mask c))))
complex_mask_lem s [] e h = absurd (cc)
complex_mask_lem s (n ∷ ns) e h = inner n.complexes refl h
  where
    inner :
        (cs : List CoreComplex)
        → n.complexes ≡ cs
        → elim cs [ [] ↦ false | c ∷ cs ↦ true ] ≡ true
        → PartMask s same_complex (first cs (λ c. some (complex_mask c)))
    inner [] f h = absurd (cc)
    inner (c ∷ cs) f h = of_complex n ns c cs e f

-- On a system whose first node has a complex, where `check_wake_type` allows a wake type, `ping_pong`
-- does not panic on its choice of a mask, which is that of the first hyperthread, core, complex or
-- node, or of the system; for the hyperthread and the core, there is another one beside it.
pub check_wake_type-PartMask :
    (w : WakeType) (s : System)
    → has_complex s ≡ true
    → check_wake_type w s ≡ some true
    → PartMask s w (chosen_mask w s)
unfolding check_wake_type chosen_mask
check_wake_type-PartMask same_hyperthread s c h = thread_mask s s.all_cores refl h
check_wake_type-PartMask same_core s c h = core_mask_lem s s.all_cores refl (some-injective _ _ h)
check_wake_type-PartMask same_complex s c h = complex_mask_lem s s.nodes refl c
check_wake_type-PartMask same_node s c h = node_mask_lem s s.nodes refl (some-injective _ _ h)
check_wake_type-PartMask unpinned s c h = of_system
