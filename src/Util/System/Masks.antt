-- ===== src/Util/System/Masks.antt =====
-- The masks of the objects of src/util/system.rs, bit by bit.
use schtest.Prelude.{
  ℕ, zero, suc, ◌/◌, ◌%◌, ◌^◌, ◌≤◌, ◌<◌, ◌≡◌, ◌≢◌, refl, Bool, true, false, ◌||◌, Option, none,
  some, List, [], ◌∷◌, ◌++◌, ◌==◌, if◌then◌else◌, get_elem?, set, replicate, length, length-set,
  All, bit_or, bit, bit-bit_or, bit-pow_self, bit-pow_ne, bit-zero, max, arith, ap, ◌∙◌, sym,
  get_elem?-none, get_elem?-set_self, get_elem?-set_ne, ℕ_discrete,
}
use mathlib.Core.List.{append-nil, append_assoc}
use schtest.Util.System.{
  Mask, zeroed, cpu_set, cpu_or, Hyperthread, Core, CoreComplex, Node, System, or_masks,
  hyperthread_mask, core_mask, complex_mask, node_mask, system_mask,
}

abbrev pub word_at : Mask → ℕ → ℕ
word_at mask i = elim (get_elem? mask i) [ none ↦ 0 | some word ↦ word ]

-- Whether the bit of a CPU is set, as 0 or 1.
abbrev pub test : Mask → ℕ → ℕ
test mask cpu = bit (word_at mask (cpu / 64)) (cpu % 64)

pub member : ℕ → List ℕ → Bool
member cpu [] = false
member cpu (c ∷ cs) = c == cpu || member cpu cs

abbrev pub flag : Bool → ℕ
flag b = if b then 1 else 0

-- The mask is of the right size, and holds the CPUs of a list.
pub record Shows (mask : Mask) (cpus : List ℕ) : Type 0 where
  pub words : length mask ≡ 16
  pub bits : (cpu : ℕ) → test mask cpu ≡ flag (member cpu cpus)

member-append :
    (cpu : ℕ) (xs ys : List ℕ) → member cpu (xs ++ ys) ≡ (member cpu xs || member cpu ys)
unfolding member
member-append cpu [] ys = refl
member-append cpu (x ∷ xs) ys = ground (arith, member-append cpu xs ys)

word_at-cpu_or :
    (a b : Mask) (i : ℕ)
    → length a ≡ length b
    → word_at (cpu_or a b) i ≡ bit_or (word_at a i) (word_at b i)
unfolding cpu_or
word_at-cpu_or [] [] i h = refl
word_at-cpu_or [] (y ∷ b) i h = absurd (omega arith)
word_at-cpu_or (x ∷ a) [] i h = absurd (omega arith)
word_at-cpu_or (x ∷ a) (y ∷ b) zero h = refl
word_at-cpu_or (x ∷ a) (y ∷ b) (suc i) h = word_at-cpu_or a b i (omega arith)

length-cpu_or : (a b : Mask) → length (cpu_or a b) ≡ length a
unfolding cpu_or
length-cpu_or [] b = refl
length-cpu_or (x ∷ a) [] = refl
length-cpu_or (x ∷ a) (y ∷ b) = ap suc (length-cpu_or a b)

max_flags : (a b : Bool) → max (flag a) (flag b) ≡ flag (a || b)
max_flags true true = refl
max_flags true false = refl
max_flags false true = refl
max_flags false false = refl

cpu_or-Shows :
    (a b : Mask) (xs ys : List ℕ) → Shows a xs → Shows b ys → Shows (cpu_or a b) (xs ++ ys)
cpu_or-Shows a b xs ys ha hb = record {
  words = length-cpu_or a b ∙ ha.words;
  bits = λ cpu.
      ap (λ w. bit w (cpu % 64)) (word_at-cpu_or a b (cpu / 64) (ha.words ∙ sym hb.words))
      ∙ bit-bit_or (cpu % 64) (word_at a (cpu / 64)) (word_at b (cpu / 64))
      ∙ ap (λ t. max t (test b cpu)) (ha.bits cpu)
      ∙ ap (max (flag (member cpu xs))) (hb.bits cpu)
      ∙ max_flags (member cpu xs) (member cpu ys)
      ∙ ap flag (sym (member-append cpu xs ys));
}

word_at-zeroed : (n i : ℕ) → word_at (replicate n 0) i ≡ 0
word_at-zeroed zero i = refl
word_at-zeroed (suc n) zero = refl
word_at-zeroed (suc n) (suc i) = word_at-zeroed n i

zeroed-Shows : Shows zeroed []
unfolding member
zeroed-Shows = record {
  words = refl;
  bits = λ cpu. ap (λ w. bit w (cpu % 64)) (word_at-zeroed 16 (cpu / 64)) ∙ bit-zero (cpu % 64);
}

get_elem?-zeroed : (n i : ℕ) → i < n → get_elem? (replicate {A = ℕ} n 0) i ≡ some 0
get_elem?-zeroed zero i h = elim h [ ]
get_elem?-zeroed (suc n) zero h = refl
get_elem?-zeroed (suc n) (suc i) h = get_elem?-zeroed n i (omega arith)

cpu_set_lem :
    (id : ℕ)
    → id < 1024
    → cpu_set id zeroed ≡ some (set zeroed (id / 64) (bit_or 0 (2 ^ (id % 64))))
unfolding cpu_set
cpu_set_lem id lt = rw (get_elem?-zeroed 16 (id / 64) (omega arith), cpu_set)

flag_eq : (a b : ℕ) → a ≡ b → flag (a == b || false) ≡ 1
flag_eq a b e = ground arith

flag_ne : (a b : ℕ) → a ≢ b → flag (a == b || false) ≡ 0
flag_ne a b e = ground arith

one_bit :
    (id cpu : ℕ)
    → id < 1024
    → test (set zeroed (id / 64) (bit_or 0 (2 ^ (id % 64)))) cpu ≡ flag (id == cpu || false)
unfolding member
one_bit id cpu lt = elim (ℕ_discrete (id / 64) (cpu / 64)) [
  | yes same ↦
      ap (λ (i : ℕ). bit (word_at (set zeroed (id / 64) (bit_or 0 (2 ^ (id % 64)))) i) (cpu % 64))
        (sym same)
      ∙ ap (λ (o : Option ℕ). bit (elim o [ none ↦ 0 | some word ↦ word ]) (cpu % 64))
          (get_elem?-set_self zeroed (id / 64) (bit_or 0 (2 ^ (id % 64))) (omega arith))
      ∙ bit-bit_or (cpu % 64) 0 (2 ^ (id % 64))
      ∙ ap (λ (t : ℕ). max t (bit (2 ^ (id % 64)) (cpu % 64))) (bit-zero (cpu % 64))
      ∙ in_word same
  | no other ↦
      ap (λ (o : Option ℕ). bit (elim o [ none ↦ 0 | some word ↦ word ]) (cpu % 64))
        (get_elem?-set_ne zeroed (id / 64) (cpu / 64) (bit_or 0 (2 ^ (id % 64))) other)
      ∙ zeroed-Shows.bits cpu
      ∙ sym (flag_ne id cpu (λ e. other (ap (λ (i : ℕ). i / 64) e)))
]
  where
    in_word :
        id / 64 ≡ cpu / 64 → max 0 (bit (2 ^ (id % 64)) (cpu % 64)) ≡ flag (id == cpu || false)
    in_word same = elim (ℕ_discrete (id % 64) (cpu % 64)) [
      | yes eq ↦ omega (
        arith,
        ap (bit (2 ^ (id % 64))) (sym eq),
        bit-pow_self (id % 64),
        flag_eq id cpu (omega arith),
      )
      | no ne ↦ omega (
        arith,
        bit-pow_ne (id % 64) (cpu % 64) ne,
        flag_ne id cpu (λ e. ne (ap (λ (i : ℕ). i % 64) e)),
      )
    ]

-- The mask of an object is made, and shows the CPUs.
abbrev pub Masked : Option Mask → List ℕ → Type 0
Masked o cpus = (m : Mask) × (o ≡ some m) × Shows m cpus

hyperthread_mask-Masked : (h : Hyperthread) → h.id < 1024 → Masked (hyperthread_mask h) (h.id ∷ [])
unfolding hyperthread_mask member
hyperthread_mask-Masked h lt = (
  _,
  cpu_set_lem h.id lt,
  record {
    words = length-set zeroed (h.id / 64) (bit_or 0 (2 ^ (h.id % 64)));
    bits = λ cpu. one_bit h.id cpu lt;
  },
)

-- The CPUs of the parts of an object, in order.
unfoldable pub gather {ℓ} : {A : Type ℓ} → (A → List ℕ) → List A → List ℕ
gather cpus [] = []
gather cpus (x ∷ xs) = cpus x ++ gather cpus xs

or_masks-Masked {ℓ} :
    {A : Type ℓ} (part_mask : A → Option Mask) (cpus : A → List ℕ) (mask : Mask) (seen : List ℕ)
    (xs : List A)
    → Shows mask seen
    → All (λ x. Masked (part_mask x) (cpus x)) xs
    → Masked (or_masks part_mask mask xs) (seen ++ gather cpus xs)
unfolding or_masks gather
or_masks-Masked part_mask cpus mask seen [] h parts = (mask, refl, rw append-nil h)
or_masks-Masked part_mask cpus mask seen (x ∷ xs) h parts =
    let (m, e, shows) = parts.0 in
    let (r, e', shows') =
      or_masks-Masked part_mask cpus (cpu_or mask m) (seen ++ cpus x) xs
        (cpu_or-Shows mask m seen (cpus x) h shows) parts.1 in
    (r, rw (e, or_masks) e', rw (sym (append_assoc seen (cpus x) (gather cpus xs))) shows')

-- The CPUs of each object, and that all of them fit a set.
unfoldable pub core_cpus : Core → List ℕ
core_cpus c = gather (λ (h : Hyperthread). h.id ∷ []) c.hyperthreads

unfoldable pub complex_cpus : CoreComplex → List ℕ
complex_cpus c = gather core_cpus c.cores

unfoldable pub node_cpus : Node → List ℕ
node_cpus n = gather complex_cpus n.complexes

unfoldable pub system_cpus : System → List ℕ
system_cpus s = gather node_cpus s.nodes

abbrev pub Fits : List ℕ → Type 0
Fits cpus = All (λ cpu. cpu < 1024) cpus

All-gather {ℓ} :
    {A : Type ℓ} (cpus : A → List ℕ) (xs : List A)
    → Fits (gather cpus xs)
    → All (λ x. Fits (cpus x)) xs
unfolding gather
All-gather cpus [] h = tt
All-gather cpus (x ∷ xs) h =
    let parts = All-split (cpus x) (gather cpus xs) h in (parts.0, All-gather cpus xs parts.1)
  where
    All-split : (cs bs : List ℕ) → Fits (cs ++ bs) → Fits cs × Fits bs
    All-split [] bs h = (tt, h)
    All-split (c ∷ cs) bs h = let rest = All-split cs bs h.1 in ((h.0, rest.0), rest.1)

All-map {ℓ κ λ'} :
    {A : Type ℓ} {P : A → Type κ} {Q : A → Type λ'} (xs : List A)
    → ((x : A) → P x → Q x)
    → All P xs
    → All Q xs
All-map [] f h = tt
All-map (x ∷ xs) f h = (f x h.0, All-map xs f h.1)

parts-Masked {ℓ} :
    {A : Type ℓ} (part_mask : A → Option Mask) (cpus : A → List ℕ) (xs : List A)
    → ((x : A) → Fits (cpus x) → Masked (part_mask x) (cpus x))
    → Fits (gather cpus xs)
    → Masked (or_masks part_mask zeroed xs) (gather cpus xs)
parts-Masked part_mask cpus xs each fits =
    or_masks-Masked part_mask cpus zeroed [] xs zeroed-Shows
      (All-map xs each (All-gather cpus xs fits))

core_mask-Masked : (c : Core) → Fits (core_cpus c) → Masked (core_mask c) (core_cpus c)
unfolding core_mask core_cpus
core_mask-Masked c fits =
    parts-Masked hyperthread_mask _ c.hyperthreads (λ h f. hyperthread_mask-Masked h f.0) fits

complex_mask-Masked :
    (c : CoreComplex) → Fits (complex_cpus c) → Masked (complex_mask c) (complex_cpus c)
unfolding complex_mask complex_cpus
complex_mask-Masked c fits = parts-Masked core_mask core_cpus c.cores core_mask-Masked fits

node_mask-Masked : (n : Node) → Fits (node_cpus n) → Masked (node_mask n) (node_cpus n)
unfolding node_mask node_cpus
node_mask-Masked n fits =
    parts-Masked complex_mask complex_cpus n.complexes complex_mask-Masked fits

-- If all CPU numbers of a system are below 1024, the mask of each of its levels is made without a
-- write past the end, and the bit of a CPU is set in the mask of the system exactly if a
-- hyperthread of the system has its number.
pub system_mask-Masked :
    (s : System) → Fits (system_cpus s) → Masked (system_mask s) (system_cpus s)
unfolding system_mask system_cpus
system_mask-Masked s fits = parts-Masked node_mask node_cpus s.nodes node_mask-Masked fits

-- A hyperthread whose number does not fit has no mask: its bit would lie past the end of the set.
pub hyperthread_mask-none : (h : Hyperthread) → 1024 ≤ h.id → hyperthread_mask h ≡ none
unfolding hyperthread_mask cpu_set
hyperthread_mask-none h big = rw (get_elem?-none zeroed (h.id / 64) (omega arith), cpu_set)
