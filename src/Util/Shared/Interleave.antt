-- ===== src/Util/Shared/Interleave.antt =====
-- `alloc` called by any number of threads, whose atomic steps interleave in any order.
use schtest.Prelude.{
  ℕ, zero, suc, ◌+◌, ◌*◌, ◌^◌, ◌≤◌, ◌≡◌, ◌≢◌, ◌⊎◌, inl, inr, refl, none, some, List, [], ◌∷◌, arith,
  ltb, ◌==◌, if◌then◌else◌, get_elem?, add64, ==_iff, subst, ap, ◌∙◌, Bool, Bool-cases, true, false,
}
use schtest.Util.Shared.{Layout, BumpAllocator, Pc, start, loaded, done, aligned_at, step, new}
use schtest.Util.Shared.Alloc.{IsLayout, IsValid, Start, aligned_at-Start, step-IsValid}

pub record Thread : Type 0 where
  pub layout : Layout
  pub pc : Pc

-- A block that some call has returned.
pub record Block : Type 0 where
  pub addr : ℕ
  pub size : ℕ
  pub align : ℕ

-- `blocks` is a history, newest first; the program does not keep it.
pub record System : Type 0 where
  pub allocator : BumpAllocator
  pub threads : ℕ → Thread
  pub blocks : List Block

-- A step that ends a call with a pointer adds a block.
abbrev pub returned : Layout → Pc → Pc → List Block → List Block
returned l (loaded current) (done (some p)) bs =
    record { addr = p; size = l.size; align = l.align } ∷ bs
returned l _ _ bs = bs

abbrev pub advance : System → ℕ → System
advance s i =
    let l = (s.threads i).layout in
    let pc = (s.threads i).pc in
    let (a, pc') = step l s.allocator pc in
    record {
      allocator = a;
      threads = λ j. if i == j then record { layout = l; pc = pc' } else s.threads j;
      blocks = returned l pc pc' s.blocks;
    }

-- A thread calls `alloc` anew, or takes a step of its call.
pub data Step (s : System) : System → Type 0 where
  call :
      (i : ℕ) (l : Layout)
      → IsLayout l
      → Step s (record s {
        threads = λ j. if i == j then record { layout = l; pc = start } else s.threads j;
      })
  turn : (i : ℕ) → Step s (advance s i)

-- From a fresh allocator, with no call under way.
pub data Reach (size data_ptr : ℕ) : System → Type 0 where
  fresh :
      (l : Layout)
      → IsLayout l
      → Reach size data_ptr (record {
        allocator = new size data_ptr;
        threads = λ i. record { layout = l; pc = done none };
        blocks = [];
      })
  later : {s t : System} → Reach size data_ptr s → Step s t → Reach size data_ptr t

-- The blocks, newest first, each below the one before it and all from `base` up to `end`.
abbrev pub IsStacked : ℕ → ℕ → List Block → Type 0
IsStacked base end [] = base ≤ end
IsStacked base end (b ∷ bs) =
    (b.addr + b.size ≤ end) × ((q : ℕ) × (b.addr ≡ base + q * b.align)) × IsStacked base b.addr bs

IsStacked-le : (base end : ℕ) (bs : List Block) → IsStacked base end bs → base ≤ end
IsStacked-le base end [] h = h
IsStacked-le base end (b ∷ bs) h = omega (arith, IsStacked-le base b.addr bs h.2)

IsStacked-mono :
    (base e e' : ℕ) (bs : List Block) → e ≤ e' → IsStacked base e bs → IsStacked base e' bs
IsStacked-mono base e e' [] le h = omega arith
IsStacked-mono base e e' (b ∷ bs) le h = (omega (arith, h.0), h.1, h.2)

-- The block of a successful compare-exchange goes on top.
claim-IsStacked :
    {l : Layout} (a : BumpAllocator) (bs : List Block) (current : ℕ) (v : IsLayout l)
    → IsValid a
    → a.next ≡ current
    → Start l v.exponent current (aligned_at l current)
    → IsStacked a.data_ptr (a.data_ptr + a.next) bs
    → IsStacked a.data_ptr
        (a.data_ptr + add64 (aligned_at l current) l.size)
        (record { addr = a.data_ptr + aligned_at l current; size = l.size; align = l.align } ∷ bs)
claim-IsStacked {l} a bs current v ok e s h = (
  omega (arith, s.fits),
  (
    s.rounded.quotient,
    omega (arith, s.rounded.multiple, ap (λ (t : ℕ). s.rounded.quotient * t) v.power),
  ),
  IsStacked-mono a.data_ptr (a.data_ptr + a.next) (a.data_ptr + aligned_at l current) bs
      (omega (arith, s.rounded.above)) h,
)

abbrev Kept : Layout → BumpAllocator → List Block → Pc → Type 0
Kept l a bs pc =
    let (a', pc') = step l a pc in
    (a'.data_ptr ≡ a.data_ptr)
    × (a'.size ≡ a.size)
    × IsStacked a.data_ptr (a.data_ptr + a'.next) (returned l pc pc' bs)

step-Kept :
    {l : Layout} (a : BumpAllocator) (bs : List Block) (pc : Pc)
    → IsLayout l
    → IsValid a
    → IsStacked a.data_ptr (a.data_ptr + a.next) bs
    → Kept l a bs pc
unfolding step
step-Kept a bs start v ok h = (refl, refl, h)
step-Kept a bs (done p) v ok h = (refl, refl, h)
step-Kept {l} a bs (loaded current) v ok h =
    elim (Bool-cases (ltb a.size (add64 (aligned_at l current) l.size))) [
      | inl full ↦ rw full (refl, refl, h)
      | inr room ↦ rw room (elim (Bool-cases (a.next == current)) [
        | inl same ↦ rw same (refl, refl, claimed ((==_iff a.next current).0 same))
        | inr moved ↦ rw moved (refl, refl, h)
      ])
    ]
  where
    claimed :
        a.next ≡ current
        → IsStacked a.data_ptr (a.data_ptr + add64 (aligned_at l current) l.size) (
            record { addr = a.data_ptr + aligned_at l current; size = l.size; align = l.align }
            ∷ bs)
    claimed e =
        claim-IsStacked a bs current v ok e
          (aligned_at-Start v current (omega (arith, ok.mapped, ok.within))) h

-- What every reachable state satisfies.
pub record Inv (size data_ptr : ℕ) (s : System) : Type 0 where
  pub valid : IsValid s.allocator
  pub same_size : s.allocator.size ≡ size
  pub same_ptr : s.allocator.data_ptr ≡ data_ptr
  pub layouts : (i : ℕ) → IsLayout (s.threads i).layout
  pub stacked : IsStacked s.allocator.data_ptr (s.allocator.data_ptr + s.allocator.next) s.blocks

if_layout :
    (c : Bool) (t u : Thread)
    → IsLayout t.layout
    → IsLayout u.layout
    → IsLayout (if c then t else u).layout
if_layout true t u h k = h
if_layout false t u h k = k

Step-Inv : {size data_ptr : ℕ} {s t : System} → Step s t → Inv size data_ptr s → Inv size data_ptr t
Step-Inv {s} (call i l v) inv = record {
  valid = inv.valid;
  same_size = inv.same_size;
  same_ptr = inv.same_ptr;
  layouts = λ j. if_layout (i == j) _ _ v (inv.layouts j);
  stacked = inv.stacked;
}
Step-Inv {s} (turn i) inv = record {
  valid = step-IsValid (s.threads i).pc (inv.layouts i) inv.valid;
  same_size = kept.1 ∙ inv.same_size;
  same_ptr = kept.0 ∙ inv.same_ptr;
  layouts = λ j. if_layout (i == j) _ _ (inv.layouts i) (inv.layouts j);
  stacked = rw kept.0 kept.2;
}
  where
    kept : Kept (s.threads i).layout s.allocator s.blocks (s.threads i).pc
    kept = step-Kept s.allocator s.blocks (s.threads i).pc (inv.layouts i) inv.valid inv.stacked

pub Reach-Inv :
    {size data_ptr : ℕ} {s : System} → size ≤ 2 ^ 63 → Reach size data_ptr s → Inv size data_ptr s
Reach-Inv small (fresh l v) = record {
  valid = omega arith;
  same_size = refl;
  same_ptr = refl;
  layouts = λ i. v;
  stacked = omega arith;
}
Reach-Inv small (later r st) = Step-Inv st (Reach-Inv small r)

-- Two blocks share no address.
abbrev pub Disjoint : Block → Block → Type 0
Disjoint b c = (b.addr + b.size ≤ c.addr) ⊎ (c.addr + c.size ≤ b.addr)

abbrev pub Within : ℕ → ℕ → Block → Type 0
Within base end b =
    (base ≤ b.addr) × (b.addr + b.size ≤ end) × ((q : ℕ) × (b.addr ≡ base + q * b.align))

IsStacked-Within :
    (base end : ℕ) (bs : List Block) (i : ℕ) {b : Block}
    → IsStacked base end bs
    → get_elem? bs i ≡ some b
    → Within base end b
IsStacked-Within base end [] i h e = absurd (cc)
IsStacked-Within base end (x ∷ bs) zero {b} h e =
    subst (Within base end) x≡b (omega (arith, IsStacked-le base x.addr bs h.2), h.0, h.1)
  where
    x≡b : x ≡ b
    x≡b = ground arith
IsStacked-Within base end (x ∷ bs) (suc i) h e =
    let w = IsStacked-Within base x.addr bs i h.2 e in (w.0, omega (arith, w.1, h.0), w.2)

IsStacked-Disjoint :
    (base end : ℕ) (bs : List Block) (i j : ℕ) {b c : Block}
    → IsStacked base end bs
    → i ≢ j
    → get_elem? bs i ≡ some b
    → get_elem? bs j ≡ some c
    → Disjoint b c
IsStacked-Disjoint base end [] i j h ne eb ec = absurd (cc)
IsStacked-Disjoint base end (x ∷ bs) zero zero h ne eb ec = absurd (ne refl)
IsStacked-Disjoint base end (x ∷ bs) zero (suc j) h ne eb ec =
    let w = IsStacked-Within base x.addr bs j h.2 ec in inr (ground (arith, w.1))
IsStacked-Disjoint base end (x ∷ bs) (suc i) zero h ne eb ec =
    let w = IsStacked-Within base x.addr bs i h.2 eb in inl (ground (arith, w.1))
IsStacked-Disjoint base end (x ∷ bs) (suc i) (suc j) h ne eb ec =
    IsStacked-Disjoint base x.addr bs i j h.2 (λ e. ne (ap suc e)) eb ec

-- In every interleaving of calls from a fresh allocator over a mapping of at most 2 ^ 63 bytes, a
-- block that some call has returned lies inside the mapping, and its offset is a multiple of the
-- alignment asked for.
pub Reach-Within :
    {size data_ptr : ℕ} {s : System}
    → size ≤ 2 ^ 63
    → Reach size data_ptr s
    → (i : ℕ) {b : Block} → get_elem? s.blocks i ≡ some b
    → Within data_ptr (data_ptr + size) b
Reach-Within {size} {data_ptr} {s} small r i e =
    let inv = Reach-Inv small r in
    let w = IsStacked-Within _ _ s.blocks i inv.stacked e in
    (
      omega (arith, w.0, inv.same_ptr),
      omega (arith, w.1, inv.same_ptr, inv.same_size, inv.valid.within),
      (w.2.0, omega (arith, w.2.1, inv.same_ptr)),
    )

-- In every interleaving, two blocks that calls have returned share no address.
pub Reach-Disjoint :
    {size data_ptr : ℕ} {s : System}
    → size ≤ 2 ^ 63
    → Reach size data_ptr s
    → (i j : ℕ) {b c : Block} → i ≢ j
    → get_elem? s.blocks i ≡ some b
    → get_elem? s.blocks j ≡ some c
    → Disjoint b c
Reach-Disjoint {s} small r i j ne eb ec =
    IsStacked-Disjoint _ _ s.blocks i j (Reach-Inv small r).stacked ne eb ec
