-- ===== src/Util/Shared.antt =====
-- src/util/shared.rs: a bump allocator over a shared mapping, and the boxes and vectors in it.
-- An address is a number. `alloc` is a loop of atomic steps, so that any number of threads can be
-- interleaved in it. `next` lies in an `Arc` of the process and not in the mapping, so these are
-- threads of one process; a forked child goes on with a copy of its own.
pub mod Handles
pub mod Alloc
pub mod Interleave
mod Tests
pub mod Vec
use schtest.Prelude.{
  ℕ, zero, suc, ◌+◌, ◌-◌, ◌*◌, ◌^◌, Bool, true, false, Option, none, some, List, [], ◌∷◌, ltb, leb,
  ◌==◌, if◌then◌else◌, round_up, add64, sub64,
}

-- `std::alloc::Layout`
pub record Layout : Type 0 where
  pub size : ℕ
  pub align : ℕ

-- `memfd` is only read: its size and the address of its mapping.
pub record BumpAllocator : Type 0 where
  pub size : ℕ
  pub data_ptr : ℕ
  pub next : ℕ

abbrev pub new : ℕ → ℕ → BumpAllocator
new size data_ptr = record { size = size; data_ptr = data_ptr; next = 0 }

-- Where a call of `alloc` stands: before the load of `next`, after it, and at its end with the
-- pointer that it returns (`none` for null).
pub data Pc : Type 0 where
  start : Pc
  loaded : (current : ℕ) → Pc
  done : (ptr : Option ℕ) → Pc

pub aligned_at : Layout → ℕ → ℕ
aligned_at l current = round_up current l.align

-- The compare-exchange, with the recursive call where it fails.
abbrev pub claim : Layout → ℕ → BumpAllocator → BumpAllocator × Pc
claim l current a =
    if a.next == current
    then (
      record a { next = add64 (aligned_at l current) l.size },
      done (some (a.data_ptr + aligned_at l current)),
    )
    else (a, start)

-- One atomic step of `alloc`.
pub step : Layout → BumpAllocator → Pc → BumpAllocator × Pc
step l a start = (a, loaded a.next)
step l a (loaded current) =
    if ltb a.size (add64 (aligned_at l current) l.size) then (a, done none) else claim l current a
step l a (done ptr) = (a, done ptr)

-- A call that nothing interferes with: `start` and `loaded`, then it is done.
pub alloc : Layout → BumpAllocator → BumpAllocator × Pc
unfolding step
alloc l a = let (a', pc) = step l a start in step l a' pc

pub used : BumpAllocator → ℕ
used a = a.next

pub available : BumpAllocator → ℕ
unfolding used
available a = sub64 a.size (used a)

-- Memory by address. A cell that was never written is `none`.
module _ {ℓ} {T : Type ℓ} where
  abbrev pub write : (ℕ → Option T) → ℕ → T → ℕ → Option T
  write mem p v q = if p == q then some v else mem q

-- A handle of a box; a clone is the same handle, so both see one cell.
pub record SharedBox : Type 0 where
  pub ptr : ℕ

pub record SharedVec : Type 0 where
  pub ptr : ℕ
  pub len : ℕ
  pub capacity : ℕ

pub data SharedError : Type 0 where
  out_of_memory bad_layout capacity_exceeded : SharedError

pub data Result {ℓ} (A : Type ℓ) : Type ℓ where
  ok : A → Result A
  err : SharedError → Result A

-- `ptr::null_mut()` as well as the end of a call that is not done yet
abbrev pub pointer : Pc → Option ℕ
pointer (done ptr) = ptr
pointer start = none
pointer (loaded current) = none

-- `SharedBox::new` and `SharedVec::with_capacity`, given the layout of `T` and that nobody else
-- allocates. The stored value is written through the pointer.
module _ {ℓ} {T : Type ℓ} (layout : Layout) where
  pub box_new :
      BumpAllocator → (ℕ → Option T) → T → BumpAllocator × (ℕ → Option T) × Result SharedBox
  unfolding alloc
  box_new a mem v =
      let (a', pc) = alloc layout a in
      elim (pointer pc) [
        | none ↦ (a', mem, err out_of_memory)
        | some p ↦ (a', write mem p v, ok (record { ptr = p }))
      ]

-- `Layout::array`: an error if the size, rounded up to the alignment, exceeds isize::MAX.
pub array_layout : Layout → ℕ → Option Layout
array_layout l n =
    if leb (l.size * n + l.align) (2 ^ 63)
    then some (record { size = l.size * n; align = l.align })
    else none

pub with_capacity : Layout → BumpAllocator → ℕ → BumpAllocator × Result SharedVec
unfolding array_layout alloc
with_capacity layout a capacity = elim (array_layout layout capacity) [
  | none ↦ (a, err bad_layout)
  | some l ↦
      let (a', pc) = alloc l a in
      (
        a',
        elim (pointer pc) [
          | none ↦ err out_of_memory
          | some p ↦ ok (record { ptr = p; len = 0; capacity = capacity })
        ],
      )
]

-- The methods of `SharedVec<T>`, given `size_of::<T>()`. A reference is an address.
module _ (size_of : ℕ) where
  pub elem_ptr : SharedVec → ℕ → ℕ
  elem_ptr v index = v.ptr + index * size_of

  pub push {ℓ} :
      {T : Type ℓ} → SharedVec → (ℕ → Option T) → T → SharedVec × (ℕ → Option T) × Result (Unit {0})
  unfolding elem_ptr
  push v mem value =
      if v.len == v.capacity
      then (v, mem, err capacity_exceeded)
      else (record v { len = v.len + 1 }, write mem (elem_ptr v v.len) value, ok tt)

  -- `get` and `get_mut`
  pub get : SharedVec → ℕ → Option ℕ
  unfolding elem_ptr
  get v index = if leb v.len index then none else some (elem_ptr v index)

pub is_empty : SharedVec → Bool
is_empty v = v.len == 0

-- A clone has its own `len`, and the pointer of the original.
pub clone : SharedVec → SharedVec
clone v = record { ptr = v.ptr; len = v.len; capacity = v.capacity }
