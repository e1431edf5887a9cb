-- ===== src/Util/Shared/Alloc.antt =====
-- One call of `BumpAllocator::alloc`, and its arithmetic.
use schtest.Prelude.{ℕ, ◌+◌, ◌^◌, ◌≤◌, ◌<◌, ◌≡◌, ◌⊎◌, none, some, arith, Rounded, round_up-Rounded}
use schtest.Util.Shared.{
  Layout, BumpAllocator, Pc, start, loaded, done, aligned_at, step, alloc, available, used,
}

-- What `std::alloc::Layout` guarantees: the alignment is a power of two, and the size rounded up
-- to it is at most isize::MAX.
pub record IsLayout (l : Layout) : Type 0 where
  pub exponent : ℕ
  pub rest : ℕ
  pub word : rest + exponent ≡ 64
  pub power : l.align ≡ 2 ^ exponent
  pub bounded : l.size + l.align ≤ 2 ^ 63

-- A mapping has at most 2 ^ 63 bytes.
pub record IsValid (a : BumpAllocator) : Type 0 where
  pub mapped : a.size ≤ 2 ^ 63
  pub within : a.next ≤ a.size

-- The first address of the right alignment from an offset on, and that all sums fit a word.
pub record Start (l : Layout) (k current r : ℕ) : Type 0 where
  pub rounded : Rounded k current r
  pub below : r < current + l.align
  pub fits : r + l.size < 2 ^ 64

pub aligned_at-Start :
    {l : Layout} (v : IsLayout l) (current : ℕ)
    → current ≤ 2 ^ 63
    → Start l v.exponent current (aligned_at l current)
unfolding aligned_at
aligned_at-Start {l} v current h = record {
  rounded = rounded;
  below = omega (arith, rounded.near, v.power);
  fits = omega (arith, rounded.near, v.power, v.bounded);
}
  where
    rounded : Rounded v.exponent current (aligned_at l current)
    rounded =
        rw v.power
          (round_up-Rounded v.rest v.exponent current v.word (omega (arith, v.power, v.bounded)))

-- What a call of `alloc` leaves behind when the block starts at offset `r`.
pub record Allocated (l : Layout) (a : BumpAllocator) (r : ℕ) (out : BumpAllocator × Pc)
    : Type 0 where
  pub outcome :
      ((r + l.size ≤ a.size)
        × (out ≡ (record a { next = r + l.size }, done (some (a.data_ptr + r)))))
      ⊎ ((a.size < r + l.size) × (out ≡ (a, done none)))

-- An uncontended `alloc` is done after its two atomic steps. It returns the first aligned address
-- at or after the end of the used part and moves that end behind the block if the block fits, and
-- returns null and changes nothing if it does not; no sum overflows.
pub alloc-Allocated :
    {l : Layout} {a : BumpAllocator} (v : IsLayout l)
    → IsValid a
    → Start l v.exponent a.next (aligned_at l a.next)
      × Allocated l a (aligned_at l a.next) (alloc l a)
unfolding alloc
alloc-Allocated {l} {a} v ok =
    let s = aligned_at-Start v a.next (omega (arith, ok.mapped, ok.within)) in
    (s, record { outcome = ground (arith, s.fits) })

-- What `available` reports is the rest of the mapping.
pub available-add-used : {a : BumpAllocator} → IsValid a → available a + used a ≡ a.size
unfolding available
available-add-used v = omega arith

-- An atomic step of any call keeps the allocator valid, from whatever offset the call has loaded.
pub step-IsValid :
    {l : Layout} {a : BumpAllocator} (pc : Pc) → IsLayout l → IsValid a → IsValid (step l a pc).0
unfolding step
step-IsValid start v ok = ok
step-IsValid {l} {a} (loaded current) v ok = ground arith
step-IsValid (done p) v ok = ok
