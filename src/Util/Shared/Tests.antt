-- ===== src/Util/Shared/Tests.antt =====
-- The allocator and a vector run at concrete sizes, and two threads that allocate at once.
use schtest.Prelude.{
  ℕ, zero, suc, ◌+◌, ◌*◌, ◌<◌, ◌≡◌, refl, Option, none, some, [], ◌∷◌, arith, round_up, get_elem?,
  if◌then◌else◌, ◌==◌,
}
use schtest.Util.Shared.{
  Layout, BumpAllocator, start, done, aligned_at, step, alloc, available, used, SharedVec, new,
}
use schtest.Util.Shared.Alloc.{IsLayout, available-add-used}
use schtest.Util.Shared.Interleave.{
  System, call, turn, Reach, fresh, later, advance, Disjoint, Within, Reach-Disjoint, Reach-Within,
}
use schtest.Util.Shared.Vec.{Holds}
use schtest.Util.Shared.Handles.{drop_clones}
use schtest.Util.Shared.Handles.Dropped.{count, count-drop_clones}

abbrev words : Layout
words = record { size = 24; align = 16 }

words-IsLayout : IsLayout words
words-IsLayout = record {
  exponent = 4;
  rest = 60;
  word = refl;
  power = refl;
  bounded = omega arith;
}

abbrev half_used : BumpAllocator
half_used = record { size = 4096; data_ptr = 65536; next = 100 }

alloc-half_used : alloc words half_used ≡ (record half_used { next = 136 }, done (some 65648))
unfolding alloc aligned_at round_up
alloc-half_used = refl

alloc_full :
    alloc words (record half_used { next = 4090 }) ≡ (record half_used { next = 4090 }, done none)
unfolding alloc aligned_at round_up
alloc_full = refl

available-add-used_example : available half_used + used half_used ≡ 4096
available-add-used_example =
    available-add-used {a = half_used} (record { mapped = omega arith; within = omega arith })

-- Two threads load the same `next`; the first claims its block, the second retries.
abbrev idle : System
idle = record {
  allocator = new 4096 65536;
  threads = λ i. record { layout = words; pc = done none };
  blocks = [];
}

abbrev called : ℕ → System → System
called i s = record s {
  threads = λ j. if i == j then record { layout = words; pc = start } else s.threads j;
}

abbrev both_called : System
both_called = called 1 (called 0 idle)

abbrev both_loaded : System
both_loaded = advance (advance both_called 0) 1

abbrev contended : System
contended = advance (advance (advance (advance both_loaded 0) 1) 1) 1

contended-Reach : Reach 4096 65536 contended
contended-Reach =
    later
      (later
        (later
          (later
            (later
              (later
                (later (later (fresh words words-IsLayout) (call 0 words words-IsLayout))
                  (call 1 words words-IsLayout))
                (turn 0))
              (turn 1))
            (turn 0))
          (turn 1))
        (turn 1))
      (turn 1)

blocks-contended :
    contended.blocks
    ≡ record { addr = 65568; size = 24; align = 16 }
      ∷ record { addr = 65536; size = 24; align = 16 }
      ∷ []
unfolding step aligned_at round_up
blocks-contended = refl

Reach-Disjoint_example :
    Disjoint
      (record { addr = 65568; size = 24; align = 16 })
      (record { addr = 65536; size = 24; align = 16 })
unfolding step aligned_at round_up
Reach-Disjoint_example = Reach-Disjoint (omega arith) contended-Reach 0 1 (omega arith) refl refl

Reach-Within_example : Within 65536 69632 (record { addr = 65568; size = 24; align = 16 })
unfolding step aligned_at round_up
Reach-Within_example = Reach-Within (omega arith) contended-Reach 0 refl

abbrev two_slots : SharedVec
two_slots = record { ptr = 64; len = 1; capacity = 2 }

abbrev seven : ℕ → Option ℕ
seven p = if p == 64 then some 7 else none

seven-Holds : Holds 8 two_slots seven (7 ∷ [])
seven-Holds = record { count = refl; room = omega arith; cells = at }
  where
    at : (i : ℕ) → i < 1 → seven (64 + i * 8) ≡ get_elem? (7 ∷ []) i
    at zero h = refl
    at (suc i) h = absurd (omega arith)

count-drop_clones_example : count two_slots.ptr 0 (drop_clones 1 (record two_slots { len = 2 })) ≡ 2
count-drop_clones_example = count-drop_clones 1 (record two_slots { len = 2 }) 0 (omega arith)
