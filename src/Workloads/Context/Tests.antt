-- ===== src/Workloads/Context/Tests.antt =====
-- A vector of squares in a small allocator, and a context whose second process fails.
use schtest.Prelude.{ℕ, ◌*◌, ◌≡◌, refl, true, false, Option, none, some, [], ◌∷◌, arith}
use schtest.Util.Shared.{Layout, BumpAllocator}
use schtest.Workloads.Context.{allocate_vec, add, Context, run}
use schtest.Workloads.Context.Filled.{Allocated, allocate_vec-Allocated}

abbrev word : Layout
word = record { size = 8; align = 8 }

abbrev allocator : BumpAllocator
allocator = record { size = 4096; data_ptr = 65536; next = 4 }

abbrev no_memory : ℕ → Option ℕ
no_memory p = none

abbrev square : ℕ → ℕ
square i = i * i

allocate_vec-Allocated_example :
    Allocated word allocator no_memory 3 square (allocate_vec word allocator no_memory 3 square)
allocate_vec-Allocated_example =
    allocate_vec-Allocated word allocator no_memory 3 square (omega arith)

abbrev context : Context
context = record {
  running = false;
  processes =
      record { iters = none; succeeds = true } ∷ record { iters = none; succeeds = false } ∷ [];
}

added :
    (add
      (record { iters = none; succeeds = true })
      (record { running = false; processes = [] })).processes
    ≡ record { iters = none; succeeds = true } ∷ []
unfolding add
added = refl

second_fails : run 7 context ≡ (
  false,
  record {
    running = false;
    processes =
        record { iters = some 7; succeeds = true }
        ∷ record { iters = some 7; succeeds = false }
        ∷ [];
  },
)
unfolding run
second_fails = refl
