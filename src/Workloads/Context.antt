-- ===== src/Workloads/Context.antt =====
-- src/workloads/context.rs: the shared memory of a workload and its processes.
-- The running flag is a Bool in a shared box; of a process, only whether its `wait` succeeds counts.
pub mod Filled
mod Tests
use schtest.Prelude.{
  ℕ, zero, suc, ◌+◌, ◌^◌, Bool, true, false, Option, none, some, List, [], ◌∷◌, ◌++◌, ◌*◌,
  if◌then◌else◌,
}
use schtest.Util.Shared.{
  Layout, BumpAllocator, SharedBox, SharedVec, Result, ok, err, box_new, with_capacity, push, new,
}

abbrev pub total_size : ℕ
total_size = 1024 * 1024 * 1024

-- `create`, where the mapping lies at an address: the allocator, and the box of the flag.
abbrev pub create : ℕ → (ℕ → Option Bool) → BumpAllocator × (ℕ → Option Bool) × Result SharedBox
create data_ptr mem = box_new (record { size = 1; align = 1 }) (new total_size data_ptr) mem false

module _ {ℓ} {T : Type ℓ} (layout : Layout) where
  -- `allocate`
  abbrev pub allocate :
      BumpAllocator → (ℕ → Option T) → T → BumpAllocator × (ℕ → Option T) × Result SharedBox
  allocate a mem value = box_new layout a mem value

  -- The question mark after `push`, with the rest of the loop.
  abbrev pub after_push :
      (SharedVec → (ℕ → Option T) → SharedVec × (ℕ → Option T) × Result (Unit {0}))
      → SharedVec × (ℕ → Option T) × Result (Unit {0})
      → SharedVec × (ℕ → Option T) × Result (Unit {0})
  after_push go_on (v, mem, ok u) = go_on v mem
  after_push go_on (v, mem, err e) = (v, mem, err e)

  -- The loop of `allocate_vec`, for the last `n` of its indices.
  pub fill :
      (ℕ → T)
      → (n i : ℕ) → SharedVec
      → (ℕ → Option T)
      → SharedVec × (ℕ → Option T) × Result (Unit {0})
  fill f zero i v mem = (v, mem, ok tt)
  fill f (suc n) i v mem =
      after_push (λ v' mem'. fill f n (i + 1) v' mem') (push layout.size v mem (f i))

  abbrev pub finish :
      BumpAllocator
      → SharedVec × (ℕ → Option T) × Result (Unit {0})
      → BumpAllocator × (ℕ → Option T) × Result SharedVec
  finish a (v, mem, ok u) = (a, mem, ok v)
  finish a (v, mem, err e) = (a, mem, err e)

  -- The end of `allocate_vec`, from the result of `with_capacity` on.
  pub fill_new :
      BumpAllocator
      → (ℕ → Option T)
      → ℕ
      → (ℕ → T)
      → Result SharedVec
      → BumpAllocator × (ℕ → Option T) × Result SharedVec
  unfolding fill
  fill_new a mem size f (err e) = (a, mem, err e)
  fill_new a mem size f (ok v) = finish a (fill f size 0 v mem)

  pub allocate_vec :
      BumpAllocator
      → (ℕ → Option T)
      → ℕ
      → (ℕ → T)
      → BumpAllocator × (ℕ → Option T) × Result SharedVec
  unfolding fill_new
  allocate_vec a mem size f = let (a', r) = with_capacity layout a size in fill_new a' mem size f r

-- A context: its running flag, and for each process the iterations that it was started with and
-- whether its `wait` succeeds.
pub record Process : Type 0 where
  pub iters : Option ℕ
  pub succeeds : Bool

pub record Context : Type 0 where
  pub running : Bool
  pub processes : List Process

pub add : Process → Context → Context
add p c = record c { processes = c.processes ++ (p ∷ []) }

start_all : ℕ → List Process → List Process
start_all n [] = []
start_all n (p ∷ ps) = record p { iters = some n } ∷ start_all n ps

pub start : ℕ → Context → Context
unfolding start_all
start n c = record { running = true; processes = start_all n c.processes }

-- The loop of `wait`: whether it got to the end, and the flag. It is cleared after each process.
wait_all : List Process → Bool → Bool × Bool
wait_all [] running = (true, running)
wait_all (p ∷ ps) running =
    let rest = wait_all ps false in if p.succeeds then rest else (false, running)

pub wait : Context → Bool × Context
unfolding wait_all
wait c =
    let (finished, running) = wait_all c.processes c.running in
    (finished, record c { running = if finished then false else running })

pub run : ℕ → Context → Bool × Context
unfolding start wait
run n c = wait (start n c)
