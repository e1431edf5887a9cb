-- ===== src/Workloads/Context/Filled.antt =====
-- The vectors of a context of src/workloads/context.rs, and what a run of its processes leaves.
use schtest.Prelude.{
  ℕ, zero, suc, ◌+◌, ◌≤◌, ◌<◌, ◌≡◌, ◌⊎◌, inl, inr, refl, Bool, true, false, Option, some, List, [],
  ◌∷◌, ◌++◌, arith, length, ap, sym, subst, map, ◌&&◌, not, if◌then◌else◌,
}
use mathlib.Core.List.{append-nil, append_assoc}
use schtest.Util.Shared.{
  Layout, BumpAllocator, SharedVec, Result, ok, err, SharedError, with_capacity, write, elem_ptr,
}
use schtest.Util.Shared.Vec.{Holds, push-Holds, push_room, with_capacity_cases}
use schtest.Workloads.Context.{
  after_push, fill, finish, fill_new, allocate_vec, Process, Context, start_all, wait_all, start,
  wait, run,
}

module _ {ℓ} {T : Type ℓ} (layout : Layout) where
  -- f i, f (i + 1), and so on: `n` values
  unfoldable pub values : (ℕ → T) → (n i : ℕ) → List T
  values f zero i = []
  values f (suc n) i = f i ∷ values f n (i + 1)

  abbrev pub Made : List T → SharedVec × (ℕ → Option T) × Result (Unit {0}) → Type ℓ
  Made xs (v, mem, r) = (r ≡ ok tt) × Holds layout.size v mem xs

  fill-Made :
      (f : ℕ → T) (n i : ℕ) (v : SharedVec) (mem : ℕ → Option T) (xs : List T)
      → 0 < layout.size
      → v.len + n ≤ v.capacity
      → Holds layout.size v mem xs
      → Made (xs ++ values f n i) (fill layout f n i v mem)
  unfolding fill values
  fill-Made f zero i v mem xs pos room h =
      (refl, subst (Holds layout.size v mem) (sym (append-nil xs)) h)
  fill-Made f (suc n) i v mem xs pos room h =
      subst
        (λ o.
          Made (xs ++ values f (suc n) i)
            (after_push layout (λ v' mem'. fill layout f n (i + 1) v' mem') o))
        (sym (push_room layout.size v mem (f i) (omega arith)))
        (subst (λ ys. Made ys (fill layout f n (i + 1) v' mem'))
          (append_assoc xs (f i ∷ []) (values f n (i + 1)))
          (fill-Made f n (i + 1) v' mem' (xs ++ (f i ∷ [])) pos (omega arith)
            (held v mem xs (f i) pos h (omega arith))))
    where
      v' : SharedVec
      v' = record v { len = v.len + 1 }

      mem' : ℕ → Option T
      mem' = write mem (elem_ptr layout.size v v.len) (f i)

      held :
          (v : SharedVec) (mem : ℕ → Option T) (xs : List T) (x : T)
          → 0 < layout.size
          → Holds layout.size v mem xs
          → v.len < v.capacity
          → Holds layout.size
              (record v { len = v.len + 1 })
              (write mem (elem_ptr layout.size v v.len) x)
              (xs ++ (x ∷ []))
      held v mem xs x pos h room = elim (push-Holds layout.size v mem xs x pos h) [
        | inl (fits, e, k) ↦
            subst
              (λ (o : SharedVec × (ℕ → Option T) × Result (Unit {0})).
                Holds layout.size o.0 o.1 (xs ++ (x ∷ [])))
              (push_room layout.size v mem x room) k
        | inr (full, e, same, kept) ↦ absurd (omega (arith, full))
      ]

  -- What `allocate_vec` gives: the error of `with_capacity` and the memory as it was, or a vector.
  abbrev pub Allocated :
      BumpAllocator
      → (ℕ → Option T)
      → ℕ
      → (ℕ → T)
      → BumpAllocator × (ℕ → Option T) × Result SharedVec
      → Type ℓ
  Allocated a mem size f (a', mem', r) =
      ((e : SharedError) × ((with_capacity layout a size).1 ≡ err e) × (r ≡ err e) × (mem' ≡ mem))
      ⊎ ((v : SharedVec) × (r ≡ ok v)
          × (length (values f size 0) ≡ size)
          × Holds layout.size v mem' (values f size 0))

  length-values : (f : ℕ → T) (n i : ℕ) → length (values f n i) ≡ n
  unfolding values
  length-values f zero i = refl
  length-values f (suc n) i = omega (arith, length-values f n (i + 1))

  empty-Holds :
      (mem : ℕ → Option T) (p n : ℕ)
      → Holds layout.size (record { ptr = p; len = 0; capacity = n }) mem []
  empty-Holds mem p n = record {
    count = refl;
    room = omega arith;
    cells = λ i lt. absurd (omega arith);
  }

  finished :
      (a a' : BumpAllocator) (mem : ℕ → Option T) (size : ℕ) (f : ℕ → T)
      (out : SharedVec × (ℕ → Option T) × Result (Unit {0}))
      → Made (values f size 0) out
      → Allocated a mem size f (finish layout a' out)
  finished a a' mem size f (v, mem', ok u) (e, h) = inr (v, refl, length-values f size 0, h)
  finished a a' mem size f (v, mem', err e') (e, h) = ground (arith, e)

  -- For elements of a positive size, `allocate_vec` fails only where `with_capacity` does, with its
  -- error and without a write; otherwise the vector holds `size` elements, f 0, f 1 and so on.
  pub allocate_vec-Allocated :
      (a : BumpAllocator) (mem : ℕ → Option T) (size : ℕ) (f : ℕ → T)
      → 0 < layout.size
      → Allocated a mem size f (allocate_vec layout a mem size f)
  unfolding allocate_vec fill_new
  allocate_vec-Allocated a mem size f pos = elim (with_capacity_cases layout a size) [
    | inl (e, same) ↦
        subst (λ r. Allocated a mem size f (fill_new layout a' mem size f r)) (sym same)
          (inl (e, same, refl, refl))
    | inr (p, same) ↦
        subst (λ r. Allocated a mem size f (fill_new layout a' mem size f r)) (sym same)
          (finished a a' mem size f _ (
            fill-Made f size 0 (record { ptr = p; len = 0; capacity = size }) mem [] pos
              (omega arith) (empty-Holds mem p size)))
  ]
    where
      a' : BumpAllocator
      a' = (with_capacity layout a size).0

pub all_succeed : List Process → Bool
all_succeed [] = true
all_succeed (p ∷ ps) = p.succeeds && all_succeed ps

pub first_fails : List Process → Bool
first_fails [] = false
first_fails (p ∷ ps) = not p.succeeds

abbrev pub started : ℕ → Process → Process
started n p = record p { iters = some n }

-- What a run leaves: its result, the flag and the processes.
pub record Finished (n : ℕ) (c : Context) (out : Bool × Context) : Type 0 where
  pub result : out.0 ≡ all_succeed c.processes
  pub flag : out.1.running ≡ first_fails c.processes
  pub handed : out.1.processes ≡ map (started n) c.processes

start_all-eq : (n : ℕ) (ps : List Process) → start_all n ps ≡ map (started n) ps
unfolding start_all
start_all-eq n [] = refl
start_all-eq n (p ∷ ps) = ap (λ qs. started n p ∷ qs) (start_all-eq n ps)

wait_all-result :
    (n : ℕ) (ps : List Process) (running : Bool)
    → (wait_all (start_all n ps) running).0 ≡ all_succeed ps
unfolding wait_all start_all all_succeed
wait_all-result n [] running = refl
wait_all-result n (p ∷ ps) running = ground (arith, wait_all-result n ps false)

wait_all-stopped : (ps : List Process) → (wait_all ps false).1 ≡ false
unfolding wait_all
wait_all-stopped [] = refl
wait_all-stopped (p ∷ ps) = ground (arith, wait_all-stopped ps)

flag_left :
    (n : ℕ) (ps : List Process)
    → (if (wait_all (start_all n ps) true).0 then false else (wait_all (start_all n ps) true).1)
      ≡ first_fails ps
unfolding wait_all start_all first_fails
flag_left n [] = refl
flag_left n (p ∷ ps) = ground (arith, wait_all-stopped (start_all n ps))

-- A run hands the number of iterations to every process, succeeds exactly if each `wait` does, and
-- leaves the running flag set exactly if the first `wait` fails.
pub run-Finished : (n : ℕ) (c : Context) → Finished n c (run n c)
unfolding run wait start
run-Finished n c = record {
  result = wait_all-result n c.processes true;
  flag = flag_left n c.processes;
  handed = start_all-eq n c.processes;
}
