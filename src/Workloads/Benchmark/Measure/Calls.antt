-- ===== src/Workloads/Benchmark/Measure/Calls.antt =====
-- The calls of the workload that `measure` of src/workloads/benchmark.rs makes.
use schtest.Prelude.{ℕ, ◌+◌, ◌≤◌, ◌≡◌, refl, List, [], ◌∷◌, arith, ◌⊎◌, inl, inr}
use schtest.Workloads.Benchmark.Measure.{BenchResult, Reply, failed, ran, as_u32}

module _ {D : Type 0} (call : ℕ → ℕ → Reply D) where
  -- A relation between the counts and the results of the calls from one on, one for each.
  abbrev pub Each : (ℕ → Reply D → ℕ → Type 0) → ℕ → List ℕ → List ℕ → Type 0
  Each R i [] [] = Unit
  Each R i [] (time ∷ times) = ⊥
  Each R i (iters ∷ counts) [] = ⊥
  Each R i (iters ∷ counts) (time ∷ times) =
      R iters (call i (as_u32 iters)) time × Each R (i + 1) counts times

  -- A call among those from one on, with the count that Criterion asked for.
  pub data Among : ℕ → List ℕ → ℕ → ℕ → Type 0 where
    here : (i iters : ℕ) (counts : List ℕ) → Among i (iters ∷ counts) i iters
    later :
        (i iters : ℕ) (counts : List ℕ) (j c : ℕ)
        → Among (i + 1) counts j c
        → Among i (iters ∷ counts) j c

  pub Among-cases :
      (i iters : ℕ) (counts : List ℕ) (j c : ℕ)
      → Among i (iters ∷ counts) j c
      → ((i ≡ j) × (call i (as_u32 iters) ≡ call j (as_u32 c))) ⊎ Among (i + 1) counts j c
  Among-cases _ _ _ _ _ (here i iters counts) = inl (refl, refl)
  Among-cases _ _ _ _ _ (later i iters counts j c among) = inr among

  pub Among-le : (i : ℕ) (counts : List ℕ) (j c : ℕ) → Among i counts j c → i ≤ j
  Among-le _ _ _ _ (here i iters counts) = omega arith
  Among-le _ _ _ _ (later i iters counts j c among) =
      omega (arith, Among-le (i + 1) counts j c among)

  pub Reply-cases :
      (r : Reply D) → (r ≡ failed) ⊎ ((b : BenchResult D) × (elapsed : ℕ) × (r ≡ ran b elapsed))
  Reply-cases failed = inl refl
  Reply-cases (ran b elapsed) = inr (b, elapsed, refl)
