-- ===== src/Workloads/Semaphore/Commits.antt =====
-- When a call has made its change of the amount, and what a step of it does to the amount.
use schtest.Prelude.{
  ℕ, ◌+◌, ◌*◌, ◌≤◌, ◌<◌, ◌≡◌, Bool, true, false, arith, Option, if◌then◌else◌, refl,
}
use schtest.Workloads.Semaphore.{
  waiter, amount_of, Semaphore, Env, Method, consume, produce, Call, Pc, top, decide, park, waiting,
  measure, resetting, waking, done, step, is_possible,
}
use schtest.Workloads.Semaphore.Steps.{IsValid, Knows, commits, Effect, Stepped, step-Stepped}

-- as 0 or 1
abbrev pub committed : Pc → ℕ
committed resetting = 1
committed waking = 1
committed (done true) = 1
committed _ = 0

-- The amounts before and after, and what the call has committed before and after.
abbrev pub Moved : Method → ℕ → ℕ → ℕ → ℕ → ℕ → Type 0
Moved produce v n n' b b' = n' + b * v ≡ n + b' * v
Moved consume v n n' b b' = n' + b' * v ≡ n + b * v

pub committed-le : (pc : Pc) → committed pc ≤ 1
committed-le pc = ground arith

pub possible_produce :
    (v wake : ℕ) (t : Option ℕ) (max n : ℕ)
    → n + v ≤ max
    → max < waiter
    → is_possible (record { method = produce; v = v; wake = wake; timeout = t }) max n ≡ true
unfolding is_possible
possible_produce v wake t max n h k = ground arith

pub possible_consume :
    (v wake : ℕ) (t : Option ℕ) (max n : ℕ)
    → v ≤ n
    → is_possible (record { method = consume; v = v; wake = wake; timeout = t }) max n ≡ true
unfolding is_possible
possible_consume v wake t max n h = ground arith

module _ (slots capacity : ℕ) where
  committed-step :
      (c : Call) (env : Env) (s : Semaphore) (pc : Pc)
      → committed (step slots capacity c env s pc).1
        ≡ (if commits pc (step slots capacity c env s pc).1 then 1 else committed pc)
  unfolding step
  committed-step c env s top = refl
  committed-step c env s (decide cur) = ground arith
  committed-step c env s (park cur) = refl
  committed-step c env s (waiting cur cookie) = ground arith
  committed-step c env s (measure cookie) = ground arith
  committed-step c env s resetting = refl
  committed-step c env s waking = refl
  committed-step c env s (done true) = refl
  committed-step c env s (done false) = refl

  commits-committed : (pc pc' : Pc) → commits pc pc' ≡ true → committed pc ≡ 0
  commits-committed (decide cur) pc' h = refl
  commits-committed top pc' h = refl
  commits-committed (park cur) pc' h = refl
  commits-committed (waiting cur cookie) pc' h = refl
  commits-committed (measure cookie) pc' h = refl
  commits-committed resetting pc' h = ground arith
  commits-committed waking pc' h = ground arith
  commits-committed (done result) pc' h = ground arith

  Effect-Moved :
      (m : Method) (v wake : ℕ) (t : Option ℕ) (s s' : Semaphore) (b : Bool) (k : ℕ)
      → (b ≡ true → k ≡ 0)
      → Effect (record { method = m; v = v; wake = wake; timeout = t }) s s' b
      → Moved m v (amount_of s.count) (amount_of s'.count) k (if b then 1 else k)
  Effect-Moved consume v wake t s s' true k z e = rw (z refl) (omega (arith, e.0))
  Effect-Moved produce v wake t s s' true k z e = rw (z refl) (omega (arith, e.0))
  Effect-Moved consume v wake t s s' false k z e = rw e refl
  Effect-Moved produce v wake t s s' false k z e = rw e refl

  -- A step changes the amount by what the call commits in it, and leaves the semaphore valid, the
  -- maximum as it was and the call with a true knowledge of what it has read.
  pub step-Moved :
      (c : Call) (env : Env) (s : Semaphore) (pc : Pc)
      → c.v ≤ waiter
      → IsValid s
      → Knows c s.max pc
      → let out = step slots capacity c env s pc in
        IsValid out.0
        × Knows c out.0.max out.1
        × (out.0.max ≡ s.max)
        × Moved c.method c.v
            (amount_of s.count)
            (amount_of out.0.count)
            (committed pc)
            (committed out.1)
  step-Moved c env s pc small valid knows = (
    stepped.0,
    stepped.1,
    stepped.2,
    rw (committed-step c env s pc) (
        Effect-Moved c.method c.v c.wake c.timeout s out.0 (commits pc out.1) (committed pc)
          (commits-committed pc out.1) stepped.3),
  )
    where
      out : Semaphore × Pc
      out = step slots capacity c env s pc

      stepped : Stepped slots capacity c s pc out
      stepped = step-Stepped slots capacity c env s pc small valid knows
