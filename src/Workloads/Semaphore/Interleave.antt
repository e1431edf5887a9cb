-- ===== src/Workloads/Semaphore/Interleave.antt =====
-- Any number of threads that call `consume` and `produce` on one semaphore, their atomic steps
-- interleaved in any order and answered by any environment.
use schtest.Prelude.{
  ℕ, ◌+◌, ◌≤◌, ◌<◌, ◌≡◌, Bool, true, false, ◌==◌, arith, if◌then◌else◌, refl, subst,
}
use schtest.Workloads.Semaphore.{
  waiter, amount_of, has_waiter, Semaphore, Env, Method, consume, produce, Call, Pc, top, waiting,
  done, is_possible, new, step,
}
use schtest.Workloads.Semaphore.Steps.{
  IsValid, Knows, Counts, commits, Effect, Stepped, step-Stepped,
}
use schtest.Workloads.Semaphore.Word.{amount_of-eq, has_waiter-eq}

pub record Thread : Type 0 where
  pub call : Call
  pub pc : Pc

-- `produced` and `consumed` add up the successful calls; the program does not keep them.
pub record System : Type 0 where
  pub semaphore : Semaphore
  pub threads : ℕ → Thread
  pub produced : ℕ
  pub consumed : ℕ

abbrev pub made : Method → Bool → ℕ → ℕ
made produce true v = v
made produce false v = 0
made consume b v = 0

abbrev pub spent : Method → Bool → ℕ → ℕ
spent consume true v = v
spent consume false v = 0
spent produce b v = 0

module _ (slots capacity : ℕ) where
  abbrev pub advance : Env → System → ℕ → System
  advance env s i =
      let c = (s.threads i).call in
      let pc = (s.threads i).pc in
      let (sem, pc') = step slots capacity c env s.semaphore pc in
      record {
        semaphore = sem;
        threads = λ j. if i == j then record { call = c; pc = pc' } else s.threads j;
        produced = s.produced + made c.method (commits pc pc') c.v;
        consumed = s.consumed + spent c.method (commits pc pc') c.v;
      }

  -- A thread makes a call for at most 2 ^ 31, or takes an atomic step of its call.
  pub data Step (s : System) : System → Type 0 where
    calls :
        (i : ℕ) (c : Call)
        → c.v ≤ waiter
        → Step s (record s {
          threads = λ j. if i == j then record { call = c; pc = top } else s.threads j;
        })
    turn : (i : ℕ) (env : Env) → Step s (advance env s i)

  -- From `Semaphore::new(max)`, with no call under way.
  pub data Reach (max : ℕ) : System → Type 0 where
    fresh :
        (now : ℕ) (c : Call)
        → c.v ≤ waiter
        → Reach max (record {
          semaphore = new slots capacity now max;
          threads = λ i. record { call = c; pc = done true };
          produced = 0;
          consumed = 0;
        })
    later : {s t : System} → Reach max s → Step s t → Reach max t

  pub record Inv (s : System) : Type 0 where
    pub valid : IsValid s.semaphore
    pub knows : (i : ℕ) → Knows (s.threads i).call s.semaphore.max (s.threads i).pc
    pub small : (i : ℕ) → (s.threads i).call.v ≤ waiter
    pub balance : amount_of s.semaphore.count + s.consumed ≡ s.produced

  pub new-IsValid :
      (now max : ℕ)
      → IsValid (new slots capacity now max) × (amount_of (new slots capacity now max).count ≡ 0)
  unfolding new amount_of
  new-IsValid now max = (
    record { word = omega arith; small = omega (arith, amount_of-eq max); within = omega arith },
    refl,
  )

  pub new-max : (now max : ℕ) → max < waiter → (new slots capacity now max).max ≡ max
  unfolding new amount_of
  new-max now max h = omega (arith, amount_of-eq max)

  abbrev Counted : Method → Bool → ℕ → ℕ → ℕ → ℕ → Type 0
  Counted m true v max n n' = Counts m v max n n'
  Counted m false v max n n' = n' ≡ n

  balanced :
      (m : Method) (b : Bool) (v max n n' made_before spent_before : ℕ)
      → Counted m b v max n n'
      → n + spent_before ≡ made_before
      → n' + (spent_before + spent m b v) ≡ made_before + made m b v
  balanced consume true v max n n' p q e h = omega arith
  balanced consume false v max n n' p q e h = omega arith
  balanced produce true v max n n' p q e h = omega arith
  balanced produce false v max n n' p q e h = omega arith

  counts_of :
      (b : Bool) (c : Call) (s s' : Semaphore)
      → Effect c s s' b
      → Counted c.method b c.v s.max (amount_of s.count) (amount_of s'.count)
  counts_of true c s s' e = e.0
  counts_of false c s s' e = e

  if_Knows :
      (b : Bool) (max : ℕ) (t u : Thread)
      → Knows t.call max t.pc
      → Knows u.call max u.pc
      → Knows (if b then t else u).call max (if b then t else u).pc
  if_Knows true max t u h k = h
  if_Knows false max t u h k = k

  if_small :
      (b : Bool) (t u : Thread)
      → t.call.v ≤ waiter
      → u.call.v ≤ waiter
      → (if b then t else u).call.v ≤ waiter
  if_small true t u h k = h
  if_small false t u h k = k

  Step-Inv : {s t : System} → Step s t → Inv s → Inv t
  Step-Inv {s} (calls i c h) inv = record {
    valid = inv.valid;
    knows = λ j. if_Knows (i == j) s.semaphore.max _ (s.threads j) tt (inv.knows j);
    small = λ j. if_small (i == j) _ (s.threads j) h (inv.small j);
    balance = inv.balance;
  }
  Step-Inv {s} (turn i env) inv = record {
    valid = stepped.0;
    knows = λ j. if_Knows (i == j) _ _ (s.threads j) stepped.1 (rw stepped.2 (inv.knows j));
    small = λ j. if_small (i == j) _ (s.threads j) (inv.small i) (inv.small j);
    balance =
        balanced c.method (commits pc out.1) c.v s.semaphore.max _ _ s.produced s.consumed
          (counts_of (commits pc out.1) c s.semaphore out.0 stepped.3) inv.balance;
  }
    where
      c : Call
      c = (s.threads i).call

      pc : Pc
      pc = (s.threads i).pc

      out : Semaphore × Pc
      out = step slots capacity c env s.semaphore pc

      stepped : Stepped slots capacity c s.semaphore pc out
      stepped =
          step-Stepped slots capacity c env s.semaphore pc (inv.small i) inv.valid (inv.knows i)

  pub Reach-Inv : {max : ℕ} {s : System} → Reach max s → Inv s
  Reach-Inv {max} (fresh now c h) = record {
    valid = (new-IsValid now max).0;
    knows = λ i. tt;
    small = λ i. h;
    balance = omega (arith, (new-IsValid now max).1);
  }
  Reach-Inv (later r st) = Step-Inv st (Reach-Inv r)

  -- In every interleaving of calls that each ask for at most 2 ^ 31, the amount in the word is what the
  -- successful calls have produced less what they have consumed, and it is at most the maximum: no
  -- token is lost or made.
  pub Reach-balance :
      {max : ℕ} {s : System}
      → Reach max s
      → (amount_of s.semaphore.count + s.consumed ≡ s.produced)
        × (amount_of s.semaphore.count ≤ s.semaphore.max)
  Reach-balance r = let inv = Reach-Inv r in (inv.balance, inv.valid.within)

  -- In every interleaving of calls that each ask for at most 2 ^ 31, a call that is in FUTEX_WAIT
  -- passed a value that has the waiter flag, and with the amount of which the call was not possible:
  -- it never waits on a word that would let it go on, nor unannounced.
  pub Reach-waiting :
      {max : ℕ} {s : System}
      → Reach max s
      → (i cur cookie : ℕ) → (s.threads i).pc ≡ waiting cur cookie
      → (has_waiter cur ≡ true)
        × (is_possible (s.threads i).call s.semaphore.max (amount_of cur) ≡ false)
  Reach-waiting {s = s} r i cur cookie e =
      let k = subst (Knows (s.threads i).call s.semaphore.max) e ((Reach-Inv r).knows i) in
      (ground (arith, has_waiter-eq cur k.0), k.2)
