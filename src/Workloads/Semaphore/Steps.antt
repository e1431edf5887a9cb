-- ===== src/Workloads/Semaphore/Steps.antt =====
-- The atomic steps of `consume` and `produce`, against a bounded counter.
use schtest.Prelude.{
  ℕ, ◌+◌, ◌-◌, ◌^◌, ◌≤◌, ◌<◌, ◌≡◌, Bool, true, false, ◌==◌, leb, arith, ap, ◌∙◌, if◌then◌else◌,
  Bool-cases, u32, refl, sym, inl, inr, ==_iff,
}
use schtest.Workloads.Semaphore.{
  waiter, amount_of, has_waiter, mark, Semaphore, Env, Waited, woken, timed_out, failed, Method,
  consume, produce, Call, Pc, top, decide, park, waiting, measure, resetting, waking, done,
  is_possible, new_count, exchange, decide_step, step,
}
use schtest.Workloads.Semaphore.Word.{amount_of-eq, has_waiter-eq, mark-eq}

pub record IsValid (s : Semaphore) : Type 0 where
  pub word : s.count < 2 ^ 32
  pub small : s.max < waiter
  pub within : amount_of s.count ≤ s.max

-- What a call knows where it stands. One that is about to wait has read a word with the flag and
-- an amount that is not enough.
abbrev pub Knows : Call → ℕ → Pc → Type 0
Knows c max (decide cur) = cur < 2 ^ 32
Knows c max (park cur) =
    (cur < 2 ^ 32) × (waiter ≤ cur) × (is_possible c max (amount_of cur) ≡ false)
Knows c max (waiting cur cookie) =
    (cur < 2 ^ 32) × (waiter ≤ cur) × (is_possible c max (amount_of cur) ≡ false)
Knows c max _ = Unit

-- A counter between 0 and `max`: `consume` and `produce` of `v` on it.
abbrev pub Counts : Method → ℕ → ℕ → ℕ → ℕ → Type 0
Counts consume v max n n' = (v ≤ n) × (n' + v ≡ n)
Counts produce v max n n' = (n + v ≤ max) × (n' ≡ n + v)

-- Whether a step is the one with which a call succeeds.
abbrev pub commits : Pc → Pc → Bool
commits (decide cur) resetting = true
commits (decide cur) (done true) = true
commits _ _ = false

abbrev pub Effect : Call → Semaphore → Semaphore → Bool → Type 0
Effect c s s' false = amount_of s'.count ≡ amount_of s.count
Effect c s s' true =
    Counts c.method c.v s.max (amount_of s.count) (amount_of s'.count) × (s'.count < waiter)

-- The new count of a success, and the counter's step.
new_count-Counts :
    (c : Call) (max amount : ℕ)
    → max < waiter
    → amount ≤ max
    → c.v ≤ waiter
    → is_possible c max amount ≡ true
    → Counts c.method c.v max amount (new_count c amount) × (new_count c amount ≤ max)
unfolding is_possible new_count
new_count-Counts c max amount small within vs h = split c.method h
  where
    split :
        (m : Method)
        → elim m [ consume ↦ leb c.v amount | produce ↦ leb (u32 (amount + c.v)) max ] ≡ true
        → Counts m c.v max amount (elim m [ consume ↦ amount - c.v | produce ↦ u32 (amount + c.v) ])
          × (elim m [ consume ↦ amount - c.v | produce ↦ u32 (amount + c.v) ] ≤ max)
    split consume e = ground arith
    split produce e = ground arith

module _ (slots capacity : ℕ) where
  abbrev pub Stepped : Call → Semaphore → Pc → Semaphore × Pc → Type 0
  Stepped c s pc out =
      IsValid out.0
      × Knows c out.0.max out.1
      × (out.0.max ≡ s.max)
      × Effect c s out.0 (commits pc out.1)

  -- The outcome of a compare-exchange by cases.
  exchange-cases :
      (env : Env) (s : Semaphore) (cur count : ℕ) (on_ok on_err : Pc) (P : Semaphore × Pc → Type 0)
      → (s.count ≡ cur → P (record s { count = count }, on_ok))
      → P (s, on_err)
      → P (exchange env s cur count on_ok on_err)
  exchange-cases env s cur count on_ok on_err P won lost = elim (Bool-cases env.spurious) [
    | inl e ↦ rw e lost
    | inr e ↦ rw e (elim (Bool-cases (s.count == cur)) [
      | inl same ↦ rw same (won ((==_iff s.count cur).0 same))
      | inr other ↦ rw other lost
    ])
  ]

  counted :
      (c : Call) (s : Semaphore) (cur : ℕ) (flag : Bool)
      → c.v ≤ waiter
      → IsValid s
      → s.count ≡ cur
      → is_possible c s.max (amount_of cur) ≡ true
      → Stepped c s
          (decide cur)
          (record s { count = new_count c (amount_of cur) }, if flag then resetting else done true)
  counted c s cur flag vs v e able = by_flag flag
    where
      same : amount_of s.count ≡ amount_of cur
      same = ap amount_of e

      counts :
          Counts c.method c.v s.max (amount_of cur) (new_count c (amount_of cur))
          × (new_count c (amount_of cur) ≤ s.max)
      counts = new_count-Counts c s.max (amount_of cur) v.small (rw same at v.within) vs able

      kept : amount_of (new_count c (amount_of cur)) ≡ new_count c (amount_of cur)
      kept = omega (arith, amount_of-eq (new_count c (amount_of cur)), counts.1, v.small)

      valid : IsValid (record s { count = new_count c (amount_of cur) })
      valid = record {
        word = omega (arith, counts.1, v.small);
        small = v.small;
        within = omega (arith, kept, counts.1);
      }

      effect :
          Counts c.method c.v s.max (amount_of s.count) (amount_of (new_count c (amount_of cur)))
          × (new_count c (amount_of cur) < waiter)
      effect = (rw (same, kept) counts.0, omega (arith, counts.1, v.small))

      by_flag :
          (b : Bool)
          → Stepped c s
              (decide cur)
              (record s { count = new_count c (amount_of cur) }, if b then resetting else done true)
      by_flag true = (valid, tt, refl, effect)
      by_flag false = (valid, tt, refl, effect)

  marked :
      (c : Call) (s : Semaphore) (cur : ℕ)
      → IsValid s
      → s.count ≡ cur
      → has_waiter cur ≡ false
      → is_possible c s.max (amount_of cur) ≡ false
      → Stepped c s (decide cur) (record s { count = mark cur }, park (mark cur))
  marked c s cur v e clear unable = (
    record {
      word = omega (arith, raised, low);
      small = v.small;
      within = rw kept (rw e at v.within);
    },
    (omega (arith, raised, low), omega (arith, raised), rw kept unable),
    refl,
    kept ∙ ap amount_of (sym e),
  )
    where
      word : cur < 2 ^ 32
      word = rw e at v.word

      low : cur < waiter
      low = ground (arith, has_waiter-eq cur word)

      raised : mark cur ≡ cur + waiter
      raised = mark-eq cur low

      kept : amount_of (mark cur) ≡ amount_of cur
      kept = omega (arith, amount_of-eq (mark cur), amount_of-eq cur, raised)

  decide-Stepped :
      (c : Call) (env : Env) (s : Semaphore) (cur : ℕ)
      → c.v ≤ waiter
      → IsValid s
      → cur < 2 ^ 32
      → Stepped c s (decide cur) (decide_step slots capacity c env s cur)
  unfolding decide_step
  decide-Stepped c env s cur vs v word = elim (Bool-cases (is_possible c s.max (amount_of cur))) [
    | inl able ↦ rw able (
        exchange-cases env s cur (new_count c (amount_of cur)) _ top (Stepped c s (decide cur))
          (λ e. counted c s cur (has_waiter cur) vs v e able) (v, tt, refl, refl))
    | inr unable ↦ rw unable (elim (Bool-cases (has_waiter cur)) [
      | inl flag ↦ rw flag (v, (word, ground (arith, has_waiter-eq cur word), unable), refl, refl)
      | inr clear ↦ rw clear (
          exchange-cases env s cur (mark cur) (park (mark cur)) top (Stepped c s (decide cur))
            (λ e. marked c s cur v e clear unable) (v, tt, refl, refl))
    ])
  ]

  -- The word and the maximum are all that validity is about.
  same_word : (s t : Semaphore) → IsValid s → t.count ≡ s.count → t.max ≡ s.max → IsValid t
  same_word s t v e m = record {
    word = rw e v.word;
    small = rw m v.small;
    within = rw (e, m) v.within;
  }

  -- Whatever the environment answers, an atomic step of a call for at most 2 ^ 31 leaves the
  -- semaphore valid and the call with a true knowledge of what it has read. It leaves the amount
  -- alone, or it is the success of the call: then the amount makes the step of a counter bounded
  -- by `max`, and the flag is clear.
  pub step-Stepped :
      (c : Call) (env : Env) (s : Semaphore) (pc : Pc)
      → c.v ≤ waiter
      → IsValid s
      → Knows c s.max pc
      → Stepped c s pc (step slots capacity c env s pc)
  unfolding step
  step-Stepped c env s top vs v k = (v, v.word, refl, refl)
  step-Stepped c env s (decide cur) vs v k = decide-Stepped c env s cur vs v k
  step-Stepped c env s (park cur) vs v k = (v, k, refl, refl)
  step-Stepped c env s (waiting cur cookie) vs v k = waited (env.futex_wait c.timeout)
    where
      waited :
          (w : Waited)
          → Stepped c s (waiting cur cookie) (elim w [
            | timed_out ↦ (s, done false)
            | woken ↦ (s, if slots == 0 then top else measure cookie)
            | failed ↦ (s, top)
          ])
      waited timed_out = (v, tt, refl, refl)
      waited failed = (v, tt, refl, refl)
      waited woken = elim (Bool-cases (slots == 0)) [
        | inl e ↦ rw e (v, tt, refl, refl)
        | inr e ↦ rw e (v, tt, refl, refl)
      ]
  step-Stepped c env s (measure cookie) vs v k = ground arith
  step-Stepped c env s resetting vs v k = (same_word s _ v refl refl, tt, refl, refl)
  step-Stepped c env s waking vs v k = (same_word s _ v refl refl, tt, refl, refl)
  step-Stepped c env s (done result) vs v k = (v, tt, refl, refl)
