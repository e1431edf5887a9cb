-- ===== src/Util/Clock/Cookies.antt =====
-- Cookies of a `SplitTimer` of src/util/clock.rs, and the resets that follow them.
use schtest.Prelude.{
  ℕ, ◌+◌, ◌-◌, ◌%◌, ◌^◌, ◌≤◌, ◌<◌, ◌≡◌, ◌≢◌, refl, none, some, List, [], ◌∷◌, ltb, if◌then◌else◌,
  get_elem?, get_elem?-some, get_elem?-set_self, get_elem?-set_ne, length-set, length-replicate,
  set, length, u64, add64, arith, ◌∙◌, ap, subst,
}
use schtest.Util.Clock.{
  Timer, timer_new, timer_elapsed, timer_reset, SplitTimer, new, reset, cookie, elapsed,
}

-- A timer that was reset at one reading and read at a later one gives the difference, and never
-- a negative one; both readings are below 2 ^ 64.
pub timer_elapsed-timer_reset :
    (t : Timer) (a b : ℕ) → a < 2 ^ 64 → b < 2 ^ 64 → timer_elapsed b (timer_reset a t) ≡ b - a
unfolding timer_elapsed timer_reset
timer_elapsed-timer_reset t a b ha hb = ground arith

module _ (slots : ℕ) where
  pub record IsValid (t : SplitTimer) : Type 0 where
    pub count : length t.timers ≡ slots
    pub word : t.index < 2 ^ 64

  pub new-IsValid : (now : ℕ) → IsValid (new slots now)
  unfolding new
  new-IsValid now = record { count = length-replicate slots (timer_new now); word = omega arith }

  -- The timer in a slot, and its list, after a reset.
  reset_lem :
      (now : ℕ) (t : SplitTimer)
      → 0 < slots
      → IsValid t
      → reset slots now t ≡ record {
        timers = set t.timers (t.index % slots) (record { start = u64 now });
        index = add64 t.index 1;
      }
  unfolding reset timer_reset
  reset_lem now t pos v =
      let (timer, e) = get_elem?-some t.timers (t.index % slots) (omega (arith, v.count)) in
      ground (arith, e)

  -- A reset keeps the array's length and the index a word.
  pub reset-IsValid :
      (now : ℕ) (t : SplitTimer) → 0 < slots → IsValid t → IsValid (reset slots now t)
  reset-IsValid now t pos v = rw (reset_lem now t pos v) (record {
    count = length-set t.timers (t.index % slots) (record { start = u64 now }) ∙ v.count;
    word = omega arith;
  })

  -- The resets at a list of readings, in order.
  abbrev pub resets : List ℕ → SplitTimer → SplitTimer
  resets [] t = t
  resets (now ∷ later) t = resets later (reset slots now t)

  -- Fewer than `slots` steps on do not come back to the same slot.
  mod_ne : (c d : ℕ) → 0 < d → d < slots → (c + d) % slots ≢ c % slots
  mod_ne c d pos lt e = absurd (grind arith)

  resets-index :
      (ks : List ℕ) (t : SplitTimer)
      → 0 < slots
      → IsValid t
      → t.index + length ks < 2 ^ 64
      → (resets ks t).index ≡ t.index + length ks
  resets-index [] t pos v h = omega arith
  resets-index (now ∷ ks) t pos v h = omega (
    arith,
    resets-index ks (reset slots now t) pos (reset-IsValid now t pos v) (omega (arith, index h)),
    index h,
  )
    where
      index : t.index + length (now ∷ ks) < 2 ^ 64 → (reset slots now t).index ≡ t.index + 1
      index h = ap (λ (s : SplitTimer). s.index) (reset_lem now t pos v) ∙ omega arith

  -- Resets whose indices stay within `slots` of the cookie leave its slot alone.
  resets-slot :
      (ks : List ℕ) (t : SplitTimer) (c : ℕ)
      → 0 < slots
      → IsValid t
      → c < t.index
      → t.index + length ks ≤ c + slots
      → c + slots < 2 ^ 64
      → get_elem? (resets ks t).timers (c % slots) ≡ get_elem? t.timers (c % slots)
  resets-slot [] t c pos v after near h = refl
  resets-slot (now ∷ ks) t c pos v after near h =
      resets-slot ks (reset slots now t) c pos (reset-IsValid now t pos v) (omega (arith, index))
        (omega (arith, index)) h
      ∙ ap (λ (s : SplitTimer). get_elem? s.timers (c % slots)) (reset_lem now t pos v)
      ∙ get_elem?-set_ne t.timers (t.index % slots) (c % slots) (record { start = u64 now }) ne
    where
      index : (reset slots now t).index ≡ t.index + 1
      index = ap (λ (s : SplitTimer). s.index) (reset_lem now t pos v) ∙ omega arith

      ne : t.index % slots ≢ c % slots
      ne =
          subst (λ (i : ℕ). i % slots ≢ c % slots) {x = c + (t.index - c)} {y = t.index}
            (omega arith) (mod_ne c (t.index - c) (omega arith) (omega arith))

  resets-IsValid : (ks : List ℕ) (t : SplitTimer) → 0 < slots → IsValid t → IsValid (resets ks t)
  resets-IsValid [] t pos v = v
  resets-IsValid (now ∷ ks) t pos v =
      resets-IsValid ks (reset slots now t) pos (reset-IsValid now t pos v)

  -- A cookie taken before a reset at the reading `first`, which resets at the readings `later`
  -- follow: while fewer than `slots` resets have been made, `elapsed` at the reading `now` gives
  -- the time since the first one (0 if the clock shows less), and from `slots` resets on it gives
  -- nothing. The readings are below 2 ^ 64, and the index does not come near it.
  pub elapsed-reset :
      (t : SplitTimer) (first now : ℕ) (later : List ℕ)
      → 0 < slots
      → IsValid t
      → first < 2 ^ 64
      → now < 2 ^ 64
      → cookie slots t + slots + length later + 1 < 2 ^ 64
      → elapsed slots now (resets later (reset slots first t)) (cookie slots t)
        ≡ (if ltb (length later + 1) slots then some (now - first) else none)
  unfolding elapsed cookie timer_elapsed
  elapsed-reset t first now later pos v hf hn h =
      let (timer, e) = get_elem?-some u.timers (t.index % slots) (omega (arith, u_valid.count)) in
      ground (arith, e, slot timer e, index_u)
    where
      t' : SplitTimer
      t' = reset slots first t

      t'-IsValid : IsValid t'
      t'-IsValid = reset-IsValid first t pos v

      u : SplitTimer
      u = resets later t'

      index_t' : t'.index ≡ t.index + 1
      index_t' = ap (λ (s : SplitTimer). s.index) (reset_lem first t pos v) ∙ omega arith

      u_valid : IsValid u
      u_valid = resets-IsValid later t' pos t'-IsValid

      index_u : u.index ≡ t.index + length later + 1
      index_u =
          omega (arith, resets-index later t' pos t'-IsValid (omega (arith, index_t')), index_t')

      held :
          length later + 1 < slots
          → get_elem? u.timers (t.index % slots) ≡ some (record { start = u64 first })
      held few =
          resets-slot later t' t.index pos t'-IsValid (omega (arith, index_t'))
            (omega (arith, index_t')) (omega arith)
          ∙ ap (λ (s : SplitTimer). get_elem? s.timers (t.index % slots)) (reset_lem first t pos v)
          ∙ get_elem?-set_self t.timers (t.index % slots) (record { start = u64 first })
              (omega (arith, v.count))

      slot :
          (timer : Timer)
          → get_elem? u.timers (t.index % slots) ≡ some timer
          → length later + 1 < slots
          → timer.start ≡ first
      slot timer e few = ground (arith, held few)
