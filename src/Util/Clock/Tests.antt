-- ===== src/Util/Clock/Tests.antt =====
-- A split timer with three slots.
use schtest.Prelude.{◌≡◌, refl, none, some, [], ◌∷◌, arith, replicate}
use schtest.Util.Clock.{timer_elapsed, timer_reset, SplitTimer, reset, cookie, elapsed}
use schtest.Util.Clock.Cookies.{IsValid, resets, timer_elapsed-timer_reset, elapsed-reset}

abbrev fresh : SplitTimer
fresh = record { timers = replicate 3 (record { start = 5 }); index = 0 }

fresh-IsValid : IsValid 3 fresh
fresh-IsValid = record { count = refl; word = omega arith }

two_resets : elapsed 3 100 (reset 3 30 (reset 3 10 fresh)) 0 ≡ some 90
unfolding elapsed reset timer_elapsed
two_resets = refl

three_resets : elapsed 3 100 (reset 3 40 (reset 3 30 (reset 3 10 fresh))) 0 ≡ none
unfolding elapsed reset timer_elapsed
three_resets = refl

timer_elapsed-timer_reset_example : timer_elapsed 42 (timer_reset 12 (record { start = 5 })) ≡ 30
timer_elapsed-timer_reset_example =
    timer_elapsed-timer_reset (record { start = 5 }) 12 42 (omega arith) (omega arith)

elapsed-reset_example :
    elapsed 3 100 (resets 3 (30 ∷ []) (reset 3 10 fresh)) (cookie 3 fresh) ≡ some 90
unfolding cookie
elapsed-reset_example =
    elapsed-reset 3 fresh 10 100 (30 ∷ []) (omega arith) fresh-IsValid (omega arith) (omega arith)
      (omega arith)
