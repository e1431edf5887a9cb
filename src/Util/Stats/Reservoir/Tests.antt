-- ===== src/Util/Stats/Reservoir/Tests.antt =====
-- A reservoir of two slots.
use schtest.Prelude.{ℕ, ◌≡◌, refl, none, some, [], ◌∷◌, arith}
use schtest.Util.Stats.Reservoir.{Reservoir, new, sample, reset, read_all}
use schtest.Util.Stats.Reservoir.Filled.{IsFilled, new-IsFilled, sample-IsFilled}
use schtest.Util.Stats.Reservoir.Order.{sample_each, read_all-sample_each}

abbrev empty : Reservoir ℕ
empty = record { samples = none ∷ none ∷ []; count = 0 }

abbrev one : Reservoir ℕ
one = record { samples = some 7 ∷ none ∷ []; count = 1 }

empty-IsFilled : IsFilled 2 empty
unfolding new
empty-IsFilled = new-IsFilled 2

one-IsFilled : IsFilled 2 one
unfolding sample
one-IsFilled = sample-IsFilled 2 0 7 empty (omega arith) (omega arith) empty-IsFilled

full : read_all 2 (sample 2 1 9 (sample 2 0 8 one)) ≡ some (7 ∷ 9 ∷ [])
unfolding read_all sample
full = refl

read_all-sample_each_example :
    read_all 2 (sample_each 2 ((1, 5) ∷ (0, 6) ∷ []) (reset 2 one)) ≡ some (5 ∷ 6 ∷ [])
read_all-sample_each_example =
    read_all-sample_each 2 ((1, 5) ∷ (0, 6) ∷ []) one refl (omega arith) (omega arith)
