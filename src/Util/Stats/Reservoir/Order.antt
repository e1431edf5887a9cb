-- ===== src/Util/Stats/Reservoir/Order.antt =====
-- What a reader sees of a reservoir that is not full.
use schtest.Prelude.{
  ℕ, suc, ◌+◌, ◌^◌, ◌≤◌, ◌<◌, ◌≡◌, refl, Option, none, some, List, [], ◌∷◌, ◌++◌, get_elem?, min,
  length, length-append, arith, ap, sym,
}
use mathlib.Core.List.{append-nil, append_assoc}
use schtest.Util.Stats.Reservoir.{Reservoir, sample, reset, read_slots, read_all}
use schtest.Util.Stats.Reservoir.Filled.{IsPrefix, sample-IsPrefix}

module _ {ℓ} {T : Type ℓ} (capacity : ℕ) where
  -- A run of samples, each with the random index drawn for it.
  abbrev pub sample_each : List (ℕ × T) → Reservoir T → Reservoir T
  sample_each [] r = r
  sample_each ((random_index, item) ∷ rest) r =
      sample_each rest (sample capacity random_index item r)

  abbrev pub items_of : List (ℕ × T) → List T
  items_of [] = []
  items_of ((random_index, item) ∷ rest) = item ∷ items_of rest

  sample_each-IsPrefix :
      (draws : List (ℕ × T)) (r : Reservoir T) (xs : List T)
      → length xs + length draws ≤ capacity
      → capacity < 2 ^ 64
      → IsPrefix capacity r xs
      → IsPrefix capacity (sample_each draws r) (xs ++ items_of draws)
  sample_each-IsPrefix [] r xs room word p = rw append-nil p
  sample_each-IsPrefix ((random_index, item) ∷ rest) r xs room word p =
      rw (sym (append_assoc xs (item ∷ []) (items_of rest))) (
        sample_each-IsPrefix rest (sample capacity random_index item r) (xs ++ (item ∷ []))
          (omega (arith, length-append xs (item ∷ []))) word
          (sample-IsPrefix capacity random_index item r xs (omega arith) (omega arith) p))

  read_slots_prefix :
      (xs : List T) (slots : List (Option T))
      → ((i : ℕ) (v : T) → get_elem? xs i ≡ some v → get_elem? slots i ≡ some (some v))
      → read_slots capacity (length xs) slots ≡ some xs
  unfolding read_slots
  read_slots_prefix [] slots h = refl
  read_slots_prefix (x ∷ xs) [] h = absurd (ground (arith, h 0 x refl))
  read_slots_prefix (x ∷ xs) (none ∷ slots) h = absurd (ground (arith, h 0 x refl))
  read_slots_prefix (x ∷ xs) (some v ∷ slots) h =
      ground (arith, h 0 x refl, read_slots_prefix xs slots (λ i. h (suc i)))

  -- After a reset, up to `capacity` samples are read back in the order in which they were taken,
  -- whatever indices were drawn. The slots are `capacity` many, fewer than 2 ^ 64.
  pub read_all-sample_each :
      (draws : List (ℕ × T)) (r : Reservoir T)
      → length r.samples ≡ capacity
      → length draws ≤ capacity
      → capacity < 2 ^ 64
      → read_all capacity (sample_each draws (reset capacity r)) ≡ some (items_of draws)
  unfolding read_all reset
  read_all-sample_each draws r slots room word =
      rw (limit)
        (read_slots_prefix (items_of draws) (sample_each draws (reset capacity r)).samples p.items)
    where
      p : IsPrefix capacity (sample_each draws (reset capacity r)) (items_of draws)
      p =
          sample_each-IsPrefix draws (reset capacity r) [] (omega arith) word
            (record { slots = slots; count = refl; items = λ i v e. absurd (cc) })

      length-items_of : (ds : List (ℕ × T)) → length (items_of ds) ≡ length ds
      length-items_of [] = refl
      length-items_of (d ∷ ds) = ap suc (length-items_of ds)

      limit : min (sample_each draws (reset capacity r)).count capacity ≡ length (items_of draws)
      limit = omega (arith, p.count, length-items_of draws)
