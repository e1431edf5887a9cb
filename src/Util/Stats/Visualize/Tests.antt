-- ===== src/Util/Stats/Visualize/Tests.antt =====
-- Lines drawn with the numbers of Numbers.
use schtest.Prelude.{
  ◌<◌, ◌≤◌, subst, sym, ℕ, zero, suc, ◌+◌, ◌*◌, ◌/◌, ◌≡◌, refl, true, false, some, List, [], ◌∷◌,
  arith, max, All, length,
}
use schtest.Prelude.Text.{codes}
use schtest.Util.Stats.Estimates.{f64_value, Estimates, estimates}
use schtest.Util.Stats.Visualize.{
  is_near, sort_points, points, distances, byte_length, label, min_label, max_label, width_of,
  visualize, comparable,
}
use schtest.Util.Stats.Visualize.Numbers.{unit, nan, is_number, f, screen}
use schtest.Util.Stats.Visualize.Layout.{
  asked_width, IsLine, frame, IsAscii, MiddleIsAscii, visualize-IsLine, length-visualize,
}
use schtest.Util.Stats.Visualize.Drawn.{IsMeasured}
use schtest.Util.Stats.Visualize.Sorted.{Partial, has_nan}
use schtest.Util.Stats.Visualize.Whole.{Literals, is_literal, is_other, visualize-estimates}

partial : Partial f (f64_value ℕ) screen is_number
unfolding comparable
partial a b = ground arith

near_self :
    (m k : ℕ)
    → is_literal f (f64_value ℕ) screen m k ≡ true
    → is_near f (f64_value ℕ) screen m k (f.decimal m k) ≡ true
unfolding is_near
near_self m zero h = ground arith
near_self m (suc zero) h = ground arith
near_self m (suc (suc zero)) h = ground arith
near_self m (suc (suc (suc zero))) h = ground arith
near_self m k h = absurd (ground arith)

apart :
    (m k n l : ℕ)
    → is_other f (f64_value ℕ) screen m k n l ≡ true
    → is_near f (f64_value ℕ) screen m k (f.decimal n l) ≡ false
unfolding is_near
apart m zero n zero h = ground arith
apart m zero n (suc zero) h = ground arith
apart m zero n (suc (suc zero)) h = ground arith
apart m zero n (suc (suc (suc zero))) h = ground arith
apart m (suc zero) n zero h = ground arith
apart m (suc zero) n (suc zero) h = ground arith
apart m (suc zero) n (suc (suc zero)) h = ground arith
apart m (suc zero) n (suc (suc (suc zero))) h = ground arith
apart m (suc (suc zero)) n zero h = ground arith
apart m (suc (suc zero)) n (suc zero) h = ground arith
apart m (suc (suc zero)) n (suc (suc zero)) h = ground arith
apart m (suc (suc zero)) n (suc (suc (suc zero))) h = ground arith
apart m (suc (suc (suc zero))) n zero h = ground arith
apart m (suc (suc (suc zero))) n (suc zero) h = ground arith
apart m (suc (suc (suc zero))) n (suc (suc zero)) h = ground arith
apart m (suc (suc (suc zero))) n (suc (suc (suc zero))) h = ground arith
apart m k n l h = absurd (ground arith)

abbrev ninefold : ℕ → ℕ
ninefold p = 9 * p

literals : Literals f (f64_value ℕ) screen
literals = record { near_self = near_self; apart = apart }

abbrev seven : Estimates ℕ ℕ
seven = estimates f (f64_value ℕ) ninefold 3

abbrev line_30 : List ℕ
line_30 = codes "0 |▁▄▆▆▆▇▇▇▇█ 4 █████████▇▆| 8"

drawn_30 : visualize f (f64_value ℕ) screen seven (some 30) ≡ some line_30
unfolding visualize estimates byte_length
drawn_30 = refl

far :
    IsMeasured f
      (f64_value ℕ)
      screen
      is_number
      partial
      (sort_points f (f64_value ℕ) screen (points f (f64_value ℕ) screen seven.quantiles))
      (width_of f (f64_value ℕ) screen (some 30) seven.quantiles)
      (some (4 * unit + unit / 2))
unfolding sort_points points width_of distances estimates byte_length
far = refl

visualize-IsLine_example :
    IsLine
      (min_label f (f64_value ℕ) screen seven.quantiles)
      (label f (f64_value ℕ) screen 5 1 seven.quantiles)
      (max_label f (f64_value ℕ) screen seven.quantiles)
      (width_of f (f64_value ℕ) screen (some 30) seven.quantiles)
      line_30
    × (8 ≤ width_of f (f64_value ℕ) screen (some 30) seven.quantiles)
visualize-IsLine_example = visualize-IsLine f (f64_value ℕ) screen seven (some 30) line_30 drawn_30

labels :
    (min_label f (f64_value ℕ) screen seven.quantiles ≡ codes "0")
    × (label f (f64_value ℕ) screen 5 1 seven.quantiles ≡ some (codes "4"))
    × (max_label f (f64_value ℕ) screen seven.quantiles ≡ codes "8")
unfolding min_label label max_label estimates
labels = (refl, refl, refl)

length-visualize_example :
    length line_30
    ≡ max (max (asked_width (some 30) (some 40)) 16) (
        frame
          (min_label f (f64_value ℕ) screen seven.quantiles)
          (label f (f64_value ℕ) screen 5 1 seven.quantiles)
          (max_label f (f64_value ℕ) screen seven.quantiles)
        + 8)
length-visualize_example =
    length-visualize f (f64_value ℕ) screen seven (some 30) line_30
      (subst IsAscii (sym labels.0) (omega arith, tt))
      (subst MiddleIsAscii (sym labels.1) (omega arith, tt))
      (subst IsAscii (sym labels.2) (omega arith, tt)) drawn_30

abbrev one_nan : Estimates ℕ ℕ
one_nan = record { count = 2; quantiles = (f.decimal 1 1, nan) ∷ (f.decimal 5 1, 7) ∷ [] }

two_points :
    (1 < length (points f (f64_value ℕ) screen one_nan.quantiles))
    × (has_nan f
          (f64_value ℕ)
          screen
          is_number
          partial
          (points f (f64_value ℕ) screen one_nan.quantiles)
        ≡ true)
unfolding points
two_points = (omega arith, refl)

numbers_hold : All (λ q. is_number q.1 ≡ true) seven.quantiles
unfolding estimates
numbers_hold = (refl, (refl, (refl, (refl, (refl, (refl, (refl, tt)))))))

visualize-estimates_example :
    (line : List ℕ) × (visualize f (f64_value ℕ) screen seven (some 30) ≡ some line)
    × IsLine
        (codes "0")
        (some (codes "4"))
        (codes "8")
        (width_of f (f64_value ℕ) screen (some 30) seven.quantiles)
        line
visualize-estimates_example =
    visualize-estimates f (f64_value ℕ) screen ninefold 3 literals is_number partial (some 30)
      numbers_hold far
