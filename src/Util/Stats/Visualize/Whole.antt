-- ===== src/Util/Stats/Visualize/Whole.antt =====
-- What `visualize` of src/util/stats.rs draws of the estimates of a distribution.
use schtest.Prelude.{
  ℕ, ◌*◌, ◌^◌, ◌≡◌, ◌≢◌, refl, Bool, true, false, Option, some, List, [], ◌∷◌, All, not, leb, ◌==◌,
  ◌&&◌, Option-cases, inl, inr,
}
use schtest.Util.Stats.Estimates.{Floats, Value, Quantiles, Estimates, estimates}
use schtest.Util.Stats.Visualize.{
  Screen, is_near, find_near, index_of, label, points, sort_points, min_label, max_label, width_of,
  visualize,
}
use schtest.Util.Stats.Visualize.Layout.{IsLine, visualize-IsLine}
use schtest.Util.Stats.Visualize.Drawn.{IsMeasured, visualize_draws}
use schtest.Util.Stats.Visualize.Sorted.{Partial, HasNumber}

module _ {F T : Type 0} (f : Floats F) (t : Value F T) (screen : Screen F T) where
  -- A literal between 0 and 1, of three places at most.
  abbrev pub is_literal : (m k : ℕ) → Bool
  is_literal m k = leb k 3 && leb m (10 ^ k)

  abbrev pub is_other : (m k n l : ℕ) → Bool
  is_other m k n l = is_literal m k && is_literal n l && not (m * 10 ^ l == n * 10 ^ k)

  -- Such a literal is within 1e-6 of itself, and not of another one.
  pub record Literals : Type 0 where
    pub near_self :
        (m k : ℕ) → is_literal m k ≡ true → is_near f t screen m k (f.decimal m k) ≡ true
    pub apart :
        (m k n l : ℕ) → is_other m k n l ≡ true → is_near f t screen m k (f.decimal n l) ≡ false

  module _ (estimate_quantile : F → F) (count : ℕ) (laws : Literals) where
    abbrev pub drawn : Estimates F T
    drawn = estimates f t estimate_quantile count

    -- The value of the estimates at a literal.
    abbrev pub value : ℕ → ℕ → T
    value m k = t.of_f64 (estimate_quantile (f.decimal m k))

    min_label-drawn : min_label f t screen drawn.quantiles ≡ screen.debug (value 1 3)
    unfolding min_label label find_near estimates
    min_label-drawn = rw (min_label, label, find_near, laws.near_self 1 3 refl) refl

    find_near-drawn : find_near f t screen 5 1 drawn.quantiles ≡ some (value 5 1)
    unfolding find_near estimates
    find_near-drawn =
        rw (find_near, laws.apart 5 1 1 3 refl, find_near, laws.apart 5 1 1 2 refl)
          (rw (find_near, laws.apart 5 1 1 1 refl, find_near, laws.near_self 5 1 refl) refl)

    label-drawn : label f t screen 5 1 drawn.quantiles ≡ some (screen.debug (value 5 1))
    unfolding label
    label-drawn = rw (label, find_near-drawn) refl

    max_label-drawn : max_label f t screen drawn.quantiles ≡ screen.debug (value 999 3)
    unfolding max_label label find_near estimates
    max_label-drawn =
        rw (max_label, label, find_near, laws.apart 999 3 1 3 refl)
          (rw
            (
              find_near,
              laws.apart 999 3 1 2 refl,
              find_near,
              laws.apart 999 3 1 1 refl,
              find_near,
              laws.apart 999 3 5 1 refl,
            )
            (rw
              (
                find_near,
                laws.apart 999 3 9 1 refl,
                find_near,
                laws.apart 999 3 99 2 refl,
                find_near,
                laws.near_self 999 3 refl,
              )
              refl))

    points-drawn : points f t screen drawn.quantiles ≢ []
    unfolding points index_of estimates
    points-drawn e = let g = rw (points, index_of, laws.near_self 1 3 refl) at e in absurd (cc)

    module _ (is_number : F → Bool) (law : Partial f t screen is_number) where
      points-HasNumber :
          (qs : Quantiles F T)
          → All (λ q. is_number (t.to_f64 q.1) ≡ true) qs
          → All (HasNumber f t screen is_number law) (points f t screen qs)
      unfolding points
      points-HasNumber [] h = tt
      points-HasNumber ((p, v) ∷ qs) (h, hs) = elim (Option-cases (index_of f t screen p)) [
        | inl skipped ↦ rw (points, skipped) (points-HasNumber qs hs)
        | inr (i, known) ↦ rw (points, known) (h, points-HasNumber qs hs)
      ]

      -- The estimates of a distribution whose digest answers numbers are always drawn, if the
      -- distances of the bars from the median are numbers: the line begins with the text of the value
      -- at 0.001, has that of the value at 0.5 between the bars, and ends with that of the value at
      -- 0.999.
      pub visualize-estimates :
          (width : Option ℕ)
          → All (λ q. is_number (t.to_f64 q.1) ≡ true) drawn.quantiles
          → IsMeasured f t screen is_number law
              (sort_points f t screen (points f t screen drawn.quantiles))
              (width_of f t screen width drawn.quantiles)
              (some (value 5 1))
          → (line : List ℕ) × (visualize f t screen drawn width ≡ some line)
            × IsLine
                (screen.debug (value 1 3))
                (some (screen.debug (value 5 1)))
                (screen.debug (value 999 3))
                (width_of f t screen width drawn.quantiles)
                line
      visualize-estimates width numbers far =
          let (line, e) =
            visualize_draws f t screen is_number law drawn width points-drawn
              (points-HasNumber drawn.quantiles numbers) (rw find_near-drawn far) in
          let l = (visualize-IsLine f t screen drawn width line e).0 in
          (line, e, rw (min_label-drawn, label-drawn, max_label-drawn) at l)
