-- ===== src/Util/Stats/Visualize/Drawn.antt =====
-- When `visualize` of src/util/stats.rs draws a line, and when it panics.
use schtest.Prelude.{
  ℕ, ◌<◌, ◌≡◌, ◌≢◌, refl, Bool, true, ◌&&◌, Option, none, some, List, [], ◌∷◌, length, All, arith,
  inl, inr, Bool-cases, ◌/◌, ◌⊎◌,
}
use schtest.Util.Stats.Estimates.{Floats, Value, Estimates}
use schtest.Util.Stats.Visualize.{
  Screen, Point, range, points, sort_points, distances, min_by, p50_pos, width_of, draw, visualize,
  find_near, compose, label, min_label, max_label,
}
use schtest.Util.Stats.Visualize.Layout.{bar_vec-All}
use schtest.Util.Stats.Visualize.Sorted.{
  Partial, HasNumber, has_nan, sort_points-some, length-sort_points, sort_points-none,
}

no_length : {A : Type 0} → (xs : List A) → 0 ≡ length xs → xs ≡ []
no_length [] e = refl
no_length (x ∷ xs) e = absurd (omega arith)

module _ {F T : Type 0} (f : Floats F) (t : Value F T) (screen : Screen F T) (is_number : F → Bool)
    (law : Partial f t screen is_number) where
  abbrev pub are_numbers : List (ℕ × F) → Bool
  are_numbers [] = true
  are_numbers ((i, d) ∷ ds) = is_number d && are_numbers ds

  min_by-some :
      (i : ℕ) (d : F) (rest : List (ℕ × F))
      → is_number d ≡ true
      → are_numbers rest ≡ true
      → (j : ℕ) × (min_by f t screen (i, d) rest ≡ some j)
  unfolding min_by
  min_by-some i d [] h hs = (i, refl)
  min_by-some i d ((j, e) ∷ rest) h hs =
      let c = law d e in
      let he : is_number e ≡ true = ground arith in
      let later : are_numbers rest ≡ true = ground arith in
      elim (Bool-cases (f.lt e d)) [
        | inl closer ↦
            let (k, found) = min_by-some j e rest he later in
            (k, rw (min_by, c, h, he, closer) found)
        | inr farther ↦
            let (k, found) = min_by-some i d rest h later in
            (k, rw (min_by, c, h, he, farther) found)
      ]

  -- The distances of the median from the bars are numbers, if there is a median.
  abbrev pub HasDistances : Point F → List (Point F) → ℕ → Option T → Type 0
  HasDistances q ps width none = Unit
  HasDistances q ps width (some v) =
      are_numbers (distances f t screen q ps width (t.to_f64 v)) ≡ true

  -- The same of the points once they are sorted.
  abbrev pub IsMeasured : Option (List (Point F)) → ℕ → Option T → Type 0
  IsMeasured none width m = Unit
  IsMeasured (some []) width m = Unit
  IsMeasured (some (q ∷ ps)) width m = HasDistances q ps width m

  p50_pos-some :
      (q : Point F) (ps : List (Point F)) (width : ℕ) (m : Option T)
      → HasDistances q ps width m
      → (i : ℕ) × (p50_pos f t screen q ps width m ≡ some i)
  unfolding p50_pos
  p50_pos-some q ps width none h = (width / 2, refl)
  p50_pos-some q ps width (some v) h = at_least (distances f t screen q ps width (t.to_f64 v)) h
    where
      at_least :
          (ds : List (ℕ × F))
          → are_numbers ds ≡ true
          → (i : ℕ) × (elim ds as (λ _. Option ℕ) [
            | [] ↦ some (width / 2)
            | d ∷ rest ↦ min_by f t screen d rest
          ]
              ≡ some i)
      at_least [] h = (width / 2, refl)
      at_least ((i, d) ∷ ds) h = min_by-some i d ds (ground arith) (ground arith)

  pub visualize-some :
      (e : Estimates F T) (width : Option ℕ) (q : Point F) (ps : List (Point F))
      → sort_points f t screen (points f t screen e.quantiles) ≡ some (q ∷ ps)
      → HasDistances q ps
          (width_of f t screen width e.quantiles)
          (find_near f t screen 5 1 e.quantiles)
      → (line : List ℕ) × (visualize f t screen e width ≡ some line)
  unfolding visualize draw
  visualize-some e width q ps sorted far =
      let w = width_of f t screen width e.quantiles in
      let (bs, b, _, _) = bar_vec-All f t screen q ps w (range 0 w) in
      let (pos, found) = p50_pos-some q ps w (find_near f t screen 5 1 e.quantiles) far in
      let qs = e.quantiles in
      (
        compose (min_label f t screen qs) (label f t screen 5 1 qs) (max_label f t screen qs) pos
            bs,
        rw (visualize, sorted, draw, b, found) refl,
      )

  -- If a quantile has one of the seven percentiles, the values of those are numbers, and the
  -- distances of the bars from the median are numbers too, `visualize` draws a line.
  pub visualize_draws :
      (e : Estimates F T) (width : Option ℕ)
      → points f t screen e.quantiles ≢ []
      → All (HasNumber f t screen is_number law) (points f t screen e.quantiles)
      → IsMeasured
          (sort_points f t screen (points f t screen e.quantiles))
          (width_of f t screen width e.quantiles)
          (find_near f t screen 5 1 e.quantiles)
      → (line : List ℕ) × (visualize f t screen e width ≡ some line)
  visualize_draws e width known numbers far =
      let (r, sorted, _) =
        sort_points-some f t screen is_number law (points f t screen e.quantiles) numbers in
      let l =
        length-sort_points f t screen is_number law (points f t screen e.quantiles) r sorted in
      go r sorted l
    where
      go :
          (r : List (Point F))
          → sort_points f t screen (points f t screen e.quantiles) ≡ some r
          → length r ≡ length (points f t screen e.quantiles)
          → (line : List ℕ) × (visualize f t screen e width ≡ some line)
      go [] sorted l = absurd (known (no_length (points f t screen e.quantiles) l))
      go (q ∷ ps) sorted l = visualize-some e width q ps sorted (rw sorted at far)

  -- `visualize` panics if no quantile has one of the seven percentiles, and if two have one and
  -- the value of some is a NaN.
  pub visualize_panics :
      (e : Estimates F T) (width : Option ℕ)
      → (points f t screen e.quantiles ≡ [])
        ⊎ ((1 < length (points f t screen e.quantiles))
            × (has_nan f t screen is_number law (points f t screen e.quantiles) ≡ true))
      → visualize f t screen e width ≡ none
  unfolding visualize draw sort_points
  visualize_panics e width (inl unknown) = rw (visualize, unknown, sort_points, draw) refl
  visualize_panics e width (inr (two, nan)) =
      rw
        (
          visualize,
          sort_points-none f t screen is_number law (points f t screen e.quantiles) two nan,
        )
        refl
