-- ===== src/Util/Stats/Estimates/Brackets.antt =====
-- The lookups in quantiles of src/util/stats.rs, `percentile` and `interpolate_value`.
use schtest.Prelude.{
  ℕ, zero, suc, ◌≡◌, refl, sym, subst, ◌∙◌, Bool, true, false, ◌⊎◌, inl, inr, Option, none, some,
  [], ◌∷◌, arith, get_elem?, Bool-cases, Option-cases, if◌then◌else◌,
}
use mathlib.Core.Option.{some-injective, none-ne-some}
use schtest.Util.Stats.Estimates.{
  Floats, Value, Quantiles, last, in_segment, find_exact, search, percentile, line_between,
  search_line, interpolate_value,
}

-- Of two numbers, neither of them a NaN, one is at most the other.
abbrev pub Total : (F : Type 0) → Floats F → (F → Bool) → Type 0
Total F f is_nan =
    (a b : F) → is_nan a ≡ false → is_nan b ≡ false → (f.le a b ≡ true) ⊎ (f.le b a ≡ true)

-- No percentile is a NaN.
abbrev pub has_nan : {F T : Type 0} → (F → Bool) → Quantiles F T → Bool
has_nan is_nan [] = false
has_nan is_nan ((p, v) ∷ qs) = if is_nan p then true else has_nan is_nan qs

module _ {F T : Type 0} (f : Floats F) (p : F) where
  -- A value for a percentile, by where it stands among the quantiles: up to the first one, from the
  -- last one on, or between two neighbours.
  pub data Looked {R : Type 0} (value : T → R) (interpolated : F × T → F × T → R) (q : F × T)
      (qs : Quantiles F T) : R → Type 0 where
    at_first : f.le p q.0 ≡ true → Looked value interpolated q qs (value q.1)
    at_last : f.le (last q qs).0 p ≡ true → Looked value interpolated q qs (value (last q qs).1)
    inside :
        (i : ℕ) (lower upper : F × T)
        → get_elem? (q ∷ qs) i ≡ some lower
        → get_elem? (q ∷ qs) (suc i) ≡ some upper
        → f.le lower.0 p ≡ true
        → f.le p upper.0 ≡ true
        → Looked value interpolated q qs (interpolated lower upper)

  -- The pair of neighbours around the percentile that a loop finds, and what it makes of it.
  record Segment {R : Type 0} (interpolated : F × T → F × T → R) (q : F × T) (qs : Quantiles F T)
      (r : R) : Type 0 where
    pub index : ℕ
    pub lower : F × T
    pub upper : F × T
    pub lower_at : get_elem? (q ∷ qs) index ≡ some lower
    pub upper_at : get_elem? (q ∷ qs) (suc index) ≡ some upper
    pub above : f.le lower.0 p ≡ true
    pub below : f.le p upper.0 ≡ true
    pub made : r ≡ interpolated lower upper

  module _ {R : Type 0} (interpolated : F × T → F × T → R) (loop : F × T → Quantiles F T → R)
      (loop_cons : (q r : F × T) (qs : Quantiles F T)
        → loop q (r ∷ qs) ≡ (if in_segment f p q.0 r.0 then interpolated q r else loop r qs))
      (is_nan : F → Bool) (total : Total F f is_nan) (p_number : is_nan p ≡ false) where
    -- The loop finds one, if the percentile is above the first quantile and not above the last.
    loop-Segment :
        (q : F × T) (qs : Quantiles F T)
        → has_nan is_nan (q ∷ qs) ≡ false
        → f.le q.0 p ≡ true
        → f.le (last q qs).0 p ≡ false
        → Segment interpolated q qs (loop q qs)
    unfolding last
    loop-Segment q [] n l h = absurd (cc)
    loop-Segment q (r ∷ qs) n l h = elim (Bool-cases (f.le p r.0)) [
      | inl at ↦ record {
        index = 0;
        lower = q;
        upper = r;
        lower_at = refl;
        upper_at = refl;
        above = l;
        below = at;
        made = loop_cons q r qs ∙ rw (l, at) refl;
      }
      | inr off ↦
          let s = loop-Segment r qs (ground arith) (other off) h in
          record {
            index = suc s.index;
            lower = s.lower;
            upper = s.upper;
            lower_at = s.lower_at;
            upper_at = s.upper_at;
            above = s.above;
            below = s.below;
            made = loop_cons q r qs ∙ rw (l, off) s.made;
          }
    ]
      where
        r_number : is_nan r.0 ≡ false
        r_number = ground (arith, n)

        other : f.le p r.0 ≡ false → f.le r.0 p ≡ true
        other off = elim (total p r.0 p_number r_number) [ inl le ↦ absurd (cc) | inr ge ↦ ge ]

  Segment-Looked :
      {R : Type 0} (value : T → R) (interpolated : F × T → F × T → R) (q : F × T)
      (qs : Quantiles F T) (r : R)
      → Segment interpolated q qs r
      → Looked value interpolated q qs r
  Segment-Looked value interpolated q qs r s =
      subst (Looked value interpolated q qs) (sym s.made)
        (inside s.index s.lower s.upper s.lower_at s.upper_at s.above s.below)

module _ {F : Type 0} (f : Floats F) (is_nan : F → Bool) (total : Total F f is_nan) where
  -- For a percentile that is a number, among percentiles that are: `interpolate_value` gives the value
  -- of the first quantile up to there, of the last one from there on, and otherwise interpolates
  -- between two neighbours around the percentile, so that the end of its loop is never reached.
  pub interpolate_value-Looked :
      (q : F × F) (qs : Quantiles F F) (p : F)
      → is_nan p ≡ false
      → has_nan is_nan (q ∷ qs) ≡ false
      → Looked f p (λ v. v) (line_between f p) q qs (interpolate_value f (q ∷ qs) p)
  unfolding interpolate_value
  interpolate_value-Looked q qs p n ns = elim (Bool-cases (f.le p q.0)) [
    | inl e ↦ rw (e, interpolate_value) (at_first e)
    | inr e ↦ elim (Bool-cases (f.le (last q qs).0 p)) [
      | inl l ↦ rw (e, l, interpolate_value) (at_last l)
      | inr l ↦
          rw (e, l, interpolate_value)
            (Segment-Looked f p (λ v. v) (line_between f p) q qs _
              (loop-Segment f p (line_between f p) (search_line f p) (λ q r qs. refl) is_nan total n
                q qs ns (first_below e) l))
    ]
  ]
    where
      first_below : f.le p q.0 ≡ false → f.le q.0 p ≡ true
      first_below e = elim (total p q.0 n (ground (arith, ns))) [
        | inl le ↦ absurd (cc)
        | inr ge ↦ ge
      ]

  module _ {T : Type 0} (t : Value F T) where
    -- No percentile is within EPSILON of the one asked for.
    abbrev pub NoneNear : Quantiles F T → F → Type 0
    NoneNear qs p =
        (i : ℕ) (r : F × T) → get_elem? qs i ≡ some r → f.lt (f.abs (f.sub r.0 p)) f.epsilon ≡ false

    -- The point of the line through two quantiles.
    abbrev pub on_line : F → F × T → F × T → T
    on_line p lower upper = t.of_f64 (
        f.add (t.to_f64 lower.1) (
          f.mul (f.sub (t.to_f64 upper.1) (t.to_f64 lower.1))
            (f.div (f.sub p lower.0) (f.sub upper.0 lower.0))))

    NoneNear-cons :
        (p : F) (q : F × T) (qs : Quantiles F T)
        → f.lt (f.abs (f.sub q.0 p)) f.epsilon ≡ false
        → NoneNear qs p
        → NoneNear (q ∷ qs) p
    NoneNear-cons p q qs far rest zero r at =
        subst (λ s. f.lt (f.abs (f.sub s.0 p)) f.epsilon ≡ false) (some-injective _ _ at) far
    NoneNear-cons p q qs far rest (suc i) r at = rest i r at

    find_exact-none : (p : F) (qs : Quantiles F T) → find_exact f t p qs ≡ none → NoneNear qs p
    unfolding find_exact
    find_exact-none p [] e i r at = absurd (none-ne-some _ at)
    find_exact-none p (q ∷ qs) e i r at = elim (Bool-cases (f.lt (f.abs (f.sub q.0 p)) f.epsilon)) [
      | inl near ↦ let g = rw (near, find_exact) at e in absurd (none-ne-some _ (sym g))
      | inr far ↦ NoneNear-cons p q qs far (find_exact-none p qs (rw (far, find_exact) at e)) i r at
    ]

    -- What `percentile` gives: the value of a quantile within EPSILON, or that of a lookup.
    pub data PercentileAs (q : F × T) (qs : Quantiles F T) (p : F) : Option T → Type 0 where
      exact :
          (i : ℕ) (r : F × T)
          → get_elem? (q ∷ qs) i ≡ some r
          → f.lt (f.abs (f.sub r.0 p)) f.epsilon ≡ true
          → PercentileAs q qs p (some r.1)
      looked :
          {r : Option T}
          → NoneNear (q ∷ qs) p
          → Looked f p some (λ a b. some (on_line p a b)) q qs r
          → PercentileAs q qs p r

    find_exact-some :
        (p : F) (qs : Quantiles F T) (v : T)
        → find_exact f t p qs ≡ some v
        → (i : ℕ) × (r : F × T) × (get_elem? qs i ≡ some r)
          × (f.lt (f.abs (f.sub r.0 p)) f.epsilon ≡ true)
          × (r.1 ≡ v)
    unfolding find_exact
    find_exact-some p [] v e = absurd (cc)
    find_exact-some p (q ∷ qs) v e = elim (Bool-cases (f.lt (f.abs (f.sub q.0 p)) f.epsilon)) [
      | inl near ↦ (0, q, refl, near, ground arith)
      | inr far ↦
          let (i, r, at, near, same) = find_exact-some p qs v (ground arith) in
          (suc i, r, at, near, same)
    ]

    -- For a percentile that is a number, among percentiles that are: `percentile` gives the value of a
    -- quantile within EPSILON; if there is none, the value of the first quantile up to there, of the
    -- last one from there on, and otherwise the linear interpolation, as floating point has it, of two
    -- neighbours around the percentile.
    pub percentile-PercentileAs :
        (count : ℕ) (q : F × T) (qs : Quantiles F T) (p : F)
        → is_nan p ≡ false
        → has_nan is_nan (q ∷ qs) ≡ false
        → PercentileAs q qs p (percentile f t (record { count = count; quantiles = q ∷ qs }) p)
    unfolding percentile
    percentile-PercentileAs count q qs p n ns = elim (Option-cases (find_exact f t p (q ∷ qs))) [
      | inr (v, e) ↦
          let (i, r, at, near, same) = find_exact-some p (q ∷ qs) v e in
          rw (e, percentile) (subst (λ w. PercentileAs q qs p (some w)) same (exact i r at near))
      | inl e ↦ rw (e, percentile) (looked (find_exact-none p (q ∷ qs) e) (lookup e))
    ]
      where
        first_below : f.le p q.0 ≡ false → f.le q.0 p ≡ true
        first_below e = elim (total p q.0 n (ground (arith, ns))) [
          | inl le ↦ absurd (cc)
          | inr ge ↦ ge
        ]

        lookup :
            find_exact f t p (q ∷ qs) ≡ none
            → Looked f p some
                (λ a b. some (on_line p a b))
                q
                qs
                (if f.le p q.0
                  then some q.1
                  else if f.le (last q qs).0 p
                  then some (last q qs).1
                  else search f t p q qs)
        lookup n' = elim (Bool-cases (f.le p q.0)) [
          | inl e ↦ rw e (at_first e)
          | inr e ↦ elim (Bool-cases (f.le (last q qs).0 p)) [
            | inl l ↦ rw (e, l) (at_last l)
            | inr l ↦
                rw (e, l)
                  (Segment-Looked f p some (λ a b. some (on_line p a b)) q qs _
                    (loop-Segment f p (λ a b. some (on_line p a b)) (search f t p) (λ q r qs. refl)
                      is_nan total n q qs ns (first_below e) l))
          ]
        ]
