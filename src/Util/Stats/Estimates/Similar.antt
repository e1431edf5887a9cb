-- ===== src/Util/Stats/Estimates/Similar.antt =====
-- `similarity` and `Display` of src/util/stats.rs.
use schtest.Prelude.{
  ℕ, zero, suc, ◌+◌, ◌-◌, ◌≤◌, ◌<◌, ◌≡◌, refl, ap, Bool, true, false, inl, inr, none, some, [], ◌∷◌,
  ◌++◌, map, arith, Bool-cases, length, ◌==◌,
}
use schtest.Util.Stats.Estimates.{
  Floats, Value, Quantiles, Estimates, last, at, before_of, after_of, width, interpolate_value,
  merge_quantiles, sum_deltas, distance, similarity, shown, one_f, zero_f, halved,
}

abbrev pub values : {F T : Type 0} → Value F T → Quantiles F T → Quantiles F F
values t qs = map (λ (p, v). (p, t.to_f64 v)) qs

module _ {F : Type 0} (f : Floats F) where
  at-some : (qs : Quantiles F F) (i : ℕ) → i < length qs → (p : F) × (at f qs i ≡ some p)
  unfolding at
  at-some [] i h = absurd (omega arith)
  at-some ((p, v) ∷ qs) zero h = (p, refl)
  at-some (q ∷ qs) (suc i) h = at-some qs i (omega arith)

  before_of-some :
      (qs : Quantiles F F) (i : ℕ) → i < length qs → (w : F) × (before_of f qs i ≡ some w)
  unfolding before_of
  before_of-some qs zero h = at-some qs 0 h
  before_of-some qs (suc i) h =
      let (p, e) = at-some qs (suc i) h in
      let (q, g) = at-some qs i (omega arith) in (halved f (f.sub p q), rw (e, g, before_of) refl)

  after_of-some :
      (qs : Quantiles F F) (i : ℕ) → i < length qs → (w : F) × (after_of f qs i ≡ some w)
  unfolding after_of
  after_of-some qs i h = elim (Bool-cases (i == length qs - 1)) [
    | inl e ↦ let (p, a) = at-some qs i h in (f.sub (one_f f) p, rw (a, after_of) (rw e refl))
    | inr e ↦
        let (p, a) = at-some qs i h in
        let (q, b) = at-some qs (i + 1) (ground arith) in
        (halved f (f.sub q p), rw (a, after_of) (rw e (rw b refl)))
  ]

  -- The width of each quantile is there: no index is out of range.
  pub width-some : (qs : Quantiles F F) (i : ℕ) → i < length qs → (w : F) × (width f qs i ≡ some w)
  unfolding width
  width-some qs i h =
      let (b, e) = before_of-some qs i h in
      let (a, g) = after_of-some qs i h in (f.add b a, rw (e, g, width) refl)

  sum_deltas-some :
      (a b all : Quantiles F F) (i : ℕ) (qs : Quantiles F F) (d : F)
      → i + length qs ≤ length all
      → (r : F) × (sum_deltas f a b all i qs d ≡ some r)
  unfolding sum_deltas
  sum_deltas-some a b all i [] d h = (d, refl)
  sum_deltas-some a b all i ((p, v) ∷ qs) d h =
      let (w, e) = width-some all i (omega arith) in
      let (r, g) =
        sum_deltas-some a b all (i + 1) qs
          (f.add d (f.mul w (f.abs (f.sub (interpolate_value f a p) (interpolate_value f b p)))))
          (omega arith) in
      (r, rw (e, sum_deltas) g)

  distance-some : (a b : Quantiles F F) → (d : F) × (distance f a b ≡ some d)
  unfolding distance
  distance-some [] b = (_, refl)
  distance-some (x ∷ a) [] = (_, refl)
  distance-some (x ∷ a) (y ∷ b) =
      let range = f.sub (f.max (last x a).1 (last y b).1) (f.min x.1 y.1) in
      let (d, e) =
        sum_deltas-some (x ∷ a) (y ∷ b) (merge_quantiles f (x ∷ a) (y ∷ b)) 0
          (merge_quantiles f (x ∷ a) (y ∷ b)) (zero_f f) (omega arith) in
      elim (Bool-cases (f.lt (f.abs range) f.epsilon)) [
        | inl small ↦ (zero_f f, rw (small, distance) refl)
        | inr wide ↦ (f.div d range, rw (wide, e, distance) refl)
      ]

  -- `similarity` ends with a number for any estimates: no index of `width` is out of range.
  pub similarity-some :
      {T : Type 0} (t : Value F T) (a b : Estimates F T) → (s : F) × (similarity f t a b ≡ some s)
  unfolding similarity
  similarity-some t a b =
      let (d, e) = distance-some (values t a.quantiles) (values t b.quantiles) in
      (f.sub (one_f f) d, rw (e, similarity) refl)

  -- `Display` prints every percentile but the last, and panics if there is none.
  pub shown-append :
      {T : Type 0} (qs : Quantiles F T) (q : F × T)
      → (shown f {T = T} [] ≡ none)
        × (shown f (qs ++ (q ∷ [])) ≡ some (map (λ (p, v). (f.mul p (f.decimal 100 0), v)) qs))
  unfolding shown
  shown-append [] q = (refl, refl)
  shown-append (r ∷ []) q = (refl, refl)
  shown-append (r ∷ (s ∷ qs)) q = (refl, rw ((shown-append (s ∷ qs) q).1, shown) refl)

-- Facts of f64: a finite number less itself is zero, and so is any part of that in a sum; zero
-- over a range that is not small and not a NaN is zero, and one less zero is one.
pub record Cancels (F : Type 0) (f : Floats F) (is_finite is_nan : F → Bool) : Type 0 where
  pub sub_self : (x : F) → is_finite x ≡ true → f.abs (f.sub x x) ≡ zero_f f
  pub add_nothing : (w : F) → is_finite w ≡ true → f.add (zero_f f) (f.mul w (zero_f f)) ≡ zero_f f
  pub no_part :
      (r : F)
      → is_nan r ≡ false
      → f.lt (f.abs r) f.epsilon ≡ false
      → f.sub (one_f f) (f.div (zero_f f) r) ≡ one_f f
  pub sub_zero : f.sub (one_f f) (zero_f f) ≡ one_f f

module _ {F : Type 0} (f : Floats F) (is_finite is_nan : F → Bool)
    (c : Cancels F f is_finite is_nan) where
  -- The widths and the values that `distance` forms are finite, from an index on.
  abbrev pub FiniteFrom : (a all : Quantiles F F) → ℕ → Quantiles F F → Type 0
  FiniteFrom a all i [] = Unit
  FiniteFrom a all i ((p, v) ∷ qs) =
      (is_finite (interpolate_value f a p) ≡ true)
      × ((w : F) × (width f all i ≡ some w) × (is_finite w ≡ true))
      × FiniteFrom a all (i + 1) qs

  sum_deltas_self :
      (a all : Quantiles F F) (i : ℕ) (qs : Quantiles F F)
      → FiniteFrom a all i qs
      → sum_deltas f a a all i qs (zero_f f) ≡ some (zero_f f)
  unfolding sum_deltas
  sum_deltas_self a all i [] h = refl
  sum_deltas_self a all i ((p, v) ∷ qs) (finite, (w, e, wf), h) =
      rw (e, sum_deltas)
        (rw (c.sub_self (interpolate_value f a p) finite, c.add_nothing w wf)
          (sum_deltas_self a all (i + 1) qs h))

  -- The range of values that `distance` forms for estimates and themselves.
  abbrev pub range_of : F × F → Quantiles F F → F
  range_of q qs = f.sub (f.max (last q qs).1 (last q qs).1) (f.min q.1 q.1)

  distance_self :
      (q : F × F) (qs : Quantiles F F)
      → is_nan (range_of q qs) ≡ false
      → FiniteFrom
          (q ∷ qs)
          (merge_quantiles f (q ∷ qs) (q ∷ qs))
          0
          (merge_quantiles f (q ∷ qs) (q ∷ qs))
      → (d : F) × (distance f (q ∷ qs) (q ∷ qs) ≡ some d) × (f.sub (one_f f) d ≡ one_f f)
  unfolding distance
  distance_self q qs n h =
      let r = range_of q qs in
      elim (Bool-cases (f.lt (f.abs r) f.epsilon)) [
        | inl small ↦ (zero_f f, rw (small, distance) refl, c.sub_zero)
        | inr wide ↦ (
          f.div (zero_f f) r,
          rw (wide, sum_deltas_self (q ∷ qs) (merge_quantiles f (q ∷ qs) (q ∷ qs)) 0 _ h, distance)
              refl,
          c.no_part r n wide,
        )
      ]

  -- The similarity of estimates with themselves is one, if they have a quantile, their range is not a
  -- NaN, and the widths and values that `distance` forms of them are finite.
  pub similarity_self :
      {T : Type 0} (t : Value F T) (count : ℕ) (q : F × T) (qs : Quantiles F T)
      → is_nan (range_of (q.0, t.to_f64 q.1) (values t qs)) ≡ false
      → FiniteFrom
          (values t (q ∷ qs))
          (merge_quantiles f (values t (q ∷ qs)) (values t (q ∷ qs)))
          0
          (merge_quantiles f (values t (q ∷ qs)) (values t (q ∷ qs)))
      → similarity f t
          (record { count = count; quantiles = q ∷ qs })
          (record { count = count; quantiles = q ∷ qs })
        ≡ some (one_f f)
  unfolding similarity
  similarity_self t count q qs n h =
      let (d, e, s) = distance_self (q.0, t.to_f64 q.1) (values t qs) n h in
      rw (e, similarity) (ap some s)
