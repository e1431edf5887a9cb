-- ===== src/Util/Stats/Visualize/Sorted.antt =====
-- How `visualize` of src/util/stats.rs sorts its points: numbers stay, a NaN among several is a panic.
use schtest.Prelude.{
  suc, ◌<◌, ◌≡◌, refl, ap, ◌∙◌, sym, Bool, true, false, ◌&&◌, ◌||◌, not, none, some, List, [], ◌∷◌,
  length, All, arith, inl, inr, Option-cases, Bool-cases, subst,
}
use mathlib.Core.Option.{some-injective, none-ne-some}
use schtest.Util.Stats.Estimates.{Floats, Value}
use schtest.Util.Stats.Visualize.{Screen, Point, comparable, insert_point, sort_points}

module _ {F T : Type 0} (f : Floats F) (t : Value F T) (screen : Screen F T) where
  -- `partial_cmp` has an answer exactly on two numbers; the others are the NaN.
  abbrev pub Partial : (F → Bool) → Type 0
  Partial is_number = (a b : F) → comparable f t screen a b ≡ (is_number a && is_number b)

  module _ (is_number : F → Bool) (law : Partial is_number) where
    abbrev pub HasNumber : Point F → Type 0
    HasNumber p = is_number p.value ≡ true

    insert_point-some :
        (p : Point F) (qs : List (Point F))
        → HasNumber p
        → All HasNumber qs
        → (r : List (Point F)) × (insert_point f t screen p qs ≡ some r) × All HasNumber r
    unfolding insert_point
    insert_point-some p [] h hs = (p ∷ [], refl, (h, tt))
    insert_point-some p (q ∷ qs) h (hq, hs) =
        let (r, e, hr) = insert_point-some p qs h hs in
        let c = law q.value p.value in
        elim (Bool-cases (f.lt q.value p.value)) [
          | inl below ↦ (q ∷ r, rw (insert_point, c, hq, h, below, e) refl, (hq, hr))
          | inr above ↦ (p ∷ q ∷ qs, rw (insert_point, c, hq, h, above) refl, (h, (hq, hs)))
        ]

    pub sort_points-some :
        (ps : List (Point F))
        → All HasNumber ps
        → (r : List (Point F)) × (sort_points f t screen ps ≡ some r) × All HasNumber r
    unfolding sort_points
    sort_points-some [] h = ([], refl, tt)
    sort_points-some (p ∷ ps) (hp, hs) =
        let (r, e, hr) = sort_points-some ps hs in
        let (s, i, hi) = insert_point-some p r hp hr in (s, rw e i, hi)

    length-insert_point :
        (p : Point F) (qs r : List (Point F))
        → insert_point f t screen p qs ≡ some r
        → length r ≡ suc (length qs)
    unfolding insert_point
    length-insert_point p [] r e = ap length (sym (some-injective _ _ e))
    length-insert_point p (q ∷ qs) r e = elim (Bool-cases (comparable f t screen q.value p.value)) [
      | inr apart ↦ let g = rw (insert_point, apart) at e in absurd (none-ne-some _ g)
      | inl near ↦ elim (Bool-cases (f.lt q.value p.value)) [
        | inr above ↦
            let g = rw (insert_point, near, above) at e in ap length (sym (some-injective _ _ g))
        | inl below ↦ elim (Option-cases (insert_point f t screen p qs)) [
          | inl stuck ↦
              let g = rw (insert_point, near, below, stuck) at e in absurd (none-ne-some _ g)
          | inr (s, later) ↦
              let g = rw (insert_point, near, below, later) at e in
              ap length (sym (some-injective _ _ g)) ∙ ap suc (length-insert_point p qs s later)
        ]
      ]
    ]

    pub length-sort_points :
        (ps r : List (Point F)) → sort_points f t screen ps ≡ some r → length r ≡ length ps
    unfolding sort_points
    length-sort_points [] r e = ap length (sym (some-injective _ _ e))
    length-sort_points (p ∷ ps) r e = elim (Option-cases (sort_points f t screen ps)) [
      | inl stuck ↦ let g = rw (sort_points, stuck) at e in absurd (none-ne-some _ g)
      | inr (s, later) ↦
          let g = rw (sort_points, later) at e in
          length-insert_point p s r g ∙ ap suc (length-sort_points ps s later)
    ]

    abbrev pub has_nan : List (Point F) → Bool
    has_nan [] = false
    has_nan (p ∷ ps) = not (is_number p.value) || has_nan ps

    insert_point-none :
        (p : Point F) (qs : List (Point F))
        → is_number p.value ≡ false
        → 0 < length qs
        → insert_point f t screen p qs ≡ none
    unfolding insert_point
    insert_point-none p [] nan some_q = elim some_q [ ]
    insert_point-none p (q ∷ qs) nan some_q =
        let c = law q.value p.value in
        let apart : (is_number q.value && is_number p.value) ≡ false = ground arith in
        rw (insert_point, c, apart) refl

    sort_points_stuck :
        (p : Point F) (ps : List (Point F))
        → sort_points f t screen ps ≡ none
        → sort_points f t screen (p ∷ ps) ≡ none
    unfolding sort_points
    sort_points_stuck p ps e = rw e refl

    sort_points_nan :
        (p : Point F) (ps s : List (Point F))
        → is_number p.value ≡ false
        → 0 < length ps
        → sort_points f t screen ps ≡ some s
        → sort_points f t screen (p ∷ ps) ≡ none
    unfolding sort_points
    sort_points_nan p ps s nan some_p e =
        rw e
          (insert_point-none p s nan (subst (λ n. 0 < n) (sym (length-sort_points ps s e)) some_p))

    pub sort_points-none :
        (ps : List (Point F)) → 1 < length ps → has_nan ps ≡ true → sort_points f t screen ps ≡ none
    unfolding sort_points
    sort_points-none [] two nan = elim two [ ]
    sort_points-none (p ∷ []) two nan = absurd (omega arith)
    sort_points-none (p ∷ (q ∷ [])) two nan =
        let c = law q.value p.value in
        let apart : (is_number q.value && is_number p.value) ≡ false = ground arith in
        rw (insert_point, insert_point, c, apart) refl
    sort_points-none (p ∷ (q ∷ (r ∷ ps))) two nan = elim (Bool-cases (is_number p.value)) [
      | inl number ↦
          let later = sort_points-none (q ∷ (r ∷ ps)) (omega arith) (ground arith) in
          sort_points_stuck p (q ∷ (r ∷ ps)) later
      | inr other ↦ elim (Option-cases (sort_points f t screen (q ∷ (r ∷ ps)))) [
        | inl stuck ↦ sort_points_stuck p (q ∷ (r ∷ ps)) stuck
        | inr (s, sorted) ↦ sort_points_nan p (q ∷ (r ∷ ps)) s other (omega arith) sorted
      ]
    ]
