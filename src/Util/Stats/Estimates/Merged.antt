-- ===== src/Util/Stats/Estimates/Merged.antt =====
-- The percentiles that `merge_quantiles` of src/util/stats.rs makes of two lists.
use schtest.Prelude.{
  ◌≡◌, refl, ap, ◌∙◌, Bool, true, false, ◌||◌, ◌⊎◌, inl, inr, List, [], ◌∷◌, ◌++◌, map, arith, All,
  All-append, Bool-cases,
}
use schtest.Util.Stats.Estimates.{
  Floats, Quantiles, contains, push_new, insert_sorted, sort, merged_percentiles, interpolate_value,
  merge_quantiles,
}
use schtest.Util.Stats.Estimates.Brackets.{has_nan}

-- How numbers compare that are not a NaN.
pub record Order (F : Type 0) (f : Floats F) (is_nan : F → Bool) : Type 0 where
  pub trichotomy :
      (a b : F)
      → is_nan a ≡ false
      → is_nan b ≡ false
      → (f.lt a b ≡ true) ⊎ (f.eq a b ≡ true) ⊎ (f.lt b a ≡ true)
  pub lt_trans : (a b c : F) → f.lt a b ≡ true → f.lt b c ≡ true → f.lt a c ≡ true
  pub eq_sym : (a b : F) → f.eq a b ≡ f.eq b a
  pub eq_trans : (a b c : F) → f.eq a b ≡ true → f.eq b c ≡ true → f.eq a c ≡ true

abbrev pub percentiles : {F : Type 0} → Quantiles F F → List F
percentiles [] = []
percentiles ((p, v) ∷ qs) = p ∷ percentiles qs

-- Each percentile is below all later ones.
abbrev pub IsStrict : {F : Type 0} → Floats F → List F → Type 0
IsStrict f [] = Unit
IsStrict f (p ∷ ps) = All (λ q. f.lt p q ≡ true) ps × IsStrict f ps

module _ {F : Type 0} (f : Floats F) (is_nan : F → Bool) (o : Order F f is_nan) where
  abbrev Numbers : List F → Type 0
  Numbers ps = All (λ p. is_nan p ≡ false) ps

  -- No percentile is equal to a later one.
  Distinct : List F → Type 0
  unfolding contains
  Distinct [] = Unit
  Distinct (p ∷ ps) = (contains f p ps ≡ false) × Distinct ps

  contains-append :
      (r : F) (ps qs : List F) → contains f r (ps ++ qs) ≡ (contains f r ps || contains f r qs)
  unfolding contains
  contains-append r [] qs = refl
  contains-append r (p ∷ ps) qs = ground (arith, contains-append r ps qs)

  contains-eq :
      (p r : F) (ps : List F) → contains f p ps ≡ true → f.eq p r ≡ true → contains f r ps ≡ true
  unfolding contains
  contains-eq p r [] h e = absurd (cc)
  contains-eq p r (q ∷ ps) h e = elim (Bool-cases (f.eq q p)) [
    | inl same ↦ rw (o.eq_trans q p r same e) refl
    | inr other ↦ elim (Bool-cases (f.eq q r)) [
      | inl s ↦ rw s refl
      | inr s ↦ rw s (contains-eq p r ps (ground arith) e)
    ]
  ]

  snoc-Distinct :
      (p : F) (ps : List F) → contains f p ps ≡ false → Distinct ps → Distinct (ps ++ (p ∷ []))
  unfolding Distinct contains
  snoc-Distinct p [] n d = (refl, tt)
  snoc-Distinct p (q ∷ ps) n d = (
    contains-append q ps (p ∷ []) ∙ rw (d.0, o.eq_sym p q) (ground arith),
    snoc-Distinct p ps (ground arith) d.1,
  )

  -- What the loops of `merge_quantiles` gather.
  record Gathered (ps : List F) (qs : Quantiles F F) (all : List F) : Type 0 where
    pub numbers : Numbers all
    pub distinct : Distinct all
    pub members : (r : F) → contains f r all ≡ (contains f r ps || contains f r (percentiles qs))

  push_new-Gathered :
      (ps : List F) (qs : Quantiles F F)
      → Numbers ps
      → Distinct ps
      → has_nan is_nan qs ≡ false
      → Gathered ps qs (push_new f ps qs)
  unfolding push_new contains
  push_new-Gathered ps [] n d h = record { numbers = n; distinct = d; members = λ r. ground arith }
  push_new-Gathered ps ((p, v) ∷ qs) n d h = elim (Bool-cases (contains f p ps)) [
    | inl there ↦
        let g = push_new-Gathered ps qs n d (ground arith) in
        rw (there, push_new)
          (record {
            numbers = g.numbers;
            distinct = g.distinct;
            members = λ r. g.members r ∙ elim (Bool-cases (f.eq p r)) [
              | inl e ↦ rw (e, contains-eq p r ps there e) refl
              | inr e ↦ rw e refl
            ];
          })
    | inr new ↦
        let g =
          push_new-Gathered (ps ++ (p ∷ [])) qs
            (All-append (λ q. is_nan q ≡ false) ps (p ∷ []) n (ground (arith, h), tt))
            (snoc-Distinct p ps new d) (ground arith) in
        rw (new, push_new)
          (record {
            numbers = g.numbers;
            distinct = g.distinct;
            members = λ r. g.members r ∙ rw (contains-append r ps (p ∷ [])) (joined r);
          })
  ]
    where
      joined :
          (r : F)
          → ((contains f r ps || contains f r (p ∷ [])) || contains f r (percentiles qs))
            ≡ (contains f r ps || contains f r (p ∷ percentiles qs))
      joined r = ground arith

  contains-insert_sorted :
      (r p : F) (ps : List F) → contains f r (insert_sorted f p ps) ≡ contains f r (p ∷ ps)
  unfolding insert_sorted contains
  contains-insert_sorted r p [] = refl
  contains-insert_sorted r p (q ∷ ps) = elim (Bool-cases (f.lt q p)) [
    | inl e ↦ rw e (rw (contains-insert_sorted r p ps) (ground arith))
    | inr e ↦ rw e refl
  ]

  pub contains-sort : (r : F) (ps : List F) → contains f r (sort f ps) ≡ contains f r ps
  unfolding sort contains
  contains-sort r [] = refl
  contains-sort r (p ∷ ps) = contains-insert_sorted r p (sort f ps) ∙ rw (contains-sort r ps) refl

  All-insert_sorted {κ} :
      (P : F → Type κ) (p : F) (ps : List F) → P p → All P ps → All P (insert_sorted f p ps)
  unfolding insert_sorted
  All-insert_sorted P p [] h a = (h, tt)
  All-insert_sorted P p (q ∷ ps) h a = elim (Bool-cases (f.lt q p)) [
    | inl e ↦ rw e (a.0, All-insert_sorted P p ps h a.1)
    | inr e ↦ rw e (h, a)
  ]

  sort-Numbers : (ps : List F) → Numbers ps → Numbers (sort f ps)
  unfolding sort
  sort-Numbers [] n = tt
  sort-Numbers (p ∷ ps) n =
      All-insert_sorted (λ q. is_nan q ≡ false) p (sort f ps) n.0 (sort-Numbers ps n.1)

  below_rest :
      (p q : F) (ps : List F)
      → f.lt p q ≡ true
      → All (λ r. f.lt q r ≡ true) ps
      → All (λ r. f.lt p r ≡ true) ps
  below_rest p q [] h a = tt
  below_rest p q (r ∷ ps) h a = (o.lt_trans p q r h a.0, below_rest p q ps h a.1)

  insert_sorted-IsStrict :
      (p : F) (ps : List F)
      → is_nan p ≡ false
      → Numbers ps
      → contains f p ps ≡ false
      → IsStrict f ps
      → IsStrict f (insert_sorted f p ps)
  unfolding insert_sorted contains
  insert_sorted-IsStrict p [] n ns c s = (tt, tt)
  insert_sorted-IsStrict p (q ∷ ps) n ns c s = elim (Bool-cases (f.lt q p)) [
    | inl e ↦ rw e (
      All-insert_sorted (λ r. f.lt q r ≡ true) p ps e s.0,
      insert_sorted-IsStrict p ps n ns.1 (ground arith) s.1,
    )
    | inr e ↦ rw e ((first e, below_rest p q ps (first e) s.0), s)
  ]
    where
      first : f.lt q p ≡ false → f.lt p q ≡ true
      first e = elim (o.trichotomy p q n ns.0) [
        | inl lt ↦ lt
        | inr (inl same) ↦ absurd (ground (arith, c, o.eq_sym p q))
        | inr (inr gt) ↦ absurd (cc)
      ]

  sort-IsStrict : (ps : List F) → Numbers ps → Distinct ps → IsStrict f (sort f ps)
  unfolding sort Distinct
  sort-IsStrict [] n d = tt
  sort-IsStrict (p ∷ ps) n d =
      insert_sorted-IsStrict p (sort f ps) n.0 (sort-Numbers ps n.1) (contains-sort p ps ∙ d.0)
        (sort-IsStrict ps n.1 d.1)

  percentiles-map : (h : F → F) (ps : List F) → percentiles (map (λ p. (p, h p)) ps) ≡ ps
  percentiles-map h [] = refl
  percentiles-map h (p ∷ ps) = ap (λ qs. p ∷ qs) (percentiles-map h ps)

  -- Without a NaN among the percentiles, those of the merged quantiles ascend strictly, and are those
  -- of the two lists, up to equality of numbers.
  pub merge_quantiles-IsStrict :
      (a b : Quantiles F F)
      → has_nan is_nan a ≡ false
      → has_nan is_nan b ≡ false
      → IsStrict f (percentiles (merge_quantiles f a b))
        × ((r : F)
            → contains f r (percentiles (merge_quantiles f a b))
              ≡ (contains f r (percentiles a) || contains f r (percentiles b)))
  unfolding merge_quantiles merged_percentiles Distinct contains
  merge_quantiles-IsStrict a b ha hb =
      rw
        (percentiles-map
          (λ p. f.div (f.add (interpolate_value f a p) (interpolate_value f b p)) (f.decimal 2 0))
          (sort f (push_new f (push_new f [] a) b)))
        (
          sort-IsStrict _ gb.numbers gb.distinct,
          λ r.
              contains-sort r (push_new f (push_new f [] a) b)
              ∙ gb.members r
              ∙ rw (ga.members r) refl,
        )
    where
      ga : Gathered [] a (push_new f [] a)
      ga = push_new-Gathered [] a tt tt ha

      gb : Gathered (push_new f [] a) b (push_new f (push_new f [] a) b)
      gb = push_new-Gathered (push_new f [] a) b ga.numbers ga.distinct hb
