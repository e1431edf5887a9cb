-- ===== src/Cases/Topology/Different.antt =====
-- Lists of identifiers, and how many different ones they hold.
use schtest.Prelude.{
  ℕ, suc, ◌≤◌, ◌≡◌, ◌≢◌, refl, ap, sym, subst, ◌∙◌, Bool, true, false, ◌||◌, List, [], ◌∷◌, ◌++◌,
  arith, All, length, Bool-cases, inl, inr, if◌then◌else◌,
}
use schtest.Prelude.Int.{ℤ, eq_ℤ, eq_ℤ-self, eq_ℤ-eq}

unfoldable pub has : ℤ → List ℤ → Bool
has id [] = false
has id (k ∷ ks) = eq_ℤ k id || has id ks

-- The number of different identifiers.
pub count_different : List ℤ → ℕ
unfolding has
count_different [] = 0
count_different (k ∷ ks) = if has k ks then count_different ks else suc (count_different ks)

unfoldable pub Distinct : List ℤ → Type 0
unfolding has
Distinct [] = Unit
Distinct (k ∷ ks) = (has k ks ≡ false) × Distinct ks

-- Every identifier of the first list is one of the second.
unfoldable pub Within : List ℤ → List ℤ → Type 0
unfolding has
Within ks ids = All (λ k. has k ids ≡ true) ks

without : ℤ → List ℤ → List ℤ
without x [] = []
without x (k ∷ ks) = if eq_ℤ k x then without x ks else k ∷ without x ks

has-without : (id x : ℤ) (ks : List ℤ) → has id ks ≡ false → has id (without x ks) ≡ false
unfolding has without
has-without id x [] h = refl
has-without id x (k ∷ ks) h = elim (Bool-cases (eq_ℤ k x)) [
  | inl e ↦ rw e (has-without id x ks (ground arith))
  | inr e ↦ rw (e, has) (ground (arith, has-without id x ks (ground arith)))
]

without-Distinct : (x : ℤ) (ks : List ℤ) → Distinct ks → Distinct (without x ks)
unfolding Distinct without
without-Distinct x [] d = tt
without-Distinct x (k ∷ ks) d = elim (Bool-cases (eq_ℤ k x)) [
  | inl e ↦ rw e (without-Distinct x ks d.1)
  | inr e ↦ rw e (has-without k x ks d.0, without-Distinct x ks d.1)
]

without_absent : (x : ℤ) (ks : List ℤ) → has x ks ≡ false → without x ks ≡ ks
unfolding has without
without_absent x [] h = refl
without_absent x (k ∷ ks) h = elim (Bool-cases (eq_ℤ k x)) [
  | inl e ↦ absurd (ground arith)
  | inr e ↦ rw e (ap (λ l. k ∷ l) (without_absent x ks (ground arith)))
]

length-without : (x : ℤ) (ks : List ℤ) → Distinct ks → length ks ≤ suc (length (without x ks))
unfolding Distinct without
length-without x [] d = omega arith
length-without x (k ∷ ks) d = elim (Bool-cases (eq_ℤ k x)) [
  | inl e ↦
      rw e
        (rw (without_absent x ks (subst (λ z. has z ks ≡ false) (eq_ℤ-eq k x e) d.0)) (omega arith))
  | inr e ↦ rw e (omega (arith, length-without x ks d.1))
]

pub eq_ℤ_comm : (a b : ℤ) → eq_ℤ a b ≡ false → eq_ℤ b a ≡ false
eq_ℤ_comm a b h = elim (Bool-cases (eq_ℤ b a)) [
  | inl e ↦ absurd (false≢true (sym h ∙ subst (λ c. eq_ℤ c b ≡ true) (eq_ℤ-eq b a e) (eq_ℤ-self b)))
  | inr e ↦ e
]
  where
    false≢true : false ≢ true
    false≢true e = cc

has_tail : (x k : ℤ) (ids : List ℤ) → eq_ℤ k x ≡ false → has k (x ∷ ids) ≡ true → has k ids ≡ true
unfolding has
has_tail x k ids e h = ground (arith, eq_ℤ_comm k x e)

repeated : (x : ℤ) (ks ids : List ℤ) → has x ids ≡ true → Within ks (x ∷ ids) → Within ks ids
unfolding Within has
repeated x [] ids h w = tt
repeated x (k ∷ ks) ids h w = (
  elim (Bool-cases (eq_ℤ x k)) [
    | inl e ↦ subst (λ z. has z ids ≡ true) (eq_ℤ-eq x k e) h
    | inr e ↦ ground arith
  ],
  repeated x ks ids h w.1,
)

without-Within : (x : ℤ) (ks ids : List ℤ) → Within ks (x ∷ ids) → Within (without x ks) ids
unfolding Within without has
without-Within x [] ids w = tt
without-Within x (k ∷ ks) ids w = elim (Bool-cases (eq_ℤ k x)) [
  | inl e ↦ rw e (without-Within x ks ids w.1)
  | inr e ↦ rw e (has_tail x k ids e w.0, without-Within x ks ids w.1)
]

-- Different identifiers of a list are at most as many as it has.
pub pigeonhole : (ids ks : List ℤ) → Distinct ks → Within ks ids → length ks ≤ count_different ids
unfolding count_different Within has
pigeonhole [] [] d w = omega arith
pigeonhole [] (k ∷ ks) d w = absurd (cc)
pigeonhole (x ∷ ids) ks d w = elim (Bool-cases (has x ids)) [
  | inl e ↦ rw (e, count_different) (pigeonhole ids ks d (repeated x ks ids e w))
  | inr e ↦
      rw (e, count_different)
        (omega (
          arith,
          length-without x ks d,
          pigeonhole ids (without x ks) (without-Distinct x ks d) (without-Within x ks ids w),
        ))
]

pub has-append : (id : ℤ) (ks ls : List ℤ) → has id (ks ++ ls) ≡ (has id ks || has id ls)
unfolding has
has-append id [] ls = refl
has-append id (k ∷ ks) ls = ground (arith, has-append id ks ls)

pub dedup : List ℤ → List ℤ
unfolding has
dedup [] = []
dedup (k ∷ ks) = if has k ks then dedup ks else k ∷ dedup ks

length-dedup : (ks : List ℤ) → length (dedup ks) ≡ count_different ks
unfolding dedup count_different
length-dedup [] = refl
length-dedup (k ∷ ks) = elim (Bool-cases (has k ks)) [
  | inl e ↦ rw e (length-dedup ks)
  | inr e ↦ rw e (ap suc (length-dedup ks))
]

already : (id k : ℤ) (ks : List ℤ) → has k ks ≡ true → has id ks ≡ (eq_ℤ k id || has id ks)
already id k ks e = elim (Bool-cases (eq_ℤ k id)) [
  | inl same ↦ rw same (subst (λ z. has z ks ≡ true) (eq_ℤ-eq k id same) e)
  | inr other ↦ rw other refl
]

has-dedup : (id : ℤ) (ks : List ℤ) → has id (dedup ks) ≡ has id ks
unfolding dedup has
has-dedup id [] = refl
has-dedup id (k ∷ ks) = elim (Bool-cases (has k ks)) [
  | inl e ↦ rw e (has-dedup id ks ∙ already id k ks e)
  | inr e ↦ rw e (rw (has-dedup id ks) refl)
]

dedup-Distinct : (ks : List ℤ) → Distinct (dedup ks)
unfolding dedup Distinct
dedup-Distinct [] = tt
dedup-Distinct (k ∷ ks) = elim (Bool-cases (has k ks)) [
  | inl e ↦ rw e (dedup-Distinct ks)
  | inr e ↦ rw e (has-dedup k ks ∙ e, dedup-Distinct ks)
]

-- A list whose identifiers are among those of another.
unfoldable pub Among : List ℤ → List ℤ → Type 0
Among ks ids = (id : ℤ) → has id ks ≡ true → has id ids ≡ true

Among-Within : (ks ids : List ℤ) → Among ks ids → Within ks ids
unfolding Among Within has
Among-Within [] ids h = tt
Among-Within (k ∷ ks) ids h =
    (h k (rw (eq_ℤ-self k) refl), Among-Within ks ids (λ id e. h id (ground arith)))

pub different-Among : (ks ids : List ℤ) → Among ks ids → count_different ks ≤ count_different ids
unfolding Among
different-Among ks ids h = omega (
  arith,
  length-dedup ks,
  pigeonhole ids (dedup ks) (dedup-Distinct ks)
      (Among-Within (dedup ks) ids (λ id e. h id (sym (has-dedup id ks) ∙ e))),
)

pub different-Distinct : (ks : List ℤ) → Distinct ks → count_different ks ≡ length ks
unfolding count_different Distinct
different-Distinct [] d = refl
different-Distinct (k ∷ ks) d = rw d.0 (ap suc (different-Distinct ks d.1))
