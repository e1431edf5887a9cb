-- ===== src/Util/System/Display/Unique.antt =====
-- What the text of a system in src/util/system.rs tells of it.
use schtest.Prelude.{ℕ, ◌≡◌, ◌≢◌, refl, sym, ap, ◌∙◌, List, [], ◌∷◌, ◌++◌, drop, arith}
use schtest.Prelude.Int.{ℤ}
use schtest.Prelude.Text.{codes}
use schtest.Util.System.{Hyperthread, Core, CoreComplex, Node, logical_cpus, new}
use schtest.Util.System.Display.{
  fmt_rest, fmt_items, fmt_hyperthread, fmt_core, fmt_complex, fmt_node, fmt_system,
}

-- A text tells what it is of, and where it ends.
abbrev pub Tells : {A : Type 0} → (A → List ℕ → List ℕ) → Type 0
Tells {A} fmt = (x y : A) (r s : List ℕ) → fmt x r ≡ fmt y s → (x ≡ y) × (r ≡ s)

-- The same of a number before a given character.
abbrev pub TellsBefore : {A : Type 0} → ℕ → (A → List ℕ) → Type 0
TellsBefore {A} c text =
    (x y : A) (r s : List ℕ) → text x ++ (c ∷ r) ≡ text y ++ (c ∷ s) → (x ≡ y) × (r ≡ s)

cons_eq : {A : Type 0} (x y : A) (xs ys : List A) → x ≡ y → xs ≡ ys → x ∷ xs ≡ y ∷ ys
cons_eq x y xs ys p q = ap (λ z. z ∷ xs) p ∙ ap (λ zs. y ∷ zs) q

first_of : List ℕ → ℕ
first_of [] = 0
first_of (c ∷ s) = c

-- Texts that begin with different characters are different.
pub differ : (a b : ℕ) (r s : List ℕ) → a ≢ b → a ∷ r ≢ b ∷ s
unfolding first_of
differ a b r s h e = h (ap first_of e)

module _ {A : Type 0} (fmt : A → List ℕ → List ℕ) (tells : Tells fmt)
    (opens : (x : A) (r s : List ℕ) → fmt x r ≢ 93 ∷ s) where
  fmt_rest-Tells :
      (xs ys : List A) (r s : List ℕ)
      → fmt_rest fmt xs (93 ∷ r) ≡ fmt_rest fmt ys (93 ∷ s)
      → (xs ≡ ys) × (r ≡ s)
  unfolding fmt_rest
  fmt_rest-Tells [] [] r s e = (refl, ap (drop 1) e)
  fmt_rest-Tells [] (y ∷ ys) r s e =
      absurd (differ 93 44 r (32 ∷ fmt y (fmt_rest fmt ys (93 ∷ s))) (λ h. omega (arith, h)) e)
  fmt_rest-Tells (x ∷ xs) [] r s e =
      absurd (differ 44 93 (32 ∷ fmt x (fmt_rest fmt xs (93 ∷ r))) s (λ h. omega (arith, h)) e)
  fmt_rest-Tells (x ∷ xs) (y ∷ ys) r s e =
      let (h, k) =
        tells x y (fmt_rest fmt xs (93 ∷ r)) (fmt_rest fmt ys (93 ∷ s)) (ap (drop 2) e) in
      let (t, l) = fmt_rest-Tells xs ys r s k in (cons_eq x y xs ys h t, l)

  pub fmt_items-Tells :
      (xs ys : List A) (r s : List ℕ)
      → fmt_items fmt xs (93 ∷ r) ≡ fmt_items fmt ys (93 ∷ s)
      → (xs ≡ ys) × (r ≡ s)
  unfolding fmt_items
  fmt_items-Tells [] [] r s e = (refl, ap (drop 1) e)
  fmt_items-Tells [] (y ∷ ys) r s e = absurd (opens y (fmt_rest fmt ys (93 ∷ s)) r (sym e))
  fmt_items-Tells (x ∷ xs) [] r s e = absurd (opens x (fmt_rest fmt xs (93 ∷ r)) s e)
  fmt_items-Tells (x ∷ xs) (y ∷ ys) r s e =
      let (h, k) = tells x y (fmt_rest fmt xs (93 ∷ r)) (fmt_rest fmt ys (93 ∷ s)) e in
      let (t, l) = fmt_rest-Tells xs ys r s k in (cons_eq x y xs ys h t, l)

module _ (usize_text : ℕ → List ℕ) (i32_text : ℤ → List ℕ)
    (usize_tells : TellsBefore 125 usize_text) (i32_tells : TellsBefore 44 i32_text) where
  fmt_hyperthread-Tells : Tells (fmt_hyperthread usize_text i32_text)
  unfolding fmt_hyperthread
  fmt_hyperthread-Tells x y r s e =
      let (h, k) = usize_tells x.id y.id r s (ap (drop 15) e) in (ap (λ i. record { id = i }) h, k)

  opens_hyperthread :
      (x : Hyperthread) (r s : List ℕ) → fmt_hyperthread usize_text i32_text x r ≢ 93 ∷ s
  unfolding fmt_hyperthread
  opens_hyperthread x r s = differ 72 93 _ s (λ h. omega (arith, h))

  opens_core : (x : Core) (r s : List ℕ) → fmt_core usize_text i32_text x r ≢ 93 ∷ s
  unfolding fmt_core
  opens_core x r s = differ 67 93 _ s (λ h. omega (arith, h))

  opens_complex : (x : CoreComplex) (r s : List ℕ) → fmt_complex usize_text i32_text x r ≢ 93 ∷ s
  unfolding fmt_complex
  opens_complex x r s = differ 67 93 _ s (λ h. omega (arith, h))

  opens_node : (x : Node) (r s : List ℕ) → fmt_node usize_text i32_text x r ≢ 93 ∷ s
  unfolding fmt_node
  opens_node x r s = differ 78 93 _ s (λ h. omega (arith, h))

  -- An identifier, a label of some length, and a list between brackets.
  fmt_listed-Tells :
      {A : Type 0} (fmt : A → List ℕ → List ℕ)
      → Tells fmt
      → ((x : A) (r s : List ℕ) → fmt x r ≢ 93 ∷ s)
      → (n : ℕ) (middle : List ℕ → List ℕ) → ((t : List ℕ) → drop n (middle t) ≡ t)
      → (i j : ℤ) (xs ys : List A) (r s : List ℕ)
      → i32_text i ++ (44 ∷ middle (fmt_items fmt xs (93 ∷ 125 ∷ r)))
        ≡ i32_text j ++ (44 ∷ middle (fmt_items fmt ys (93 ∷ 125 ∷ s)))
      → (i ≡ j) × (xs ≡ ys) × (r ≡ s)
  fmt_listed-Tells fmt tells opens n middle drops i j xs ys r s e =
      let (h, k) = i32_tells i j _ _ e in
      let k' =
        sym (drops (fmt_items fmt xs (93 ∷ 125 ∷ r)))
        ∙ ap (drop n) k
        ∙ drops (fmt_items fmt ys (93 ∷ 125 ∷ s)) in
      let (t, l) = fmt_items-Tells fmt tells opens xs ys (125 ∷ r) (125 ∷ s) k' in
      (h, t, ap (drop 1) l)

  fmt_core-Tells : Tells (fmt_core usize_text i32_text)
  unfolding fmt_core
  fmt_core-Tells x y r s e =
      let (h, t, l) =
        fmt_listed-Tells (fmt_hyperthread usize_text i32_text) fmt_hyperthread-Tells
          opens_hyperthread 15 (λ u. codes " hyperthreads=[" ++ u) (λ u. refl) x.id y.id
          x.hyperthreads y.hyperthreads r s (ap (drop 8) e) in
      (
        ap (λ i. record { id = i; hyperthreads = x.hyperthreads }) h
            ∙ ap (λ hs. record { id = y.id; hyperthreads = hs }) t,
        l,
      )

  fmt_complex-Tells : Tells (fmt_complex usize_text i32_text)
  unfolding fmt_complex
  fmt_complex-Tells x y r s e =
      let (h, t, l) =
        fmt_listed-Tells (fmt_core usize_text i32_text) fmt_core-Tells opens_core 8
          (λ u. codes " cores=[" ++ u) (λ u. refl) x.id y.id x.cores y.cores r s (ap (drop 15) e) in
      (
        ap (λ i. record { id = i; cores = x.cores }) h
            ∙ ap (λ cs. record { id = y.id; cores = cs }) t,
        l,
      )

  fmt_node-Tells : Tells (fmt_node usize_text i32_text)
  unfolding fmt_node
  fmt_node-Tells x y r s e =
      let (h, t, l) =
        fmt_listed-Tells (fmt_complex usize_text i32_text) fmt_complex-Tells opens_complex 12
          (λ u. codes " complexes=[" ++ u) (λ u. refl) x.id y.id x.complexes y.complexes r s
          (ap (drop 8) e) in
      (
        ap (λ i. record { id = i; complexes = x.complexes }) h
            ∙ ap (λ cs. record { id = y.id; complexes = cs }) t,
        l,
      )

  -- If the texts of numbers tell the numbers before the characters that follow them, two systems with
  -- the same text have the same nodes, with all that is in them, so two systems that are made of
  -- nodes are the same.
  pub fmt_system-Tells :
      (a b : List Node) (r s : List ℕ)
      → fmt_system usize_text i32_text (new a) r ≡ fmt_system usize_text i32_text (new b) s
      → (new a ≡ new b) × (r ≡ s)
  unfolding fmt_system new
  fmt_system-Tells a b r s e =
      let (t, k) =
        fmt_items-Tells (fmt_node usize_text i32_text) fmt_node-Tells opens_node a b _ _
          (ap (drop 14) e) in
      let (h, l) = usize_tells (logical_cpus (new a)) (logical_cpus (new b)) r s (ap (drop 15) k) in
      (ap new t, l)
