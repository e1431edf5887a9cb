-- ===== src/Util/System/Load/Rows.antt =====
-- What a topology holds, as rows: a CPU under the identifiers of its node, complex and core.
use mathlib.Core.List.{Permᴰ}
use mathlib.Core.List.Permᴰ
use schtest.Prelude.{
  ℕ, ◌≡◌, refl, ap, subst, true, List, [], ◌∷◌, ◌++◌, map, arith, Bool-cases, inl, inr,
}
use schtest.Prelude.Int.{ℤ, pos, negsuc, pos_part, leb_ℤ}
use schtest.Util.System.Load.{
  BTreeMap, change, Cores, Complexes, Topology, Ids, as_i32, push_cpu, add_cpu,
}

pub record Row : Type 0 where
  pub ids : Ids
  pub cpu : ℕ

abbrev pub collect {ℓ κ} : {A : Type ℓ} {B : Type κ} → (A → List B) → List A → List B
collect f [] = []
collect f (x ∷ xs) = f x ++ collect f xs

-- A row of a core, of a complex, of a node.
abbrev pub row : ℤ → ℤ → ℤ → ℕ → Row
row n c k cpu = record { ids = record { node_id = n; complex_id = c; core_id = k }; cpu = cpu }

abbrev pub core_rows : ℤ → ℤ → ℤ × List ℕ → List Row
core_rows n c (k, cpus) = map (row n c k) cpus

abbrev pub complex_rows : ℤ → ℤ × Cores → List Row
complex_rows n (c, cores) = collect (core_rows n c) cores

abbrev pub node_rows : ℤ × Complexes → List Row
node_rows (n, complexes) = collect (complex_rows n) complexes

pub leb_ℤ-antisym : (a b : ℤ) → leb_ℤ a b ≡ true → leb_ℤ b a ≡ true → b ≡ a
leb_ℤ-antisym (pos a) (pos b) h k = ap pos (ground arith)
leb_ℤ-antisym (pos a) (negsuc b) h k = absurd (ground arith)
leb_ℤ-antisym (negsuc a) (pos b) h k = absurd (ground arith)
leb_ℤ-antisym (negsuc a) (negsuc b) h k = ap negsuc (ground arith)

-- A change of a value that adds one item to what is collected from it.
module _ {ℓ κ} {V : Type ℓ} {R : Type κ} (g : ℤ × V → List R) (default : V) (k : ℤ) (f : V → V)
    (x : R) (adds : (v : V) → Permᴰ (g (k, f v)) (x ∷ g (k, v)))
    (nothing : g (k, default) ≡ []) where
  add_new : (rest : List R) → Permᴰ (g (k, f default) ++ rest) (x ∷ rest)
  add_new rest =
      subst (λ ys. Permᴰ (g (k, f default) ++ rest) (x ∷ (ys ++ rest))) nothing
        (Permᴰ.append_right rest (adds default))

  pub collect-change : (m : BTreeMap V) → Permᴰ (collect g (change default k f m)) (x ∷ collect g m)
  unfolding change
  collect-change [] = add_new []
  collect-change ((j, v) ∷ m) = elim (Bool-cases (leb_ℤ k j)) [
    | inl le ↦ elim (Bool-cases (leb_ℤ j k)) [
      | inl ge ↦ rw (le, ge, leb_ℤ-antisym k j le ge) (Permᴰ.append_right (collect g m) (adds v))
      | inr lt ↦ rw (le, lt) (add_new (collect g ((j, v) ∷ m)))
    ]
    | inr gt ↦ rw gt (
        Permᴰ.trans (Permᴰ.append_left (g (j, v)) (collect-change m))
          (Permᴰ.middle x (g (j, v)) (collect g m)))
  ]

map-snoc {ℓ κ} :
    {A : Type ℓ} {B : Type κ} (f : A → B) (xs : List A) (x : A)
    → Permᴰ (map f (xs ++ (x ∷ []))) (f x ∷ map f xs)
map-snoc f [] x = Permᴰ.refl _
map-snoc f (y ∷ xs) x = Permᴰ.trans (Permᴰ.cons refl (map-snoc f xs x)) (Permᴰ.swap refl refl)

-- Adding a CPU adds its row.
pub collect-add_cpu :
    (cpu : ℕ) (i : Ids) (m : Topology)
    → Permᴰ
        (collect node_rows (add_cpu cpu i m))
        (record { ids = i; cpu = pos_part (as_i32 cpu) } ∷ collect node_rows m)
unfolding add_cpu
collect-add_cpu cpu i =
    collect-change node_rows [] i.node_id
      (change [] i.complex_id (change [] i.core_id (push_cpu cpu))) _
      (collect-change (complex_rows i.node_id) [] i.complex_id (change [] i.core_id (push_cpu cpu))
        _
        (collect-change (core_rows i.node_id i.complex_id) [] i.core_id (push_cpu cpu) _
          (λ cpus. map-snoc (row i.node_id i.complex_id i.core_id) cpus (pos_part (as_i32 cpu)))
          refl)
        refl)
      refl
