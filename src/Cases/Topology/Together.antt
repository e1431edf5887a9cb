-- ===== src/Cases/Topology/Together.antt =====
-- What `come_together` of src/cases/topology.rs counts.
use schtest.Prelude.{
  ℕ, zero, suc, ◌+◌, ◌/◌, ◌≤◌, ◌≡◌, Bool, true, false, Option, none, some, List, [], ◌∷◌, arith,
  length, Option-cases, inl, inr, if◌then◌else◌,
}
use schtest.Prelude.Int.{ℤ, eq_ℤ}
use schtest.Util.System.{Node}
use schtest.Cases.Topology.{
  Physical, physical_of, node_ids, Tally, tally_set, tally_sets, tally_all, Metric, ok, err,
  panicked, together_metric,
}

-- The number of spinners that are looked at.
abbrev pub size_of : List (List ℕ) → ℕ
size_of [] = 0
size_of (set ∷ sets) = length set + size_of sets

unfoldable pub looks : (ℕ → List (List ℕ)) → (left i : ℕ) → ℕ
looks seen zero i = 0
looks seen (suc left) i = size_of (seen i) + looks seen left (suc i)

-- A tally after some more spinners: a CPU was not in the map, or all were counted, and no more
-- mismatches than spinners.
data TallyAs (mismatches total n : ℕ) : Option Tally → Type 0 where
  unknown : TallyAs mismatches total n none
  tallied :
      (m : ℕ) (t : Tally)
      → m ≤ n
      → t.mismatches ≡ mismatches + m
      → t.total ≡ total + n
      → TallyAs mismatches total n (some t)

one_more :
    (b : Bool) (mismatches total n : ℕ) (r : Option Tally)
    → TallyAs (if b then mismatches else mismatches + 1) (total + 1) n r
    → TallyAs mismatches total (suc n) r
one_more b mismatches total n none unknown = unknown
one_more true mismatches total n (some _) (tallied m t h e f) =
    tallied m t (omega arith) e (omega arith)
one_more false mismatches total n (some _) (tallied m t h e f) =
    tallied (suc m) t (omega arith) (omega arith) (omega arith)

tally_set-TallyAs :
    (p : Physical) (complex : Option ℤ) (cpus : List ℕ) (t : Tally)
    → TallyAs t.mismatches t.total (length cpus) (tally_set p complex cpus t)
unfolding tally_set
tally_set-TallyAs p complex [] t = tallied 0 t (omega arith) (omega arith) (omega arith)
tally_set-TallyAs p none (cpu ∷ cpus) t = elim (Option-cases (physical_of cpu p)) [
  | inl e ↦ rw (e, tally_set) unknown
  | inr (k, e) ↦
      rw (e, tally_set)
        (one_more true t.mismatches t.total (length cpus) _
          (tally_set-TallyAs p (some k) cpus (record t { total = t.total + 1 })))
]
tally_set-TallyAs p (some id) (cpu ∷ cpus) t = elim (Option-cases (physical_of cpu p)) [
  | inl e ↦ rw (e, tally_set) unknown
  | inr (k, e) ↦
      rw (e, tally_set)
        (one_more (eq_ℤ id k) t.mismatches t.total (length cpus) _ (
          tally_set-TallyAs p (some id) cpus (record {
            mismatches = if eq_ℤ id k then t.mismatches else t.mismatches + 1;
            total = t.total + 1;
          })))
]

-- One part after another.
then_more :
    (mismatches total n n' : ℕ) (r : Option Tally) (next : Tally → Option Tally)
    → TallyAs mismatches total n r
    → ((t : Tally) → TallyAs t.mismatches t.total n' (next t))
    → TallyAs mismatches total (n + n') (elim r [ none ↦ none | some t ↦ next t ])
then_more mismatches total n n' none next unknown h = unknown
then_more mismatches total n n' (some _) next (tallied m t l e f) h = joined (next t) (h t)
  where
    joined :
        (r : Option Tally) → TallyAs t.mismatches t.total n' r → TallyAs mismatches total (n + n') r
    joined none unknown = unknown
    joined (some _) (tallied m' t' l' e' f') =
        tallied (m + m') t' (omega arith) (omega arith) (omega arith)

tally_sets-TallyAs :
    (p : Physical) (sets : List (List ℕ)) (t : Tally)
    → TallyAs t.mismatches t.total (size_of sets) (tally_sets p sets t)
unfolding tally_sets
tally_sets-TallyAs p [] t = tallied 0 t (omega arith) (omega arith) (omega arith)
tally_sets-TallyAs p (set ∷ sets) t =
    then_more t.mismatches t.total (length set) (size_of sets) (tally_set p none set t)
      (tally_sets p sets) (tally_set-TallyAs p none set t) (tally_sets-TallyAs p sets)

tally_all-TallyAs :
    (p : Physical) (seen : ℕ → List (List ℕ)) (left i : ℕ) (t : Tally)
    → TallyAs t.mismatches t.total (looks seen left i) (tally_all p seen left i t)
unfolding tally_all looks
tally_all-TallyAs p seen zero i t = tallied 0 t (omega arith) (omega arith) (omega arith)
tally_all-TallyAs p seen (suc left) i t =
    then_more t.mismatches t.total (size_of (seen i)) (looks seen left (suc i))
      (tally_sets p (seen i) t) (tally_all p seen left (suc i)) (tally_sets-TallyAs p (seen i) t)
      (tally_all-TallyAs p seen left (suc i))

module _ {F : Type 0} (of_usize : ℕ → F) (div sub : F → F → F) where
  -- The results of the metric of `come_together`: a panic, an error, or one less the ratio of the
  -- mismatches to the spinners that were looked at.
  pub data TogetherAs (seen : ℕ → List (List ℕ)) (iters : ℕ) : Metric F → Type 0 where
    unknown_cpu : TogetherAs seen iters panicked
    wait_failed : TogetherAs seen iters err
    measured :
        (m : ℕ)
        → m ≤ looks seen (iters / 10) 0
        → TogetherAs seen iters
            (ok (sub (of_usize 1) (div (of_usize m) (of_usize (looks seen (iters / 10) 0)))))

  finish :
      (seen : ℕ → List (List ℕ)) (waited : Bool) (iters : ℕ) (r : Option Tally)
      → TallyAs 0 0 (looks seen (iters / 10) 0) r
      → TogetherAs seen iters (elim r [
        | none ↦ panicked
        | some t ↦
            if waited
            then ok (sub (of_usize 1) (div (of_usize t.mismatches) (of_usize t.total)))
            else err
      ])
  finish seen waited iters none unknown = unknown_cpu
  finish seen false iters (some _) (tallied m t l e f) = wait_failed
  finish seen true iters (some _) (tallied m t l e f) = rw (mismatches, total) (measured m l)
    where
      mismatches : t.mismatches ≡ m
      mismatches = omega (arith, e)

      total : t.total ≡ looks seen (iters / 10) 0
      total = omega (arith, f)

  -- The metric of `come_together` is a panic, an error, or one less the ratio of the mismatches to all
  -- spinners that were looked at, each of them in one look in ten iterations; there are at most as many
  -- mismatches as spinners.
  pub together_metric-TogetherAs :
      (nodes : List Node) (seen : ℕ → List (List ℕ)) (waited : Bool) (iters : ℕ)
      → TogetherAs seen iters (together_metric of_usize div sub nodes seen waited iters)
  unfolding together_metric
  together_metric-TogetherAs nodes seen waited iters =
      finish seen waited iters _ (tally_all-TallyAs (node_ids nodes []) seen (iters / 10) 0 _)
