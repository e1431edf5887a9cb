-- ===== src/Cases/Topology/Spread.antt =====
-- What `spread_out` of src/cases/topology.rs counts.
use schtest.Prelude.{
  ℕ, zero, suc, ◌+◌, ◌-◌, ◌/◌, ◌%◌, ◌^◌, ◌≤◌, ◌≡◌, ◌≢◌, refl, ap, sym, subst, ◌∙◌, Bool, true,
  false, ◌||◌, Option, none, some, List, [], ◌∷◌, ◌++◌, arith, All, length, map, get_elem?,
  Bool-cases, Option-cases, ◌⊎◌, inl, inr, ◌==◌,
}
use schtest.Prelude.Int.{ℤ, eq_ℤ, eq_ℤ-self, eq_ℤ-eq}
use schtest.Util.System.{Hyperthread, Core}
use schtest.Cases.Topology.{
  Physical, insert_threads, core_ids, physical_of, Counts, bump, observe, observe_all,
}
use schtest.Cases.Topology.Different.{
  has, Distinct, Within, count_different, eq_ℤ_comm, has-append, Among, different-Among,
  different-Distinct,
}

ids_of : Counts → List ℤ
ids_of [] = []
ids_of ((k, n) ∷ m) = k ∷ ids_of m

length-ids_of : (m : Counts) → length (ids_of m) ≡ length m
unfolding ids_of
length-ids_of [] = refl
length-ids_of ((k, n) ∷ m) = ap suc (length-ids_of m)

has-bump : (id k : ℤ) (m : Counts) → has id (ids_of (bump k m)) ≡ (eq_ℤ k id || has id (ids_of m))
unfolding has bump ids_of
has-bump id k [] = refl
has-bump id k ((j, n) ∷ m) = elim (Bool-cases (eq_ℤ j k)) [
  | inl e ↦ rw (e, eq_ℤ-eq j k e) (ground arith)
  | inr e ↦ rw e (rw (has-bump id k m) (ground arith))
]

bump-Distinct : (k : ℤ) (m : Counts) → Distinct (ids_of m) → Distinct (ids_of (bump k m))
unfolding Distinct bump ids_of
bump-Distinct k [] d = (refl, tt)
bump-Distinct k ((j, n) ∷ m) d = elim (Bool-cases (eq_ℤ j k)) [
  | inl e ↦ rw e d
  | inr e ↦ rw e (has-bump j k m ∙ ground (arith, d.0, eq_ℤ_comm j k e), bump-Distinct k m d.1)
]

bump-Within :
    (k : ℤ) (ids : List ℤ) (m : Counts)
    → has k ids ≡ true
    → Within (ids_of m) ids
    → Within (ids_of (bump k m)) ids
unfolding Within bump ids_of
bump-Within k ids [] h w = (h, tt)
bump-Within k ids ((j, n) ∷ m) h w = elim (Bool-cases (eq_ℤ j k)) [
  | inl e ↦ rw e w
  | inr e ↦ rw e (w.0, bump-Within k ids m h w.1)
]

-- The identifiers of the cores.
abbrev pub ids_of_cores : List Core → List ℤ
ids_of_cores [] = []
ids_of_cores (c ∷ cs) = c.id ∷ ids_of_cores cs

-- The identifiers that are seen, one for each look at a CPU that has one.
unfoldable pub seen_ids : Physical → List ℕ → List ℤ
seen_ids physical [] = []
seen_ids physical (cpu ∷ cpus) = elim (physical_of cpu physical) [
  | none ↦ seen_ids physical cpus
  | some id ↦ id ∷ seen_ids physical cpus
]

unfoldable pub all_seen_ids : Physical → (ℕ → List ℕ) → (left i : ℕ) → List ℤ
all_seen_ids physical seen zero i = []
all_seen_ids physical seen (suc left) i =
    seen_ids physical (seen i) ++ all_seen_ids physical seen left (suc i)

-- The counts hold what was counted before and what is seen, each identifier once.
record Counted (before : Counts) (ids : List ℤ) (after : Counts) : Type 0 where
  pub distinct : Distinct (ids_of after)
  pub members : (id : ℤ) → has id (ids_of after) ≡ (has id (ids_of before) || has id ids)

observe-Counted :
    (physical : Physical) (cpus : List ℕ) (m : Counts)
    → Distinct (ids_of m)
    → Counted m (seen_ids physical cpus) (observe physical cpus m)
unfolding observe seen_ids has
observe-Counted physical [] m d = record { distinct = d; members = λ id. ground arith }
observe-Counted physical (cpu ∷ cpus) m d = elim (Option-cases (physical_of cpu physical)) [
  | inl e ↦ rw (e, observe, seen_ids) (observe-Counted physical cpus m d)
  | inr (k, e) ↦
      let c = observe-Counted physical cpus (bump k m) (bump-Distinct k m d) in
      rw (e, observe, seen_ids)
        (record {
          distinct = c.distinct;
          members = λ id. c.members id ∙ rw (has-bump id k m) (ground arith);
        })
]

observe_all-Counted :
    (physical : Physical) (seen : ℕ → List ℕ) (left i : ℕ) (m : Counts)
    → Distinct (ids_of m)
    → Counted m (all_seen_ids physical seen left i) (observe_all physical seen left i m)
unfolding observe_all all_seen_ids has
observe_all-Counted physical seen zero i m d = record { distinct = d; members = λ id. ground arith }
observe_all-Counted physical seen (suc left) i m d =
    let c = observe-Counted physical (seen i) m d in
    let r =
      observe_all-Counted physical seen left (suc i) (observe physical (seen i) m) c.distinct in
    record {
      distinct = r.distinct;
      members = λ id.
          r.members id
          ∙ rw
              (
                c.members id,
                has-append id (seen_ids physical (seen i))
                    (all_seen_ids physical seen left (suc i)),
              )
              (ground arith);
    }

-- The number of counts that `spread_out` has after a number of looks is that of the different
-- identifiers of the CPUs that were seen.
pub observe_all-count_different :
    (physical : Physical) (seen : ℕ → List ℕ) (left : ℕ)
    → length (observe_all physical seen left 0 [])
      ≡ count_different (all_seen_ids physical seen left 0)
unfolding Among Distinct has ids_of
observe_all-count_different physical seen left =
    let c = observe_all-Counted physical seen left 0 [] tt in
    let counted = ids_of (observe_all physical seen left 0 []) in
    let ids = all_seen_ids physical seen left 0 in
    omega (
      arith,
      length-ids_of (observe_all physical seen left 0 []),
      different-Distinct counted c.distinct,
      different-Among counted ids (λ id e. sym (c.members id) ∙ e),
      different-Among ids counted (λ id e. c.members id ∙ e),
    )

insert_threads-All :
    (ids : List ℤ) (id : ℤ) (hs : List Hyperthread) (m : Physical)
    → has id ids ≡ true
    → All (λ e. has e.1 ids ≡ true) m
    → All (λ e. has e.1 ids ≡ true) (insert_threads id hs m)
unfolding insert_threads
insert_threads-All ids id [] m h a = a
insert_threads-All ids id (x ∷ hs) m h a = insert_threads-All ids id hs ((x.id, id) ∷ m) h (h, a)

core_ids-All :
    (ids : List ℤ) (cs : List Core) (m : Physical)
    → Among (ids_of_cores cs) ids
    → All (λ e. has e.1 ids ≡ true) m
    → All (λ e. has e.1 ids ≡ true) (core_ids cs m)
unfolding core_ids Among has
core_ids-All ids [] m h a = a
core_ids-All ids (c ∷ cs) m h a =
    core_ids-All ids cs _ (λ id e. h id (ground arith))
      (insert_threads-All ids c.id c.hyperthreads m (h c.id (rw (eq_ℤ-self c.id) refl)) a)

physical_of-has :
    (ids : List ℤ) (cpu : ℕ) (id : ℤ) (m : Physical)
    → All (λ e. has e.1 ids ≡ true) m
    → physical_of cpu m ≡ some id
    → has id ids ≡ true
unfolding physical_of
physical_of-has ids cpu id [] a e = absurd (cc)
physical_of-has ids cpu id ((c, k) ∷ m) a e = elim (Bool-cases (c == cpu)) [
  | inl at ↦ subst (λ z. has z ids ≡ true) (ground arith) a.0
  | inr off ↦ physical_of-has ids cpu id m a.1 (ground arith)
]

seen_ids-Among :
    (ids : List ℤ) (m : Physical) (cpus : List ℕ)
    → All (λ e. has e.1 ids ≡ true) m
    → Among (seen_ids m cpus) ids
unfolding seen_ids Among has
seen_ids-Among ids m [] a id e = absurd (cc)
seen_ids-Among ids m (cpu ∷ cpus) a id e = elim (Option-cases (physical_of cpu m)) [
  | inl n ↦ seen_ids-Among ids m cpus a id (rw (n, seen_ids) at e)
  | inr (k, n) ↦
      let h : has id (k ∷ seen_ids m cpus) ≡ true = rw (n, seen_ids) at e in
      elim (Bool-cases (eq_ℤ k id)) [
        | inl same ↦
            subst (λ z. has z ids ≡ true) (eq_ℤ-eq k id same) (physical_of-has ids cpu k m a n)
        | inr other ↦ seen_ids-Among ids m cpus a id (ground arith)
      ]
]

all_seen_ids-Among :
    (ids : List ℤ) (m : Physical) (seen : ℕ → List ℕ) (left i : ℕ)
    → All (λ e. has e.1 ids ≡ true) m
    → Among (all_seen_ids m seen left i) ids
unfolding all_seen_ids Among has
all_seen_ids-Among ids m seen zero i a id e = absurd (cc)
all_seen_ids-Among ids m seen (suc left) i a id e =
    elim (Bool-cases (has id (seen_ids m (seen i)))) [
      | inl now ↦ seen_ids-Among ids m (seen i) a id now
      | inr later ↦
          all_seen_ids-Among ids m seen left (suc i) a id
            (ground (arith, has-append id (seen_ids m (seen i)) (all_seen_ids m seen left (suc i))))
    ]

-- A look at the cores sees no more different identifiers than they have.
pub seen_different-le :
    (cores : List Core) (seen : ℕ → List ℕ) (left : ℕ)
    → count_different (all_seen_ids (core_ids cores []) seen left 0)
      ≤ count_different (ids_of_cores cores)
unfolding Among
seen_different-le cores seen left = different-Among _ _ (
    all_seen_ids-Among (ids_of_cores cores) (core_ids cores []) seen left 0
      (core_ids-All (ids_of_cores cores) cores [] (λ id e. e) tt))

-- The statistics of one of the processes cannot be read.
abbrev pub Unreadable : List (Option ℕ) → Type 0
Unreadable rs = (i : ℕ) × (get_elem? rs i ≡ some none)

-- By how much the counters of the processes have grown, each modulo 2 ^ 64.
abbrev pub grown : (old now : List ℕ) → ℕ
grown (b ∷ bs) (a ∷ rest) = (a + 2 ^ 64 - b) % 2 ^ 64 + grown bs rest
grown old now = 0

-- The processes have been waited for, and what was read of them before and after.
pub record Watched (before after : List (Option ℕ)) (waited : Bool) (old now : List ℕ)
    : Type 0 where
  pub done : waited ≡ true
  pub read_before : before ≡ map some old
  pub read_after : after ≡ map some now

module _ {F : Type 0} (of_usize : ℕ → F) (div : F → F → F) where
  -- The results of the metric of `spread_out`: an error, if a statistic cannot be read or the wait
  -- fails; zero, after a migration; or, without one, the ratio of the number of different
  -- identifiers that were seen to the number of cores.
  pub data SpreadAs (cores : List Core) (before after : List (Option ℕ)) (seen : ℕ → List ℕ)
      (waited : Bool) (iters : ℕ) : Option F → Type 0 where
    failed :
        (Unreadable before ⊎ ((waited ≡ false) ⊎ Unreadable after))
        → SpreadAs cores before after seen waited iters none
    migrated :
        (old now : List ℕ)
        → Watched before after waited old now
        → grown old now % 2 ^ 64 ≢ 0
        → SpreadAs cores before after seen waited iters (some (of_usize 0))
    covered :
        (old now : List ℕ) (k : ℕ)
        → Watched before after waited old now
        → grown old now % 2 ^ 64 ≡ 0
        → k ≡ count_different (all_seen_ids (core_ids cores []) seen (iters / 10) 0)
        → k ≤ count_different (ids_of_cores cores)
        → SpreadAs cores before after seen waited iters
            (some (div (of_usize k) (of_usize (length cores))))
