-- ===== src/Util/Sched/Totals.antt =====
-- `get_process_thread_stats` of src/util/sched.rs, against the totals over the threads.
use schtest.Prelude.{
  ℕ, ◌+◌, ◌^◌, ◌≡◌, ◌<◌, refl, Bool, Option, none, some, List, [], ◌∷◌, arith, add64, u64,
}
use schtest.Prelude.Int.{ℤ}
use schtest.Util.Sched.{
  SchedStats, Counter, count, parse_i32, Entry, named, Proc, default, get_thread_stats, accumulate,
  add_entries, get_process_thread_stats, migrations, failed_migrations, forced_migrations,
  voluntary_switches, involuntary_switches, switches, preemptions, wakeups, wakeups_sync,
  wakeups_migrate, wakeups_local, wakeups_remote, yields, waits,
}

module _ {F : Type 0} (zero_float : F) (add_float : F → F → F) (gt_float : F → F → Bool)
    (parse_f64 : List ℕ → Option F) (from_ticks : ℕ → ℕ) (proc : Proc) where
  -- The threads that a list of entries names have these statistics.
  pub data AllRead : List Entry → List (SchedStats F) → Type 0 where
    done : AllRead [] []
    skipped :
        (n : List ℕ) (es : List Entry) (ss : List (SchedStats F))
        → parse_i32 n ≡ none
        → AllRead es ss
        → AllRead (named n ∷ es) ss
    read :
        (n : List ℕ) (tid : ℤ) (s : SchedStats F) (es : List Entry) (ss : List (SchedStats F))
        → parse_i32 n ≡ some tid
        → get_thread_stats zero_float add_float gt_float parse_f64 from_ticks proc (some tid)
          ≡ some s
        → AllRead es ss
        → AllRead (named n ∷ es) (s ∷ ss)

  unfoldable pub total : Counter → List (SchedStats F) → ℕ
  total c [] = 0
  total c (s ∷ ss) = count c s + total c ss

  count-accumulate :
      (c : Counter) (a s : SchedStats F)
      → count c (accumulate zero_float add_float gt_float parse_f64 from_ticks a s)
        ≡ add64 (count c a) (count c s)
  unfolding count accumulate
  count-accumulate migrations a s = refl
  count-accumulate failed_migrations a s = refl
  count-accumulate forced_migrations a s = refl
  count-accumulate voluntary_switches a s = refl
  count-accumulate involuntary_switches a s = refl
  count-accumulate switches a s = refl
  count-accumulate preemptions a s = refl
  count-accumulate wakeups a s = refl
  count-accumulate wakeups_sync a s = refl
  count-accumulate wakeups_migrate a s = refl
  count-accumulate wakeups_local a s = refl
  count-accumulate wakeups_remote a s = refl
  count-accumulate yields a s = refl
  count-accumulate waits a s = refl

  count-default :
      (c : Counter) → count c (default zero_float add_float gt_float parse_f64 from_ticks) ≡ 0
  unfolding count default
  count-default migrations = refl
  count-default failed_migrations = refl
  count-default forced_migrations = refl
  count-default voluntary_switches = refl
  count-default involuntary_switches = refl
  count-default switches = refl
  count-default preemptions = refl
  count-default wakeups = refl
  count-default wakeups_sync = refl
  count-default wakeups_migrate = refl
  count-default wakeups_local = refl
  count-default wakeups_remote = refl
  count-default yields = refl
  count-default waits = refl

  abbrev Summed : Counter → SchedStats F → List Entry → List (SchedStats F) → Type 0
  Summed c a es ss =
      (b : SchedStats F) × (add_entries zero_float add_float gt_float parse_f64 from_ticks proc a es
        ≡ some b)
      × (count c b ≡ u64 (count c a + total c ss))

  after_read :
      (c : Counter) (a : SchedStats F) (n : List ℕ) (tid : ℤ) (s : SchedStats F) (es : List Entry)
      (ss : List (SchedStats F))
      → parse_i32 n ≡ some tid
      → get_thread_stats zero_float add_float gt_float parse_f64 from_ticks proc (some tid) ≡ some s
      → Summed c (accumulate zero_float add_float gt_float parse_f64 from_ticks a s) es ss
      → Summed c a (named n ∷ es) (s ∷ ss)
  unfolding add_entries total
  after_read c a n tid s es ss e f rest =
      rw (e, f, add_entries) (rest.0, rest.1, omega (arith, rest.2, count-accumulate c a s))

  add_entries-AllRead :
      (c : Counter) (a : SchedStats F) (es : List Entry) (ss : List (SchedStats F))
      → count c a < 2 ^ 64
      → AllRead es ss
      → Summed c a es ss
  unfolding add_entries total
  add_entries-AllRead c a es ss small done = (a, refl, omega arith)
  add_entries-AllRead c a es ss small (skipped n es' ss' e r) =
      rw (e, add_entries) (add_entries-AllRead c a es' ss' small r)
  add_entries-AllRead c a es ss small (read n tid s es' ss' e f r) =
      after_read c a n tid s es' ss' e f (
        add_entries-AllRead c (accumulate zero_float add_float gt_float parse_f64 from_ticks a s)
          es' ss' (omega (arith, count-accumulate c a s)) r)

  -- If the statistics of every thread that the task directory names can be read, those of the
  -- process are there, and each of its counters is the total over the threads, modulo 2 ^ 64.
  pub get_process_thread_stats-AllRead :
      (c : Counter) (es : List Entry) (ss : List (SchedStats F))
      → AllRead es ss
      → (b : SchedStats F) × (get_process_thread_stats zero_float add_float gt_float parse_f64
            from_ticks proc
            (some es)
          ≡ some b)
        × (count c b ≡ u64 (total c ss))
  unfolding get_process_thread_stats
  get_process_thread_stats-AllRead c es ss r = (all.0, all.1, omega (arith, all.2, count-default c))
    where
      all : Summed c (default zero_float add_float gt_float parse_f64 from_ticks) es ss
      all = add_entries-AllRead c _ es ss (omega (arith, count-default c)) r
