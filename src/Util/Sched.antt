-- ===== src/Util/Sched.antt =====
-- src/util/sched.rs: the scheduler statistics of threads and processes, and the setting of the
-- scheduling policy. Files are what reading them gives; floating point is a parameter, also the
-- conversion of ticks to a duration in nanoseconds. The sums of the counters wrap, as in a release
-- build; the sums of the durations are taken to stay in range.
mod Keys
pub mod Policy
pub mod Render
pub mod Totals
mod Tests
use schtest.Prelude.{
  ℕ, zero, suc, ◌+◌, ◌^◌, Bool, true, false, ◌||◌, Option, none, some, List, [], ◌∷◌, leb, ltb,
  ◌==◌, if◌then◌else◌, add64,
}
use schtest.Prelude.Int.{ℤ, pos, negsuc}
use schtest.Prelude.Text.{codes, same_text, trim, lines, split_once, digits_from, parse_u64}

pub record SchedStats (F : Type 0) : Type 0 where
  pub system_time : ℕ
  pub user_time : ℕ
  pub total_time : ℕ
  pub nr_migrations : ℕ
  pub nr_failed_migrations : ℕ
  pub nr_forced_migrations : ℕ
  pub nr_voluntary_switches : ℕ
  pub nr_involuntary_switches : ℕ
  pub nr_switches : ℕ
  pub nr_preemptions : ℕ
  pub nr_wakeups : ℕ
  pub nr_wakeups_sync : ℕ
  pub nr_wakeups_migrate : ℕ
  pub nr_wakeups_local : ℕ
  pub nr_wakeups_remote : ℕ
  pub nr_yields : ℕ
  pub wait_count : ℕ
  pub wait_sum : F
  pub wait_max : F

-- The fields that are counters, each with its key and its arm of the `match`.
pub data Counter : Type 0 where
  migrations : Counter
  failed_migrations : Counter
  forced_migrations : Counter
  voluntary_switches : Counter
  involuntary_switches : Counter
  switches : Counter
  preemptions : Counter
  wakeups : Counter
  wakeups_sync : Counter
  wakeups_migrate : Counter
  wakeups_local : Counter
  wakeups_remote : Counter
  yields : Counter
  waits : Counter

pub name : Counter → List ℕ
name migrations = codes "nr_migrations"
name failed_migrations = codes "nr_failed_migrations"
name forced_migrations = codes "nr_forced_migrations"
name voluntary_switches = codes "nr_voluntary_switches"
name involuntary_switches = codes "nr_involuntary_switches"
name switches = codes "nr_switches"
name preemptions = codes "nr_preemptions"
name wakeups = codes "nr_wakeups"
name wakeups_sync = codes "nr_wakeups_sync"
name wakeups_migrate = codes "nr_wakeups_migrate"
name wakeups_local = codes "nr_wakeups_local"
name wakeups_remote = codes "nr_wakeups_remote"
name yields = codes "nr_yields"
name waits = codes "wait_count"

first_of : List ℕ → List Counter → Option Counter
unfolding name same_text
first_of key [] = none
first_of key (c ∷ cs) = if same_text key (name c) then some c else first_of key cs

abbrev counters : List Counter
counters =
    migrations ∷ failed_migrations ∷ forced_migrations ∷ voluntary_switches ∷ involuntary_switches
    ∷ switches ∷ preemptions ∷ wakeups ∷ wakeups_sync ∷ wakeups_migrate ∷ wakeups_local
    ∷ wakeups_remote ∷ yields ∷ waits ∷ []

pub counter_of : List ℕ → Option Counter
unfolding first_of
counter_of key = first_of key counters

module _ {F : Type 0} where
  pub count : Counter → SchedStats F → ℕ
  count migrations s = s.nr_migrations
  count failed_migrations s = s.nr_failed_migrations
  count forced_migrations s = s.nr_forced_migrations
  count voluntary_switches s = s.nr_voluntary_switches
  count involuntary_switches s = s.nr_involuntary_switches
  count switches s = s.nr_switches
  count preemptions s = s.nr_preemptions
  count wakeups s = s.nr_wakeups
  count wakeups_sync s = s.nr_wakeups_sync
  count wakeups_migrate s = s.nr_wakeups_migrate
  count wakeups_local s = s.nr_wakeups_local
  count wakeups_remote s = s.nr_wakeups_remote
  count yields s = s.nr_yields
  count waits s = s.wait_count

  pub put : Counter → ℕ → SchedStats F → SchedStats F
  put migrations n s = record s { nr_migrations = n }
  put failed_migrations n s = record s { nr_failed_migrations = n }
  put forced_migrations n s = record s { nr_forced_migrations = n }
  put voluntary_switches n s = record s { nr_voluntary_switches = n }
  put involuntary_switches n s = record s { nr_involuntary_switches = n }
  put switches n s = record s { nr_switches = n }
  put preemptions n s = record s { nr_preemptions = n }
  put wakeups n s = record s { nr_wakeups = n }
  put wakeups_sync n s = record s { nr_wakeups_sync = n }
  put wakeups_migrate n s = record s { nr_wakeups_migrate = n }
  put wakeups_local n s = record s { nr_wakeups_local = n }
  put wakeups_remote n s = record s { nr_wakeups_remote = n }
  put yields n s = record s { nr_yields = n }
  put waits n s = record s { wait_count = n }

-- `parse::<i32>`, and the pid of the number
unfoldable pub parse_i32 : List ℕ → Option ℤ
unfolding digits_from
parse_i32 [] = none
parse_i32 (c ∷ s) =
    if c == 45
    then elim s [
      | [] ↦ none
      | d ∷ t ↦ elim (digits_from 0 (d ∷ t)) [
        | none ↦ none
        | some zero ↦ some (pos 0)
        | some (suc n) ↦ if ltb n (2 ^ 31) then some (negsuc n) else none
      ]
    ]
    else elim (parse_u64 (c ∷ s)) [
      | none ↦ none
      | some n ↦ if ltb n (2 ^ 31) then some (pos n) else none
    ]

-- An entry of the task directory: an error, or its name.
pub data Entry : Type 0 where
  unreadable : Entry
  named : List ℕ → Entry

-- What the kernel tells of a thread, or of `self`: the text of its `sched` file, and `stime` and
-- `utime` of its `stat` file.
pub record Proc : Type 0 where
  pub sched : Option ℤ → Option (List ℕ)
  pub stat : Option ℤ → Option (ℕ × ℕ)

module _ {F : Type 0} (zero_float : F) (add_float : F → F → F) (gt_float : F → F → Bool)
    (parse_f64 : List ℕ → Option F) (from_ticks : ℕ → ℕ) where
  pub default : SchedStats F
  default = record {
    system_time = 0;
    user_time = 0;
    total_time = 0;
    nr_migrations = 0;
    nr_failed_migrations = 0;
    nr_forced_migrations = 0;
    nr_voluntary_switches = 0;
    nr_involuntary_switches = 0;
    nr_switches = 0;
    nr_preemptions = 0;
    nr_wakeups = 0;
    nr_wakeups_sync = 0;
    nr_wakeups_migrate = 0;
    nr_wakeups_local = 0;
    nr_wakeups_remote = 0;
    nr_yields = 0;
    wait_count = 0;
    wait_sum = zero_float;
    wait_max = zero_float;
  }

  pub assign : List ℕ → List ℕ → SchedStats F → SchedStats F
  unfolding counter_of
  assign key value s = elim (counter_of key) [
    | some c ↦ elim (parse_u64 value) [ none ↦ s | some n ↦ put c n s ]
    | none ↦
        if same_text key (codes "wait_sum")
        then elim (parse_f64 value) [ none ↦ s | some x ↦ record s { wait_sum = x } ]
        else if same_text key (codes "wait_max")
        then elim (parse_f64 value) [ none ↦ s | some x ↦ record s { wait_max = x } ]
        else s
  ]

  pub read_line : List ℕ → SchedStats F → SchedStats F
  unfolding assign
  read_line line s = elim (split_once 58 line) [
    | none ↦ s
    | some (key, value) ↦ assign (trim key) (trim value) s
  ]

  pub read_lines : List (List ℕ) → SchedStats F → SchedStats F
  unfolding read_line
  read_lines [] s = s
  read_lines (l ∷ ls) s = read_lines ls (read_line l s)

  pub add_times : SchedStats F → ℕ × ℕ → SchedStats F
  add_times s (stime, utime) = record s {
    system_time = from_ticks stime;
    user_time = from_ticks utime;
    total_time = from_ticks stime + from_ticks utime;
  }

  pub get_thread_stats : Proc → Option ℤ → Option (SchedStats F)
  unfolding read_lines add_times
  get_thread_stats proc tid = elim (proc.sched tid) [
    | none ↦ none
    | some content ↦ elim (proc.stat tid) [
      | none ↦ none
      | some times ↦ some (add_times (read_lines (lines content) default) times)
    ]
  ]

  pub accumulate : SchedStats F → SchedStats F → SchedStats F
  accumulate a s = record {
    system_time = a.system_time + s.system_time;
    user_time = a.user_time + s.user_time;
    total_time = a.total_time + s.total_time;
    nr_migrations = add64 a.nr_migrations s.nr_migrations;
    nr_failed_migrations = add64 a.nr_failed_migrations s.nr_failed_migrations;
    nr_forced_migrations = add64 a.nr_forced_migrations s.nr_forced_migrations;
    nr_voluntary_switches = add64 a.nr_voluntary_switches s.nr_voluntary_switches;
    nr_involuntary_switches = add64 a.nr_involuntary_switches s.nr_involuntary_switches;
    nr_switches = add64 a.nr_switches s.nr_switches;
    nr_preemptions = add64 a.nr_preemptions s.nr_preemptions;
    nr_wakeups = add64 a.nr_wakeups s.nr_wakeups;
    nr_wakeups_sync = add64 a.nr_wakeups_sync s.nr_wakeups_sync;
    nr_wakeups_migrate = add64 a.nr_wakeups_migrate s.nr_wakeups_migrate;
    nr_wakeups_local = add64 a.nr_wakeups_local s.nr_wakeups_local;
    nr_wakeups_remote = add64 a.nr_wakeups_remote s.nr_wakeups_remote;
    nr_yields = add64 a.nr_yields s.nr_yields;
    wait_count = add64 a.wait_count s.wait_count;
    wait_sum = add_float a.wait_sum s.wait_sum;
    wait_max = if gt_float s.wait_max a.wait_max then s.wait_max else a.wait_max;
  }

  -- The loop over the task directory. A name that is not a number is skipped.
  pub add_entries : Proc → SchedStats F → List Entry → Option (SchedStats F)
  unfolding accumulate get_thread_stats
  add_entries proc a [] = some a
  add_entries proc a (unreadable ∷ es) = none
  add_entries proc a (named n ∷ es) = elim (parse_i32 n) [
    | none ↦ add_entries proc a es
    | some tid ↦ elim (get_thread_stats proc (some tid)) [
      | none ↦ none
      | some s ↦ add_entries proc (accumulate a s) es
    ]
  ]

  pub get_process_thread_stats : Proc → Option (List Entry) → Option (SchedStats F)
  unfolding add_entries
  get_process_thread_stats proc entries = elim entries [
    | none ↦ none
    | some es ↦ add_entries proc default es
  ]
