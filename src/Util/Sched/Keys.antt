-- ===== src/Util/Sched/Keys.antt =====
-- The keys of the table that src/util/sched.rs reads, each with the field that it is for.
use schtest.Prelude.{ℕ, ◌≡◌, refl, List}
use schtest.Prelude.Text.{codes}
use schtest.Util.Sched.{
  SchedStats, Counter, migrations, failed_migrations, forced_migrations, voluntary_switches,
  involuntary_switches, switches, preemptions, wakeups, wakeups_sync, wakeups_migrate,
  wakeups_local, wakeups_remote, yields, waits, put,
}

-- The key of a counter, as the kernel prints it.
abbrev pub key_of : Counter → List ℕ
key_of migrations = codes "nr_migrations"
key_of failed_migrations = codes "nr_failed_migrations"
key_of forced_migrations = codes "nr_forced_migrations"
key_of voluntary_switches = codes "nr_voluntary_switches"
key_of involuntary_switches = codes "nr_involuntary_switches"
key_of switches = codes "nr_switches"
key_of preemptions = codes "nr_preemptions"
key_of wakeups = codes "nr_wakeups"
key_of wakeups_sync = codes "nr_wakeups_sync"
key_of wakeups_migrate = codes "nr_wakeups_migrate"
key_of wakeups_local = codes "nr_wakeups_local"
key_of wakeups_remote = codes "nr_wakeups_remote"
key_of yields = codes "nr_yields"
key_of waits = codes "wait_count"

-- The statistics with a value for the field of a counter.
abbrev pub set_field : {F : Type 0} → Counter → ℕ → SchedStats F → SchedStats F
set_field migrations n s = record s { nr_migrations = n }
set_field failed_migrations n s = record s { nr_failed_migrations = n }
set_field forced_migrations n s = record s { nr_forced_migrations = n }
set_field voluntary_switches n s = record s { nr_voluntary_switches = n }
set_field involuntary_switches n s = record s { nr_involuntary_switches = n }
set_field switches n s = record s { nr_switches = n }
set_field preemptions n s = record s { nr_preemptions = n }
set_field wakeups n s = record s { nr_wakeups = n }
set_field wakeups_sync n s = record s { nr_wakeups_sync = n }
set_field wakeups_migrate n s = record s { nr_wakeups_migrate = n }
set_field wakeups_local n s = record s { nr_wakeups_local = n }
set_field wakeups_remote n s = record s { nr_wakeups_remote = n }
set_field yields n s = record s { nr_yields = n }
set_field waits n s = record s { wait_count = n }

pub put-set_field :
    {F : Type 0} (c : Counter) (n : ℕ) (s : SchedStats F) → put c n s ≡ set_field c n s
unfolding put
put-set_field migrations n s = refl
put-set_field failed_migrations n s = refl
put-set_field forced_migrations n s = refl
put-set_field voluntary_switches n s = refl
put-set_field involuntary_switches n s = refl
put-set_field switches n s = refl
put-set_field preemptions n s = refl
put-set_field wakeups n s = refl
put-set_field wakeups_sync n s = refl
put-set_field wakeups_migrate n s = refl
put-set_field wakeups_local n s = refl
put-set_field wakeups_remote n s = refl
put-set_field yields n s = refl
put-set_field waits n s = refl
