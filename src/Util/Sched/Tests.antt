-- ===== src/Util/Sched/Tests.antt =====
-- Two threads whose tables the kernel has printed. Floating point is not used in them.
use schtest.Prelude.{
  ℕ, ◌+◌, ◌*◌, ◌≡◌, refl, Bool, true, false, Option, none, some, List, [], ◌∷◌, arith,
}
use schtest.Prelude.Int.{pos}
use schtest.Prelude.Text.{
  codes, one, snoc, trim, is_whitespace, lines, split_once, same_text, parse_u64,
}
use schtest.Prelude.Text.Forms.{spaces}
use schtest.Util.Sched.{
  SchedStats, switches, count, put, parse_i32, named, Proc, default, get_thread_stats,
  get_process_thread_stats, read_lines, assign,
}
use schtest.Util.Sched.Policy.{content, Chosen, set_scheduler-Chosen}
use schtest.Util.Sched.Render.{Row, print, set_all, read_lines-print, line_of, key_text, value_text}
use schtest.Util.Sched.Totals.{done, skipped, read, total, get_process_thread_stats-AllRead}

-- 12 ticks are 120 ms.
abbrev from_ticks : ℕ → ℕ
from_ticks t = t * 10000000

abbrev parse_f64 : List ℕ → Option ℕ
parse_f64 text = none

abbrev gt_float : ℕ → ℕ → Bool
gt_float a b = false

abbrev plus : ℕ → ℕ → ℕ
plus a b = a + b

abbrev start : SchedStats ℕ
start = record {
  system_time = 0;
  user_time = 0;
  total_time = 0;
  nr_migrations = 0;
  nr_failed_migrations = 0;
  nr_forced_migrations = 0;
  nr_voluntary_switches = 0;
  nr_involuntary_switches = 0;
  nr_switches = 0;
  nr_preemptions = 0;
  nr_wakeups = 0;
  nr_wakeups_sync = 0;
  nr_wakeups_migrate = 0;
  nr_wakeups_local = 0;
  nr_wakeups_remote = 0;
  nr_yields = 0;
  wait_count = 0;
  wait_sum = 0;
  wait_max = 0;
}

abbrev row : Row
row = record {
  counter = switches;
  key_pad = 3;
  value_pad = 2;
  value = 42;
  first = 52;
  rest = 50 ∷ [];
  digits = snoc (52 ∷ []) 4 2 (one 4 (omega arith)) (omega arith);
  small = omega arith;
}

printed : print (row ∷ []) ≡ codes "nr_switches   :  42\n"
unfolding print line_of key_text value_text spaces
printed = refl

read_lines-print_example :
    read_lines 0 plus gt_float parse_f64 from_ticks (lines (print (row ∷ []))) start
    ≡ record start { nr_switches = 42 }
unfolding set_all
read_lines-print_example = read_lines-print 0 plus gt_float parse_f64 from_ticks (row ∷ []) start

abbrev proc : Proc
proc = record {
  sched = λ tid. some (codes "nr_switches : 42\nnr_yields : 7\n");
  stat = λ tid. some (3, 4);
}

abbrev stats : SchedStats ℕ
stats = record start {
  nr_switches = 42;
  nr_yields = 7;
  system_time = 30000000;
  user_time = 40000000;
  total_time = 70000000;
}

thread_stats :
    get_thread_stats 0 plus gt_float parse_f64 from_ticks proc (some (pos 9)) ≡ some stats
unfolding get_thread_stats default assign trim is_whitespace split_once same_text lines parse_u64
    put
thread_stats = refl

pid_9 : parse_i32 (codes "9") ≡ some (pos 9)
unfolding parse_i32 parse_u64
pid_9 = refl

no_pid : parse_i32 (codes "x") ≡ none
unfolding parse_i32 parse_u64
no_pid = refl

get_process_thread_stats-AllRead_example :
    (b : SchedStats ℕ) × (get_process_thread_stats 0 plus gt_float parse_f64 from_ticks proc
        (some (named (codes "9") ∷ named (codes "x") ∷ []))
      ≡ some b)
    × (count switches b ≡ 42)
unfolding total count
get_process_thread_stats-AllRead_example =
    get_process_thread_stats-AllRead 0 plus gt_float parse_f64 from_ticks proc switches
      (named (codes "9") ∷ named (codes "x") ∷ []) (stats ∷ [])
      (read (codes "9") (pos 9) stats _ [] pid_9 thread_stats
        (skipped (codes "x") [] [] no_pid done))

set_scheduler-Chosen_example :
    Chosen
      (record {
        available = true;
        state = content (codes "enabled\n");
        ops = content (codes "simple\n");
      })
      (pos 7)
      (pos 0)
set_scheduler-Chosen_example =
    set_scheduler-Chosen
      (record {
        available = true;
        state = content (codes "enabled\n");
        ops = content (codes "simple\n");
      })
      (pos 7) (pos 0)
