-- ===== src/Util/Sched/Render.antt =====
-- The kernel's table of a thread as it is printed, and `get_thread_stats` of src/util/sched.rs on it.
use schtest.Prelude.{
  ℕ, ◌^◌, ◌<◌, ◌≡◌, ◌≢◌, refl, Bool, true, Option, some, List, [], ◌∷◌, ◌++◌, arith,
}
use schtest.Prelude.Text.{same_text, is_whitespace, trim, lines, split_once, parse_u64, Decimal}
use schtest.Prelude.Text.Forms.{
  is_solid, is_free_of, spaces, trim-padded, trim-indented, split_once-append, lines-append,
  is_free_of-append, is_free_of-spaces, Decimal-is_solid, Decimal-is_free_of, parse_u64-Decimal,
}
use schtest.Util.Sched.{
  SchedStats, Counter, migrations, failed_migrations, forced_migrations, voluntary_switches,
  involuntary_switches, switches, preemptions, wakeups, wakeups_sync, wakeups_migrate,
  wakeups_local, wakeups_remote, yields, waits, counter_of, assign, read_line, read_lines,
}
use schtest.Util.Sched.Keys.{key_of, set_field, put-set_field}

-- A line of the table: the key, padded, a colon, and the value, padded.
pub record Row : Type 0 where
  pub counter : Counter
  pub key_pad : ℕ
  pub value_pad : ℕ
  pub value : ℕ
  pub first : ℕ
  pub rest : List ℕ
  pub digits : Decimal (first ∷ rest) value
  pub small : value < 2 ^ 64

unfoldable pub key_text : Row → List ℕ
key_text r = key_of r.counter ++ spaces r.key_pad

unfoldable pub value_text : Row → List ℕ
value_text r = spaces r.value_pad ++ (r.first ∷ r.rest)

unfoldable pub line_of : Row → List ℕ
unfolding key_text value_text
line_of r = key_text r ++ (58 ∷ value_text r)

-- The lines, each with its newline.
unfoldable pub print : List Row → List ℕ
unfolding line_of
print [] = []
print (r ∷ rs) = line_of r ++ (10 ∷ print rs)

unfoldable pub set_all : {F : Type 0} → List Row → SchedStats F → SchedStats F
set_all [] s = s
set_all (r ∷ rs) s = set_all rs (set_field r.counter r.value s)

counter_of-key_of : (c : Counter) → counter_of (key_of c) ≡ some c
unfolding counter_of same_text
counter_of-key_of migrations = refl
counter_of-key_of failed_migrations = refl
counter_of-key_of forced_migrations = refl
counter_of-key_of voluntary_switches = refl
counter_of-key_of involuntary_switches = refl
counter_of-key_of switches = refl
counter_of-key_of preemptions = refl
counter_of-key_of wakeups = refl
counter_of-key_of wakeups_sync = refl
counter_of-key_of wakeups_migrate = refl
counter_of-key_of wakeups_local = refl
counter_of-key_of wakeups_remote = refl
counter_of-key_of yields = refl
counter_of-key_of waits = refl

key_of-is_free_of :
    (c : Counter)
    → (is_free_of 58 (key_of c) ≡ true)
      × (is_free_of 10 (key_of c) ≡ true)
      × (is_free_of 13 (key_of c) ≡ true)
unfolding is_free_of
key_of-is_free_of migrations = (refl, refl, refl)
key_of-is_free_of failed_migrations = (refl, refl, refl)
key_of-is_free_of forced_migrations = (refl, refl, refl)
key_of-is_free_of voluntary_switches = (refl, refl, refl)
key_of-is_free_of involuntary_switches = (refl, refl, refl)
key_of-is_free_of switches = (refl, refl, refl)
key_of-is_free_of preemptions = (refl, refl, refl)
key_of-is_free_of wakeups = (refl, refl, refl)
key_of-is_free_of wakeups_sync = (refl, refl, refl)
key_of-is_free_of wakeups_migrate = (refl, refl, refl)
key_of-is_free_of wakeups_local = (refl, refl, refl)
key_of-is_free_of wakeups_remote = (refl, refl, refl)
key_of-is_free_of yields = (refl, refl, refl)
key_of-is_free_of waits = (refl, refl, refl)

key_of-is_solid : (c : Counter) → is_solid (key_of c) ≡ true
unfolding is_solid is_whitespace
key_of-is_solid migrations = refl
key_of-is_solid failed_migrations = refl
key_of-is_solid forced_migrations = refl
key_of-is_solid voluntary_switches = refl
key_of-is_solid involuntary_switches = refl
key_of-is_solid switches = refl
key_of-is_solid preemptions = refl
key_of-is_solid wakeups = refl
key_of-is_solid wakeups_sync = refl
key_of-is_solid wakeups_migrate = refl
key_of-is_solid wakeups_local = refl
key_of-is_solid wakeups_remote = refl
key_of-is_solid yields = refl
key_of-is_solid waits = refl

key_text-is_free_of :
    (d : ℕ) (r : Row)
    → d ≢ 32
    → is_free_of d (key_of r.counter) ≡ true
    → is_free_of d (key_text r) ≡ true
unfolding key_text
key_text-is_free_of d r ne h =
    is_free_of-append d (key_of r.counter) (spaces r.key_pad) h (is_free_of-spaces d r.key_pad ne)

value_text-is_free_of : (d : ℕ) (r : Row) → d ≢ 32 → d < 48 → is_free_of d (value_text r) ≡ true
unfolding value_text
value_text-is_free_of d r ne h =
    is_free_of-append d (spaces r.value_pad) (r.first ∷ r.rest) (is_free_of-spaces d r.value_pad ne)
      (Decimal-is_free_of d h r.digits)

line_of-is_free_of :
    (d : ℕ) (r : Row)
    → d ≢ 32
    → d < 48
    → is_free_of d (key_of r.counter) ≡ true
    → is_free_of d (line_of r) ≡ true
unfolding line_of is_free_of
line_of-is_free_of d r ne h k =
    is_free_of-append d (key_text r) (58 ∷ value_text r) (key_text-is_free_of d r ne k)
      (ground (arith, value_text-is_free_of d r ne h))

trim-key_text : (r : Row) → trim (key_text r) ≡ key_of r.counter
unfolding key_text
trim-key_text r = trim-padded (key_of r.counter) r.key_pad (key_of-is_solid r.counter)

trim-value_text : (r : Row) → trim (value_text r) ≡ r.first ∷ r.rest
unfolding value_text
trim-value_text r = trim-indented r.value_pad r.first r.rest (Decimal-is_solid r.digits)

split_once-line_of : (r : Row) → split_once 58 (line_of r) ≡ some (key_text r, value_text r)
unfolding line_of
split_once-line_of r =
    split_once-append 58 (key_text r) (value_text r)
      (key_text-is_free_of 58 r (omega arith) (key_of-is_free_of r.counter).0)

lines-line_of : (r : Row) (t : List ℕ) → lines (line_of r ++ (10 ∷ t)) ≡ line_of r ∷ lines t
lines-line_of r t =
    lines-append (line_of r) t
      (line_of-is_free_of 10 r (omega arith) (omega arith) (key_of-is_free_of r.counter).1)
      (line_of-is_free_of 13 r (omega arith) (omega arith) (key_of-is_free_of r.counter).2)

module _ {F : Type 0} (zero_float : F) (add_float : F → F → F) (gt_float : F → F → Bool)
    (parse_f64 : List ℕ → Option F) (from_ticks : ℕ → ℕ) where
  assign-key_of :
      (c : Counter) (text : List ℕ) (n : ℕ) (s : SchedStats F)
      → parse_u64 text ≡ some n
      → assign zero_float add_float gt_float parse_f64 from_ticks (key_of c) text s
        ≡ set_field c n s
  unfolding assign
  assign-key_of c text n s h = rw (counter_of-key_of c, h, assign) (put-set_field c n s)

  read_line-line_of :
      (r : Row) (s : SchedStats F)
      → read_line zero_float add_float gt_float parse_f64 from_ticks (line_of r) s
        ≡ set_field r.counter r.value s
  unfolding read_line
  read_line-line_of r s =
      rw (split_once-line_of r, trim-key_text r, trim-value_text r, read_line)
        (assign-key_of r.counter (r.first ∷ r.rest) r.value s (parse_u64-Decimal r.digits r.small))

  -- Reading what was printed from a list of rows, in any order and with any padding, gives the field
  -- that belongs to the key of each row its value, one after the other. The keys are the names of
  -- the fields, written out for each.
  pub read_lines-print :
      (rows : List Row) (s : SchedStats F)
      → read_lines zero_float add_float gt_float parse_f64 from_ticks (lines (print rows)) s
        ≡ set_all rows s
  unfolding read_lines print set_all lines
  read_lines-print [] s = refl
  read_lines-print (r ∷ rs) s =
      rw (lines-line_of r (print rs), read_line-line_of r s, read_lines) (read_lines-print rs _)
