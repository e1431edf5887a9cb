-- ===== src/Util/System/Load/Tests.antt =====
-- A machine of four configured CPUs: CPU 2 has no directory, and CPU 3 names its complex by the L3
-- cache.
use schtest.Prelude.{ℕ, zero, suc, ◌≡◌, refl, Option, some, none, List, [], ◌∷◌, arith}
use schtest.Prelude.Int.{pos}
use schtest.Prelude.Text.{codes, trim, trim_start, trim_end, is_whitespace, digits_from, parse_u64}
use schtest.Util.Sched.{parse_i32}
use schtest.Util.System.{Node, new}
use schtest.Util.System.Load.{
  absent, failed, contains, index, no_cache, entries, CpuDir, load, ok, io_error,
}
use schtest.Util.System.Load.Present.{LoadsAs, load-LoadsAs}
use schtest.Util.System.Load.Located.{ReadAndPlaced, load-Placed}

abbrev cpu_0 : CpuDir
cpu_0 = record {
  physical_package_id = contains (codes "0\n");
  core_id = contains (codes "4\n");
  die_id = contains (codes "1\n");
  cache = no_cache;
}

abbrev cpu_1 : CpuDir
cpu_1 = record {
  physical_package_id = absent;
  core_id = contains (codes "4\n");
  die_id = contains (codes "x\n");
  cache = no_cache;
}

abbrev cpu_3 : CpuDir
cpu_3 = record {
  physical_package_id = contains (codes "0\n");
  core_id = absent;
  die_id = absent;
  cache = entries (
      index (contains (codes "2\n")) (contains (codes "9\n"))
      ∷ index (contains (codes "3\n")) (contains (codes "1\n"))
      ∷ []);
}

abbrev dir : ℕ → Option CpuDir
dir zero = some cpu_0
dir (suc zero) = some cpu_1
dir (suc (suc (suc zero))) = some cpu_3
dir n = none

abbrev broken_dir : ℕ → Option CpuDir
broken_dir n = some (record cpu_0 { core_id = failed })

abbrev nodes : List Node
nodes =
    record {
      id = pos 0;
      complexes =
          record {
            id = pos 0;
            cores = record { id = pos 4; hyperthreads = record { id = 1 } ∷ [] } ∷ [];
          }
          ∷ record {
            id = pos 1;
            cores =
                record { id = pos 3; hyperthreads = record { id = 3 } ∷ [] }
                ∷ record { id = pos 4; hyperthreads = record { id = 0 } ∷ [] }
                ∷ [];
          }
          ∷ [];
    }
    ∷ []

loaded : load (pos 4) dir ≡ ok (new nodes)
unfolding load parse_i32 trim trim_start trim_end is_whitespace digits_from parse_u64
loaded = refl

not_loaded : load (pos 4) broken_dir ≡ io_error
unfolding load parse_i32 trim trim_start trim_end is_whitespace digits_from parse_u64
not_loaded = refl

load-LoadsAs_example : LoadsAs dir 4 (load (pos 4) dir)
load-LoadsAs_example = load-LoadsAs 4 dir (omega arith)

load-Placed_example : ReadAndPlaced cpu_3 (new nodes) 3
load-Placed_example = load-Placed 4 dir 3 cpu_3 (new nodes) (omega arith) loaded (omega arith) refl
