-- ===== src/Lib.antt =====
-- Verification library for schtest, a suite of scheduler tests and benchmarks for Linux.
--
-- The program runs workloads in child processes that share memory and synchronise through futexes,
-- measures them, and judges the metrics. Its parts and the files that model them:
--
--   src/util/memfd.rs           Util/MemFd      a memory file: creation, mapping, release
--   src/util/shared.rs          Util/Shared     the bump allocator over it, boxes and vectors
--   src/util/clock.rs           Util/Clock      shared timers, and split timers with cookies
--   src/util/stats.rs           Util/Stats      the reservoir of samples, estimates, their similarity
--                                               and the line that is drawn of them
--   src/util/system.rs          Util/System     the CPU topology, masks, lookups and pinning
--   src/util/sched.rs           Util/Sched      statistics of threads, the scheduling policy
--   src/util/child.rs           Util/Child      child processes, their pipe and their result
--   src/workloads/semaphore.rs  Workloads/Semaphore   the counting semaphore
--   src/workloads/process.rs    Workloads/Process     the rounds of a process and its parent
--   src/workloads/spinner.rs    Workloads/Spinner     a loop that notes its CPU
--   src/util/user.rs            Util/User       the test for root
--   src/util/cgroups.rs         Util/Cgroups    where a new cgroup lies, entering and dropping it
--   src/workloads/context.rs    Workloads/Context     the shared memory and processes of a workload
--   src/workloads/benchmark.rs  Workloads/Benchmark   `converge`, the loop of a test, and `measure`
--   src/cases/basic.rs          Cases/Basic     the masks and the rounds of `ping_pong`
--   src/cases/topology.rs       Cases/Topology  the metrics of the topology cases
--   src/cases/topology.rs       Cases/Spreading the topology cases as a whole
--   src/cases/latency.rs        Cases/Latency   the verdict of `adaptive_priority`
--   src/cases/fairness.rs       Cases/Fairness  the tasks and the verdict of `fairness`
--   src/main.rs                 Main            `main`, the start of a scheduler, the choice of tests
--
-- The vectors of a context are those of the allocator, which is modelled over the size and the
-- address of its mapping. The semaphore holds a split timer and a reservoir, and calls their
-- operations as modelled. A process and its parent take the steps of two semaphores. The start of a
-- scheduler asks a child and `SchedExt`.
--
-- Correspondence. A function keeps its name; `new` and `reset` are those of the module's type. A
-- struct is a record, an enum a data type, a fallible result an Option or a type of the module. A
-- machine word is a native number, with the wrap-around written out (Prelude/Words); an atomic
-- access is a step of its own where threads interleave: `Pc` types say where a call stands. What
-- the kernel, the clock and the random generator answer is an argument. Floating point, the tdigest
-- crate and `String::from_utf8_lossy` are parameters. A path is split at its last slash where the
-- program asks for its parent, which is right for paths whose last two names are not empty or a dot.
--
-- Fuel. Only `converge` needs it: the loop has no bound of its own, as it goes on while rounds are
-- short and miss the threshold. The loops of the child, of the scheduler's start and of the
-- semaphore consume the answers that they are given, or are steps.
--
-- Not modelled: the bodies of the processes of the test cases but for `ping_pong`,
-- `adaptive_priority` and the waker of `come_together`, the parser of the command line, and the
-- libraries for tests and benchmarks, which are given what they are called with. A context knows of
-- a process whether its `wait` succeeds.
pub mod Cases
pub mod Main
pub mod Prelude
pub mod Util
pub mod Workloads
