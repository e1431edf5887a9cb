-- ===== src/Util/Child/Spawn/Tests.antt =====
-- A command that does not exist, in process 40 under a supervisor in process 39.
use schtest.Prelude.{ℕ, ◌+◌, ◌≡◌, refl, true, none, some, List, [], ◌∷◌, ◌++◌, inl, arith}
use schtest.Prelude.Text.{codes}
use schtest.Util.MemFd.{has_nul}
use schtest.Util.Child.{
  Child, reported, err, ReadAnswer, eof, eintr, bytes, exited, child_writes, returned, wait,
}
use schtest.Util.Child.Outcome.{ends, retry, chunk}
use schtest.Util.Child.Spawn.{panicked, returns, spawn, supervise, exec_failed}
use schtest.Util.Child.Spawn.Passed.{IsHeard, cannot_execute, supervise-exec_failed}

abbrev child : Child
child = record {
  pid = 40;
  notification = record { read_fd = some 5; write_fd = none; closed = 6 ∷ [] };
  result = none;
}

abbrev error_text : List ℕ
error_text = codes "ENOENT"

abbrev exec_text : List ℕ
exec_text = codes "Failed to exec: " ++ error_text

abbrev exec_reads : List ReadAnswer
exec_reads = eintr ∷ bytes exec_text ∷ eof ∷ []

abbrev supervisor_reads : List ReadAnswer
supervisor_reads = bytes (codes "Child process error: " ++ exec_text) ∷ eof ∷ []

abbrev digits : ℕ → List ℕ
digits n = (48 + n) ∷ []

-- ASCII is valid UTF-8.
abbrev same : List ℕ → List ℕ
same m = m

exec-IsHeard : IsHeard digits digits same child (exec_failed error_text) 100 exec_reads []
unfolding exec_failed child_writes
exec-IsHeard = record {
  fresh = refl;
  skips = tt;
  whole = omega arith;
  delivers = retry (chunk exec_text (ends []) refl);
}

supervisor-IsHeard :
    IsHeard digits digits same
      (record child { pid = 39 })
      (cannot_execute digits digits same error_text)
      100
      supervisor_reads
      []
unfolding child_writes
supervisor-IsHeard = record {
  fresh = refl;
  skips = tt;
  whole = omega arith;
  delivers = chunk (codes "Child process error: " ++ exec_text) (ends []) refl;
}

nul_in_argument : spawn 0 (codes "scx" ∷ (97 ∷ 0 ∷ []) ∷ []) ≡ panicked
unfolding spawn has_nul
nul_in_argument = refl

supervise-exec_failed_example :
    (supervise digits digits same (record {
      set_pdeathsig = none;
      set_child_subreaper = none;
      run = inl child;
      reads = exec_reads;
      statuses = exited 40 0 ∷ [];
    })
      ≡ returns (cannot_execute digits digits same error_text))
    × (wait true (record child { pid = 39 }) supervisor_reads (exited 39 0 ∷ [])
        ≡ returned
            (some (err (reported (codes "Child process error: Failed to exec: " ++ error_text))))
            (record child {
              pid = 39;
              result =
                  some
                    (err (reported (codes "Child process error: Failed to exec: " ++ error_text)));
            }))
supervise-exec_failed_example =
    supervise-exec_failed digits digits same child (record child { pid = 39 }) error_text 100 100
      exec_reads supervisor_reads [] [] [] [] refl exec-IsHeard supervisor-IsHeard
