-- ===== src/Util/Child/Spawn/Passed.antt =====
-- What the caller of `spawn` in src/util/child.rs learns of the command.
use schtest.Prelude.{ℕ, ◌≤◌, ◌≡◌, true, none, some, List, ◌∷◌, ◌++◌, ◌∙◌, All, length, inl, ap}
use schtest.Prelude.Text.{codes}
use schtest.Util.Child.{
  Child, ChildResult, err, reported, Returned, failure, ReadAnswer, WaitStatus, exited, returned,
  wait, child_writes,
}
use schtest.Util.Child.Outcome.{NotOurs, Delivers, seen, message_of, wait-child_writes}
use schtest.Util.Child.Spawn.{
  returns, to_returned, message, unwrap, await_command, supervise, exec_failed,
}

module _ (code_text signal_text : ℕ → List ℕ) (from_utf8_lossy : List ℕ → List ℕ) where
  supervise-wait :
      (inner c : Child) (r : ChildResult) (reads : List ReadAnswer) (statuses : List WaitStatus)
      → wait true inner reads statuses ≡ returned (some r) c
      → supervise code_text signal_text from_utf8_lossy (record {
        set_pdeathsig = none;
        set_child_subreaper = none;
        run = inl inner;
        reads = reads;
        statuses = statuses;
      })
        ≡ returns (to_returned code_text signal_text from_utf8_lossy r)
  unfolding supervise await_command unwrap
  supervise-wait inner c r reads statuses e = ap (unwrap code_text signal_text from_utf8_lossy) e

  -- The conditions under which what a process returned is read: it was not reaped before, the write
  -- took all of its message, the reads deliver it, and the kernel reports nothing of it before its
  -- exit.
  pub record IsHeard (c : Child) (r : Returned) (written : ℕ) (reads : List ReadAnswer)
      (before : List WaitStatus) : Type 0 where
    pub fresh : c.result ≡ none
    pub skips : All (NotOurs c.pid) before
    pub whole : length (message_of r) ≤ written
    pub delivers : Delivers (child_writes written r) reads

  -- The error of the supervisor for a command that cannot be executed.
  abbrev pub cannot_execute : List ℕ → Returned
  cannot_execute error = failure (codes "Child process error: Failed to exec: " ++ error)

  -- If the command cannot be executed, `from_utf8_lossy` leaves the text of that error as it is, and the
  -- ends of both processes are heard, the supervisor returns an error that ends with that of `execvp`, and a blocking `wait` of the caller of `spawn`
  -- returns the error that the supervisor has reported.
  pub supervise-exec_failed :
      (inner outer : Child) (error : List ℕ) (n m : ℕ) (reads reads' : List ReadAnswer)
      (before after before' after' : List WaitStatus)
      → from_utf8_lossy (codes "Failed to exec: " ++ error) ≡ codes "Failed to exec: " ++ error
      → IsHeard inner (exec_failed error) n reads before
      → IsHeard outer (cannot_execute error) m reads' before'
      → (supervise code_text signal_text from_utf8_lossy (record {
        set_pdeathsig = none;
        set_child_subreaper = none;
        run = inl inner;
        reads = reads;
        statuses = before ++ (exited inner.pid 0 ∷ after);
      })
          ≡ returns (cannot_execute error))
        × (wait true outer reads' (before' ++ (exited outer.pid 0 ∷ after'))
            ≡ returned
                (some (err (reported (codes "Child process error: Failed to exec: " ++ error))))
                (record outer {
                  result =
                      some
                        (err (reported (codes "Child process error: Failed to exec: " ++ error)));
                }))
  unfolding exec_failed to_returned message
  supervise-exec_failed inner outer error n m reads reads' before after before' after' valid h k = (
    supervise-wait inner _ (seen (exec_failed error)) reads _ (
          wait-child_writes inner (exec_failed error) n reads before after h.fresh h.skips h.whole
            h.delivers)
        ∙ ap (λ t. returns (failure (codes "Child process error: " ++ t))) valid,
    wait-child_writes outer (cannot_execute error) m reads' before' after' k.fresh k.skips k.whole
        k.delivers,
  )
