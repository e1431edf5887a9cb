-- ===== src/Util/Child/Drop.antt =====
-- `Drop` of src/util/child.rs, and `Process::join` of src/workloads/process.rs: kill and reap.
use schtest.Prelude.{
  ℕ, ◌≡◌, Bool, true, false, Option, none, some, List, [], ◌∷◌, ◌==◌, if◌then◌else◌, inl, inr, ◌⊎◌,
  is_some, Option-cases,
}
use schtest.Util.Child.{
  Child, ChildResult, err, killed_by, ReadAnswer, WaitStatus, exited, signaled, still_alive, other,
  Waited, pending, returned, read_pipe, exit_result, reap, wait_loop, wait, kill,
}
use schtest.Util.Child.Cached.{IsCached, wait-IsCached, kill-unreaped}

-- The end of the child: the pids that were signalled, and the blocking `wait` for it, with the
-- answers to each of the two calls; `none` if `kill` is still blocked.
pub drop :
    Child
    → (killing : List ReadAnswer × List WaitStatus) → (waiting : List ReadAnswer × List WaitStatus)
    → Option (List ℕ × Waited)
drop c (reads, statuses) (reads', statuses') = elim (kill c reads statuses) [
  | none ↦ none
  | some (pids, c') ↦ some (pids, wait true c' reads' statuses')
]

pub data Joined : Type 0 where
  blocked : Joined
  not_killed : (pids : List ℕ) → Child → Joined
  joined : (pids : List ℕ) → Waited → Joined

-- `join` returns at an error of the signal, without waiting; the result of `wait` is dropped.
pub join :
    (accepted : Bool)
    → Child
    → (killing : List ReadAnswer × List WaitStatus) → (waiting : List ReadAnswer × List WaitStatus)
    → Joined
join accepted c (reads, statuses) (reads', statuses') = elim (kill c reads statuses) [
  | none ↦ blocked
  | some (pids, c') ↦ elim pids [
    | [] ↦ joined [] (wait true c' reads' statuses')
    | p ∷ ps ↦
        if accepted then joined (p ∷ ps) (wait true c' reads' statuses') else not_killed (p ∷ ps) c'
  ]
]

-- A return of `wait`, if it returns, with a result.
IsResult : Waited → Type 0
IsResult pending = Unit
IsResult (returned none c) = ⊥
IsResult (returned (some r) c) = Unit

if_IsResult : (b : Bool) (w w' : Waited) → IsResult w → IsResult w' → IsResult (if b then w else w')
if_IsResult true w w' h k = h
if_IsResult false w w' h k = k

reap-IsResult :
    (c : Child) (reads : List ReadAnswer) (result : List ℕ → ChildResult)
    → IsResult (reap c reads result)
unfolding reap IsResult
reap-IsResult c reads result = elim (Option-cases (read_pipe [] reads)) [
  | inl e ↦ rw (e, reap) tt
  | inr (b, e) ↦ rw (e, reap) tt
]

wait_loop-IsResult :
    (c : Child) (reads : List ReadAnswer) (statuses : List WaitStatus)
    → IsResult (wait_loop true c reads statuses)
unfolding wait_loop IsResult
wait_loop-IsResult c reads [] = tt
wait_loop-IsResult c reads (exited pid code ∷ rest) =
    if_IsResult (pid == c.pid) _ _ (reap-IsResult c reads (exit_result code))
      (wait_loop-IsResult c reads rest)
wait_loop-IsResult c reads (signaled pid signal ∷ rest) =
    if_IsResult (pid == c.pid) _ _ (reap-IsResult c reads (λ buffer. err (killed_by signal)))
      (wait_loop-IsResult c reads rest)
wait_loop-IsResult c reads (still_alive ∷ rest) = wait_loop-IsResult c reads rest
wait_loop-IsResult c reads (other ∷ rest) = wait_loop-IsResult c reads rest

wait-IsResult :
    (c : Child) (reads : List ReadAnswer) (statuses : List WaitStatus)
    → IsResult (wait true c reads statuses)
unfolding wait wait_loop IsResult
wait-IsResult c reads statuses = elim (Option-cases c.result) [
  | inl e ↦ rw (e, wait) (wait_loop-IsResult c reads statuses)
  | inr (r, e) ↦ rw (e, wait) tt
]

-- What dropping a child comes to: it is still blocked, or the child has its result; at most one signal
-- was sent, to the pid of the child.
pub data DropsAs (c : Child) : Option (List ℕ × Waited) → Type 0 where
  still_killing : DropsAs c none
  still_waiting :
      (pids : List ℕ) → (pids ≡ []) ⊎ (pids ≡ c.pid ∷ []) → DropsAs c (some (pids, pending))
  reaped :
      (pids : List ℕ) (r : ChildResult) (c' : Child)
      → (pids ≡ []) ⊎ (pids ≡ c.pid ∷ [])
      → c'.result ≡ some r
      → DropsAs c (some (pids, returned (some r) c'))

finished :
    (c c' : Child) (pids : List ℕ) (w : Waited)
    → (pids ≡ []) ⊎ (pids ≡ c.pid ∷ [])
    → IsCached c' w
    → IsResult w
    → DropsAs c (some (pids, w))
unfolding IsResult
finished c c' pids pending s k h = still_waiting pids s
finished c c' pids (returned none d) s k h = absurd h
finished c c' pids (returned (some r) d) s k h = reaped pids r d s k.0

signals :
    (c c' : Child) (sent : List ℕ)
    → ((sent ≡ []) × (is_some c'.result ≡ true))
      ⊎ ((sent ≡ c.pid ∷ []) × (is_some c'.result ≡ false))
    → (sent ≡ []) ⊎ (sent ≡ c.pid ∷ [])
signals c c' sent (inl h) = inl h.0
signals c c' sent (inr h) = inr h.0

-- Whatever the kernel answers, dropping a child sends at most one signal, to its pid, and then stays
-- blocked or leaves the child with its result: it is never left behind unreaped.
pub drop-DropsAs :
    (c : Child) (killing waiting : List ReadAnswer × List WaitStatus)
    → DropsAs c (drop c killing waiting)
unfolding drop
drop-DropsAs c (reads, statuses) (reads', statuses') = elim (Option-cases (kill c reads statuses)) [
  | inl e ↦ rw (e, drop) still_killing
  | inr ((pids, c'), e) ↦
      rw (e, drop)
        (finished c c' pids _ (signals c c' pids (kill-unreaped c c' reads statuses pids e))
          (wait-IsCached true c' reads' statuses') (wait-IsResult c' reads' statuses'))
]
