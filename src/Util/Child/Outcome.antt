-- ===== src/Util/Child/Outcome.antt =====
-- What a blocking `wait` returns, and what of the child's result gets through the pipe.
use schtest.Prelude.{
  ℕ, zero, suc, ◌≤◌, ◌≡◌, ◌≢◌, refl, true, none, some, List, [], ◌∷◌, ◌++◌, ◌==◌, if◌then◌else◌,
  take, length, All, arith, ap, ◌∙◌, sym, subst,
}
use mathlib.Core.List.{append-nil, append_assoc}
use schtest.Util.Child.{
  Child, reported, exited_with, killed_by, ChildResult, ok, err, ReadAnswer, eof, eintr, bytes,
  WaitStatus, exited, signaled, still_alive, other, Returned, success, failure, child_writes,
  pending, returned, read_pipe, exit_result, reap, wait_loop, wait, cached_or,
}

-- An answer that does not report the end of the child.
abbrev pub NotOurs : ℕ → WaitStatus → Type 0
NotOurs own (exited pid code) = pid ≢ own
NotOurs own (signaled pid signal) = pid ≢ own
NotOurs own still_alive = Unit
NotOurs own other = Unit

-- The answers of `read` that deliver a message: chunks of any size, interrupted or not, and the
-- end of the file.
pub data Delivers : List ℕ → List ReadAnswer → Type 0 where
  ends : (rest : List ReadAnswer) → Delivers [] (eof ∷ rest)
  retry : {m : List ℕ} {rest : List ReadAnswer} → Delivers m rest → Delivers m (eintr ∷ rest)
  chunk :
      (b : List ℕ) {m all : List ℕ} {rest : List ReadAnswer}
      → Delivers m rest
      → all ≡ b ++ m
      → Delivers all (bytes b ∷ rest)

read_pipe-Delivers :
    {m : List ℕ} {reads : List ReadAnswer} (buffer : List ℕ)
    → Delivers m reads
    → read_pipe buffer reads ≡ some (buffer ++ m)
unfolding read_pipe
read_pipe-Delivers buffer (ends rest) = ap some (sym (append-nil buffer))
read_pipe-Delivers buffer (retry d) = read_pipe-Delivers buffer d
read_pipe-Delivers buffer (chunk b {m} d e) =
    rw e (read_pipe-Delivers (buffer ++ b) d ∙ ap some (append_assoc buffer b m))

-- A blocking loop passes over answers about other children, stops and errors.
wait_loop-skip :
    (c : Child) (reads : List ReadAnswer) (before after : List WaitStatus)
    → All (NotOurs c.pid) before
    → wait_loop true c reads (before ++ after) ≡ wait_loop true c reads after
unfolding wait_loop
wait_loop-skip c reads [] after h = refl
wait_loop-skip c reads (exited pid code ∷ before) after h =
    ground (arith, wait_loop-skip c reads before after h.1)
wait_loop-skip c reads (signaled pid signal ∷ before) after h =
    ground (arith, wait_loop-skip c reads before after h.1)
wait_loop-skip c reads (still_alive ∷ before) after h = wait_loop-skip c reads before after h.1
wait_loop-skip c reads (other ∷ before) after h = wait_loop-skip c reads before after h.1

own : (n : ℕ) → (n == n) ≡ true
own n = ground arith

reap-Delivers :
    (c : Child) (reads : List ReadAnswer) (m : List ℕ) (result : List ℕ → ChildResult)
    → Delivers m reads
    → reap c reads result ≡ returned (some (result m)) (record c { result = some (result m) })
unfolding reap
reap-Delivers c reads m result d = rw (read_pipe-Delivers [] d, reap)

if_own {ℓ} : {A : Type ℓ} (n : ℕ) (x y : A) → (if n == n then x else y) ≡ x
if_own n x y = rw (own n)

-- What the parent is told of an exit: another code than 0 is an error with this code, whatever the
-- pipe holds; with code 0 it is the message of the pipe, or success if that is empty.
abbrev pub outcome : (code : ℕ) → (message : List ℕ) → ChildResult
outcome (suc code) message = err (exited_with (suc code))
outcome zero [] = ok
outcome zero (b ∷ bs) = err (reported (b ∷ bs))

exit_result-outcome : (code : ℕ) (m : List ℕ) → exit_result code m ≡ outcome code m
unfolding exit_result
exit_result-outcome zero [] = refl
exit_result-outcome zero (b ∷ bs) = refl
exit_result-outcome (suc code) [] = ground arith
exit_result-outcome (suc code) (b ∷ bs) = ground arith

pub wait-ended :
    (c : Child) (reads : List ReadAnswer) (before after : List WaitStatus) (m : List ℕ)
    (code signal : ℕ)
    → c.result ≡ none
    → All (NotOurs c.pid) before
    → Delivers m reads
    → (wait true c reads (before ++ (exited c.pid code ∷ after))
        ≡ returned (some (outcome code m)) (record c { result = some (outcome code m) }))
      × (wait true c reads (before ++ (signaled c.pid signal ∷ after))
          ≡ returned
              (some (err (killed_by signal)))
              (record c { result = some (err (killed_by signal)) }))
unfolding wait wait_loop
wait-ended c reads before after m code signal fresh skip d = (
  ap (λ o. cached_or o c (wait_loop true c reads (before ++ (exited c.pid code ∷ after)))) fresh
      ∙ wait_loop-skip c reads before (exited c.pid code ∷ after) skip
      ∙ if_own c.pid _ _
      ∙ reap-Delivers c reads m (exit_result code) d
      ∙ ap (λ r. returned (some r) (record c { result = some r })) (exit_result-outcome code m),
  ap (λ o. cached_or o c (wait_loop true c reads (before ++ (signaled c.pid signal ∷ after)))) fresh
      ∙ wait_loop-skip c reads before (signaled c.pid signal ∷ after) skip
      ∙ if_own c.pid _ _
      ∙ reap-Delivers c reads m (λ buffer. err (killed_by signal)) d,
)

-- A blocking `wait` on answers that never report the end of the child stays blocked, errors of
-- `waitpid` included.
pub wait-pending :
    (c : Child) (reads : List ReadAnswer) (statuses : List WaitStatus)
    → c.result ≡ none
    → All (NotOurs c.pid) statuses
    → wait true c reads statuses ≡ pending
unfolding wait wait_loop
wait-pending c reads statuses fresh skip =
    ap (λ o. cached_or o c (wait_loop true c reads statuses)) fresh
    ∙ ap (wait_loop true c reads) (sym (append-nil statuses))
    ∙ wait_loop-skip c reads statuses [] skip

take_all : (n : ℕ) (m : List ℕ) → length m ≤ n → take n m ≡ m
take_all zero [] h = refl
take_all zero (b ∷ m) h = absurd (omega arith)
take_all (suc n) [] h = refl
take_all (suc n) (b ∷ m) h = ap (λ t. b ∷ t) (take_all n m (omega arith))

-- What the parent should see of the child's result: an error with a message as that message, and
-- an error without one as success.
abbrev pub seen : Returned → ChildResult
seen success = ok
seen (failure []) = ok
seen (failure (b ∷ m)) = err (reported (b ∷ m))

abbrev pub message_of : Returned → List ℕ
message_of success = []
message_of (failure message) = message

-- The result of the function that runs in the child comes back through the pipe and `wait`, if the
-- write took all of the message and the reads deliver what was written.
pub wait-child_writes :
    (c : Child) (r : Returned) (written : ℕ) (reads : List ReadAnswer)
    (before after : List WaitStatus)
    → c.result ≡ none
    → All (NotOurs c.pid) before
    → length (message_of r) ≤ written
    → Delivers (child_writes written r) reads
    → wait true c reads (before ++ (exited c.pid 0 ∷ after))
      ≡ returned (some (seen r)) (record c { result = some (seen r) })
unfolding child_writes
wait-child_writes c success written reads before after fresh skip whole d =
    (wait-ended c reads before after [] 0 0 fresh skip d).0
wait-child_writes c (failure []) written reads before after fresh skip whole d =
    (wait-ended c reads before after [] 0 0 fresh skip
      (subst (λ m. Delivers m reads) (take_all written [] whole) d)).0
wait-child_writes c (failure (b ∷ m)) written reads before after fresh skip whole d =
    (wait-ended c reads before after (b ∷ m) 0 0 fresh skip
      (subst (λ m. Delivers m reads) (take_all written (b ∷ m) whole) d)).0
