-- ===== src/Util/Child.antt =====
-- src/util/child.rs: a child process, its notification pipe and its cached result.
-- What `waitpid` and `read` answer is given as lists, in the order in which they are asked; a call
-- that needs an answer past the end of its list is still blocked. Messages are lists of bytes.
-- The `all` of `wait` only widens what `waitpid` may answer, to children with other pids: the
-- lists hold such answers in any case.
pub mod Cached
pub mod Drop
pub mod Outcome
pub mod Spawn
mod Tests
use schtest.Prelude.{
  ℕ, zero, suc, Bool, true, false, Option, none, some, List, [], ◌∷◌, ◌++◌, ◌==◌, if◌then◌else◌,
  take, is_some,
}

-- The ends of the pipe that are still open, and the descriptors that have been closed.
pub record NotificationFd : Type 0 where
  pub read_fd : Option ℕ
  pub write_fd : Option ℕ
  pub closed : List ℕ

pub notification_new : ℕ → ℕ → NotificationFd
notification_new read_fd write_fd = record {
  read_fd = some read_fd;
  write_fd = some write_fd;
  closed = [];
}

pub close_write : NotificationFd → NotificationFd
close_write n = elim n.write_fd [
  | none ↦ n
  | some fd ↦ record n { write_fd = none; closed = fd ∷ n.closed }
]

pub close_read : NotificationFd → NotificationFd
close_read n = elim n.read_fd [
  | none ↦ n
  | some fd ↦ record n { read_fd = none; closed = fd ∷ n.closed }
]

-- `Drop for NotificationFd`
pub notification_drop : NotificationFd → NotificationFd
notification_drop n = close_read (close_write n)

-- The errors of a child: reported through the pipe, an exit code, a signal. `reported` holds the bytes
-- of the pipe as they came; their text, by `String::from_utf8_lossy`, is made of them in Spawn.message.
pub data ChildError : Type 0 where
  reported : List ℕ → ChildError
  exited_with : ℕ → ChildError
  killed_by : ℕ → ChildError

pub data ChildResult : Type 0 where
  ok : ChildResult
  err : ChildError → ChildResult

pub record Child : Type 0 where
  pub pid : ℕ
  pub notification : NotificationFd
  pub result : Option ChildResult

pub child_new : ℕ → NotificationFd → Child
child_new pid notification = record { pid = pid; notification = notification; result = none }

-- What `waitpid` answers; `other` is any other status, or an error.
pub data WaitStatus : Type 0 where
  exited : (pid code : ℕ) → WaitStatus
  signaled : (pid signal : ℕ) → WaitStatus
  still_alive other : WaitStatus

pub data ReadAnswer : Type 0 where
  eof eintr read_error : ReadAnswer
  bytes : List ℕ → ReadAnswer

-- The child's side of `run`: what it writes to the pipe, if the write takes `written` bytes. It
-- exits with code 0 either way.
pub data Returned : Type 0 where
  success : Returned
  failure : (message : List ℕ) → Returned

unfoldable pub child_writes : ℕ → Returned → List ℕ
child_writes written success = []
child_writes written (failure message) = take written message

-- The parent's side of `run`, once `clone` has answered: a negative pid is an error, and drops the
-- pipe.
pub run_parent : Option ℕ → NotificationFd → Option Child × NotificationFd
run_parent none n = (none, notification_drop n)
run_parent (some pid) n = (some (child_new pid (close_write n)), close_write n)

-- The loop that reads the pipe.
pub read_pipe : List ℕ → List ReadAnswer → Option (List ℕ)
read_pipe buffer [] = none
read_pipe buffer (eof ∷ rest) = some buffer
read_pipe buffer (eintr ∷ rest) = read_pipe buffer rest
read_pipe buffer (read_error ∷ rest) = some buffer
read_pipe buffer (bytes b ∷ rest) = read_pipe (buffer ++ b) rest

-- The result of an exit with a code and the bytes of the pipe. The error keeps the bytes; the text
-- that `from_utf8_lossy` makes of them is that of Spawn.message.
pub exit_result : ℕ → List ℕ → ChildResult
exit_result code [] = if code == 0 then ok else err (exited_with code)
exit_result code (b ∷ bs) = if code == 0 then err (reported (b ∷ bs)) else err (exited_with code)

-- `pending` is a call that is still blocked; `returned` its value, with the child as it is then.
pub data Waited : Type 0 where
  pending : Waited
  returned : (value : Option ChildResult) → Child → Waited

-- The end of `wait` for the own pid: read the pipe, cache the result and return it.
pub reap : Child → List ReadAnswer → (List ℕ → ChildResult) → Waited
unfolding read_pipe
reap c reads result = elim (read_pipe [] reads) [
  | none ↦ pending
  | some buffer ↦ returned (some (result buffer)) (record c { result = some (result buffer) })
]

pub wait_loop : Bool → Child → List ReadAnswer → List WaitStatus → Waited
unfolding reap
wait_loop block c reads [] = pending
wait_loop block c reads (exited pid code ∷ rest) =
    let go_on = wait_loop block c reads rest in
    if pid == c.pid then reap c reads (exit_result code) else go_on
wait_loop block c reads (signaled pid signal ∷ rest) =
    let go_on = wait_loop block c reads rest in
    if pid == c.pid then reap c reads (λ buffer. err (killed_by signal)) else go_on
wait_loop block c reads (still_alive ∷ rest) =
    let go_on = wait_loop block c reads rest in if block then go_on else returned none c
wait_loop block c reads (other ∷ rest) =
    let go_on = wait_loop block c reads rest in if block then go_on else returned none c

abbrev pub cached_or : Option ChildResult → Child → Waited → Waited
cached_or none c waited = waited
cached_or (some r) c waited = returned (some r) c

pub wait : Bool → Child → List ReadAnswer → List WaitStatus → Waited
wait block c reads statuses = cached_or c.result c (wait_loop block c reads statuses)

-- `alive`, with the child afterwards; `none` if it is still blocked.
abbrev pub is_none : Waited → Option (Bool × Child)
is_none pending = none
is_none (returned none c) = some (true, c)
is_none (returned (some r) c) = some (false, c)

pub alive : Child → List ReadAnswer → List WaitStatus → Option (Bool × Child)
unfolding wait
alive c reads statuses =
    if is_some c.result then some (false, c) else is_none (wait false c reads statuses)

-- `kill`: the pids that the signal was sent to, and the child afterwards. Whether the kernel took
-- the signal only decides between `Ok` and `Err`.
abbrev pub signal_if : Option (Bool × Child) → Option (List ℕ × Child)
signal_if none = none
signal_if (some (true, c)) = some (c.pid ∷ [], c)
signal_if (some (false, c)) = some ([], c)

pub kill : Child → List ReadAnswer → List WaitStatus → Option (List ℕ × Child)
kill c reads statuses = signal_if (alive c reads statuses)
