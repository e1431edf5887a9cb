-- ===== src/Util/Child/Tests.antt =====
-- A child with pid 40 that reports the message 69, 33.
use schtest.Prelude.{ℕ, ◌≡◌, refl, true, false, none, some, List, [], ◌∷◌, ◌++◌, arith}
use schtest.Util.Child.{
  Child, reported, err, ReadAnswer, eof, eintr, bytes, WaitStatus, exited, still_alive, other,
  failure, child_writes, returned, wait, child_new, close_write, notification_new,
}
use schtest.Util.Child.Cached.{IsCached, wait-IsCached}
use schtest.Util.Child.Outcome.{Delivers, ends, retry, chunk, wait-child_writes}

abbrev child : Child
child = record {
  pid = 40;
  notification = record { read_fd = some 5; write_fd = none; closed = 6 ∷ [] };
  result = none;
}

abbrev reads : List ReadAnswer
reads = bytes (69 ∷ []) ∷ eintr ∷ bytes (33 ∷ []) ∷ eof ∷ []

abbrev before : List WaitStatus
before = still_alive ∷ exited 41 1 ∷ other ∷ []

abbrev message : List ℕ
message = 69 ∷ 33 ∷ []

reads-Delivers : Delivers message reads
reads-Delivers = chunk (69 ∷ []) (retry (chunk (33 ∷ []) (ends []) refl)) refl

run_parent_closes : (child_new 40 (close_write (notification_new 5 6))) ≡ child
unfolding child_new close_write notification_new
run_parent_closes = refl

wait-child_writes_example :
    wait true child reads (before ++ (exited 40 0 ∷ []))
    ≡ returned
        (some (err (reported message)))
        (record child { result = some (err (reported message)) })
unfolding child_writes
wait-child_writes_example =
    wait-child_writes child (failure message) 2 reads before [] refl (tt, (omega arith, (tt, tt)))
      (omega arith) reads-Delivers

wait-IsCached_example : IsCached child (wait false child reads (exited 40 0 ∷ []))
wait-IsCached_example = wait-IsCached false child reads (exited 40 0 ∷ [])
