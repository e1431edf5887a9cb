-- ===== src/Util/Child/Cached.antt =====
-- The cached result of a child of src/util/child.rs, and who is signalled.
use schtest.Prelude.{
  ℕ, ◌≡◌, refl, Bool, true, false, Option, none, some, List, [], ◌∷◌, ◌==◌, if◌then◌else◌, is_some,
  not, ap, inl, inr, ◌⊎◌, subst, arith,
}
use schtest.Util.Child.{
  Child, ChildResult, err, killed_by, ReadAnswer, WaitStatus, exited, signaled, still_alive, other,
  Waited, pending, returned, read_pipe, exit_result, reap, wait_loop, wait, alive, kill, cached_or,
  is_none, signal_if,
}

-- A return of `wait` leaves its value in the cache, and the pid as it was.
abbrev pub IsCached : Child → Waited → Type 0
IsCached c pending = Unit
IsCached c (returned value c') = (c'.result ≡ value) × (c'.pid ≡ c.pid)

reap-IsCached :
    (c : Child) (reads : List ReadAnswer) (result : List ℕ → ChildResult)
    → IsCached c (reap c reads result)
unfolding reap
reap-IsCached c reads result = cached (read_pipe [] reads)
  where
    cached :
        (o : Option (List ℕ))
        → IsCached c (elim o [
          | none ↦ pending
          | some buffer ↦
              returned (some (result buffer)) (record c { result = some (result buffer) })
        ])
    cached none = tt
    cached (some buffer) = (refl, refl)

if_IsCached :
    (c : Child) (b : Bool) (w w' : Waited)
    → IsCached c w
    → IsCached c w'
    → IsCached c (if b then w else w')
if_IsCached c true w w' h k = h
if_IsCached c false w w' h k = k

wait_loop-IsCached :
    (block : Bool) (c : Child) (reads : List ReadAnswer) (statuses : List WaitStatus)
    → c.result ≡ none
    → IsCached c (wait_loop block c reads statuses)
unfolding wait_loop
wait_loop-IsCached block c reads [] fresh = tt
wait_loop-IsCached block c reads (exited pid code ∷ rest) fresh =
    if_IsCached c (pid == c.pid) _ _ (reap-IsCached c reads (exit_result code))
      (wait_loop-IsCached block c reads rest fresh)
wait_loop-IsCached block c reads (signaled pid signal ∷ rest) fresh =
    if_IsCached c (pid == c.pid) _ _ (reap-IsCached c reads (λ buffer. err (killed_by signal)))
      (wait_loop-IsCached block c reads rest fresh)
wait_loop-IsCached block c reads (still_alive ∷ rest) fresh =
    if_IsCached c block _ _ (wait_loop-IsCached block c reads rest fresh) (fresh, refl)
wait_loop-IsCached block c reads (other ∷ rest) fresh =
    if_IsCached c block _ _ (wait_loop-IsCached block c reads rest fresh) (fresh, refl)

-- Whatever the kernel answers, what `wait` returns is then the cached result (nothing, if it
-- returns nothing), and the pid is kept.
pub wait-IsCached :
    (block : Bool) (c : Child) (reads : List ReadAnswer) (statuses : List WaitStatus)
    → IsCached c (wait block c reads statuses)
unfolding wait
wait-IsCached block c reads statuses = either c.result refl
  where
    either :
        (o : Option ChildResult)
        → c.result ≡ o
        → IsCached c (cached_or o c (wait_loop block c reads statuses))
    either none e = wait_loop-IsCached block c reads statuses e
    either (some r) e = (e, refl)

-- So a later `wait`, with any answers, returns the same result and changes nothing.
pub wait-wait :
    (block block' : Bool) (c c' : Child) (reads reads' : List ReadAnswer)
    (statuses statuses' : List WaitStatus) (r : ChildResult)
    → wait block c reads statuses ≡ returned (some r) c'
    → wait block' c' reads' statuses' ≡ returned (some r) c'
unfolding wait
wait-wait block block' c c' reads reads' statuses statuses' r e =
    ap (λ o. cached_or o c' (wait_loop block' c' reads' statuses')) known
  where
    known : c'.result ≡ some r
    known = (subst (IsCached c) e (wait-IsCached block c reads statuses)).0

alive-IsCached :
    (c c' : Child) (reads : List ReadAnswer) (statuses : List WaitStatus) (living : Bool)
    → alive c reads statuses ≡ some (living, c')
    → (is_some c'.result ≡ not living) × (c'.pid ≡ c.pid)
unfolding alive
alive-IsCached c c' reads statuses living e = either c.result refl e
  where
    waited :
        (w : Waited)
        → IsCached c w
        → is_none w ≡ some (living, c')
        → (is_some c'.result ≡ not living) × (c'.pid ≡ c.pid)
    waited pending k e = absurd (cc)
    waited (returned none c₁) k e = ground arith
    waited (returned (some r) c₁) k e = ground arith

    either :
        (o : Option ChildResult)
        → c.result ≡ o
        → (if is_some o then some (false, c) else is_none (wait false c reads statuses))
          ≡ some (living, c')
        → (is_some c'.result ≡ not living) × (c'.pid ≡ c.pid)
    either none e f = waited (wait false c reads statuses) (wait-IsCached false c reads statuses) f
    either (some r) e f = ground arith

-- `kill` sends at most one signal, to the pid of the child, and only if the child has not been
-- reaped: the child that it leaves has no result.
pub kill-unreaped :
    (c c' : Child) (reads : List ReadAnswer) (statuses : List WaitStatus) (sent : List ℕ)
    → kill c reads statuses ≡ some (sent, c')
    → ((sent ≡ []) × (is_some c'.result ≡ true))
      ⊎ ((sent ≡ c.pid ∷ []) × (is_some c'.result ≡ false))
unfolding kill
kill-unreaped c c' reads statuses sent e = either (alive c reads statuses) refl e
  where
    either :
        (o : Option (Bool × Child))
        → alive c reads statuses ≡ o
        → signal_if o ≡ some (sent, c')
        → ((sent ≡ []) × (is_some c'.result ≡ true))
          ⊎ ((sent ≡ c.pid ∷ []) × (is_some c'.result ≡ false))
    either none h e = absurd (cc)
    either (some (true, c₁)) h e =
        let k = alive-IsCached c c₁ reads statuses true h in inr (ground arith, ground arith)
    either (some (false, c₁)) h e =
        let k = alive-IsCached c c₁ reads statuses false h in inl (ground arith, ground arith)
