-- ===== src/Util/MemFd/Descriptors.antt =====
-- The descriptors and mappings that `create` and `drop` of src/util/memfd.rs leave.
use schtest.Prelude.{
  ℕ, ◌+◌, ◌^◌, ◌≤◌, ◌≡◌, ◌≢◌, some, List, [], ◌∷◌, ◌++◌, ◌==◌, if◌then◌else◌, arith, subst, sym,
  round_up, Rounded, round_up-Rounded,
}
use schtest.Util.MemFd.{
  MemFd, Kernel, value, Call, created, truncated, mapped, unmapped, closed, Outcome, ok, err,
  panicked, create, drop,
}

-- What a process holds after a run of calls.
pub remove_one : ℕ → List ℕ → List ℕ
remove_one a [] = []
remove_one a (x ∷ xs) = if a == x then xs else x ∷ remove_one a xs

pub open_fds : List ℕ → List Call → List ℕ
open_fds held [] = held
open_fds held (created fd ∷ cs) = open_fds (fd ∷ held) cs
open_fds held (closed fd ∷ cs) = open_fds (remove_one fd held) cs
open_fds held (truncated fd len ∷ cs) = open_fds held cs
open_fds held (mapped addr len fd ∷ cs) = open_fds held cs
open_fds held (unmapped addr len ∷ cs) = open_fds held cs

pub maps : List ℕ → List Call → List ℕ
maps held [] = held
maps held (mapped addr len fd ∷ cs) = maps (addr ∷ held) cs
maps held (unmapped addr len ∷ cs) = maps (remove_one addr held) cs
maps held (created fd ∷ cs) = maps held cs
maps held (truncated fd len ∷ cs) = maps held cs
maps held (closed fd ∷ cs) = maps held cs

-- The descriptors and mappings that the outcome owns.
abbrev pub Balanced : Outcome × List Call → Type 0
Balanced (ok m, cs) =
    (open_fds [] cs ≡ m.fd ∷ [])
    × (maps [] cs ≡ m.data_ptr ∷ [])
    × (open_fds [] (cs ++ drop m) ≡ [])
    × (maps [] (cs ++ drop m) ≡ [])
    × (m.size ≢ 0)
Balanced (err e, cs) = (open_fds [] cs ≡ []) × (maps [] cs ≡ [])
Balanced (panicked, cs) = maps [] cs ≡ []

-- Whatever the kernel answers, as long as `mmap` does not map page zero: a failed `create` has
-- closed the descriptor that it opened and mapped nothing; a successful one holds exactly its
-- descriptor and its mapping, which is not empty, and `drop` gives both back.
pub create-Balanced :
    (k : Kernel) (name : List ℕ) (size : ℕ) → k.mmap ≢ some 0 → Balanced (create k name size)
unfolding create drop open_fds maps remove_one
create-Balanced k name size mapped_high = ground arith

size-create :
    (k : Kernel) (name : List ℕ) (size n : ℕ) {m : MemFd}
    → k.page_size ≡ value n
    → (create k name size).0 ≡ ok m
    → m.size ≡ round_up size n
unfolding create
size-create k name size n pages h = ground arith

-- A mapping is the requested size rounded up to whole pages, where pages are powers of two and
-- the size leaves room for one more page below 2 ^ 64.
pub create-Rounded :
    (k : Kernel) (name : List ℕ) (size p w : ℕ) {m : MemFd}
    → w + p ≡ 64
    → k.page_size ≡ value (2 ^ p)
    → size + 2 ^ p ≤ 2 ^ 64
    → (create k name size).0 ≡ ok m
    → Rounded p size m.size
create-Rounded k name size p w e pages room h =
    subst (Rounded p size) (sym (size-create k name size (2 ^ p) pages h))
      (round_up-Rounded w p size e room)
