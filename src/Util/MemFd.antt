-- ===== src/Util/MemFd.antt =====
-- `MemFd` of src/util/memfd.rs: a memory-backed file descriptor, mapped into memory.
-- The system calls are the kernel's: what each of them answers is a parameter, and a run records
-- the calls that it makes, in order.
pub mod Descriptors
mod Tests
use schtest.Prelude.{
  ℕ, zero, ◌+◌, Bool, true, false, ◌||◌, Option, none, some, List, [], ◌∷◌, ◌++◌, ◌==◌,
  if◌then◌else◌, round_up,
}

pub record MemFd : Type 0 where
  pub fd : ℕ
  pub data_ptr : ℕ
  pub size : ℕ

-- What the kernel answers. `page_size`: `sysconf`, an error, no value or a value; `memfd_create`:
-- `none` for -1; `ftruncate`: whether it succeeds; `mmap`: an address, or an error.
pub data PageSize : Type 0 where
  failed undefined : PageSize
  value : ℕ → PageSize

pub record Kernel : Type 0 where
  pub page_size : PageSize
  pub memfd_create : Option ℕ
  pub ftruncate : Bool
  pub mmap : Option ℕ

pub data Call : Type 0 where
  created : (fd : ℕ) → Call
  truncated : (fd len : ℕ) → Call
  mapped : (addr len fd : ℕ) → Call
  unmapped : (addr len : ℕ) → Call
  closed : (fd : ℕ) → Call

pub data CreateError : Type 0 where
  system invalid_name last_os set_size mapping : CreateError

-- `panicked` is an `unwrap` of nothing.
pub data Outcome : Type 0 where
  ok : MemFd → Outcome
  err : CreateError → Outcome
  panicked : Outcome

-- `CString::new` refuses a name with a zero byte.
unfoldable pub has_nul : List ℕ → Bool
has_nul [] = false
has_nul (c ∷ cs) = c == 0 || has_nul cs

-- From `mmap` on; `NonZeroUsize::new(0).unwrap()` panics.
create_map : Kernel → ℕ → ℕ → Outcome × List Call
create_map k fd rounded_up =
    if rounded_up == 0 then (panicked, created fd ∷ truncated fd rounded_up ∷ []) else elim k.mmap [
      | none ↦ (err mapping, created fd ∷ truncated fd rounded_up ∷ closed fd ∷ [])
      | some addr ↦ (
        ok (record { fd = fd; data_ptr = addr; size = rounded_up }),
        created fd ∷ truncated fd rounded_up ∷ mapped addr rounded_up fd ∷ [],
      )
    ]

-- From `memfd_create` on.
create_fd : Kernel → ℕ → Outcome × List Call
unfolding create_map
create_fd k rounded_up = elim k.memfd_create [
  | none ↦ (err last_os, [])
  | some fd ↦
      if k.ftruncate
      then create_map k fd rounded_up
      else (err set_size, created fd ∷ closed fd ∷ [])
]

pub create : Kernel → List ℕ → ℕ → Outcome × List Call
unfolding create_fd
create k name size = elim k.page_size [
  | failed ↦ (err system, [])
  | undefined ↦ (panicked, [])
  | value page_size ↦
      if has_nul name then (err invalid_name, []) else create_fd k (round_up size page_size)
]

-- `Drop`: the pointer of a value that `create` returned is not null, and its descriptor not -1.
pub drop : MemFd → List Call
drop m = (if m.data_ptr == 0 then [] else unmapped m.data_ptr m.size ∷ []) ++ (closed m.fd ∷ [])
