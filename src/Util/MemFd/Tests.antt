-- ===== src/Util/MemFd/Tests.antt =====
-- `MemFd::create` run at concrete answers of the kernel.
use schtest.Prelude.{◌≡◌, refl, true, false, some, [], ◌∷◌, arith, round_up}
use schtest.Util.MemFd.{Kernel, value, create, has_nul, ok, err, set_size, created, closed}
use schtest.Util.MemFd.Descriptors.{Balanced, create-Balanced}

abbrev kernel : Kernel
kernel = record {
  page_size = value 4096;
  memfd_create = some 3;
  ftruncate = true;
  mmap = some 65536;
}

create_5000 :
    (create kernel (97 ∷ []) 5000).0 ≡ ok (record { fd = 3; data_ptr = 65536; size = 8192 })
unfolding create has_nul round_up
create_5000 = refl

create_without_space :
    create (record kernel { ftruncate = false }) (97 ∷ []) 5000
    ≡ (err set_size, created 3 ∷ closed 3 ∷ [])
unfolding create has_nul round_up
create_without_space = refl

create-Balanced_example : Balanced (create kernel (97 ∷ []) 5000)
create-Balanced_example = create-Balanced kernel (97 ∷ []) 5000 (λ e. ground arith)
