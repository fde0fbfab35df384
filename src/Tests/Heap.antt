-- ===== src/Tests/Heap.antt =====
-- The bump allocator of os/src/bin/kernel/bump_allocator.rs, with 4096 bytes of memory.
use rasperry_pi_os.Prelude.{ℕ, ◌-◌, ◌^◌, ◌≡◌, refl, some, List, [], ◌∷◌, arith}
use rasperry_pi_os.BumpAllocator.{BumpAllocator, set_memory, align_to, allocate, allocate_all}
use rasperry_pi_os.BumpAllocator.Laws.{Apart, allocate_all-Apart}

abbrev heap : BumpAllocator
heap = set_memory 65537 69633

abbrev requests : List (ℕ × ℕ)
requests = (24, 8) ∷ (0, 16) ∷ (8192, 8) ∷ (5, 1) ∷ []

allocate_all-Apart_example : Apart heap.pointer heap.bound (allocate_all heap requests)
allocate_all-Apart_example = allocate_all-Apart heap requests (omega arith) (omega arith) (
  (omega arith, omega arith),
  ((omega arith, omega arith), ((omega arith, omega arith), ((omega arith, omega arith), tt))),
)

-- The kernel's heap lies below 2^64. A size that wraps past it is granted, as the end of the block
-- is then below the bound.
abbrev kernel_heap : BumpAllocator
kernel_heap = set_memory (2 ^ 64 - 33554432) (2 ^ 64 - 31457280)

wrapped_size : (allocate kernel_heap (2 ^ 62) 8).0 ≡ some (2 ^ 64 - 33554432)
unfolding allocate align_to
wrapped_size = refl
