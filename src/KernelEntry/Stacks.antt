-- ===== src/KernelEntry/Stacks.antt =====
-- The stacks of the cores, and the heap above them.
use rasperry_pi_os.Prelude.{ℕ, ◌+◌, ◌%◌, ◌^◌, ◌≤◌, ◌<◌, ◌≡◌, refl, arith, returns}
use rasperry_pi_os.BumpAllocator.{BumpAllocator, set_memory}
use rasperry_pi_os.KernelEntry.{
  stack_size, stack_top, virtual_offset, stack_end, kernel_heap, heap_end,
}

-- With a kernel that ends far enough below 2 MiB, the stacks of the cores stand one above the other from
-- the end of the BSS on, each with its own 8 KiB, and the heap starts where the last one ends and goes up
-- to the end of the 2 MiB block.
pub stacks-heap :
    (bss_end : ℕ)
    → bss_end + 32784 ≤ 2 ^ 21
    → (heap : BumpAllocator) × (kernel_heap (bss_end + virtual_offset) ≡ returns heap)
      × ((core : ℕ)
          → core < 4
          → (bss_end + virtual_offset + stack_size ≤ stack_top bss_end core)
            × (stack_top bss_end core ≤ heap.pointer)
            × (stack_top bss_end core % 16 ≡ 0))
      × ((core other : ℕ)
          → core < other
          → other < 4
          → stack_top bss_end core + stack_size ≤ stack_top bss_end other)
      × (heap.pointer ≡ stack_top bss_end 3)
      × (heap.bound ≡ virtual_offset + 2 ^ 21)
      × (heap.pointer ≤ heap.bound)
unfolding kernel_heap stack_end stack_top
stacks-heap bss_end small = (
  set_memory (stack_top bss_end 3) heap_end,
  ground arith,
  λ core lt. omega arith,
  λ core other lt lt'. omega arith,
  refl,
  refl,
  omega arith,
)
