-- ===== src/Tests/Entries.antt =====
-- A small kernel that starts, a program with two arguments, and the init program as it forks.
use rasperry_pi_os.Prelude.{
  some, ℕ, ◌+◌, ◌-◌, ◌%◌, ◌^◌, ◌≤◌, ◌<◌, ◌≡◌, ◌⊎◌, some, List, [], ◌∷◌, arith, ◌==◌, if◌then◌else◌,
  get_or, returns, panics, unexpected,
}
use rasperry_pi_os.BumpAllocator.{BumpAllocator}
use rasperry_pi_os.KernelEntry.{
  Memory, init_size, init_physical_address, move_init, virtual_offset, stack_top, stack_size,
  kernel_heap,
}
use rasperry_pi_os.KernelEntry.Copy.{move_init_lem}
use rasperry_pi_os.KernelEntry.Stacks.{stacks-heap}
use rasperry_pi_os.UserLibrary.Start.{read_all, start}
use rasperry_pi_os.UserLibrary.Start.Arguments.{layout, start-layout}
use rasperry_pi_os.Init.Entry as Entry
use rasperry_pi_os.Init.Entry.Laws.{start-enter_main}
use rasperry_pi_os.Assembly.{Cpu}

-- An init program of three bytes at 0x9_0000.
abbrev image : Memory
image a = if a == 589824 then 3 else if a == 589825 then 0 else a % 7

move_init_example :
    (bytes' : Memory) × (move_init 5 589824 image ≡ some bytes')
    × ((i : ℕ)
        → i ≤ init_size image 589824
        → bytes' (init_physical_address + i) ≡ image (589826 + i))
    × ((a : ℕ)
        → (a < init_physical_address) ⊎ (init_physical_address + init_size image 589824 < a)
        → bytes' a ≡ image a)
unfolding init_size
move_init_example = move_init_lem 5 589824 image (omega arith) (omega arith) (omega arith)

stacks_example :
    (heap : BumpAllocator) × (kernel_heap (600000 + virtual_offset) ≡ returns heap)
    × ((core : ℕ)
        → core < 4
        → (600000 + virtual_offset + stack_size ≤ stack_top 600000 core)
          × (stack_top 600000 core ≤ heap.pointer)
          × (stack_top 600000 core % 16 ≡ 0))
    × ((core other : ℕ)
        → core < other
        → other < 4
        → stack_top 600000 core + stack_size ≤ stack_top 600000 other)
    × (heap.pointer ≡ stack_top 600000 3)
    × (heap.bound ≡ virtual_offset + 2 ^ 21)
    × (heap.pointer ≤ heap.bound)
stacks_example = stacks-heap 600000 (omega arith)

abbrev arguments : List (List ℕ)
arguments = (108 ∷ 115 ∷ []) ∷ (45 ∷ 97 ∷ 108 ∷ []) ∷ []

abbrev stack : ℕ → ℕ
stack a = get_or (layout 131072 arguments) (a - 4096) 0

start-layout_example :
    (read_all stack 4096 ≡ (131072, arguments))
    × (start 8192 (λ n. 4) stack (some 4096) ≡ panics unexpected)
unfolding layout
start-layout_example =
    start-layout 8192 (λ n. 4) stack 4096 131072 arguments (omega arith) (omega arith) (omega arith)
      (omega arith) (omega arith) (omega arith) (λ more. omega arith)

-- The init program with a next program of five bytes at 0x2000 in it.
abbrev init_page : Memory
init_page a = if a == 8192 then 5 else if a == 8193 then 0 else a % 7

abbrev cpu : Cpu
cpu = record {
  x = λ r. r;
  sp = 4096;
  nzcv = 0;
  daif = 0;
  memory = λ a. 0;
  saved_sp = 0;
  sp_address = 24576;
}

start-enter_main_example :
    (after : Memory) × (Entry.start 10 1048576 8192 16384 16388 init_page ≡ some after)
    × ((i : ℕ) → i < Entry.next_size init_page 8192 → after (65536 + i) ≡ init_page (8194 + i))
    × (Entry.ldr after 8 ≡ 1048576 + Entry.init_table_entry_base)
    × (Entry.ldr after 4088 ≡ Entry.ldr init_page 0)
    × (let main = Entry.enter_main (λ c. c) cpu 9 after in
        (main.x 0 ≡ 65536)
        × (main.x 1 ≡ Entry.next_size init_page 8192)
        × (main.x 2 ≡ 1048576)
        × (main.sp ≡ 65536))
unfolding Entry.next_size
start-enter_main_example =
    start-enter_main 10 1048576 8192 16384 16388 init_page (λ c. c) cpu 9 (λ a. ground arith)
      (omega arith) (omega arith) (omega arith) (omega arith) (omega arith) (omega arith)
      (omega arith) (omega arith)
