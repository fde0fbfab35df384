-- ===== src/KernelEntry.antt =====
-- The boot sequence of os/src/bin/kernel/boot.rs: the loops of its assembly, its translation table and
-- its stacks. A memory has the cells of one size, by their addresses. The symbols of the linker script
-- are parameters.
pub mod Copy
pub mod Translate
pub mod Stacks
use rasperry_pi_os.Prelude.{
  ℕ, zero, suc, ◌+◌, ◌-◌, ◌*◌, ◌/◌, ◌%◌, ◌^◌, Option, none, some, ltb, leb, ◌==◌, if◌then◌else◌,
  expectation, Outcome, returns, panics, ◌>>=◌, ◌>>◌, expect,
}
use rasperry_pi_os.BumpAllocator.{BumpAllocator, set_memory}

abbrev pub Memory : Type 0
Memory = ℕ → ℕ

unfoldable pub write : ℕ → ℕ → Memory → Memory
write address value memory = λ a. if a == address then value else memory a

-- `subs`, a load and a store with both addresses moved on, and `b.pl`: the difference is taken in 64
-- bits, and the loop goes on while its sign is clear. Without fuel the loop has not ended.
unfoldable pub copy : ℕ → ℕ → ℕ → ℕ → ℕ → Memory → Option Memory
copy unit zero left source target memory = none
copy unit (suc fuel) left source target memory =
    let left' = (left + 2 ^ 64 - unit) % 2 ^ 64 in
    let memory' = write target (memory source) memory in
    let rest = copy unit fuel left' (source + unit) (target + unit) memory' in
    if ltb left' (2 ^ 63) then rest else some memory'

-- The move of the device tree: its size is a big-endian word, of which 16 bits are used.
abbrev pub page_of_tree : ℕ
page_of_tree = 65536

unfoldable pub big_endian_size : Memory → ℕ → ℕ
big_endian_size bytes address = (bytes (address + 6) * 256 + bytes (address + 7)) % 2 ^ 16

unfoldable pub move_tree : ℕ → ℕ → ℕ → Memory → Option Memory
move_tree fuel size address words = copy 8 fuel size address page_of_tree words

-- The size in front of the init program, and the program's move.
abbrev pub init_physical_address : ℕ
init_physical_address = 4096

unfoldable pub init_size : Memory → ℕ → ℕ
init_size bytes init_start = bytes init_start + 256 * bytes (init_start + 1)

unfoldable pub move_init : ℕ → ℕ → Memory → Option Memory
move_init fuel init_start bytes =
    copy 1 fuel (init_size bytes init_start) (init_start + 2) init_physical_address bytes

-- A zero, and on while the address is not above the end.
unfoldable pub zero_bss : ℕ → ℕ → ℕ → Memory → Option Memory
zero_bss zero start end bytes = none
zero_bss (suc fuel) start end bytes =
    let bytes' = write start 0 bytes in
    let rest = zero_bss fuel (start + 1) end bytes' in
    if leb (start + 1) end then rest else some bytes'

-- The entries of the kernel's table.
abbrev pub page_bits : ℕ
page_bits = 21

abbrev pub address_bits : ℕ
address_bits = 25

abbrev pub virtual_offset : ℕ
virtual_offset = 18446744073676521472 - 524288

abbrev pub table_entry_base : ℕ
table_entry_base = 2 ^ 54 + 2 ^ 10 + 3 * 2 ^ 8 + 1

-- Marked as device memory.
abbrev pub device_entry : ℕ → ℕ
device_entry address = table_entry_base + 4 + address

abbrev pub uart_address : ℕ
uart_address = 19295895552

abbrev pub mailbox_address : ℕ
mailbox_address = 19293798400

abbrev pub gic_address : ℕ
gic_address = 20401356800

-- What the boot sequence stores, over what the table held.
unfoldable pub fill_table : Memory → Memory
unfolding write
fill_table table = write 3 (device_entry gic_address) (
    write 2 (device_entry mailbox_address)
      (write 1 (device_entry uart_address) (write 0 table_entry_base table)))

-- The first entry of the init program's table.
abbrev pub init_entry : ℕ
init_entry = 2 ^ 53 + 2 ^ 11 + 2 ^ 10 + 3 * 2 ^ 8 + 2 ^ 6 + 3

-- The end of each core's stack: above the BSS, rounded up to 16, one stack for each core. The address is
-- virtual.
abbrev pub stack_size : ℕ
stack_size = 8192

unfoldable pub stack_top : ℕ → ℕ → ℕ
stack_top bss_end mpidr =
    (stack_size * (mpidr % 4 + 1) + (bss_end + 15) / 16 * 16 + virtual_offset) % 2 ^ 64

-- A result of an addition that is checked.
abbrev pub checked : ℕ → Option ℕ
checked n = if ltb n (2 ^ 64) then some n else none

-- The memory that `main` of os/src/bin/kernel/main.rs gives to the heap: from the end of the stacks to
-- the end of the kernel's block.
abbrev pub heap_end : ℕ
heap_end = 18446744073678094336

unfoldable pub stack_end : ℕ → Outcome ℕ
stack_end bss_end = do
  aligned ← expect (checked ((bss_end + 15) / 16 * 16))
  end ← expect (checked (aligned + stack_size * 4))
  if end == 0 then panics expectation else returns end

unfoldable pub kernel_heap : ℕ → Outcome BumpAllocator
unfolding stack_end
kernel_heap bss_end = do
  start ← stack_end bss_end
  if leb start heap_end then returns (set_memory start heap_end) else panics expectation
