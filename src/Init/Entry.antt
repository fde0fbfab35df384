-- ===== src/Init/Entry.antt =====
-- The entry of the init program, `_start` of os/src/bin/init/main.rs, and `temporary_map`. A memory has
-- the bytes by their virtual addresses. The page that the system call gave, which
-- is taken to be there, and the symbols of the linker script are parameters.
pub mod Words
pub mod Copy
pub mod Translate
pub mod Laws
use rasperry_pi_os.Prelude.{
  ℕ, zero, suc, ◌+◌, ◌-◌, ◌*◌, ◌/◌, ◌%◌, ◌^◌, ◌<◌, ◌≤◌, ◌≡◌, Option, none, some, ltb, if◌then◌else◌,
}
use rasperry_pi_os.Assembly.{Cpu, update}
use rasperry_pi_os.Init.Context.{exception_handler}
use rasperry_pi_os.KernelEntry.{Memory, write, zero_bss}

-- A little-endian number of some bytes.
unfoldable pub store_bytes : ℕ → ℕ → ℕ → Memory → Memory
store_bytes zero address value bytes = bytes
store_bytes (suc n) address value bytes =
    store_bytes n (address + 1) (value / 256) (write address (value % 256) bytes)

unfoldable pub load_bytes : ℕ → Memory → ℕ → ℕ
load_bytes zero bytes address = 0
load_bytes (suc n) bytes address = bytes address + 256 * load_bytes n bytes (address + 1)

-- `str` and `ldr` of a register of 64 bits.
unfoldable pub str : ℕ → ℕ → Memory → Memory
str value address bytes = store_bytes 8 address value bytes

unfoldable pub ldr : Memory → ℕ → ℕ
ldr bytes address = load_bytes 8 bytes address

-- `INIT_TABLE_ENTRY_BASE`, which a page with the low 16 bits clear has no bit of.
abbrev pub init_table_entry_base : ℕ
init_table_entry_base = 2 ^ 53 + 2 ^ 11 + 2 ^ 10 + 3 * 2 ^ 8 + 2 ^ 6 + 3

-- Where the table has itself and the new page.
unfoldable pub map_next : ℕ → Memory → Memory
map_next page bytes =
    let mirrored = str (ldr bytes 0) 4088 bytes in str (page + init_table_entry_base) 8 mirrored

-- The loop that copies the next program, from its end on: `subs`, the move of a byte, and `b.pl`.
unfoldable pub copy_next : ℕ → ℕ → ℕ → ℕ → Memory → Option Memory
copy_next zero left source target bytes = none
copy_next (suc fuel) left source target bytes =
    let left' = (left + 2 ^ 64 - 1) % 2 ^ 64 in
    let bytes' = write ((target + left') % 2 ^ 64) (bytes ((source + left') % 2 ^ 64)) bytes in
    let rest = copy_next fuel left' source target bytes' in
    if ltb left' (2 ^ 63) then rest else some bytes'

abbrev pub next_address : ℕ
next_address = 65536

abbrev pub stack_pointer : ℕ
stack_pointer = next_address - 256

-- The size in front of the next program.
unfoldable pub next_size : Memory → ℕ → ℕ
next_size bytes elf_start = bytes elf_start + 2 ^ 8 * bytes (elf_start + 1)

-- The arguments of `main`, where `resumption` looks for its registers.
unfoldable pub push_arguments : ℕ → ℕ → Memory → Memory
push_arguments size page bytes =
    str page (stack_pointer + 16)
      (str size (stack_pointer + 8) (str next_address stack_pointer bytes))

-- `_start`, from one system call to the other.
unfoldable pub start : ℕ → ℕ → ℕ → ℕ → ℕ → Memory → Option Memory
start fuel page elf_start bss_start bss_end bytes =
    let mapped = map_next page bytes in
    let size = next_size mapped elf_start in
    elim (copy_next fuel size (elf_start + 2) next_address mapped) [
      | none ↦ none
      | some copied ↦ elim (zero_bss fuel bss_start bss_end copied) [
        | none ↦ none
        | some cleared ↦ some (push_arguments size page cleared)
      ]
    ]

-- The registers with which the kernel resumes the program, the static `SP` as it is at first, and the
-- memory: what `_exception_handler` makes of them is what `main` starts with.
unfoldable pub resumed : Cpu → ℕ → Memory → Cpu
resumed cpu argument bytes = record cpu {
  x = update (update cpu.x 0 1) 1 argument;
  memory = ldr bytes;
  saved_sp = stack_pointer;
}

unfoldable pub enter_main : (Cpu → Cpu) → Cpu → ℕ → Memory → Cpu
enter_main call cpu argument bytes = exception_handler call (resumed cpu argument bytes)

unfoldable pub temporary_map : ℕ → ℕ → Memory → Memory
temporary_map va pa bytes = str (pa + init_table_entry_base) (va / 2 ^ 16 * 8) bytes
