-- ===== src/Vm/Elf/Program.antt =====
-- os/src/os/vm/elf.rs: `load_elf`, with the checks of the header and the stack.
use rasperry_pi_os.Prelude.{
  ℕ, ◌+◌, ◌-◌, ◌*◌, ◌/◌, ◌%◌, ◌^◌, true, false, not, ◌&&◌, none, some, List, [], ◌∷◌, ltb, leb,
  ◌==◌, if◌then◌else◌, length, todo, Outcome, returns, panics, ◌>>=◌, expect,
}
use rasperry_pi_os.Vm.Tables.{page_bits, PageTable, Attributes, map_range}
use rasperry_pi_os.Vm.Elf.{
  bit_32, bit_64, bit_version_from_u8, ElfHeader, elf_header_bytes, elf_header, has_magic,
  program_header_bytes, program_headers, ElfLoadError, alloc_page,
}
use rasperry_pi_os.Vm.Elf.Load.{Loading, Loaded, failed, loaded, Source, load_headers}

-- What `load_elf` gives back: the entry, where the `bss` starts and ends, the context and the stack
-- pointer.
pub record Program : Type 0 where
  pub entry : ℕ
  pub bss_start : ℕ
  pub bss_end : ℕ
  pub ctx_addr : ℕ
  pub sp : ℕ

-- The tables of the new and of the own address space, and the words written to the stack, the last one
-- first.
pub record Spaces : Type 0 where
  pub table : PageTable
  pub own : PageTable
  pub stack : List (ℕ × ℕ)

abbrev pub stack_attributes : Attributes
stack_attributes = record { writeable = true; executable = false; is_device = false }

-- The stack, once the segments are mapped. `page` is what the system call answers.
unfoldable pub load_stack :
    Source → ℕ → ℕ × ℕ → ℕ → Loading → PageTable → Outcome (Loaded Program × Spaces)
load_stack source table_pa page entry s own = do
  answer ← alloc_page page
  stack_pg ← expect answer
  table ← map_range source.with_pa 16842752 table_pa (2 ^ page_bits) stack_attributes s.table
  table' ← map_range source.with_pa 16777216 stack_pg (2 ^ page_bits) stack_attributes table
  own' ← map_range source.with_pa 16777216 stack_pg (2 ^ page_bits) stack_attributes own
  ctx_addr ← expect s.ctx_addr
  returns (
    loaded (record {
      entry = entry;
      bss_start = elim s.bss_start [ none ↦ 0 | some a ↦ a ];
      bss_end = elim s.bss_end [ none ↦ 0 | some a ↦ a ];
      ctx_addr = ctx_addr;
      sp = 16842752 - 16;
    }),
    record {
      table = table';
      own = own';
      stack = (16842752 - 16, 1052672) ∷ (16842752 - 8, 0) ∷ [];
    },
  )

-- What follows the loop: its error, or the stack.
unfoldable pub after_headers :
    Source
    → ℕ
    → ℕ × ℕ
    → ℕ
    → PageTable
    → Loaded (Unit {0}) × Loading
    → Outcome (Loaded Program × Spaces)
after_headers source table_pa page entry own (failed e, s) =
    returns (failed e, record { table = s.table; own = own; stack = [] })
after_headers source table_pa page entry own (loaded _, s) =
    load_stack source table_pa page entry s own

-- The 64-bit part of `load_elf`.
unfoldable pub load_64 :
    Source → ℕ → ℕ × ℕ → ElfHeader → PageTable → PageTable → Outcome (Loaded Program × Spaces)
load_64 source table_pa page header table own =
    let start = header.program_header_offset in
    let end_of = program_header_bytes * header.program_header_entry_count + start in
    if ltb end_of (2 ^ 64) && leb end_of (length source.elf)
    then (if (source.address + start / 8 * 8) % 8 == 0
        then (do
          let s : Loading = record {
            table = table;
            bss_start = none;
            bss_end = none;
            ctx_addr = none;
          }
          answer ←
              load_headers source header.entry
                (program_headers source.elf header.program_header_entry_count (start / 8 * 8)) s
          after_headers source table_pa page header.entry own answer)
        else returns
            (failed ElfLoadError.alignment, record { table = table; own = own; stack = [] }))
    else returns
        (failed ElfLoadError.unexpected_eof, record { table = table; own = own; stack = [] })

-- `load_elf`
unfoldable pub load_elf :
    Source → ℕ → ℕ × ℕ → PageTable → PageTable → Outcome (Loaded Program × Spaces)
load_elf source table_pa page table own =
    let unchanged : Spaces = record { table = table; own = own; stack = [] } in
    let header = elf_header source.elf in
    if ltb (length source.elf) elf_header_bytes
    then returns (failed ElfLoadError.unexpected_eof, unchanged)
    else if not (source.address % 8 == 0)
    then returns (failed ElfLoadError.alignment, unchanged)
    else if not (has_magic header)
    then returns (failed ElfLoadError.magic, unchanged)
    else if not (header.program_header_entry_size == program_header_bytes)
    then returns (failed ElfLoadError.header_size, unchanged)
    else elim (bit_version_from_u8 header.bit_version) [
      | none ↦ returns (failed ElfLoadError.bit_version, unchanged)
      | some bit_32 ↦ panics todo
      | some bit_64 ↦ load_64 source table_pa page header table own
    ]
