-- ===== src/Vm/Elf/Load.antt =====
-- os/src/os/vm/elf.rs: the loop of `load_elf` over the program headers. Sums of `u64`s wrap around.
use rasperry_pi_os.Prelude.{
  ℕ, ◌+◌, ◌-◌, ◌*◌, ◌/◌, ◌%◌, ◌^◌, Bool, true, false, ◌&&◌, Option, none, some, List, [], ◌∷◌, ltb,
  leb, ◌==◌, if◌then◌else◌, length, bounds, Outcome, returns, panics, ◌>>=◌, ◌>>◌, assert,
}
use rasperry_pi_os.Vm.Tables.{page_bits, PageTable, map_range}
use rasperry_pi_os.Vm.Elf.{
  ProgramHeaderType, number_at, load, program_header_type_from_u32, ProgramHeader, executable,
  writeable, ElfLoadError,
}

unfoldable pub page_round_up : ℕ → ℕ
page_round_up addr = (addr + (2 ^ page_bits - 1)) % 2 ^ 64 / 2 ^ page_bits * 2 ^ page_bits

unfoldable pub page_round_down : ℕ → ℕ
page_round_down addr = addr / 2 ^ page_bits * 2 ^ page_bits

abbrev pub is_none : Option ℕ → Bool
is_none none = true
is_none (some a) = false

-- What the loop over the program headers has found, and the tables it has changed.
pub record Loading : Type 0 where
  pub table : PageTable
  pub bss_start : Option ℕ
  pub bss_end : Option ℕ
  pub ctx_addr : Option ℕ

-- A result: it is an error, or it goes on.
pub data Loaded {ℓ} (A : Type ℓ) : Type ℓ where
  failed : ElfLoadError → Loaded A
  loaded : A → Loaded A

-- The file in virtual memory, where it is in physical memory, and what `with_pa` does to a number.
pub record Source : Type 0 where
  pub elf : List ℕ
  pub address : ℕ
  pub elf_pa : ℕ
  pub with_pa : ℕ → ℕ

-- The offset in the `ADR` instruction that stands at the entry.
unfoldable pub adr_offset : ℕ → ℕ
adr_offset val = val / 2 ^ 5 % 2 ^ 19 * 4 + val / 2 ^ 29 % 4

-- Where the context is, if the entry is in this segment.
unfoldable pub find_context : Source → ℕ → ProgramHeader → ℕ → ℕ → Option ℕ → Outcome (Option ℕ)
find_context source entry header virtual_start range ctx_addr =
    if leb virtual_start entry && leb entry ((virtual_start + range) % 2 ^ 64)
    then (do
      assert (is_none ctx_addr)
      let ctx_off = (page_round_down header.offset + (entry - virtual_start)) % 2 ^ 64
      let val = number_at 4 ctx_off source.elf
      let inside =
          leb ((ctx_off + 4) % 2 ^ 64) (length source.elf) && leb ctx_off ((ctx_off + 4) % 2 ^ 64)
      (if inside then returns (some ((entry + adr_offset val) % 2 ^ 64)) else panics bounds))
    else returns ctx_addr

-- What of a segment has no bytes in the file.
unfoldable pub find_bss : ProgramHeader → Loading → Outcome Loading
find_bss header s =
    if ltb header.filesz header.memsz
    then (do
      assert (is_none s.bss_start)
      assert (is_none s.bss_end)
      returns (record s {
        bss_start = some ((header.va + header.filesz) % 2 ^ 64);
        bss_end = some ((header.va + header.memsz) % 2 ^ 64);
      }))
    else returns s

-- A header of the type `Load`.
unfoldable pub load_segment :
    Source → ℕ → ProgramHeader → Loading → Outcome (Loaded (Unit {0}) × Loading)
load_segment source entry header s =
    let virtual_start = page_round_down header.va in
    let backed = header.va - virtual_start + header.filesz in
    if ltb backed (2 ^ 64)
    then (do
      let range = page_round_up backed
      ctx_addr ← find_context source entry header virtual_start range s.ctx_addr
      let s' = record s { ctx_addr = ctx_addr }
      (if leb header.filesz header.memsz
          then (if ltb (source.elf_pa + header.offset) (2 ^ 64)
              then (do
                table ←
                    map_range source.with_pa virtual_start
                      (page_round_down (source.elf_pa + header.offset)) range
                      (record {
                        writeable = writeable header.flags;
                        executable = executable header.flags;
                        is_device = false;
                      })
                      s.table
                s'' ← find_bss header (record s' { table = table })
                returns (loaded tt, s''))
              else returns (failed ElfLoadError.unexpected_eof, s'))
          else returns (failed ElfLoadError.mem_sz, s')))
    else returns (failed ElfLoadError.unexpected_eof, s)

-- The match on the type of a header.
unfoldable pub load_type :
    Source → ℕ → ProgramHeader → Loading → ProgramHeaderType → Outcome (Loaded (Unit {0}) × Loading)
load_type source entry header s load = load_segment source entry header s
load_type source entry header s _ = returns (loaded tt, s)

-- The body of the loop over the program headers.
unfoldable pub load_header :
    Source → ℕ → ProgramHeader → Loading → Outcome (Loaded (Unit {0}) × Loading)
load_header source entry header s =
    if header.offset % 2 ^ page_bits == header.va % 2 ^ page_bits
    then elim (program_header_type_from_u32 header.p_type) [
      | none ↦ returns (failed ElfLoadError.header_type, s)
      | some p_type ↦ load_type source entry header s p_type
    ]
    else returns (failed ElfLoadError.alignment, s)

-- The loop, up to the first error.
unfoldable pub load_headers :
    Source → ℕ → List ProgramHeader → Loading → Outcome (Loaded (Unit {0}) × Loading)
load_headers source entry [] s = returns (loaded tt, s)
load_headers source entry (header ∷ headers) s = load_header source entry header s >>= λ answer.
    elim answer.0 [
      | failed e ↦ returns (failed e, answer.1)
      | loaded _ ↦ load_headers source entry headers answer.1
    ]
