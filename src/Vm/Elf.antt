-- ===== src/Vm/Elf.antt =====
-- os/src/os/vm/elf.rs: the headers of an ELF file, as they lie in its bytes. The machine is
-- little-endian.
pub mod Load
pub mod Program
pub mod Laws
pub mod Checks
pub mod Segment
pub mod Image
use rasperry_pi_os.Prelude.{
  ℕ, zero, suc, ◌+◌, ◌-◌, ◌*◌, ◌/◌, ◌%◌, ◌^◌, ◌≤◌, ◌<◌, ◌≡◌, refl, sym, ap, ◌∙◌, ◌≢◌, ◌↔◌, ◌⊎◌, inl,
  inr, Bool, true, false, not, ◌&&◌, ◌||◌, Option, none, some, List, [], ◌∷◌, ◌++◌, map, arith, ltb,
  leb, ◌==◌, if◌then◌else◌, ltb→lt, lt→ltb, le→ltb, ltb→le, leb→le, ==_iff, ==_refl, Bool-cases,
  Option-cases, length, get_elem?, get_or, set, replicate, All, length-append, length-set,
  length-replicate, get_or-set_self, get_or-set_ne, get_or_above, get_or-replicate, All-replicate,
  All-set, All-append, All-get_or, Panic, expectation, assertion, bounds, unreachable, todo,
  unexpected, Outcome, returns, panics, ◌>>=◌, ◌>>◌, assert, expect, Outcome-cases, OnReturn-any,
  OnReturn, OnReturn->>=, OnReturn-map, OnReturn-returns, >>=-returns,
}

-- The number in `width` bytes from a place on.
unfoldable pub number_at : ℕ → ℕ → List ℕ → ℕ
number_at zero place elf = 0
number_at (suc width) place elf = get_or elf place 0 + 256 * number_at width (place + 1) elf

pub data BitVersion : Type 0 where
  bit_32 bit_64 : BitVersion

unfoldable pub bit_version_from_u8 : ℕ → Option BitVersion
bit_version_from_u8 n = if n == 1 then some bit_32 else if n == 2 then some bit_64 else none

pub data ProgramHeaderType : Type 0 where
  load phdr gnu_eh_frame gnu_stack gnu_rel_ro : ProgramHeaderType

abbrev pub program_header_type_from_u32 : ℕ → Option ProgramHeaderType
program_header_type_from_u32 n =
    if n == 1
    then some load
    else if n == 6
    then some phdr
    else if n == 1685382480
    then some gnu_eh_frame
    else if n == 1685382481
    then some gnu_stack
    else if n == 1685382482
    then some gnu_rel_ro
    else none

pub record ElfHeader : Type 0 where
  pub magic : List ℕ
  pub bit_version : ℕ
  pub endian : ℕ
  pub header_version : ℕ
  pub abi : ℕ
  pub abi_version_extra : ℕ
  pub obj_file : ℕ
  pub isa : ℕ
  pub elf_version : ℕ
  pub entry : ℕ
  pub program_header_offset : ℕ
  pub section_header_offset : ℕ
  pub flags : ℕ
  pub elf_header_size : ℕ
  pub program_header_entry_size : ℕ
  pub program_header_entry_count : ℕ
  pub section_header_entry_size : ℕ
  pub section_header_entry_count : ℕ
  pub section_header_names_index : ℕ

-- `mem::size_of::<ElfHeader>()`
abbrev pub elf_header_bytes : ℕ
elf_header_bytes = 64

unfoldable pub elf_header : List ℕ → ElfHeader
elf_header elf = record {
  magic = get_or elf 0 0 ∷ get_or elf 1 0 ∷ get_or elf 2 0 ∷ get_or elf 3 0 ∷ [];
  bit_version = number_at 1 4 elf;
  endian = number_at 1 5 elf;
  header_version = number_at 1 6 elf;
  abi = number_at 1 7 elf;
  abi_version_extra = number_at 1 8 elf;
  obj_file = number_at 2 16 elf;
  isa = number_at 2 18 elf;
  elf_version = number_at 4 20 elf;
  entry = number_at 8 24 elf;
  program_header_offset = number_at 8 32 elf;
  section_header_offset = number_at 8 40 elf;
  flags = number_at 4 48 elf;
  elf_header_size = number_at 2 52 elf;
  program_header_entry_size = number_at 2 54 elf;
  program_header_entry_count = number_at 2 56 elf;
  section_header_entry_size = number_at 2 58 elf;
  section_header_entry_count = number_at 2 60 elf;
  section_header_names_index = number_at 2 62 elf;
}

-- Whether the first bytes are `ElfHeader::MAGIC`.
unfoldable pub has_magic : ElfHeader → Bool
has_magic header =
    (get_or header.magic 0 0 == 127)
    && ((get_or header.magic 1 0 == 69)
        && ((get_or header.magic 2 0 == 76) && (get_or header.magic 3 0 == 70)))

pub record ProgramHeader : Type 0 where
  pub p_type : ℕ
  pub flags : ℕ
  pub offset : ℕ
  pub va : ℕ
  pub pa : ℕ
  pub filesz : ℕ
  pub memsz : ℕ
  pub align : ℕ

-- `mem::size_of::<ProgramHeader>()`
abbrev pub program_header_bytes : ℕ
program_header_bytes = 56

unfoldable pub program_header : List ℕ → ℕ → ProgramHeader
program_header elf place = record {
  p_type = number_at 4 place elf;
  flags = number_at 4 (place + 4) elf;
  offset = number_at 8 (place + 8) elf;
  va = number_at 8 (place + 16) elf;
  pa = number_at 8 (place + 24) elf;
  filesz = number_at 8 (place + 32) elf;
  memsz = number_at 8 (place + 40) elf;
  align = number_at 8 (place + 48) elf;
}

-- The slice of as many headers from a place on.
unfoldable pub program_headers : List ℕ → ℕ → ℕ → List ProgramHeader
program_headers elf zero place = []
program_headers elf (suc count) place =
    program_header elf place ∷ program_headers elf count (place + program_header_bytes)

-- `ProgramHeaderFlags`
abbrev pub executable : ℕ → Bool
executable flags = flags % 2 == 1

abbrev pub writeable : ℕ → Bool
writeable flags = flags / 2 % 2 == 1

pub data ElfLoadError : Type 0 where
  unexpected_eof alignment magic header_size bit_version header_type mem_sz : ElfLoadError

-- The status and the page that the system call answers.
unfoldable pub alloc_page : ℕ × ℕ → Outcome (Option ℕ)
alloc_page (status, page) =
    if status == 0
    then returns (some page)
    else if status == 1
    then returns none
    else panics unreachable
