-- ===== src/Tests/Tables.antt =====
-- An address space of which nothing is mapped, and an ELF file with one segment of eight bytes.
use rasperry_pi_os.Prelude.{
  ℕ, ◌%◌, ◌/◌, ◌^◌, ◌≡◌, returns, refl, inl, inr, true, false, none, List, [], ◌∷◌, ◌++◌, arith,
  replicate, OnReturn,
}
use rasperry_pi_os.Vm.Tables.{PageTable, Attributes, new, page_bits, page_count, map_range}
use rasperry_pi_os.Vm.Tables.Laws.{Maps, map_range-Maps}
use rasperry_pi_os.Vm.Elf.{ProgramHeader}
use rasperry_pi_os.Vm.Elf.Load.{Source, Loading, page_round_down, page_round_up}
use rasperry_pi_os.Vm.Elf.Program.{load_elf}
use rasperry_pi_os.Vm.Elf.Load.{load_headers}
use rasperry_pi_os.Vm.Elf.Image.{AllMap, load_headers-AllMap}
use rasperry_pi_os.Vm.Elf.Checks.{Checked, load_elf-Checked}

abbrev table : PageTable
table = replicate 512 new

abbrev attributes : Attributes
attributes = record { writeable = true; executable = false; is_device = false }

-- `with_pa` as it keeps 36 bits.
abbrev low_bits : ℕ → ℕ
low_bits n = n % 2 ^ 36

-- A file of 128 bytes: the header, one program header, and the eight bytes of the segment, which are
-- an `ADR` and four more.
abbrev file : List ℕ
file =
    (127 ∷ 69 ∷ 76 ∷ 70 ∷ 2 ∷ 1 ∷ 1 ∷ 0 ∷ 0 ∷ [])
    ++ replicate 7 0
    ++ (2 ∷ 0 ∷ 183 ∷ 0 ∷ 1 ∷ 0 ∷ 0 ∷ 0 ∷ [])
    ++ (120 ∷ 0 ∷ 1 ∷ 0 ∷ 0 ∷ 0 ∷ 0 ∷ 0 ∷ [])
    ++ (64 ∷ 0 ∷ 0 ∷ 0 ∷ 0 ∷ 0 ∷ 0 ∷ 0 ∷ [])
    ++ replicate 8 0
    ++ replicate 4 0
    ++ (64 ∷ 0 ∷ 56 ∷ 0 ∷ 1 ∷ 0 ∷ 0 ∷ 0 ∷ 0 ∷ 0 ∷ 0 ∷ 0 ∷ [])
    ++ (1 ∷ 0 ∷ 0 ∷ 0 ∷ 5 ∷ 0 ∷ 0 ∷ 0 ∷ [])
    ++ (120 ∷ 0 ∷ 0 ∷ 0 ∷ 0 ∷ 0 ∷ 0 ∷ 0 ∷ [])
    ++ (120 ∷ 0 ∷ 1 ∷ 0 ∷ 0 ∷ 0 ∷ 0 ∷ 0 ∷ [])
    ++ replicate 8 0
    ++ (8 ∷ 0 ∷ 0 ∷ 0 ∷ 0 ∷ 0 ∷ 0 ∷ 0 ∷ [])
    ++ (8 ∷ 0 ∷ 0 ∷ 0 ∷ 0 ∷ 0 ∷ 0 ∷ 0 ∷ [])
    ++ replicate 8 0
    ++ (32 ∷ 0 ∷ 0 ∷ 16 ∷ 1 ∷ 2 ∷ 3 ∷ 4 ∷ [])

abbrev source : Source
source = record { elf = file; address = 4096; elf_pa = 131072; with_pa = low_bits }

abbrev header : ProgramHeader
header = record {
  p_type = 1;
  flags = 5;
  offset = 120;
  va = 65656;
  pa = 0;
  filesz = 8;
  memsz = 8;
  align = 0;
}

abbrev start : Loading
start = record { table = table; bss_start = none; bss_end = none; ctx_addr = none }

-- A second segment, of more than a page, and one more header that is none.
abbrev headers : List ProgramHeader
headers =
    header
    ∷ record header { va = 131072; offset = 0; filesz = 65537; memsz = 65540; flags = 6 }
    ∷ record header { p_type = 6; va = 0; offset = 0; filesz = 0 }
    ∷ []

load_headers_example :
    OnReturn (AllMap source headers table) (load_headers source 65656 headers start)
unfolding page_round_down page_round_up
load_headers_example =
    load_headers-AllMap source 65656 headers start (λ n h. omega (arith, h)) refl refl
      ((omega arith, omega arith), ((omega arith, omega arith), ((omega arith, omega arith), tt)))
      ((inl (omega arith), (inr (omega arith), tt)), ((inr (omega arith), tt), (tt, tt)))

load_elf_example : OnReturn (Checked source table) (load_elf source 262144 (0, 327680) table table)
load_elf_example = load_elf-Checked source 262144 (0, 327680) table table

map_range-Maps_example :
    (table' : PageTable) × (map_range low_bits 65536 131072 70000 attributes table ≡ returns table')
    × Maps (65536 / 2 ^ page_bits) (page_count 70000) 131072 attributes table table'
map_range-Maps_example =
    map_range-Maps low_bits 65536 131072 70000 attributes table (λ n h. omega (arith, h)) refl
      (omega arith) refl (omega arith)
