-- ===== src/Vm/Elf/Segment.antt =====
-- What one program header of an ELF file changes.
use rasperry_pi_os.Prelude.{
  ℕ, ◌+◌, ◌-◌, ◌/◌, ◌%◌, ◌^◌, ◌≤◌, ◌<◌, ◌≡◌, refl, sym, ◌≢◌, ◌⊎◌, inl, inr, true, false, some,
  arith, ltb, leb, ◌==◌, lt→ltb, ==_iff, Bool-cases, Option-cases, length, get_or, returns, ◌>>=◌,
  assert, OnReturn-after, OnReturn, OnReturn->>=, OnReturn-map,
}
use mathlib.Core.Path.{subst}
use rasperry_pi_os.Vm.Tables.{page_bits, table_length, new, PageTable, Attributes, page_count}
use rasperry_pi_os.Vm.Tables.Laws.{KeepsPa, Maps, map_range-Maps}
use rasperry_pi_os.Vm.Elf.{
  ProgramHeader, ProgramHeaderType, load, phdr, gnu_eh_frame, gnu_stack, gnu_rel_ro,
  program_header_type_from_u32, executable, writeable,
}
use rasperry_pi_os.Vm.Elf.Load.{
  page_round_up, page_round_down, Loading, Loaded, loaded, Source, is_none, find_context, find_bss,
  load_segment, load_type, load_header,
}
use rasperry_pi_os.Vm.Elf.Laws.{translate, segment-translate}

-- The pages of a segment, from the first one on.
abbrev pub first_page : ProgramHeader → ℕ
first_page header = page_round_down header.va / 2 ^ page_bits

abbrev pub pages : ProgramHeader → ℕ
pages header = page_count (page_round_up (header.va - page_round_down header.va + header.filesz))

abbrev pub attributes_of : ProgramHeader → Attributes
attributes_of header = record {
  writeable = writeable header.flags;
  executable = executable header.flags;
  is_device = false;
}

-- A segment in the 32 MiB of the address space, of a file below 2^48.
abbrev pub Placed : Source → ProgramHeader → Type 0
Placed source header =
    (header.va + header.filesz ≤ 2 ^ 25) × (source.elf_pa + header.offset + header.filesz ≤ 2 ^ 48)

-- The bytes of a segment are at their virtual addresses, with the permissions of its flags; the
-- headers that are no segments have none.
abbrev pub InPlace : Source → PageTable → ProgramHeader → Type 0
InPlace source table h =
    (x : ℕ)
    → program_header_type_from_u32 h.p_type ≡ some load
    → x < h.filesz
    → translate table (h.va + x)
      ≡ some (source.elf_pa + h.offset + x, writeable h.flags, executable h.flags)

find_bss-keeps :
    (header : ProgramHeader) (s : Loading) → OnReturn (λ s'. s'.table ≡ s.table) (find_bss header s)
unfolding find_bss
find_bss-keeps header s = elim (Bool-cases (ltb header.filesz header.memsz)) [
  | inr whole ↦ rw whole refl
  | inl more ↦
      let Keeps : Loading → Type 0 = λ s'. s'.table ≡ s.table in
      rw more (
        OnReturn-after Keeps (assert (is_none s.bss_start)) _
          (λ _. OnReturn-after Keeps (assert (is_none s.bss_end)) _ (λ _. refl)))
]

-- What a segment changes when it is loaded.
abbrev SegmentMaps : Source → ProgramHeader → PageTable → Loaded (Unit {0}) × Loading → Type 0
SegmentMaps source header table answer =
    answer.0 ≡ loaded tt
    → Maps (first_page header) (pages header) (page_round_down (source.elf_pa + header.offset))
        (attributes_of header) table answer.1.table

bss-Maps :
    (source : Source) (header : ProgramHeader) (s : Loading) (before : PageTable)
    → Maps
        (first_page header)
        (pages header)
        (page_round_down (source.elf_pa + header.offset))
        (attributes_of header)
        before
        s.table
    → OnReturn
        (SegmentMaps source header before)
        (find_bss header s >>= λ s'. returns (loaded tt, s'))
bss-Maps source header s before maps =
    OnReturn->>= (λ s'. s'.table ≡ s.table) (SegmentMaps source header before) (find_bss header s)
      (λ s'. returns (loaded tt, s')) (find_bss-keeps header s)
      (λ s' _ same e.
        subst
          (λ t.
            Maps (first_page header) (pages header)
              (page_round_down (source.elf_pa + header.offset)) (attributes_of header) before t)
          (sym same) maps)

load_segment-Maps :
    (source : Source) (entry : ℕ) (header : ProgramHeader) (s : Loading)
    → KeepsPa source.with_pa
    → length s.table ≡ table_length
    → header.offset % 2 ^ page_bits ≡ header.va % 2 ^ page_bits
    → source.elf_pa % 2 ^ page_bits ≡ 0
    → Placed source header
    → OnReturn (SegmentMaps source header s.table) (load_segment source entry header s)
unfolding load_segment page_round_down page_round_up
load_segment-Maps source entry header s keeps whole congruent start (fits, low) =
    let va = page_round_down header.va in
    let backed = header.va - va + header.filesz in
    let (table, mapped, maps) =
      map_range-Maps source.with_pa va (page_round_down (source.elf_pa + header.offset))
        (page_round_up backed) (attributes_of header) s.table keeps (omega arith) (omega arith)
        whole (omega arith) in
    let small : ltb backed (2 ^ 64) ≡ true = lt→ltb backed (2 ^ 64) (omega arith) in
    let small' : ltb (source.elf_pa + header.offset) (2 ^ 64) ≡ true =
      lt→ltb (source.elf_pa + header.offset) (2 ^ 64) (omega arith) in
    rw small (
      OnReturn-after (SegmentMaps source header s.table)
        (find_context source entry header va (page_round_up backed) s.ctx_addr) _
        (λ ctx. elim (Bool-cases (leb header.filesz header.memsz)) [
          | inr more ↦ rw more (λ e. absurd (cc))
          | inl sizes ↦
              rw (sizes, small', mapped)
                (bss-Maps source header (record s { ctx_addr = ctx; table = table }) s.table maps)
        ]))

-- What a header changes: its pages, if it is a segment, and nothing otherwise.
abbrev pub HeaderMaps : Source → ProgramHeader → PageTable → Loaded (Unit {0}) × Loading → Type 0
HeaderMaps source header table answer =
    answer.0 ≡ loaded tt
    → (length answer.1.table ≡ length table)
      × ((j : ℕ)
          → (j < first_page header) ⊎ (first_page header + pages header ≤ j)
          → get_or answer.1.table j new ≡ get_or table j new)
      × InPlace source answer.1.table header

segment-HeaderMaps :
    (source : Source) (header : ProgramHeader) (table : PageTable)
    (answer : Loaded (Unit {0}) × Loading)
    → (source.elf_pa + header.offset) % 2 ^ page_bits ≡ header.va % 2 ^ page_bits
    → Placed source header
    → SegmentMaps source header table answer
    → HeaderMaps source header table answer
segment-HeaderMaps source header table answer congruent (fits, low) maps e =
    let m = maps e in
    (
      m.length_kept,
      λ j away. m.outside j new away,
      λ x is lt.
          segment-translate header.va header.filesz (source.elf_pa + header.offset)
            (attributes_of header) table answer.1.table x m congruent fits lt,
    )

other-HeaderMaps :
    (source : Source) (header : ProgramHeader) (s : Loading) (x : ProgramHeaderType)
    → program_header_type_from_u32 header.p_type ≡ some x
    → x ≢ load
    → HeaderMaps source header s.table (loaded tt, s)
other-HeaderMaps source header s x e other _ =
    (refl, λ j away. refl, λ i is lt. absurd (other (cc)))

load_type-HeaderMaps :
    (source : Source) (entry : ℕ) (header : ProgramHeader) (s : Loading) (x : ProgramHeaderType)
    → KeepsPa source.with_pa
    → length s.table ≡ table_length
    → header.offset % 2 ^ page_bits ≡ header.va % 2 ^ page_bits
    → source.elf_pa % 2 ^ page_bits ≡ 0
    → Placed source header
    → program_header_type_from_u32 header.p_type ≡ some x
    → OnReturn (HeaderMaps source header s.table) (load_type source entry header s x)
unfolding load_type
load_type-HeaderMaps source entry header s load keeps whole congruent start placed is =
    OnReturn-map (load_segment source entry header s)
      (load_segment-Maps source entry header s keeps whole congruent start placed)
      (λ answer.
        segment-HeaderMaps source header s.table answer (omega (arith, congruent, start)) placed)
load_type-HeaderMaps source entry header s phdr keeps whole congruent start placed is =
    other-HeaderMaps source header s phdr is (λ e. cc)
load_type-HeaderMaps source entry header s gnu_eh_frame keeps whole congruent start placed is =
    other-HeaderMaps source header s gnu_eh_frame is (λ e. cc)
load_type-HeaderMaps source entry header s gnu_stack keeps whole congruent start placed is =
    other-HeaderMaps source header s gnu_stack is (λ e. cc)
load_type-HeaderMaps source entry header s gnu_rel_ro keeps whole congruent start placed is =
    other-HeaderMaps source header s gnu_rel_ro is (λ e. cc)

pub load_header-HeaderMaps :
    (source : Source) (entry : ℕ) (header : ProgramHeader) (s : Loading)
    → KeepsPa source.with_pa
    → length s.table ≡ table_length
    → source.elf_pa % 2 ^ page_bits ≡ 0
    → Placed source header
    → OnReturn (HeaderMaps source header s.table) (load_header source entry header s)
unfolding load_header
load_header-HeaderMaps source entry header s keeps whole start placed =
    elim (Bool-cases (header.offset % 2 ^ page_bits == header.va % 2 ^ page_bits)) [
      | inr apart ↦ rw apart (λ e. absurd (cc))
      | inl same ↦ elim (Option-cases (program_header_type_from_u32 header.p_type)) [
        | inl e ↦ rw (load_header, same, e) (λ f. absurd (cc))
        | inr (x, e) ↦
            let congruent = (==_iff _ _).0 same in
            rw (load_header, same, e)
              (load_type-HeaderMaps source entry header s x keeps whole congruent start placed e)
      ]
    ]
