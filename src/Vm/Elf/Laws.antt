-- ===== src/Vm/Elf/Laws.antt =====
-- How the segments of an ELF file are mapped.
use rasperry_pi_os.Prelude.{
  ℕ, ◌+◌, ◌-◌, ◌*◌, ◌/◌, ◌%◌, ◌^◌, ◌≤◌, ◌<◌, ◌≡◌, refl, ap, ◌∙◌, inl, inr, Bool, true, false, not,
  Option, none, some, arith, ltb, leb, if◌then◌else◌, lt→ltb, Bool-cases, length, get_or, returns,
}
use rasperry_pi_os.Vm.Tables.{
  page_bits, table_length, new, PageTable, Attributes, page_count, map_range,
}
use rasperry_pi_os.Vm.Tables.Laws.{KeepsPa, Maps, map_range-Maps}
use rasperry_pi_os.Vm.Elf.{ProgramHeader, executable, writeable}
use rasperry_pi_os.Vm.Elf.Load.{
  page_round_up, page_round_down, Loading, loaded, Source, find_context, find_bss, load_segment,
}

-- What the hardware makes of an address, and whether it may be written to and executed.
abbrev pub Translation : Type 0
Translation = ℕ × Bool × Bool

unfoldable pub translate : PageTable → ℕ → Option Translation
translate table va =
    let entry = get_or table (va / 2 ^ page_bits) new in
    if entry.valid
    then some
        (entry.pa * 2 ^ 12 + va % 2 ^ page_bits, not entry.writeable_never, not entry.execute_never)
    else none

not-not : (b : Bool) → not (not b) ≡ b
not-not true = refl
not-not false = refl

-- A range of pages translates to consecutive physical addresses.
Maps-translate :
    (first count pa : ℕ) (attributes : Attributes) (before after : PageTable) (x : ℕ)
    → Maps first count pa attributes before after
    → pa % 2 ^ page_bits ≡ 0
    → x < 2 ^ page_bits * count
    → translate after (2 ^ page_bits * first + x)
      ≡ some (pa + x, attributes.writeable, attributes.executable)
unfolding translate
Maps-translate first count pa attributes before after x m aligned lt =
    let at : (2 ^ page_bits * first + x) / 2 ^ page_bits ≡ first + x / 2 ^ page_bits =
      omega arith in
    let here = m.inside (x / 2 ^ page_bits) new (omega (arith, lt)) in
    let whole : (pa + 2 ^ page_bits * (x / 2 ^ page_bits)) / 2 ^ 12 * 2 ^ 12
          + (2 ^ page_bits * first + x) % 2 ^ page_bits
        ≡ pa + x =
      omega (arith, aligned) in
    rw (at, here) (rw (whole, not-not attributes.writeable, not-not attributes.executable) refl)

find_bss-table :
    (header : ProgramHeader) (s : Loading)
    → s.bss_start ≡ none
    → s.bss_end ≡ none
    → (s' : Loading) × (find_bss header s ≡ returns s')
      × (s'.table ≡ s.table)
      × (s'.ctx_addr ≡ s.ctx_addr)
unfolding find_bss
find_bss-table header s e e' = elim (Bool-cases (ltb header.filesz header.memsz)) [
  | inl lt ↦ (
    record s {
      bss_start = some ((header.va + header.filesz) % 2 ^ 64);
      bss_end = some ((header.va + header.memsz) % 2 ^ 64);
    },
    rw (lt, e, e') refl,
    refl,
    refl,
  )
  | inr ge ↦ (s, rw ge refl, refl, refl)
]

load_segment-loaded :
    (source : Source) (entry : ℕ) (header : ProgramHeader) (s s' : Loading) (ctx : Option ℕ)
    (table : PageTable)
    → header.va - page_round_down header.va + header.filesz < 2 ^ 64
    → source.elf_pa + header.offset < 2 ^ 64
    → header.filesz ≤ header.memsz
    → find_context source entry header
        (page_round_down header.va)
        (page_round_up (header.va - page_round_down header.va + header.filesz))
        s.ctx_addr
      ≡ returns ctx
    → map_range source.with_pa
        (page_round_down header.va)
        (page_round_down (source.elf_pa + header.offset))
        (page_round_up (header.va - page_round_down header.va + header.filesz))
        (record {
          writeable = writeable header.flags;
          executable = executable header.flags;
          is_device = false;
        })
        s.table
      ≡ returns table
    → find_bss header (record s { ctx_addr = ctx; table = table }) ≡ returns s'
    → load_segment source entry header s ≡ returns (loaded tt, s')
unfolding load_segment
load_segment-loaded source entry header s s' ctx table small small' sizes found mapped rest =
    let fits : leb header.filesz header.memsz ≡ true = ground arith in
    rw (lt→ltb _ _ small, found) (rw (fits, lt→ltb _ _ small', mapped, rest) refl)

-- The place of a segment's byte among the pages that are mapped for the segment.
pub segment-translate :
    (va filesz pa : ℕ) (attributes : Attributes) (before after : PageTable) (x : ℕ)
    → Maps
        (page_round_down va / 2 ^ page_bits)
        (page_count (page_round_up (va - page_round_down va + filesz)))
        (page_round_down pa)
        attributes
        before
        after
    → pa % 2 ^ page_bits ≡ va % 2 ^ page_bits
    → va + filesz ≤ 2 ^ 25
    → x < filesz
    → translate after (va + x) ≡ some (pa + x, attributes.writeable, attributes.executable)
unfolding page_round_down page_round_up
segment-translate va filesz pa attributes before after x m congruent fits lt =
    let here =
      Maps-translate _ _ _ attributes before after (va % 2 ^ page_bits + x) m (omega arith)
        (omega (arith, fits, lt)) in
    let virtual : 2 ^ page_bits * (page_round_down va / 2 ^ page_bits) + (va % 2 ^ page_bits + x)
        ≡ va + x =
      omega arith in
    let physical : page_round_down pa + (va % 2 ^ page_bits + x) ≡ pa + x =
      omega (arith, congruent) in
    rw (← virtual, ← physical) here

-- A `Load` segment whose bytes lie in the address space at the offset in their page that they have in
-- the file, of a file that starts on a page below 2^48, is loaded, as long as no segment before has a
-- `bss` and the context is found. After it each of the segment's bytes in the file stands at its
-- virtual address, where it may be written to and executed as the segment's flags say.
pub load_segment-translate :
    (source : Source) (entry : ℕ) (header : ProgramHeader) (s : Loading) (ctx : Option ℕ)
    → KeepsPa source.with_pa
    → length s.table ≡ table_length
    → header.offset % 2 ^ page_bits ≡ header.va % 2 ^ page_bits
    → source.elf_pa % 2 ^ page_bits ≡ 0
    → header.va + header.filesz ≤ 2 ^ 25
    → source.elf_pa + header.offset + header.filesz ≤ 2 ^ 48
    → header.filesz ≤ header.memsz
    → s.bss_start ≡ none
    → s.bss_end ≡ none
    → find_context source entry header
        (page_round_down header.va)
        (page_round_up (header.va - page_round_down header.va + header.filesz))
        s.ctx_addr
      ≡ returns ctx
    → (s' : Loading) × (load_segment source entry header s ≡ returns (loaded tt, s'))
      × (s'.ctx_addr ≡ ctx)
      × (length s'.table ≡ table_length)
      × ((x : ℕ)
          → x < header.filesz
          → translate s'.table (header.va + x)
            ≡ some (
              source.elf_pa + header.offset + x,
              writeable header.flags,
              executable header.flags,
            ))
unfolding page_round_down page_round_up
load_segment-translate source entry header s ctx keeps whole congruent start fits low sizes e e'
      found =
    let va = page_round_down header.va in
    let pa = page_round_down (source.elf_pa + header.offset) in
    let backed = header.va - va + header.filesz in
    let range = page_round_up backed in
    let attributes : Attributes = record {
      writeable = writeable header.flags;
      executable = executable header.flags;
      is_device = false;
    } in
    let (table, mapped, maps) =
      map_range-Maps source.with_pa va pa range attributes s.table keeps (omega arith) (omega arith)
        whole (omega arith) in
    let (s', rest, same, same') =
      find_bss-table header (record s { ctx_addr = ctx; table = table }) e e' in
    (
      s',
      load_segment-loaded source entry header s s' ctx table (omega arith) (omega arith) sizes found
          mapped rest,
      same',
      ap length same ∙ maps.length_kept ∙ whole,
      λ x lt.
          ap (λ t. translate t (header.va + x)) same
          ∙ segment-translate header.va header.filesz (source.elf_pa + header.offset) attributes
              s.table table x maps (omega (arith, congruent, start)) fits lt,
    )
