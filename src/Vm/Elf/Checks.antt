-- ===== src/Vm/Elf/Checks.antt =====
-- What `load_elf` has checked of a file that it loads, and what it changes when it refuses one.
use rasperry_pi_os.Prelude.{
  ℕ, ◌+◌, ◌*◌, ◌/◌, ◌%◌, ◌^◌, ◌≤◌, ◌≡◌, refl, ap, ◌∙◌, ◌⊎◌, inl, inr, true, ◌&&◌, Option, none,
  some, [], arith, ltb, leb, ◌==◌, ltb→le, leb→le, ==_iff, Bool-cases, length, expect,
  OnReturn-after, OnReturn, OnReturn-map,
}
use rasperry_pi_os.Vm.Tables.{PageTable, map_range}
use rasperry_pi_os.Vm.Elf.{
  BitVersion, bit_version_from_u8, bit_32, bit_64, elf_header_bytes, elf_header, has_magic,
  program_header_bytes, alloc_page,
}
use rasperry_pi_os.Vm.Elf.Load.{Loading, Loaded, failed, loaded, Source, load_headers}
use rasperry_pi_os.Vm.Elf.Program.{after_headers, Program, Spaces, load_stack, load_64, load_elf}

-- A refused file leaves the own address space and the stack alone; a loaded one is a 64-bit ELF whose
-- program headers lie in the file, and its entry is the header's.
abbrev pub Checked : Source → PageTable → Loaded Program × Spaces → Type 0
Checked source own (failed e, spaces) = (spaces.own ≡ own) × (spaces.stack ≡ [])
Checked source own (loaded program, spaces) =
    (elf_header_bytes ≤ length source.elf)
    × (has_magic (elf_header source.elf) ≡ true)
    × (bit_version_from_u8 (elf_header source.elf).bit_version ≡ some bit_64)
    × ((elf_header source.elf).program_header_entry_size ≡ program_header_bytes)
    × (program_header_bytes * (elf_header source.elf).program_header_entry_count
          + (elf_header source.elf).program_header_offset
        ≤ length source.elf)
    × (program.entry ≡ (elf_header source.elf).entry)

-- The stack is the last part, and has no error of its own.
load_stack-entry :
    (source : Source) (table_pa : ℕ) (page : ℕ × ℕ) (entry : ℕ) (s : Loading) (own : PageTable)
    → OnReturn
        (λ answer. (program : Program) × (answer.0 ≡ loaded program) × (program.entry ≡ entry))
        (load_stack source table_pa page entry s own)
unfolding load_stack
load_stack-entry source table_pa page entry s own = OnReturn-after _ (alloc_page page) _ (λ answer.
    OnReturn-after _ (expect answer) _ (λ stack_pg.
      OnReturn-after _ (map_range _ _ _ _ _ s.table) _ (λ table.
        OnReturn-after _ (map_range _ _ _ _ _ table) _ (λ table'.
          OnReturn-after _ (map_range _ _ _ _ _ own) _
            (λ own'. OnReturn-after _ (expect s.ctx_addr) _ (λ ctx. (_, refl, refl)))))))

loaded-Checked :
    (source : Source) (own : PageTable)
    → elf_header_bytes ≤ length source.elf
    → has_magic (elf_header source.elf) ≡ true
    → bit_version_from_u8 (elf_header source.elf).bit_version ≡ some bit_64
    → (elf_header source.elf).program_header_entry_size ≡ program_header_bytes
    → program_header_bytes * (elf_header source.elf).program_header_entry_count
        + (elf_header source.elf).program_header_offset
      ≤ length source.elf
    → (answer : Loaded Program × Spaces)
    → (program : Program) × (answer.0 ≡ loaded program)
      × (program.entry ≡ (elf_header source.elf).entry)
    → Checked source own answer
loaded-Checked source own long is_magic is_64 size inside (failed e, spaces) (program, is, at) =
    absurd (cc)
loaded-Checked source own long is_magic is_64 size inside (loaded p, spaces) (program, is, at) =
    let same : p ≡ program = cc in
    (long, is_magic, is_64, size, inside, ap (λ q. q.entry) same ∙ at)

after_headers-Checked :
    (source : Source) (table_pa : ℕ) (page : ℕ × ℕ) (own : PageTable)
    → elf_header_bytes ≤ length source.elf
    → has_magic (elf_header source.elf) ≡ true
    → bit_version_from_u8 (elf_header source.elf).bit_version ≡ some bit_64
    → (elf_header source.elf).program_header_entry_size ≡ program_header_bytes
    → program_header_bytes * (elf_header source.elf).program_header_entry_count
        + (elf_header source.elf).program_header_offset
      ≤ length source.elf
    → (answer : Loaded (Unit {0}) × Loading)
    → OnReturn
        (Checked source own)
        (after_headers source table_pa page (elf_header source.elf).entry own answer)
unfolding after_headers
after_headers-Checked source table_pa page own long is_magic is_64 size inside (failed e, s) =
    (refl, refl)
after_headers-Checked source table_pa page own long is_magic is_64 size inside (loaded x, s) =
    OnReturn-map (load_stack source table_pa page (elf_header source.elf).entry s own)
      (load_stack-entry source table_pa page (elf_header source.elf).entry s own)
      (loaded-Checked source own long is_magic is_64 size inside)

load_64-Checked :
    (source : Source) (table_pa : ℕ) (page : ℕ × ℕ) (table own : PageTable)
    → elf_header_bytes ≤ length source.elf
    → has_magic (elf_header source.elf) ≡ true
    → bit_version_from_u8 (elf_header source.elf).bit_version ≡ some bit_64
    → (elf_header source.elf).program_header_entry_size ≡ program_header_bytes
    → OnReturn (Checked source own) (load_64 source table_pa page (elf_header source.elf) table own)
unfolding load_64
load_64-Checked source table_pa page table own long is_magic is_64 size =
    let header = elf_header source.elf in
    let start = header.program_header_offset in
    let end_of = program_header_bytes * header.program_header_entry_count + start in
    elim (Bool-cases (ltb end_of (2 ^ 64) && leb end_of (length source.elf))) [
      | inr beyond ↦ rw beyond (refl, refl)
      | inl inside ↦ elim (Bool-cases ((source.address + start / 8 * 8) % 8 == 0)) [
        | inr crooked ↦ rw (inside, crooked) (refl, refl)
        | inl straight ↦
            rw (inside, straight)
              (OnReturn-after (Checked source own) (load_headers source header.entry _ _) _ (
                after_headers-Checked source table_pa page own long is_magic is_64 size
                  (leb→le _ _ (ground (arith, inside)))))
      ]
    ]

version-cases :
    (version : Option BitVersion)
    → (version ≡ none) ⊎ ((version ≡ some bit_32) ⊎ (version ≡ some bit_64))
version-cases none = inl refl
version-cases (some bit_32) = inr (inl refl)
version-cases (some bit_64) = inr (inr refl)

-- `load_elf`, when it does not panic, either answers an error and leaves the own address space and the
-- stack as they were, or has checked that the file is a 64-bit ELF with program headers of the right
-- size that lie in the file, and answers the entry of its header.
pub load_elf-Checked :
    (source : Source) (table_pa : ℕ) (page : ℕ × ℕ) (table own : PageTable)
    → OnReturn (Checked source own) (load_elf source table_pa page table own)
unfolding load_elf
load_elf-Checked source table_pa page table own =
    let header = elf_header source.elf in
    elim (Bool-cases (ltb (length source.elf) elf_header_bytes)) [
      | inl short ↦ rw short (refl, refl)
      | inr long ↦ elim (Bool-cases (source.address % 8 == 0)) [
        | inr crooked ↦ rw (long, crooked) (refl, refl)
        | inl straight ↦ elim (Bool-cases (has_magic header)) [
          | inr other ↦ rw (long, straight, other) (refl, refl)
          | inl is_magic ↦
              elim (Bool-cases (header.program_header_entry_size == program_header_bytes)) [
                | inr wrong ↦ rw (long, straight, is_magic, wrong) (refl, refl)
                | inl size ↦
                    rw (long, straight, is_magic, size)
                      (elim (version-cases (bit_version_from_u8 header.bit_version)) [
                        | inl other ↦ rw other (refl, refl)
                        | inr (inl is_32) ↦ rw is_32 tt
                        | inr (inr is_64) ↦ rw is_64 (
                            load_64-Checked source table_pa page table own (ltb→le _ _ long)
                              is_magic is_64 ((==_iff _ _).0 size))
                      ])
              ]
        ]
      ]
    ]
