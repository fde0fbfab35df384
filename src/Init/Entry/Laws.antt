-- ===== src/Init/Entry/Laws.antt =====
-- What the entry of the init program leaves in the memory.
use rasperry_pi_os.Prelude.{
  ℕ, ◌+◌, ◌-◌, ◌^◌, ◌<◌, ◌≤◌, ◌≡◌, refl, ap, ◌∙◌, ◌⊎◌, inl, inr, ◌&&◌, some, arith, leb,
  if◌then◌else◌,
}
use rasperry_pi_os.Assembly.{Cpu, update, address, run}
use rasperry_pi_os.Init.Context.{exception_handler}
use rasperry_pi_os.KernelEntry.{Memory, zero_bss}
use rasperry_pi_os.KernelEntry.Copy.{zero_bss_lem}
use rasperry_pi_os.Init.Entry.Words.{
  load_bytes_bound, ldr-str, str_outside, ldr_cong, ldr-str_apart,
}
use rasperry_pi_os.Init.Entry.Copy.{copied, copy_next-copied}
use rasperry_pi_os.Init.Entry.{
  str, ldr, init_table_entry_base, map_next, copy_next, next_address, stack_pointer, next_size,
  push_arguments, start, resumed, enter_main,
}

module _ (size page : ℕ) (bytes : Memory) where
  arguments_lem :
      size < 2 ^ 64
      → page < 2 ^ 64
      → let after = push_arguments size page bytes in
        (ldr after stack_pointer ≡ next_address)
        × (ldr after (stack_pointer + 8) ≡ size)
        × (ldr after (stack_pointer + 16) ≡ page)
  unfolding push_arguments
  arguments_lem small low =
      let first = str next_address stack_pointer bytes in
      let second = str size (stack_pointer + 8) first in
      (
        ldr-str_apart page (stack_pointer + 16) stack_pointer second (inl (omega arith))
            ∙ ldr-str_apart size (stack_pointer + 8) stack_pointer first (inl (omega arith))
            ∙ ldr-str next_address stack_pointer bytes (omega arith),
        ldr-str_apart page (stack_pointer + 16) (stack_pointer + 8) second (inl (omega arith))
            ∙ ldr-str size (stack_pointer + 8) first small,
        ldr-str page (stack_pointer + 16) second low,
      )

  arguments_outside :
      (a : ℕ)
      → (a < stack_pointer) ⊎ (stack_pointer + 24 ≤ a)
      → push_arguments size page bytes a ≡ bytes a
  unfolding push_arguments
  arguments_outside a out =
      let first = str next_address stack_pointer bytes in
      let second = str size (stack_pointer + 8) first in
      str_outside page (stack_pointer + 16) second a (ground arith)
      ∙ str_outside size (stack_pointer + 8) first a (ground arith)
      ∙ str_outside next_address stack_pointer bytes a (ground arith)

module _ (page : ℕ) (bytes : Memory) where
  mapped_words :
      ((a : ℕ) → bytes a < 256)
      → page + init_table_entry_base < 2 ^ 64
      → let mapped = map_next page bytes in
        (ldr mapped 8 ≡ page + init_table_entry_base) × (ldr mapped 4088 ≡ ldr bytes 0)
  unfolding map_next ldr
  mapped_words byte small =
      let mirrored = str (ldr bytes 0) 4088 bytes in
      (
        ldr-str (page + init_table_entry_base) 8 mirrored small,
        ldr-str_apart (page + init_table_entry_base) 8 4088 mirrored (inr (omega arith))
            ∙ ldr-str (ldr bytes 0) 4088 bytes (load_bytes_bound 8 bytes 0 byte),
      )

  mapped_outside : (a : ℕ) → 4096 ≤ a → map_next page bytes a ≡ bytes a
  unfolding map_next
  mapped_outside a high =
      str_outside (page + init_table_entry_base) 8 (str (ldr bytes 0) 4088 bytes) a
        (inr (omega arith))
      ∙ str_outside (ldr bytes 0) 4088 bytes a (inr (omega arith))

-- `main` starts with the words at the first stack pointer.
enter_main_lem :
    (call : Cpu → Cpu) (cpu : Cpu) (argument : ℕ) (bytes : Memory)
    → let main = enter_main call cpu argument bytes in
      (main.x 0 ≡ ldr bytes stack_pointer)
      × (main.x 1 ≡ ldr bytes (stack_pointer + 8))
      × (main.x 2 ≡ ldr bytes (stack_pointer + 16))
      × (main.sp ≡ next_address)
unfolding enter_main resumed exception_handler run update address
enter_main_lem call cpu argument bytes = (refl, refl, refl, refl)

-- What the entry leaves.
record Started (page size : ℕ) (elf_start : ℕ) (bytes after : Memory) : Type 0 where
  pub moved : (i : ℕ) → i < size → after (next_address + i) ≡ bytes (elf_start + 2 + i)
  pub mapped : ldr after 8 ≡ page + init_table_entry_base
  pub mirrored : ldr after 4088 ≡ ldr bytes 0
  pub arguments :
      (ldr after stack_pointer ≡ next_address)
      × (ldr after (stack_pointer + 8) ≡ size)
      × (ldr after (stack_pointer + 16) ≡ page)

module _ (page elf_start bss_start bss_end : ℕ) (size : ℕ) (bytes : Memory)
    (byte : (a : ℕ) → bytes a < 256) (low : page < 2 ^ 48) (from : 4096 ≤ elf_start)
    (fits : elf_start + 2 + size < stack_pointer) (bss : 4096 ≤ bss_start)
    (end : bss_end < stack_pointer) where
  module _ (copied' cleared : Memory)
      (same : (a : ℕ)
        → copied' a ≡ copied size (elf_start + 2) next_address (map_next page bytes) a)
      (zeroed : (a : ℕ)
        → cleared a ≡ (if leb bss_start a && leb a bss_end then 0 else copied' a)) where
    cleared_low : (a : ℕ) → a < 4096 → cleared a ≡ map_next page bytes a
    unfolding copied
    cleared_low a below = ground (arith, zeroed a, same a)

    after_low : (a : ℕ) → a < 4096 → push_arguments size page cleared a ≡ map_next page bytes a
    after_low a below =
        arguments_outside size page cleared a (inl (omega arith)) ∙ cleared_low a below

    after_high : (i : ℕ) → i < size → cleared (next_address + i) ≡ bytes (elf_start + 2 + i)
    unfolding copied
    after_high i below =
        let at : next_address + i + (elf_start + 2) - next_address ≡ elf_start + 2 + i =
          omega arith in
        let there = mapped_outside page bytes (elf_start + 2 + i) (omega arith) in
        ground (arith, zeroed (next_address + i), same (next_address + i), at, there)

    after-Started : Started page size elf_start bytes (push_arguments size page cleared)
    after-Started =
        let after = push_arguments size page cleared in
        let words = mapped_words page bytes byte (omega arith) in
        record {
          moved = λ i below.
              arguments_outside size page cleared (next_address + i) (inr (omega arith))
              ∙ after_high i below;
          mapped =
              ldr_cong after (map_next page bytes) 8 (λ a _ below. after_low a (omega arith))
              ∙ words.0;
          mirrored =
              ldr_cong after (map_next page bytes) 4088 (λ a _ below. after_low a (omega arith))
              ∙ words.1;
          arguments = arguments_lem size page cleared (omega arith) (omega arith);
        }

next_size_mapped :
    (page elf_start : ℕ) (bytes : Memory)
    → 4096 ≤ elf_start
    → next_size (map_next page bytes) elf_start ≡ next_size bytes elf_start
unfolding next_size
next_size_mapped page elf_start bytes from =
    rw
      (
        mapped_outside page bytes elf_start from,
        mapped_outside page bytes (elf_start + 1) (omega arith),
      )
      refl

start_runs :
    (fuel page elf_start bss_start bss_end : ℕ) (bytes copied' cleared : Memory)
    → 4096 ≤ elf_start
    → copy_next fuel (next_size bytes elf_start) (elf_start + 2) next_address (map_next page bytes)
      ≡ some copied'
    → zero_bss fuel bss_start bss_end copied' ≡ some cleared
    → start fuel page elf_start bss_start bss_end bytes
      ≡ some (push_arguments (next_size bytes elf_start) page cleared)
unfolding start
start_runs fuel page elf_start bss_start bss_end bytes copied' cleared from copies clears =
    let same = next_size_mapped page elf_start bytes from in
    rw (start, same, copies, clears) (ap (λ n. some (push_arguments n page cleared)) same)

-- The entry of the init program ends, where the next program and the BSS lie in the page of the init
-- program, above its table and below its stack: it has copied the next program to 0x1_0000, mapped the
-- new page there, and kept the table's own first entry as the last one. When the kernel resumes the init
-- program, `main` starts with that address, the size of the next program and the page, on a stack that
-- ends there.
pub start-enter_main :
    (fuel page elf_start bss_start bss_end : ℕ) (bytes : Memory) (call : Cpu → Cpu) (cpu : Cpu)
    (argument : ℕ)
    → let size = next_size bytes elf_start in
      ((a : ℕ) → bytes a < 256)
      → page < 2 ^ 48
      → 4096 ≤ elf_start
      → elf_start + 2 + size < stack_pointer
      → 4096 ≤ bss_start
      → bss_start ≤ bss_end
      → bss_end < stack_pointer
      → size < fuel
      → bss_end - bss_start < fuel
      → (after : Memory) × (start fuel page elf_start bss_start bss_end bytes ≡ some after)
        × ((i : ℕ) → i < size → after (next_address + i) ≡ bytes (elf_start + 2 + i))
        × (ldr after 8 ≡ page + init_table_entry_base)
        × (ldr after 4088 ≡ ldr bytes 0)
        × (let main = enter_main call cpu argument after in
            (main.x 0 ≡ next_address)
            × (main.x 1 ≡ size)
            × (main.x 2 ≡ page)
            × (main.sp ≡ next_address))
start-enter_main fuel page elf_start bss_start bss_end bytes call cpu argument byte low from fits
      bss order end long enough =
    let size = next_size bytes elf_start in
    let (copied', copies, same) =
      copy_next-copied fuel size (elf_start + 2) next_address (map_next page bytes) (omega arith)
        (omega arith) long (omega arith) in
    let (cleared, clears, zeroed) = zero_bss_lem fuel bss_start bss_end copied' order enough in
    let done =
      after-Started page elf_start bss_start bss_end size bytes byte low from fits bss end copied'
        cleared same zeroed in
    let (first, second, third) = done.arguments in
    let after = push_arguments size page cleared in
    let (x0, x1, x2, top) = enter_main_lem call cpu argument after in
    (
      after,
      start_runs fuel page elf_start bss_start bss_end bytes copied' cleared from copies clears,
      done.moved,
      done.mapped,
      done.mirrored,
      (x0 ∙ first, x1 ∙ second, x2 ∙ third, top),
    )
