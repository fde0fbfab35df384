-- ===== src/KernelEntry/Translate.antt =====
-- What the kernel's translation table maps.
use rasperry_pi_os.Prelude.{
  ℕ, ◌+◌, ◌-◌, ◌*◌, ◌/◌, ◌%◌, ◌^◌, ◌<◌, ◌≡◌, ◌&&◌, Option, none, some, arith, leb, ◌==◌,
  if◌then◌else◌,
}
use rasperry_pi_os.KernelEntry.{
  Memory, write, fill_table, virtual_offset, page_bits, address_bits, uart_address, mailbox_address,
  gic_address,
}

-- The processor's walk of a table of 2 MiB blocks over the highest 25 bits of addresses: a block has the
-- type 1, and the address in bits 21 to 35.
abbrev pub translate : Memory → ℕ → Option ℕ
translate table virtual =
    let offset = virtual - (2 ^ 64 - 2 ^ address_bits) in
    let entry = table (offset / 2 ^ page_bits) in
    if entry % 4 == 1 && leb (2 ^ 64 - 2 ^ address_bits) virtual
    then some (entry % 2 ^ 36 / 2 ^ page_bits * 2 ^ page_bits + virtual % 2 ^ page_bits)
    else none

-- After the boot sequence, the first block of the kernel's addresses is the first of the memory, and the
-- next three are those of the UART, of the mailbox and of the interrupt controller, whose address in the
-- table is rounded down to a block.
pub fill_table-translate :
    (table : Memory) (offset : ℕ)
    → offset < 2 ^ 21
    → let filled = fill_table table in
      (translate filled (virtual_offset + offset) ≡ some offset)
      × (translate filled (virtual_offset + 2 ^ 21 + offset) ≡ some (uart_address + offset))
      × (translate filled (virtual_offset + 2 * 2 ^ 21 + offset) ≡ some (mailbox_address + offset))
      × (translate filled (virtual_offset + 3 * 2 ^ 21 + offset)
          ≡ some (gic_address / 2 ^ 21 * 2 ^ 21 + offset))
unfolding fill_table write
fill_table-translate table offset small = (ground arith, ground arith, ground arith, ground arith)
