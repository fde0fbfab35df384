-- ===== src/Init/Entry/Translate.antt =====
-- What `temporary_map` maps.
use rasperry_pi_os.Prelude.{ℕ, ◌+◌, ◌*◌, ◌/◌, ◌%◌, ◌^◌, Option, none, some, ◌==◌, if◌then◌else◌}
use rasperry_pi_os.KernelEntry.{Memory}
use rasperry_pi_os.Init.Entry.{ldr}

-- The processor's walk of the init program's table, which has an entry for each of 512 pages of 64 KiB: a
-- page has the type 3, and its address in bits 16 to 47.
abbrev pub translate : Memory → ℕ → Option ℕ
translate bytes virtual =
    let entry = ldr bytes (virtual / 2 ^ 16 * 8) in
    if entry % 4 == 3 then some (entry / 2 ^ 16 % 2 ^ 32 * 2 ^ 16 + virtual % 2 ^ 16) else none
