-- ===== src/KernelEntry/Copy.antt =====
-- What the loops of the boot sequence leave in the memory.
use rasperry_pi_os.Prelude.{
  ℕ, zero, suc, ◌+◌, ◌-◌, ◌*◌, ◌%◌, ◌^◌, ◌≤◌, ◌<◌, ◌≡◌, refl, ◌⊎◌, inl, inr, true, false, ◌&&◌,
  some, arith, ltb, leb, if◌then◌else◌, lt→ltb, leb→le, Bool-cases,
}
use native.Mathlib.Nat.{mul-suc}
use rasperry_pi_os.KernelEntry.{
  Memory, write, copy, init_size, move_init, init_physical_address, zero_bss,
}

-- A number of cells moved, one after the other from the first on.
moved : ℕ → ℕ → ℕ → ℕ → Memory → Memory
moved unit zero source target memory = memory
moved unit (suc count) source target memory =
    moved unit count (source + unit) (target + unit) (write target (memory source) memory)

-- The loop makes one round more than there are whole units.
copy-moved :
    (unit fuel count left source target : ℕ) (memory : Memory)
    → 0 < unit
    → count < fuel
    → unit * count ≤ left
    → left < unit * count + unit
    → left < 2 ^ 63
    → unit < 2 ^ 63
    → copy unit fuel left source target memory ≡ some (moved unit (suc count) source target memory)
unfolding copy moved
copy-moved unit zero count left source target memory pos h low high small u = elim h [ ]
copy-moved unit (suc fuel) zero left source target memory pos h low high small u =
    let last : ltb ((left + 2 ^ 64 - unit) % 2 ^ 64) (2 ^ 63) ≡ false = ground arith in rw last refl
copy-moved unit (suc fuel) (suc count) left source target memory pos h low high small u =
    let more : (left + 2 ^ 64 - unit) % 2 ^ 64 ≡ left - unit = omega (arith, mul-suc unit count) in
    let on : ltb (left - unit) (2 ^ 63) ≡ true = lt→ltb _ _ (omega arith) in
    let ends =
      copy-moved unit fuel count (left - unit) (source + unit) (target + unit)
        (write target (memory source) memory) pos (omega arith) (omega (arith, mul-suc unit count))
        (omega (arith, mul-suc unit count)) (omega arith) u in
    rw more (rw on ends)

-- Cells below the first and above the last are unchanged.
moved_outside :
    (unit count source target : ℕ) (memory : Memory) (a : ℕ)
    → 0 < unit
    → (a < target) ⊎ (target + unit * count ≤ a)
    → moved unit count source target memory a ≡ memory a
unfolding moved write
moved_outside unit zero source target memory a pos h = refl
moved_outside unit (suc count) source target memory a pos h = ground (
  arith,
  mul-suc unit count,
  moved_outside unit count (source + unit) (target + unit) (write target (memory source) memory) a,
)

-- The cells that are moved to hold those that they come from, where the two ranges are apart.
moved_inside :
    (unit count source target : ℕ) (memory : Memory) (k : ℕ)
    → 0 < unit
    → k < count
    → (target + unit * count ≤ source) ⊎ (source + unit * count ≤ target)
    → moved unit count source target memory (target + unit * k) ≡ memory (source + unit * k)
unfolding moved write
moved_inside unit zero source target memory k pos h apart = elim h [ ]
moved_inside unit (suc count) source target memory zero pos h apart =
    let memory' = write target (memory source) memory in
    let stays = moved_outside unit count (source + unit) (target + unit) memory' target in
    let from : source + unit * 0 ≡ source = omega arith in
    let to : target + unit * 0 ≡ target = omega arith in rw (from, to) (ground (arith, stays))
moved_inside unit (suc count) source target memory (suc k) pos h apart =
    let memory' = write target (memory source) memory in
    let below : unit * k + unit ≤ unit * count = grind arith in
    let clear : (target + unit + unit * count ≤ source + unit)
        ⊎ (source + unit + unit * count ≤ target + unit) =
      ground (arith, mul-suc unit count) in
    let rest =
      moved_inside unit count (source + unit) (target + unit) memory' k pos (omega arith) clear in
    let from : source + unit * suc k ≡ source + unit + unit * k = omega (arith, mul-suc unit k) in
    let to : target + unit * suc k ≡ target + unit + unit * k = omega (arith, mul-suc unit k) in
    rw (from, to) (ground (arith, rest, mul-suc unit count))

-- The boot sequence clears the BSS, and the byte at its end: these bytes are zero and no other byte
-- changes.
pub zero_bss_lem :
    (fuel start end : ℕ) (bytes : Memory)
    → start ≤ end
    → end - start < fuel
    → (bytes' : Memory) × (zero_bss fuel start end bytes ≡ some bytes')
      × ((a : ℕ) → bytes' a ≡ (if leb start a && leb a end then 0 else bytes a))
unfolding zero_bss write
zero_bss_lem zero start end bytes order h = elim h [ ]
zero_bss_lem (suc fuel) start end bytes order h = elim (Bool-cases (leb (start + 1) end)) [
  | inr done ↦ (write start 0 bytes, ground arith, λ a. ground arith)
  | inl more ↦
      let (bytes', runs, zeroed) =
        zero_bss_lem fuel (start + 1) end (write start 0 bytes) (leb→le _ _ more) (ground arith) in
      (bytes', ground arith, λ a. ground (arith, zeroed a))
]

-- The init program, of a size of 16 bits, is moved to 0x1000, with one byte more, from where it is apart:
-- each byte is there, and no other byte of the memory changes.
pub move_init_lem :
    (fuel init_start : ℕ) (bytes : Memory)
    → let size = init_size bytes init_start in
      size < 2 ^ 16
      → init_physical_address + size < init_start
      → size < fuel
      → (bytes' : Memory) × (move_init fuel init_start bytes ≡ some bytes')
        × ((i : ℕ) → i ≤ size → bytes' (init_physical_address + i) ≡ bytes (init_start + 2 + i))
        × ((a : ℕ)
            → (a < init_physical_address) ⊎ (init_physical_address + size < a)
            → bytes' a ≡ bytes a)
unfolding move_init
move_init_lem fuel init_start bytes small apart enough =
    let size = init_size bytes init_start in
    let source = init_start + 2 in
    let target = init_physical_address in
    (
      moved 1 (suc size) source target bytes,
      copy-moved 1 fuel size size source target bytes (omega arith) enough (omega arith)
          (omega arith) (omega arith) (omega arith),
      λ i below.
          let one : 1 * i ≡ i = omega arith in
          rw one at (
            moved_inside 1 (suc size) source target bytes i (omega arith) (omega arith)
              (inl (omega arith))),
      λ a out. moved_outside 1 (suc size) source target bytes a (omega arith) (ground arith),
    )
