-- ===== src/Init/Entry/Copy.antt =====
-- The copy of the next program.
use rasperry_pi_os.Prelude.{
  ℕ, zero, suc, ◌+◌, ◌-◌, ◌%◌, ◌^◌, ◌<◌, ◌≡◌, refl, ◌∙◌, inl, inr, true, ◌&&◌, some, arith, ltb,
  leb, ◌==◌, lt→ltb, if◌then◌else◌, Bool-cases,
}
use rasperry_pi_os.KernelEntry.{Memory, write}
use rasperry_pi_os.Init.Entry.{copy_next}

-- The bytes that are copied down to one, and the byte in front of them.
unfoldable pub copied : ℕ → ℕ → ℕ → Memory → Memory
copied left source target bytes a =
    if leb target (a + 1) && ltb a (target + left) then bytes (a + source - target) else bytes a

copied_zero :
    (source target : ℕ) (bytes : Memory) (a : ℕ)
    → 0 < source
    → source < target
    → write (target - 1) (bytes (source - 1)) bytes a ≡ copied 0 source target bytes a
unfolding write copied
copied_zero source target bytes a pos apart =
    let from : target - 1 + source - target ≡ source - 1 = omega arith in
    elim (Bool-cases (a == target - 1)) [
      | inl e ↦ ground (arith, from, e)
      | inr e ↦ ground (arith, e)
    ]

copied-suc :
    (left source target : ℕ) (bytes : Memory) (a : ℕ)
    → source + suc left < target
    → copied left source target (write (target + left) (bytes (source + left)) bytes) a
      ≡ copied (suc left) source target bytes a
unfolding write copied
copied-suc left source target bytes a apart =
    let from : target + left + source - target ≡ source + left = omega arith in
    elim (Bool-cases (a == target + left)) [
      | inl e ↦ ground (arith, from, e)
      | inr e ↦ ground (arith, e)
    ]

copy_next-suc :
    (fuel left source target : ℕ) (bytes : Memory)
    → source + left < 2 ^ 63
    → target + left < 2 ^ 63
    → copy_next (suc fuel) (suc left) source target bytes
      ≡ copy_next fuel left source target (write (target + left) (bytes (source + left)) bytes)
unfolding copy_next
copy_next-suc fuel left source target bytes low high =
    let less : (suc left + 2 ^ 64 - 1) % 2 ^ 64 ≡ left = omega arith in
    let on : ltb left (2 ^ 63) ≡ true = lt→ltb _ _ (omega arith) in
    let to : (target + left) % 2 ^ 64 ≡ target + left = omega arith in
    let from : (source + left) % 2 ^ 64 ≡ source + left = omega arith in
    rw less (rw on (rw (to, from) refl))

pub copy_next-copied :
    (fuel left source target : ℕ) (bytes : Memory)
    → 0 < source
    → source + left < target
    → left < fuel
    → target + left < 2 ^ 63
    → (bytes' : Memory) × (copy_next fuel left source target bytes ≡ some bytes')
      × ((a : ℕ) → bytes' a ≡ copied left source target bytes a)
unfolding copy_next
copy_next-copied zero left source target bytes pos apart enough small = elim enough [ ]
copy_next-copied (suc fuel) zero source target bytes pos apart enough small =
    let to : (target + (2 ^ 64 - 1)) % 2 ^ 64 ≡ target - 1 = omega arith in
    let from : (source + (2 ^ 64 - 1)) % 2 ^ 64 ≡ source - 1 = omega arith in
    (
      write (target - 1) (bytes (source - 1)) bytes,
      rw (to, from) refl,
      λ a. copied_zero source target bytes a pos (omega arith),
    )
copy_next-copied (suc fuel) (suc left) source target bytes pos apart enough small =
    let written : Memory = write (target + left) (bytes (source + left)) bytes in
    let (bytes', runs, same) =
      copy_next-copied fuel left source target written pos (omega arith) (omega arith)
        (omega arith) in
    (
      bytes',
      copy_next-suc fuel left source target bytes (omega arith) (omega arith) ∙ runs,
      λ a. same a ∙ copied-suc left source target bytes a apart,
    )
