-- ===== src/Bootloader/Uart/Setup/Discipline.antt =====
-- The order in which the UART wants its registers written.
use rasperry_pi_os.Prelude.{
  ℕ, ◌%◌, ◌^◌, ◌≡◌, refl, ◌⊎◌, inl, inr, Option, none, some, List, [], ◌∷◌, arith, ◌==◌,
  if◌then◌else◌, Bool-cases,
}
use rasperry_pi_os.Bootloader.Uart.Setup.{
  Device, ibrd, fbrd, lcrh, cr, write, modify, wait_idle, program, Setup, waiting, ready, new,
  divide, set_divider,
}

-- The line control and the divisors are written only while the UART is disabled. `word` is what the
-- control register holds.
abbrev pub Disciplined : ℕ → List (ℕ × ℕ) → Type 0
Disciplined word [] = Unit {0}
Disciplined word ((register, value) ∷ rest) =
    ((register ≡ ibrd) ⊎ ((register ≡ fbrd) ⊎ (register ≡ lcrh)) → word % 2 ≡ 0)
    × Disciplined (if register == cr then value else word) rest

abbrev pub OnReady : (Device → Type 0) → Setup → Type 0
OnReady P (ready device) = P device
OnReady P setup = Unit

-- What a device keeps to that is set up from a control word on.
pub record IsProgrammed (word integral fractional : ℕ) (after : Device) : Type 0 where
  pub disciplined : Disciplined word after.log
  pub integral_kept : after.registers ibrd ≡ integral
  pub fractional_kept : after.registers fbrd ≡ fractional
  pub enabled : after.registers cr % 2 ≡ 1

program-IsProgrammed :
    (word : ℕ) (device : Device) → device.log ≡ [] → IsProgrammed word 3 16 (program device)
unfolding program write modify
program-IsProgrammed word device empty = record {
  disciplined = rw empty (ground arith);
  integral_kept = refl;
  fractional_kept = refl;
  enabled = refl;
}

divide-IsProgrammed :
    (integral fractional : ℕ) (device : Device)
    → device.log ≡ []
    → IsProgrammed
        (device.registers cr)
        (integral % 2 ^ 16)
        (fractional % 2 ^ 6)
        (divide integral fractional device)
unfolding divide write modify
divide-IsProgrammed integral fractional device empty = record {
  disciplined = rw empty (ground arith);
  integral_kept = refl;
  fractional_kept = refl;
  enabled = omega arith;
}

OnReady-ready :
    (P : Device → Type 0) (m : Option (List ℕ)) (f : List ℕ → Device)
    → ((fr : List ℕ) → P (f fr))
    → OnReady P (elim m [ none ↦ waiting | some fr ↦ ready (f fr) ])
OnReady-ready P none f h = tt
OnReady-ready P (some fr) f h = h fr

-- Whatever the divisors and the registers hold: `new` and `set_divider`, once they end, have written the
-- line control and the divisors only while the UART was disabled, and leave it enabled with the divisors
-- 3 and 16, or with the low 16 and 6 bits of the given ones.
pub setup-IsProgrammed :
    (base_address integral fractional : ℕ) (device : Device)
    → device.log ≡ []
    → OnReady (IsProgrammed (device.registers cr) 3 16) (new base_address device)
      × OnReady
          (IsProgrammed (device.registers cr) (integral % 2 ^ 16) (fractional % 2 ^ 6))
          (set_divider integral fractional device)
unfolding new set_divider
setup-IsProgrammed base_address integral fractional device empty =
    let programmed =
      OnReady-ready (IsProgrammed (device.registers cr) 3 16) (wait_idle device.fr) _
        (λ fr. program-IsProgrammed (device.registers cr) (record device { fr = fr }) empty) in
    (
      elim (Bool-cases (base_address % 4 == 0)) [ inl e ↦ rw e programmed | inr e ↦ rw e tt ],
      OnReady-ready _ (wait_idle device.fr) _
          (λ fr. divide-IsProgrammed integral fractional (record device { fr = fr }) empty),
    )
