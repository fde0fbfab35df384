-- ===== src/Bootloader/Uart/Setup.antt =====
-- How bootloader-loader/src/uart.rs sets its registers up, and what `main` of
-- bootloader-loader/src/main.rs prepares before it loads a kernel. A register is its offset. `fr` has
-- what the flag register will hold at each look, and `log` the writes.
pub mod Discipline
use rasperry_pi_os.Prelude.{
  ℕ, ◌+◌, ◌-◌, ◌*◌, ◌/◌, ◌%◌, ◌^◌, Option, none, some, List, [], ◌∷◌, ◌++◌, ◌==◌, if◌then◌else◌,
  expectation, Outcome, returns, panics, ◌>>=◌, ◌>>◌,
}
use rasperry_pi_os.Bootloader.Gpio.{Gpio, alt0, up, select_function, select_pull}

pub record Device : Type 0 where
  pub fr : List ℕ
  pub registers : ℕ → ℕ
  pub log : List (ℕ × ℕ)

abbrev pub ibrd : ℕ
ibrd = 36

abbrev pub fbrd : ℕ
fbrd = 40

abbrev pub lcrh : ℕ
lcrh = 44

abbrev pub cr : ℕ
cr = 48

abbrev pub ifls : ℕ
ifls = 52

abbrev pub imsc : ℕ
imsc = 56

abbrev pub icr : ℕ
icr = 68

unfoldable pub write : ℕ → ℕ → Device → Device
write register value device = record device {
  registers = λ r. if r == register then value else device.registers r;
  log = device.log ++ (register, value) ∷ [];
}

-- A field replaced.
unfoldable pub modify : ℕ → ℕ → ℕ → ℕ → Device → Device
unfolding write
modify register shift width value device =
    let old = device.registers register in
    write register (old - old / 2 ^ shift % 2 ^ width * 2 ^ shift + value * 2 ^ shift) device

-- The wait for the end of a transmission. Where no look is left, it still waits.
unfoldable pub wait_idle : List ℕ → Option (List ℕ)
wait_idle [] = none
wait_idle (word ∷ fr) = let rest = wait_idle fr in if word / 2 ^ 3 % 2 == 1 then rest else some fr

-- The sum of the fields of `CR` and of `LCRH` that `new` writes.
abbrev pub line_control : ℕ
line_control = 3 * 2 ^ 5 + 2 ^ 4

abbrev pub control : ℕ
control = 2 ^ 9 + 2 ^ 8 + 1

unfoldable pub program : Device → Device
unfolding write modify
program device =
    let disabled = write cr 0 device in
    let masked = write imsc (2 ^ 4 + 2 ^ 6) disabled in
    let levels = modify ifls 3 3 0 masked in
    let cleared = write icr (2 ^ 32 - 1) levels in
    let divided = write fbrd 16 (write ibrd 3 cleared) in
    write cr control (write lcrh line_control divided)

pub data Setup : Type 0 where
  misaligned waiting : Setup
  ready : Device → Setup

-- `Uart::new`
unfoldable pub new : ℕ → Device → Setup
new base_address device =
    if base_address % 4 == 0
    then elim (wait_idle device.fr) [
      | none ↦ waiting
      | some fr ↦ ready (program (record device { fr = fr }))
    ]
    else misaligned

-- The registers that `Uart::set_divider` writes, of which a field keeps the low bits.
unfoldable pub divide : ℕ → ℕ → Device → Device
unfolding write modify
divide integral fractional device =
    modify cr 0 1 1
      (write fbrd (fractional % 2 ^ 6) (write ibrd (integral % 2 ^ 16) (modify cr 0 1 0 device)))

unfoldable pub set_divider : ℕ → ℕ → Device → Setup
set_divider integral fractional device = elim (wait_idle device.fr) [
  | none ↦ waiting
  | some fr ↦ ready (divide integral fractional (record device { fr = fr }))
]

-- The pins and the UART that `main` sets up.
unfoldable pub prepare_pins : Gpio → Outcome Gpio
prepare_pins gpio = do
  tx ← select_function 14 alt0 gpio
  rx ← select_function 15 alt0 tx
  pulled ← select_pull 14 up rx
  select_pull 15 up pulled

unfoldable pub prepare : Gpio → Device → Outcome (Gpio × Setup)
unfolding prepare_pins
prepare gpio device = do
  gpio' ← prepare_pins gpio
  elim (new 19295899648 device) [
    | misaligned ↦ panics expectation
    | waiting ↦ returns (gpio', waiting)
    | ready device' ↦ returns (gpio', ready device')
  ]
