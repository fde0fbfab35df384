-- ===== src/Bootloader/Gpio.antt =====
-- bootloader-loader/src/gpio.rs: the pins. The registers are words, by their index from the base
-- address on, which counts words as the source's pointer to `u32` does.
pub mod Fields
use rasperry_pi_os.Prelude.{
  ℕ, ◌+◌, ◌-◌, ◌*◌, ◌/◌, ◌%◌, ◌^◌, ltb, ◌==◌, if◌then◌else◌, Outcome, returns, ◌>>=◌, ◌>>◌, assert,
}

pub data FunctionSelect : Type 0 where
  input output alt0 alt1 alt2 alt3 alt4 alt5 : FunctionSelect

abbrev pub function_bits : FunctionSelect → ℕ
function_bits input = 0
function_bits output = 1
function_bits alt0 = 4
function_bits alt1 = 5
function_bits alt2 = 6
function_bits alt3 = 7
function_bits alt4 = 3
function_bits alt5 = 2

pub data Pull : Type 0 where
  off up down : Pull

abbrev pub pull_bits : Pull → ℕ
pull_bits off = 0
pull_bits up = 1
pull_bits down = 2

abbrev pub Gpio : Type 0
Gpio = ℕ → ℕ

abbrev pub num_pins : ℕ
num_pins = 58

-- A word whose field at a shift is cleared and then set. The value fits the field, so that `|` adds it.
unfoldable pub with_field : ℕ → ℕ → ℕ → ℕ → ℕ
with_field width shift value val = val - val / 2 ^ shift % 2 ^ width * 2 ^ shift + value * 2 ^ shift

-- `Gpio::set_field`, without the checks of a debug build.
unfoldable pub set_field : ℕ → ℕ → ℕ → ℕ → Gpio → Outcome Gpio
set_field base_offset pin field_width value gpio = do
  assert (ltb pin num_pins)
  let fields_per_u32 = 32 / field_width
  let register = base_offset + pin / fields_per_u32
  let shift = pin % fields_per_u32 * field_width
  returns (λ i. if i == register then with_field field_width shift value (gpio i) else gpio i)

unfoldable pub select_function : ℕ → FunctionSelect → Gpio → Outcome Gpio
select_function pin function gpio = set_field 0 pin 3 (function_bits function) gpio

unfoldable pub select_pull : ℕ → Pull → Gpio → Outcome Gpio
select_pull pin pull gpio = set_field 228 pin 2 (pull_bits pull) gpio
