-- ===== src/Bootloader/Gpio/Fields.antt =====
-- The fields of the registers that select the functions of the pins.
use rasperry_pi_os.Prelude.{
  ℕ, zero, suc, ◌+◌, ◌-◌, ◌*◌, ◌/◌, ◌%◌, ◌^◌, ◌≤◌, ◌<◌, ◌≡◌, refl, ap, ◌∙◌, ◌≢◌, ◌⊎◌, inl, inr,
  false, arith, ltb, ◌==◌, if◌then◌else◌, ltb→lt, ltb→le, ==_iff, Bool-cases, assertion, returns,
  panics,
}
use native.Mathlib.Nat.{pow-suc, mul-le-mul_right, mul_comm, mod-le, div-div-eq-div-mul, mul-div-le}
use rasperry_pi_os.Bootloader.Gpio.{
  FunctionSelect, input, output, alt0, alt1, alt2, alt3, alt4, alt5, function_bits, Gpio, num_pins,
  with_field, set_field, select_function,
}

-- The groups of three bits of a word, from the lowest on, and a word with one of them replaced.
abbrev pub field_at : ℕ → ℕ → ℕ
field_at zero val = val % 8
field_at (suc k) val = field_at k (val / 8)

replace_at : ℕ → ℕ → ℕ → ℕ
replace_at zero value val = val / 8 * 8 + value
replace_at (suc k) value val = val % 8 + 8 * replace_at k value (val / 8)

-- The function of a pin in the registers.
abbrev pub function_of : ℕ → Gpio → ℕ
function_of pin gpio = field_at (pin % 10) (gpio (pin / 10))

field_at-replace_at :
    (j k value val : ℕ)
    → value < 8
    → field_at j (replace_at k value val) ≡ (if k == j then value else field_at j val)
unfolding replace_at
field_at-replace_at zero zero value val h = omega (arith, h)
field_at-replace_at zero (suc k) value val h = grind arith
field_at-replace_at (suc j) zero value val h =
    let above : (val / 8 * 8 + value) / 8 ≡ val / 8 = omega (arith, h) in
    let other : (0 == suc j) ≡ false = ground arith in rw other (ap (field_at j) above)
field_at-replace_at (suc j) (suc k) value val h =
    let above : (val % 8 + 8 * replace_at k value (val / 8)) / 8 ≡ replace_at k value (val / 8) =
      omega arith in
    let same : (suc k == suc j) ≡ (k == j) = ground arith in
    rw (above, same) (field_at-replace_at j k value (val / 8) h)

pow-shift : (k : ℕ) → 2 ^ (suc k * 3) ≡ 8 * 2 ^ (k * 3)
pow-shift k =
    let more : suc k * 3 ≡ suc (suc (suc (k * 3))) = omega arith in
    let one = pow-suc 2 (k * 3) in
    let two = pow-suc 2 (suc (k * 3)) in
    let three = pow-suc 2 (suc (suc (k * 3))) in rw more (omega (arith, one, two, three))

with_field-replace_at : (k value val : ℕ) → with_field 3 (k * 3) value val ≡ replace_at k value val
unfolding with_field replace_at
with_field-replace_at zero value val = omega arith
with_field-replace_at (suc k) value val =
    let below = with_field-replace_at k value (val / 8) in
    let P = 2 ^ (k * 3) in
    let split = div-div-eq-div-mul val 8 P in
    let fits = mul-div-le (val / 8) P in
    let f = val / 8 / P % 8 in
    let cleared : f * (8 * P) ≡ 8 * (f * P) = grind arith in
    let added : value * (8 * P) ≡ 8 * (value * P) = grind arith in
    let held : f * P ≤ val / 8 =
      omega (arith, fits, mul-le-mul_right P (mod-le (val / 8 / P) 8), mul_comm P (val / 8 / P)) in
    let below' : val / 8 - f * P + value * P ≡ replace_at k value (val / 8) = below in
    rw (with_field, pow-shift k, ← split) (rw (cleared, added) (omega (arith, held, below')))

function_bits_lt : (function : FunctionSelect) → function_bits function < 8
function_bits_lt input = omega arith
function_bits_lt output = omega arith
function_bits_lt alt0 = omega arith
function_bits_lt alt1 = omega arith
function_bits_lt alt2 = omega arith
function_bits_lt alt3 = omega arith
function_bits_lt alt4 = omega arith
function_bits_lt alt5 = omega arith

-- `select_function` of a pin that there is gives the pin the function, in the three bits of the pin, and
-- leaves the functions of all other pins and all other registers as they were; of a pin from 58 on it
-- panics.
pub select_function_lem :
    (pin : ℕ) (function : FunctionSelect) (gpio : Gpio)
    → ((pin < num_pins)
        × ((gpio' : Gpio) × (select_function pin function gpio ≡ returns gpio')
            × ((other : ℕ)
                → function_of other gpio'
                  ≡ (if pin == other then function_bits function else function_of other gpio))
            × ((i : ℕ) → i ≢ pin / 10 → gpio' i ≡ gpio i)))
      ⊎ ((num_pins ≤ pin) × (select_function pin function gpio ≡ panics assertion))
unfolding select_function set_field
select_function_lem pin function gpio = elim (Bool-cases (ltb pin num_pins)) [
  | inr out ↦ inr (ltb→le pin num_pins out, rw out refl)
  | inl inside ↦ inl (
    ltb→lt pin num_pins inside,
    (
      λ i.
          if i == pin / 10
          then with_field 3 (pin % 10 * 3) (function_bits function) (gpio i)
          else gpio i,
      rw inside (
          ap
            (λ n. returns (λ i.
              if i == n
              then with_field 3 (pin % 10 * 3) (function_bits function) (gpio i)
              else gpio i))
            (omega arith)),
      λ other. elim (Bool-cases (other / 10 == pin / 10)) [
        | inl same ↦
            let place : other / 10 ≡ pin / 10 = (==_iff _ _).0 same in
            let pins : (pin % 10 == other % 10) ≡ (pin == other) = ground (arith, place) in
            rw (same, with_field-replace_at (pin % 10) (function_bits function) (gpio (other / 10)))
              (field_at-replace_at (other % 10) (pin % 10) (function_bits function)
                  (gpio (other / 10)) (function_bits_lt function)
                ∙ rw pins refl)
        | inr elsewhere ↦
            let apart : (pin == other) ≡ false = ground (arith, elsewhere) in
            rw (elsewhere, apart) refl
      ],
      λ i ne. let elsewhere : (i == pin / 10) ≡ false = ground (arith, ne) in rw elsewhere refl,
    ),
  )
]
