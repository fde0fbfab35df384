-- ===== src/Bootloader/Loader.antt =====
-- bootloader-loader/src/main.rs: how the boot loader asks for a kernel and loads it.
pub mod Laws
use rasperry_pi_os.Prelude.{
  ℕ, zero, suc, ◌+◌, ◌-◌, ◌*◌, ◌/◌, ◌%◌, ◌^◌, ◌≤◌, ◌<◌, ◌≡◌, refl, sym, ap, ◌∙◌, ◌≢◌, ◌↔◌, ◌⊎◌, inl,
  inr, Bool, true, false, not, ◌&&◌, ◌||◌, Option, none, some, List, [], ◌∷◌, ◌++◌, map, arith, ltb,
  leb, ◌==◌, if◌then◌else◌, ltb→lt, lt→ltb, le→ltb, ltb→le, leb→le, ==_iff, ==_refl, Bool-cases,
  Option-cases, length, get_elem?, get_or, set, replicate, All, length-append, length-set,
  length-replicate, get_or-set_self, get_or-set_ne, get_or_above, get_or-replicate, All-replicate,
  All-set, All-append, All-get_or, Panic, expectation, assertion, bounds, unreachable, todo,
  unexpected, Outcome, returns, panics, assert, expect, Outcome-cases, OnReturn-any, OnReturn-after,
  OnReturn, OnReturn->>=, OnReturn-map, OnReturn-returns, >>=-returns,
}
use rasperry_pi_os.Bootloader.Uart.{
  IoError, frame, Uart, Io, waiting, ok, err, ◌>>=◌, write_byte, read_bytes, from_le_bytes,
  clear_reads,
}

-- `SERVER_REQUEST`
abbrev pub server_request : ℕ
server_request = 27

-- `try_load_kernel`: the bytes that are now at the address.
unfoldable pub try_load_kernel : ℕ → Uart → Io (List ℕ)
try_load_kernel address uart = write_byte server_request uart >>= λ _ uart1.
    write_byte 0 uart1 >>= λ _ uart2. read_bytes 4 uart2 >>= λ kernel_size uart3.
    if address == 0
    then (write_byte 1 uart3 >>= λ _ uart4. err frame uart4)
    else read_bytes (from_le_bytes kernel_size) uart3

-- How far the boot loader gets: it waits for the line, it is out of fuel, it has stopped in a panic,
-- or it goes on to the kernel that it has loaded.
pub data Loader : Type 0 where
  waits out_of_fuel : Loader
  stops : Panic → Loader
  starts : List ℕ → Uart → Loader

-- The byte that ends an attempt.
unfoldable pub report : ℕ → Uart → (Uart → Loader) → Loader
report byte uart k = elim (write_byte byte uart) [
  | waiting ↦ waits
  | err e _ ↦ stops expectation
  | ok _ uart' ↦ k uart'
]

-- The loop of `main`, on fuel.
unfoldable pub load_loop : ℕ → ℕ → Uart → Loader
load_loop zero address uart = out_of_fuel
load_loop (suc fuel) address uart = elim (try_load_kernel address uart) [
  | waiting ↦ waits
  | ok kernel uart' ↦ report 0 uart' (λ uart''. starts kernel uart'')
  | err e uart' ↦ report 255 uart' (λ uart''. load_loop fuel address uart'')
]

-- `main`, after the pins and the UART are set up.
unfoldable pub main : ℕ → ℕ → Uart → Loader
main fuel load_addr uart = elim (clear_reads uart) [
  | waiting ↦ waits
  | err e _ ↦ waits
  | ok _ uart' ↦ load_loop fuel load_addr uart'
]
