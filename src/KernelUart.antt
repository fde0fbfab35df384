-- ===== src/KernelUart.antt =====
-- os/src/bin/kernel/uart.rs: the UART that the kernel prints to. A poll is what the driver finds each time
-- that it looks at the flag register: the bit `TXFF`, and the raw interrupt status then.
pub mod Laws
use rasperry_pi_os.Prelude.{
  ℕ, ◌/◌, ◌%◌, ◌^◌, Bool, Option, none, some, List, [], ◌∷◌, ◌++◌, ◌==◌, if◌then◌else◌,
}

pub data IoError : Type 0 where
  break frame overrun parity : IoError

pub record Poll : Type 0 where
  pub full : Bool
  pub ris : ℕ

pub record Uart : Type 0 where
  pub polls : List Poll
  pub sent : List ℕ

-- Where no poll is left, the driver still waits.
pub data Io : Type 0 where
  waiting : Uart → Io
  ok : Uart → Io
  err : IoError → Uart → Io

-- `Uart::new`: whether the registers are aligned.
unfoldable pub new : ℕ → Uart → Option Uart
new base_address uart = if base_address % 4 == 0 then some uart else none

-- `check_errors`
unfoldable pub check_errors : ℕ → Option IoError
check_errors ris =
    if ris / 2 ^ 10 % 2 == 1
    then some overrun
    else if ris / 2 ^ 9 % 2 == 1
    then some break
    else if ris / 2 ^ 8 % 2 == 1
    then some parity
    else if ris / 2 ^ 7 % 2 == 1
    then some frame
    else none

-- The loop of `write_byte`.
unfoldable pub write_byte_on : ℕ → List ℕ → List Poll → Io
write_byte_on byte sent [] = waiting (record { polls = []; sent = sent })
write_byte_on byte sent (p ∷ polls) =
    let more = write_byte_on byte sent polls in
    if p.full
    then elim (check_errors p.ris) [
      | some e ↦ err e (record { polls = polls; sent = sent })
      | none ↦ more
    ]
    else ok (record { polls = polls; sent = sent ++ byte ∷ [] })

unfoldable pub write_byte : ℕ → Uart → Io
unfolding write_byte_on
write_byte byte uart = write_byte_on byte uart.sent uart.polls

unfoldable pub write_bytes : List ℕ → Uart → Io
write_bytes [] uart = ok uart
write_bytes (byte ∷ bytes) uart = elim (write_byte byte uart) [
  | ok uart' ↦ write_bytes bytes uart'
  | waiting uart' ↦ waiting uart'
  | err e uart' ↦ err e uart'
]

-- `write_str`, which forgets the kind of an error.
pub data Written : Type 0 where
  still : Uart → Written
  done failed : Uart → Written

unfoldable pub write_str : List ℕ → Uart → Written
write_str bytes uart = elim (write_bytes bytes uart) [
  | ok uart' ↦ done uart'
  | waiting uart' ↦ still uart'
  | err e uart' ↦ failed uart'
]
