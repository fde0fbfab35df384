-- ===== src/Bootloader/Uart.antt =====
-- bootloader-loader/src/uart.rs: the driver of the UART that the boot loader uses. The hardware is what
-- the driver reads: one `Poll` for each time that it looks at the flag register, with what it would
-- find then in the other registers. Where no poll is left, the driver waits.
pub mod Setup
use rasperry_pi_os.Prelude.{
  ℕ, zero, suc, ◌+◌, ◌*◌, ◌/◌, ◌%◌, ◌^◌, Bool, Option, none, some, List, [], ◌∷◌, ◌++◌, ◌==◌,
  if◌then◌else◌,
}

pub data IoError : Type 0 where
  break frame overrun parity : IoError

-- The flags `TXFF` and `RXFE`, the raw interrupt status and the byte received.
pub record Poll : Type 0 where
  pub full : Bool
  pub empty : Bool
  pub ris : ℕ
  pub received : ℕ

-- The polls to come, and what was sent.
pub record Uart : Type 0 where
  pub polls : List Poll
  pub sent : List ℕ

-- The result of an operation: the line is still waited for, or it ends with a value or an error.
pub data Io {ℓ} (A : Type ℓ) : Type ℓ where
  waiting : Io A
  ok : A → Uart → Io A
  err : IoError → Uart → Io A

infixl 5 ◌>>=◌
abbrev pub ◌>>=◌ {ℓ κ} : {A : Type ℓ} {B : Type κ} → Io A → (A → Uart → Io B) → Io B
waiting >>= f = waiting
ok a uart >>= f = f a uart
err e uart >>= f = err e uart

-- `check_errors`: the error that is found first in the raw interrupt status.
unfoldable pub check_errors : ℕ → Option IoError
check_errors ris =
    if ris / 2 ^ 10 % 2 == 1
    then some overrun
    else if ris / 2 ^ 9 % 2 == 1
    then some break
    else if ris / 2 ^ 8 % 2 == 1
    then some parity
    else if ris / 2 ^ 7 % 2 == 1
    then some frame
    else none

module _ (uart : Uart) where
  unfoldable pub write_byte_on : ℕ → List Poll → Io (Unit {0})
  write_byte_on byte [] = waiting
  write_byte_on byte (p ∷ polls) =
      let more = write_byte_on byte polls in
      if p.full
      then elim (check_errors p.ris) [
        | some e ↦ err e (record uart { polls = polls })
        | none ↦ more
      ]
      else ok tt (record uart { polls = polls; sent = uart.sent ++ (byte ∷ []) })

-- `Uart::write_byte`
unfoldable pub write_byte : ℕ → Uart → Io (Unit {0})
write_byte byte uart = write_byte_on uart byte uart.polls

-- `Uart::write_u32` and `write_str` write their bytes in order.
unfoldable pub write_bytes : List ℕ → Uart → Io (Unit {0})
write_bytes [] uart = ok tt uart
write_bytes (byte ∷ bytes) uart = write_byte byte uart >>= λ _ uart'. write_bytes bytes uart'

abbrev pub u32_bytes : ℕ → List ℕ
u32_bytes n = n % 256 ∷ n / 256 % 256 ∷ n / 65536 % 256 ∷ n / 16777216 % 256 ∷ []

unfoldable pub write_u32 : ℕ → Uart → Io (Unit {0})
write_u32 num uart = write_bytes (u32_bytes num) uart

module _ (uart : Uart) where
  unfoldable pub read_byte_on : List Poll → Io ℕ
  read_byte_on [] = waiting
  read_byte_on (p ∷ polls) =
      let more = read_byte_on polls in
      if p.empty
      then elim (check_errors p.ris) [
        | some e ↦ err e (record uart { polls = polls })
        | none ↦ more
      ]
      else ok p.received (record uart { polls = polls })

-- `Uart::read_bytes`: as many bytes as the slice has. The bytes that come before an error are lost
-- here, where the source has them in the slice.
unfoldable pub read_bytes : ℕ → Uart → Io (List ℕ)
read_bytes zero uart = ok [] uart
read_bytes (suc count) uart = read_byte_on uart uart.polls >>= λ byte uart'.
    read_bytes count uart' >>= λ bytes uart''. ok (byte ∷ bytes) uart''

abbrev pub from_le_bytes : List ℕ → ℕ
from_le_bytes [] = 0
from_le_bytes (byte ∷ bytes) = byte + 256 * from_le_bytes bytes

unfoldable pub read_u32 : Uart → Io ℕ
read_u32 uart = read_bytes 4 uart >>= λ bytes uart'. ok (from_le_bytes bytes) uart'

module _ (uart : Uart) where
  unfoldable pub clear_reads_on : List Poll → Io (Unit {0})
  clear_reads_on [] = waiting
  clear_reads_on (p ∷ polls) =
      let more = clear_reads_on polls in
      if p.empty then ok tt (record uart { polls = polls }) else more

-- `Uart::clear_reads`
unfoldable pub clear_reads : Uart → Io (Unit {0})
clear_reads uart = clear_reads_on uart uart.polls
