-- ===== src/Tests/Boot.antt =====
-- A boot loader that asks for a kernel of two bytes, on a line on which it waits before the last byte.
use rasperry_pi_os.Prelude.{ℕ, ◌≡◌, refl, true, false, List, [], ◌∷◌, arith, ◌%◌, ◌^◌}
use rasperry_pi_os.Bootloader.Uart.{Poll, Uart, Io, ok}
use rasperry_pi_os.Bootloader.Uart.Setup.{Device, new, set_divider}
use rasperry_pi_os.Bootloader.Uart.Setup.Discipline.{OnReady, IsProgrammed, setup-IsProgrammed}
use rasperry_pi_os.KernelUart as KernelUart
use rasperry_pi_os.KernelUart.Laws.{Sends, write_bytes-Sends}
use rasperry_pi_os.Bootloader.Server.{Server, byte, outside, serve, waits}
use rasperry_pi_os.Bootloader.Loader.{try_load_kernel}
use rasperry_pi_os.Bootloader.Loader.Laws.{ready, wait, done, next, try_load_kernel-serve}

abbrev brings : ℕ → Poll
brings n = record { full = false; empty = false; ris = 0; received = n }

abbrev pause : Poll
pause = record { full = true; empty = true; ris = 0; received = 0 }

abbrev image : List ℕ
image = 9 ∷ 8 ∷ []

abbrev answer : List Poll
answer = brings 2 ∷ brings 0 ∷ brings 0 ∷ brings 0 ∷ brings 9 ∷ pause ∷ brings 8 ∷ []

abbrev uart : Uart
uart = record { polls = pause ∷ brings 0 ∷ brings 0 ∷ answer; sent = [] }

abbrev server : Server
server = record { sent = 1 ∷ []; printed = []; notices = []; baud_rate = 921600 }

abbrev sent_bytes : List ℕ
sent_bytes = 2 ∷ 0 ∷ 0 ∷ 0 ∷ 9 ∷ 8 ∷ []

try_load_kernel_example :
    try_load_kernel 524288 uart ≡ ok image (record uart { polls = []; sent = 27 ∷ 0 ∷ [] })
unfolding serve rasperry_pi_os.Bootloader.Server.step rasperry_pi_os.Bootloader.Server.send_kernel
    rasperry_pi_os.Bootloader.Uart.check_errors
try_load_kernel_example =
    try_load_kernel-serve image 524288 uart server (record server { sent = 1 ∷ sent_bytes })
      sent_bytes (λ e. ground (arith, e)) (omega arith) (wait refl refl (ready refl)) (ready refl)
      refl refl
      (next (ready refl) (
        next (ready refl) (
          next (ready refl)
            (next (ready refl) (next (ready refl) (next (wait refl refl (ready refl)) done))))))

-- A device that is still sending at the first look.
abbrev device : Device
device = record { fr = 8 ∷ 0 ∷ []; registers = λ register. 769; log = [] }

setup_example :
    OnReady (IsProgrammed 769 3 16) (new 4096 device)
    × OnReady (IsProgrammed 769 (26 % 2 ^ 16) (70 % 2 ^ 6)) (set_divider 26 70 device)
setup_example = setup-IsProgrammed 4096 26 70 device refl

abbrev kernel_uart : KernelUart.Uart
kernel_uart = record {
  polls = record { full = true; ris = 0 } ∷ record { full = false; ris = 0 } ∷ [];
  sent = 1 ∷ [];
}

write_bytes_example : Sends (1 ∷ []) image (KernelUart.write_bytes image kernel_uart)
write_bytes_example = write_bytes-Sends image kernel_uart
