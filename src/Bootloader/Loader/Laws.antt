-- ===== src/Bootloader/Loader/Laws.antt =====
-- The boot loader and the server together, and the end of the boot loader's loop.
use rasperry_pi_os.Prelude.{
  ℕ, ◌^◌, ◌<◌, ◌≡◌, refl, sym, ap, ◌∙◌, ◌≢◌, true, false, none, some, List, [], ◌∷◌, ◌++◌, map,
  arith, ◌==◌, lt→ltb, length,
}
use mathlib.Core.List.{append_cancel_left}
use rasperry_pi_os.Bootloader.Uart.{
  Poll, Uart, ok, check_errors, write_byte_on, write_byte, read_byte_on, read_bytes, u32_bytes,
  from_le_bytes,
}
use rasperry_pi_os.Bootloader.Server.{
  Event, byte, Server, outside, after_kernel, Running, waits, stops, serve, send_kernel, step,
}
use rasperry_pi_os.Bootloader.Loader.{server_request, try_load_kernel}

-- The polls of one write that is not disturbed by an error, and those after it.
pub data Writable : List Poll → List Poll → Type 0 where
  ready : {p : Poll} {ps : List Poll} → p.full ≡ false → Writable (p ∷ ps) ps
  wait :
      {p : Poll} {ps qs : List Poll}
      → p.full ≡ true
      → check_errors p.ris ≡ none
      → Writable ps qs
      → Writable (p ∷ ps) qs

-- The polls of the read of one byte that is not disturbed by an error, and those after it.
pub data Arrives : ℕ → List Poll → List Poll → Type 0 where
  ready : {p : Poll} {ps : List Poll} → p.empty ≡ false → Arrives p.received (p ∷ ps) ps
  wait :
      {p : Poll} {n : ℕ} {ps qs : List Poll}
      → p.empty ≡ true
      → check_errors p.ris ≡ none
      → Arrives n ps qs
      → Arrives n (p ∷ ps) qs

-- The polls in which some bytes arrive in order.
pub data Receives : List ℕ → List Poll → List Poll → Type 0 where
  done : {ps : List Poll} → Receives [] ps ps
  next :
      {n : ℕ} {bytes : List ℕ} {ps qs rs : List Poll}
      → Arrives n ps qs
      → Receives bytes qs rs
      → Receives (n ∷ bytes) ps rs

write_byte_on-Writable :
    (uart : Uart) (n : ℕ) {ps qs : List Poll}
    → Writable ps qs
    → write_byte_on uart n ps ≡ ok tt (record uart { polls = qs; sent = uart.sent ++ (n ∷ []) })
unfolding write_byte_on
write_byte_on-Writable uart n (ready e) = rw e refl
write_byte_on-Writable uart n (wait full fine w) = rw (full, fine) (write_byte_on-Writable uart n w)

read_byte_on-Arrives :
    (uart : Uart) {n : ℕ} {ps qs : List Poll}
    → Arrives n ps qs
    → read_byte_on uart ps ≡ ok n (record uart { polls = qs })
unfolding read_byte_on
read_byte_on-Arrives uart (ready e) = rw e refl
read_byte_on-Arrives uart (wait empty fine a) = rw (empty, fine) (read_byte_on-Arrives uart a)

read_bytes-Receives :
    (uart : Uart) {bytes : List ℕ} {ps qs : List Poll}
    → Receives bytes ps qs
    → read_bytes (length bytes) (record uart { polls = ps }) ≡ ok bytes (record uart { polls = qs })
unfolding read_bytes
read_bytes-Receives uart done = refl
read_bytes-Receives uart {ps = ps} (next a r) =
    rw (read_byte_on-Arrives (record uart { polls = ps }) a) (rw (read_bytes-Receives uart r) refl)

Receives-append :
    (xs ys : List ℕ) {ps rs : List Poll}
    → Receives (xs ++ ys) ps rs
    → (qs : List Poll) × Receives xs ps qs × Receives ys qs rs
Receives-append [] ys r = (_, done, r)
Receives-append (x ∷ xs) ys (next a r) =
    let (qs, before, after) = Receives-append xs ys r in (qs, next a before, after)

from_le_bytes-u32_bytes : (n : ℕ) → n < 2 ^ 32 → from_le_bytes (u32_bytes n) ≡ n
from_le_bytes-u32_bytes n h = omega arith

abbrev sent_of : Running → List ℕ
sent_of (waits s) = s.sent
sent_of (stops e s) = s.sent

-- What the server sends to a boot loader that asks for a kernel.
pub serve-request :
    (kernel : List ℕ) (events : List Event) (s : Server)
    → length kernel < 2 ^ 32
    → serve (some kernel) outside (byte server_request ∷ byte 0 ∷ events) s
      ≡ serve
          (some kernel)
          after_kernel
          events
          (record s { sent = s.sent ++ (u32_bytes (length kernel) ++ kernel) })
unfolding serve step send_kernel
serve-request kernel events s small = rw (serve, lt→ltb (length kernel) (2 ^ 32) small) refl

-- The boot loader asks for a kernel of less than 4 GiB, on a line that takes its two bytes and brings the
-- bytes that the server sends for them, without an error and at whatever pace: then it has the kernel
-- at the address, byte for byte, and has sent no other byte.
pub try_load_kernel-serve :
    (kernel : List ℕ) (address : ℕ) (uart : Uart) (s answered : Server) (bytes : List ℕ)
    {ps qs rs : List Poll}
    → address ≢ 0
    → length kernel < 2 ^ 32
    → Writable uart.polls ps
    → Writable ps qs
    → serve (some kernel) outside (map byte (server_request ∷ 0 ∷ [])) s ≡ waits answered
    → answered.sent ≡ s.sent ++ bytes
    → Receives bytes qs rs
    → try_load_kernel address uart
      ≡ ok kernel
          (record uart { polls = rs; sent = (uart.sent ++ (server_request ∷ [])) ++ (0 ∷ []) })
unfolding try_load_kernel write_byte serve
try_load_kernel-serve kernel address uart s answered bytes {ps} {qs} {rs} away small w w' served
      sends r =
    let sent : s.sent ++ (u32_bytes (length kernel) ++ kernel) ≡ s.sent ++ bytes =
      ap sent_of (sym (serve-request kernel [] s small) ∙ served) ∙ sends in
    let all = append_cancel_left s.sent (u32_bytes (length kernel) ++ kernel) bytes sent in
    let (mid, first, second) =
      Receives-append (u32_bytes (length kernel)) kernel {ps = qs} {rs = rs} (rw all r) in
    let asked = record uart { polls = ps; sent = uart.sent ++ (server_request ∷ []) } in
    let elsewhere : (address == 0) ≡ false = ground (arith, away) in
    rw (write_byte_on-Writable uart server_request w) (
      rw (write_byte_on-Writable asked 0 w') (
        rw (read_bytes-Receives (record asked { sent = asked.sent ++ (0 ∷ []) }) first) (
          rw (elsewhere, from_le_bytes-u32_bytes (length kernel) small)
            (read_bytes-Receives (record asked { sent = asked.sent ++ (0 ∷ []) }) second))))
