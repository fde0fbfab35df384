-- ===== src/KernelUart/Laws.antt =====
-- What the kernel has printed when a print ends.
use rasperry_pi_os.Prelude.{
  ℕ, ◌≡◌, refl, sym, inl, inr, List, [], ◌∷◌, ◌++◌, Bool-cases, Option-cases,
}
use mathlib.Core.List.{append-nil, append_assoc}
use rasperry_pi_os.KernelUart.{
  Poll, Uart, Io, waiting, ok, err, check_errors, write_byte_on, write_byte, write_bytes,
}

-- A first part of some bytes.
abbrev pub IsPrefix : List ℕ → List ℕ → Type 0
IsPrefix [] ys = Unit {0}
IsPrefix (x ∷ xs) [] = ⊥
IsPrefix (x ∷ xs) (y ∷ ys) = (x ≡ y) × IsPrefix xs ys

abbrev pub Sends : List ℕ → List ℕ → Io → Type 0
Sends before bytes (ok uart) = uart.sent ≡ before ++ bytes
Sends before bytes (waiting uart) =
    (part : List ℕ) × IsPrefix part bytes × (uart.sent ≡ before ++ part)
Sends before bytes (err e uart) =
    (part : List ℕ) × IsPrefix part bytes × (uart.sent ≡ before ++ part)

-- A byte is sent, or nothing.
SendsByte : List ℕ → ℕ → Io → Type 0
SendsByte before byte (ok uart) = uart.sent ≡ before ++ byte ∷ []
SendsByte before byte (waiting uart) = uart.sent ≡ before
SendsByte before byte (err e uart) = uart.sent ≡ before

write_byte-SendsByte :
    (byte : ℕ) (sent : List ℕ) (polls : List Poll)
    → SendsByte sent byte (write_byte_on byte sent polls)
unfolding write_byte_on SendsByte
write_byte-SendsByte byte sent [] = refl
write_byte-SendsByte byte sent (p ∷ polls) = elim (Bool-cases p.full) [
  | inr room ↦ rw room refl
  | inl full ↦ rw full (elim (Option-cases (check_errors p.ris)) [
    | inl none_found ↦ rw none_found (write_byte-SendsByte byte sent polls)
    | inr (e, found) ↦ rw found refl
  ])
]

Sends-∷ :
    (before : List ℕ) (byte : ℕ) (bytes sent : List ℕ) (io : Io)
    → sent ≡ before ++ byte ∷ []
    → Sends sent bytes io
    → Sends before (byte ∷ bytes) io
Sends-∷ before byte bytes sent (ok uart) h s = rw (s, h) (append_assoc before (byte ∷ []) bytes)
Sends-∷ before byte bytes sent (waiting uart) h (part, first, s) =
    (byte ∷ part, (refl, first), rw (s, h) (append_assoc before (byte ∷ []) part))
Sends-∷ before byte bytes sent (err e uart) h (part, first, s) =
    (byte ∷ part, (refl, first), rw (s, h) (append_assoc before (byte ∷ []) part))

next-Sends :
    (before : List ℕ) (byte : ℕ) (bytes : List ℕ) (io : Io)
    → SendsByte before byte io
    → ((uart : Uart) → Sends uart.sent bytes (write_bytes bytes uart))
    → Sends before (byte ∷ bytes) (elim io [
      | ok uart ↦ write_bytes bytes uart
      | waiting uart ↦ waiting uart
      | err e uart ↦ err e uart
    ])
unfolding SendsByte
next-Sends before byte bytes (ok uart) h rest =
    Sends-∷ before byte bytes uart.sent (write_bytes bytes uart) h (rest uart)
next-Sends before byte bytes (waiting uart) h rest = ([], tt, rw h (sym (append-nil before)))
next-Sends before byte bytes (err e uart) h rest = ([], tt, rw h (sym (append-nil before)))

-- A print of some bytes that ends has sent all of them in order, after what was sent before, and one that
-- waits or fails has sent a first part of them.
pub write_bytes-Sends :
    (bytes : List ℕ) (uart : Uart) → Sends uart.sent bytes (write_bytes bytes uart)
unfolding write_bytes write_byte
write_bytes-Sends [] uart = sym (append-nil uart.sent)
write_bytes-Sends (byte ∷ bytes) uart =
    next-Sends uart.sent byte bytes (write_byte_on byte uart.sent uart.polls)
      (write_byte-SendsByte byte uart.sent uart.polls) (λ uart'. write_bytes-Sends bytes uart')
