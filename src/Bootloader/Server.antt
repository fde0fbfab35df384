-- ===== src/Bootloader/Server.antt =====
-- bootloader-server/src/main.rs: the loop of the server. What `Read` answers is an `Event` for each
-- byte that is read; writes to the line succeed.
use rasperry_pi_os.Prelude.{
  ℕ, ◌^◌, ◌⊎◌, inl, inr, Option, none, some, List, [], ◌∷◌, ◌++◌, ltb, ◌==◌, if◌then◌else◌, length,
}
use rasperry_pi_os.Bootloader.Uart.{u32_bytes, from_le_bytes}

pub data Event : Type 0 where
  byte : ℕ → Event
  end_of_file timed_out broken : Event

pub data ServerError : Type 0 where
  no_kernel kernel_size io : ServerError

-- What `check_ok` says of an operation.
pub data Notice : Type 0 where
  successful : Notice
  error_code : ℕ → Notice
  not_acknowledged : Notice

-- The bytes sent on the line and to the standard output, the notices, and the baud rate.
pub record Server : Type 0 where
  pub sent : List ℕ
  pub printed : List ℕ
  pub notices : List Notice
  pub baud_rate : ℕ

-- `check_ok`, which takes one event.
unfoldable pub check_ok : Event → Server → Server
check_ok (byte n) s = record s {
  notices = s.notices ++ ((if n == 0 then successful else error_code n) ∷ []);
}
check_ok timed_out s = record s { notices = s.notices ++ (not_acknowledged ∷ []) }
check_ok _ s = s

-- `main`'s loop ends with an error, or it waits for what is read next.
pub data Running : Type 0 where
  waits : Server → Running
  stops : ServerError → Server → Running

-- Where the loop is: at the first byte, at an opcode, in front of the acknowledgement of a kernel, in
-- the number of a baud rate, and in front of its acknowledgement.
pub data Place : Type 0 where
  outside opcode after_kernel : Place
  in_baud_rate : List ℕ → Place
  after_baud_rate : ℕ → Place

-- A kernel is read from its file when it is asked for.
unfoldable pub send_kernel : Option (List ℕ) → Server → (ServerError × Server) ⊎ Server
send_kernel none s = inl (no_kernel, s)
send_kernel (some kernel) s =
    if ltb (length kernel) (2 ^ 32)
    then inr (record s { sent = s.sent ++ (u32_bytes (length kernel) ++ kernel) })
    else inl (kernel_size, s)

-- What one event does.
unfoldable pub step :
    Option (List ℕ) → Place → Event → Server → (ServerError × Server) ⊎ (Place × Server)
step kernel outside (byte n) s =
    inr (if n == 27 then (opcode, s) else (outside, record s { printed = s.printed ++ (n ∷ []) }))
step kernel outside timed_out s = inr (outside, s)
step kernel outside _ s = inl (io, s)
step kernel opcode (byte n) s =
    if n == 0
    then elim (send_kernel kernel s) [ inl (e, s') ↦ inl (e, s') | inr s' ↦ inr (after_kernel, s') ]
    else if n == 1
    then inr (in_baud_rate [], s)
    else inr (outside, s)
step kernel opcode _ s = inl (io, s)
step kernel after_kernel e s = inr (outside, check_ok e s)
step kernel (in_baud_rate bytes) (byte n) s =
    let bytes' = bytes ++ (n ∷ []) in
    let baud_rate = from_le_bytes bytes' in
    inr (
      if ltb (length bytes') 4
      then (in_baud_rate bytes', s)
      else (after_baud_rate baud_rate, record s { sent = s.sent ++ u32_bytes baud_rate }))
step kernel (in_baud_rate bytes) _ s = inl (io, s)
step kernel (after_baud_rate baud_rate) e s =
    inr (outside, record (check_ok e s) { baud_rate = baud_rate })

-- The loop of `main`.
unfoldable pub serve : Option (List ℕ) → Place → List Event → Server → Running
serve kernel place [] s = waits s
serve kernel place (e ∷ events) s = elim (step kernel place e s) [
  | inl (error, s') ↦ stops error s'
  | inr (place', s') ↦ serve kernel place' events s'
]
