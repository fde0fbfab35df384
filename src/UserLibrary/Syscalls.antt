-- ===== src/UserLibrary/Syscalls.antt =====
-- user/src/os/syscalls.rs: the system calls of a user program, on the kernel that answers them.
pub mod Exec
use rasperry_pi_os.Prelude.{
  ℕ, ◌+◌, ◌/◌, ◌%◌, ◌^◌, Bool, true, false, not, Option, none, some, ◌==◌, if◌then◌else◌,
  unreachable, Outcome, returns, panics, ◌>>=◌, ◌>>◌,
}
use rasperry_pi_os.Kernel.{Kernel, Board, Resume, returned, handle}
use rasperry_pi_os.Exception.Codes.{call_code_from_bits}

-- What a call does to the caller: it gets an answer, or it goes on elsewhere, if at all.
pub data Reply {ℓ} (A : Type ℓ) : Type ℓ where
  replies : A → Reply A
  leaves : Resume → Reply A

-- The instruction `svc` with its number, by the execution `current`.
unfoldable pub svc : Board → ℕ → Kernel → ℕ → ℕ → ℕ → ℕ → ℕ → Outcome (Kernel × Resume)
svc board current k number x0 x1 x2 x3 = do
  code ← call_code_from_bits number
  handle board k current code x0 x1 x2 x3

-- What is made of the registers that come back.
abbrev pub decode {ℓ} :
    {A : Type ℓ} → (ℕ → ℕ → Outcome A) → Kernel × Resume → Outcome (Kernel × Reply A)
decode f (k, returned status value) = f status value >>= λ a. returns (k, replies a)
decode f (k, resume) = returns (k, leaves resume)

-- The match on a status that is 0 or 1.
abbrev pub is_success : ℕ → Outcome Bool
is_success status =
    if status == 0 then returns true else if status == 1 then returns false else panics unreachable

unfoldable pub alloc_page : Board → ℕ → Kernel → Outcome (Kernel × Reply (Option ℕ))
alloc_page board current k =
    svc board current k 12288 0 0 0 0
    >>= decode (λ status page.
      if status == 0
      then returns (some page)
      else if status == 1
      then returns none
      else panics unreachable)

unfoldable pub write : Board → ℕ → Kernel → ℕ → ℕ → Outcome (Kernel × Reply Bool)
write board current k bytes len =
    svc board current k 4096 bytes len 0 0 >>= decode (λ status _. is_success status)

-- The first round of the loop of `exit`; the kernel does not return from it.
unfoldable pub exit : Board → ℕ → Kernel → Outcome (Kernel × Reply (Unit {0}))
exit board current k = svc board current k 8192 0 0 0 0 >>= decode (λ _ _. returns tt)

pub data ExecErrorKind : Type 0 where
  ttbr0 tcr context : ExecErrorKind

pub record ExecError : Type 0 where
  pub kind : ExecErrorKind
  pub alignment_caused : Bool

-- The match on the status of `exec`, without its last bit.
unfoldable pub exec_error_kind : ℕ → Outcome ExecErrorKind
exec_error_kind cause =
    if cause == 1
    then returns ttbr0
    else if cause == 2
    then returns tcr
    else if cause == 3
    then returns context
    else panics unreachable

unfoldable pub exec : Board → ℕ → Kernel → ℕ → ℕ → ℕ → ℕ → Outcome (Kernel × Reply ExecError)
exec board current k user_context ttbr0_el1 tcr_el1 sp =
    if not (user_context % 8 == 0)
    then returns (k, replies (record { kind = context; alignment_caused = true }))
    else svc board current k 16384 user_context ttbr0_el1 tcr_el1 sp
      >>= decode (λ status _. exec_error_kind (status / 2) >>= λ kind.
          returns (record { kind = kind; alignment_caused = status % 2 == 1 }))

unfoldable pub unblock : Board → ℕ → Kernel → ℕ → Outcome (Kernel × Reply Bool)
unblock board current k pid =
    svc board current k 20480 pid 0 0 0 >>= decode (λ status _. is_success status)

unfoldable pub send_signal : Board → ℕ → Kernel → ℕ → Outcome (Kernel × Reply Bool)
send_signal board current k target_pid =
    svc board current k 28672 target_pid 0 0 0 >>= decode (λ status _. is_success status)

-- `block`, as its caller goes on if it has a token: the place where it would resume is on the stack of
-- exceptions, whose pointer is the last part of the answer.
unfoldable pub block : Board → ℕ → Kernel → ℕ → Outcome ((Kernel × Reply (Unit {0})) × ℕ)
block board current k exception_stack = do
  answer ← svc board current k 24576 exception_stack 0 0 0 >>= decode (λ _ _. returns tt)
  returns (answer, (exception_stack + 8) % 2 ^ 64)
