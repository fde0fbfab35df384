-- ===== src/Init/Syscalls.antt =====
-- os/src/bin/init/syscalls.rs: the system calls of the init program, on the kernel that answers them.
pub mod Refused
use rasperry_pi_os.Prelude.{
  ℕ, ◌^◌, Bool, Option, none, some, ltb, ◌==◌, if◌then◌else◌, expectation, unreachable, Outcome,
  returns, panics, ◌>>=◌,
}
use rasperry_pi_os.Kernel.{Kernel, Board, Resume, returned}
use rasperry_pi_os.UserLibrary.Syscalls.{Reply, replies, leaves, svc, decode, is_success}

module _ (board : Board) (current : ℕ) (k : Kernel) where
  unfoldable pub alloc_page : Outcome (Kernel × Reply (Option ℕ))
  alloc_page =
      svc board current k 12288 0 0 0 0
      >>= decode (λ status page.
        if status == 0
        then returns (some page)
        else if status == 1
        then returns none
        else panics unreachable)

  unfoldable pub write : ℕ → ℕ → Outcome (Kernel × Reply Bool)
  write bytes len =
      svc board current k 4096 bytes len 0 0 >>= decode (λ status _. is_success status)

  -- The first round of the loop of `exit`.
  unfoldable pub exit : Outcome (Kernel × Reply (Unit {0}))
  exit = svc board current k 8192 0 0 0 0 >>= decode (λ _ _. returns tt)

  -- `exec`, where 1 is the only status that it takes for an error.
  unfoldable pub exec : ℕ → ℕ → ℕ → ℕ → Outcome (Kernel × Reply (Unit {0}))
  exec context ttbr0 tcr_el1 sp =
      svc board current k 16384 context ttbr0 tcr_el1 sp
      >>= decode (λ status _. if status == 1 then returns tt else panics unreachable)

  -- `getpid`, of the register that holds the PID.
  unfoldable pub getpid : Outcome ℕ
  getpid = if ltb current (2 ^ 16) then returns current else panics expectation

  -- `fork`, as its caller goes on: the stack of exceptions has the place where it resumes.
  unfoldable pub fork : ℕ → Outcome (Kernel × Reply (Option ℕ))
  fork ra_location =
      svc board current k 24576 ra_location 0 0 0
      >>= decode
          (λ _ new_pid. if ltb new_pid (2 ^ 16) then returns (some new_pid) else panics expectation)
