-- ===== src/Init/Syscalls/Refused.antt =====
-- System calls of the init program that do not do what they say.
use rasperry_pi_os.Prelude.{
  ℕ, ◌≡◌, refl, inr, some, ◌==◌, if◌then◌else◌, unreachable, returns, panics, ◌>>=◌,
}
use rasperry_pi_os.Execution.{
  Execution, ContextError, misaligned_ttbr0, inaccessible_ttbr0, invalid_tcr_bits,
  misaligned_user_context, inaccessible_user_context, set_context,
}
use rasperry_pi_os.Execution.Map.{get}
use rasperry_pi_os.Kernel.{Kernel, Board, returned, set_context_failure, handle, handle_set_info}
use rasperry_pi_os.Exception.Codes.{call_code_from_bits}
use rasperry_pi_os.Exception.Classes.{find_variant}
use rasperry_pi_os.UserLibrary.Syscalls.{decode, svc}
use rasperry_pi_os.Init.Syscalls.{exec}

refused_status :
    (k : Kernel) (err : ContextError)
    → decode {A = Unit {0}}
        (λ status _. if status == 1 then returns tt else panics unreachable)
        (k, returned (set_context_failure err) 0)
      ≡ panics unreachable
refused_status k misaligned_ttbr0 = refl
refused_status k inaccessible_ttbr0 = refl
refused_status k invalid_tcr_bits = refl
refused_status k misaligned_user_context = refl
refused_status k inaccessible_user_context = refl

-- The init program panics when the kernel refuses its `exec`, for whatever reason: it never gets the error
-- that the function is to answer.
pub exec-refused :
    (board : Board) (current : ℕ) (k : Kernel) (context ttbr0 tcr_el1 sp : ℕ) (e : Execution)
    (err : ContextError)
    → get k.executions current ≡ some e
    → set_context e context ttbr0 tcr_el1 ≡ inr err
    → exec board current k context ttbr0 tcr_el1 sp ≡ panics unreachable
unfolding exec svc handle handle_set_info call_code_from_bits find_variant
exec-refused board current k context ttbr0 tcr_el1 sp e err at refused =
    rw (handle_set_info, at) (rw (◌>>=◌, refused) (refused_status k err))
