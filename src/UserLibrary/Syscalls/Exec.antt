-- ===== src/UserLibrary/Syscalls/Exec.antt =====
-- What a user program learns from `exec` and `unblock`.
use rasperry_pi_os.Prelude.{
  ℕ, ◌/◌, ◌%◌, ◌≡◌, refl, ◌≢◌, ◌⊎◌, inl, inr, true, false, some, arith, ◌==◌, Bool-cases, returns,
  ◌>>=◌,
}
use rasperry_pi_os.Execution.{
  Execution, ContextError, misaligned_ttbr0, inaccessible_ttbr0, invalid_tcr_bits,
  misaligned_user_context, inaccessible_user_context, set_context,
}
use rasperry_pi_os.Execution.Map.{get}
use rasperry_pi_os.Kernel.{Kernel, Board, returned, set_context_failure, handle, handle_set_info}
use rasperry_pi_os.Exception.Codes.{call_code_from_bits}
use rasperry_pi_os.Exception.Classes.{find_variant}
use rasperry_pi_os.UserLibrary.Syscalls.{
  decode, replies, svc, ExecError, ttbr0, tcr, context, exec_error_kind, exec,
}

-- The user's view of the kernel's error.
abbrev pub exec_error : ContextError → ExecError
exec_error misaligned_ttbr0 = record { kind = ttbr0; alignment_caused = true }
exec_error inaccessible_ttbr0 = record { kind = ttbr0; alignment_caused = false }
exec_error invalid_tcr_bits = record { kind = tcr; alignment_caused = false }
exec_error misaligned_user_context = record { kind = context; alignment_caused = true }
exec_error inaccessible_user_context = record { kind = context; alignment_caused = false }

after_refusal :
    (k : Kernel) (err : ContextError)
    → decode
        (λ status _. exec_error_kind (status / 2) >>= λ kind.
          returns (record { kind = kind; alignment_caused = status % 2 == 1 }))
        (k, returned (set_context_failure err) 0)
      ≡ returns (k, replies (exec_error err))
unfolding exec_error_kind
after_refusal k misaligned_ttbr0 = refl
after_refusal k inaccessible_ttbr0 = refl
after_refusal k invalid_tcr_bits = refl
after_refusal k misaligned_user_context = refl
after_refusal k inaccessible_user_context = refl

-- `exec` of a program that the kernel refuses answers which of its arguments was wrong, and whether by
-- its alignment, as the kernel found it, and the kernel is as before. The library refuses a context
-- that is not aligned itself, in the same way.
pub exec-set_context :
    (board : Board) (current : ℕ) (k : Kernel) (user_context ttbr0_el1 tcr_el1 sp : ℕ)
    (e : Execution) (err : ContextError)
    → get k.executions current ≡ some e
    → set_context e user_context ttbr0_el1 tcr_el1 ≡ inr err
    → (exec board current k user_context ttbr0_el1 tcr_el1 sp
        ≡ returns (k, replies (exec_error err)))
      ⊎ ((user_context % 8 ≢ 0)
          × (exec board current k user_context ttbr0_el1 tcr_el1 sp
              ≡ returns (k, replies (exec_error misaligned_user_context))))
unfolding exec svc handle handle_set_info call_code_from_bits find_variant
exec-set_context board current k user_context ttbr0_el1 tcr_el1 sp e err at refused =
    elim (Bool-cases (user_context % 8 == 0)) [
      | inr crooked ↦ inr (ground (arith, crooked), rw crooked refl)
      | inl aligned ↦
          inl (rw aligned (rw (handle_set_info, at) (rw (◌>>=◌, refused) (after_refusal k err))))
    ]
