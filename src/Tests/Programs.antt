-- ===== src/Tests/Programs.antt =====
-- A user program whose kernel refuses its new address space, and one that gets a signal.
use rasperry_pi_os.Prelude.{
  ◌%◌, ◌≡◌, refl, ◌≢◌, ◌⊎◌, true, false, some, [], ◌∷◌, arith, assertion, returns, panics,
}
use rasperry_pi_os.Execution.{Execution, misaligned_ttbr0, misaligned_user_context}
use rasperry_pi_os.Kernel.{Kernel, Board}
use rasperry_pi_os.UserLibrary.Syscalls.{replies, exec}
use rasperry_pi_os.UserLibrary.Syscalls.Exec.{exec_error, exec-set_context}
use rasperry_pi_os.UserLibrary.Signals.{signal, general_handler}
use rasperry_pi_os.UserLibrary.Signals.Readers.{general_handler-signal}

abbrev pub board : Board
board = record { memory = λ address. 65; accepts = λ console byte. true; died = λ pid. [] }

abbrev pub shell : Execution
shell = record {
  writeable_pages = 0 ∷ [];
  readable_pages = [];
  user_context = 16;
  ttbr0 = 0;
  tcr_el1 = 9;
  token = 1;
  pid = 0;
  pending_messages = [];
}

abbrev pub kernel : Kernel
kernel = record {
  page_allocator = record { regions = [] };
  executions = some shell ∷ [];
  run_queue = [];
  queue_locked = false;
  console = [];
}

exec_example :
    (exec board 0 kernel 16 1 9 0 ≡ returns (kernel, replies (exec_error misaligned_ttbr0)))
    ⊎ ((16 % 8 ≢ 0)
        × (exec board 0 kernel 16 1 9 0
            ≡ returns (kernel, replies (exec_error misaligned_user_context))))
unfolding rasperry_pi_os.Execution.set_context
exec_example = exec-set_context board 0 kernel 16 1 9 0 shell misaligned_ttbr0 refl refl

general_handler_example :
    general_handler (λ address. signal) 3 7 4096 [] ≡ (3 ∷ [], panics assertion)
general_handler_example =
    general_handler-signal (λ address. signal) 7 4096 [] (omega arith) (omega arith)
