-- ===== src/Exception/PageFault.antt =====
-- The stack that the kernel pushes for a faulting program, and the resolution of page faults:
-- os/src/bin/kernel/exception/page_fault.rs, the handler of os/src/bin/kernel/exception/mod.rs, and
-- `UserContext` of os/src/bin/kernel/execution/mod.rs.
use rasperry_pi_os.Prelude.{
  ℕ, ◌+◌, ◌-◌, ◌%◌, ◌^◌, Bool, true, false, not, none, some, ◌==◌, if◌then◌else◌, expectation,
  unreachable, todo, Outcome, returns, panics, ◌>>=◌, ◌>>◌, assert, expect,
}
use rasperry_pi_os.Execution.{Execution, contains_pa, contains_pa_writeable}
use rasperry_pi_os.Execution.Map.{ExecutionMap, get}
use rasperry_pi_os.Kernel.{user_context}
use rasperry_pi_os.Exception.Classes.{
  ExceptionClass, data_abort_el0, data_abort_el1, svc_aarch64, instruction_abort_el0,
  instruction_abort_el1, breakpoint_el1, software_step_el1, watchpoint_el1,
}
use rasperry_pi_os.Exception.Codes.{status_code_bits, call_code_bits}
use rasperry_pi_os.Exception.Syndrome.{
  Bitfield, AccessType, store_access, load_access, instruction_access, PageFaultInfo,
  instruction_syndrome, exception_class, svc_code, data_abort_info, instruction_abort_info,
  to_physical_addr,
}

-- The registers `ELR_EL1` and `FAR_EL1`, and the words of the program's memory by their address.
-- Accesses are to aligned words.
pub record Cpu : Type 0 where
  pub elr : ℕ
  pub far : ℕ
  pub memory : ℕ → ℕ

abbrev pub write_word : (ℕ → ℕ) → ℕ → ℕ → ℕ → ℕ
write_word memory address value a = if address == a then value else memory a

-- `UserContext::push` and `UserContext::pop` of the context at an address: the exception vector is
-- its first word, the exception stack its second. The pointer wraps at 2^64.
unfoldable pub push : (ℕ → ℕ) → ℕ → ℕ → ℕ → ℕ
push memory context value =
    let pushed_sp = memory (context + 8) in
    write_word (write_word memory (context + 8) ((pushed_sp + 8) % 2 ^ 64)) pushed_sp value

unfoldable pub pop : (ℕ → ℕ) → ℕ → ℕ × (ℕ → ℕ)
pop memory context =
    let popped_sp = (memory (context + 8) + (2 ^ 64 - 8)) % 2 ^ 64 in
    let memory' = write_word memory (context + 8) popped_sp in (memory' popped_sp, memory')

-- `Execution::prepare_synchronous_jump`
unfoldable pub prepare_synchronous_jump : Execution → Cpu → ℕ → ℕ → Outcome Cpu
prepare_synchronous_jump e cpu x0 x1 = do
  context ← user_context e
  returns (record cpu {
    elr = cpu.memory context;
    memory = push (push (push cpu.memory context cpu.elr) context x1) context x0;
  })

-- `svc::handle_eret`
unfoldable pub handle_eret : ExecutionMap → ℕ → Cpu → Outcome Cpu
handle_eret executions current cpu = do
  e ← expect (get executions current)
  context ← user_context e
  let (return_address, memory) = pop cpu.memory context
  returns (record cpu { elr = return_address; memory = memory })

abbrev pub is_store : AccessType → Bool
is_store store_access = true
is_store load_access = false
is_store instruction_access = false

module _ (b : Bitfield) (par : ℕ → ℕ) where
  -- `validate_user_pointer` and `validate_user_pointer_writeable`; the reference to a null pointer
  -- is unwrapped. `par` is what the hardware leaves in `PAR_EL1` for an address.
  unfoldable pub validate_user_pointer : Execution → Bool → ℕ → Outcome Bool
  validate_user_pointer e writeable addr = elim (to_physical_addr b (par addr)) [
    | none ↦ returns false
    | some pa ↦
        if (if writeable then contains_pa_writeable e pa else contains_pa e pa)
        then (if addr == 0 then panics expectation else returns true)
        else returns false
  ]

  -- Whether the fault goes to the program.
  unfoldable pub call_signal : Execution → PageFaultInfo → Outcome Bool
  call_signal e info =
      if status_code_bits info.code == 1
      then (do
        addr ← expect info.faulting_address
        valid ← validate_user_pointer e (is_store info.access_type) addr
        returns (not valid))
      else returns true

  -- `prints` is what the two prints of `resolve_page_fault` come to, which unwrap an error of the UART.
  module _ (prints : ℕ → Outcome (Unit {0})) where
    -- `resolve_page_fault`: the registers after it. `ExceptionCode::PageFault` is 2.
    unfoldable pub resolve_page_fault :
        ExecutionMap → ℕ → Cpu → PageFaultInfo → ℕ → ℕ → Outcome (Cpu × ℕ × ℕ)
    resolve_page_fault executions current cpu info x0 x1 = do
      prints 0
      e ← expect (get executions current)
      signal ← call_signal e info
      if signal
          then (do
            prints 1
            cpu' ← prepare_synchronous_jump e cpu x0 x1
            returns (cpu', 2, cpu.far))
          else returns (cpu, x0, x1)

    -- The classes that `synchronous_exception_from_el0` tells apart, `esr` being `ESR_EL1`.
    unfoldable pub dispatch :
        ExecutionMap → ℕ → Cpu → ℕ → ℕ → ℕ → ExceptionClass → Outcome (Cpu × ℕ × ℕ)
    dispatch executions current cpu iss x0 x1 data_abort_el0 =
        data_abort_info b iss cpu.far >>= λ info.
        resolve_page_fault executions current cpu info x0 x1
    dispatch executions current cpu iss x0 x1 data_abort_el1 =
        data_abort_info b iss cpu.far >>= λ info.
        resolve_page_fault executions current cpu info x0 x1
    dispatch executions current cpu iss x0 x1 svc_aarch64 = do
      code ← svc_code b iss
      assert (call_code_bits code == 0)
      cpu' ← handle_eret executions current cpu
      returns (cpu', x0, x1)
    dispatch executions current cpu iss x0 x1 instruction_abort_el0 =
        instruction_abort_info b iss cpu.far >>= λ info.
        resolve_page_fault executions current cpu info x0 x1
    dispatch executions current cpu iss x0 x1 breakpoint_el1 = panics unreachable
    dispatch executions current cpu iss x0 x1 software_step_el1 = panics unreachable
    dispatch executions current cpu iss x0 x1 watchpoint_el1 = panics unreachable
    dispatch executions current cpu iss x0 x1 instruction_abort_el1 = panics unreachable
    dispatch executions current cpu iss x0 x1 other = panics todo

    unfoldable pub synchronous_exception_from_el0 :
        ExecutionMap → ℕ → Cpu → ℕ → ℕ → ℕ → Outcome (Cpu × ℕ × ℕ)
    synchronous_exception_from_el0 executions current cpu esr x0 x1 = do
      exception_class_of ← exception_class b esr
      dispatch executions current cpu (instruction_syndrome b esr) x0 x1 exception_class_of
