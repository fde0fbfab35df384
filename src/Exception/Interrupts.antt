-- ===== src/Exception/Interrupts.antt =====
-- The interrupts of os/src/bin/kernel/exception/mod.rs, and its handlers of exceptions that are not to
-- happen.
use rasperry_pi_os.Prelude.{
  ℕ, ◌%◌, ◌^◌, ltb, ◌==◌, if◌then◌else◌, expectation, unreachable, todo, Outcome, returns, panics,
}

-- What the handler of the timer writes: the next interval of the timer, and the end of the interrupt.
pub record TimerWrites : Type 0 where
  pub tval : ℕ
  pub end_of_interrupt : ℕ

-- `irq_exception`, from what the interrupt controller and `CNTFRQ_EL0` hold.
unfoldable pub irq_exception : ℕ → ℕ → Outcome TimerWrites
irq_exception interrupt_info freq =
    if interrupt_info % 2 ^ 10 == 30
    then returns (record { tval = freq; end_of_interrupt = interrupt_info })
    else panics todo

abbrev pub exception_from_sp_el0 : Outcome (Unit {0})
exception_from_sp_el0 = panics unreachable

abbrev pub fiq_exception : Outcome (Unit {0})
fiq_exception = panics unreachable

-- `unimplemented!` is the panic of `todo!`.
abbrev pub serror_exception : Outcome (Unit {0})
serror_exception = panics todo

abbrev pub exception_aarch32 : Outcome (Unit {0})
exception_aarch32 = panics todo

-- `InstructionSyndrome::from`
unfoldable pub syndrome_from : ℕ → Outcome ℕ
syndrome_from value = if ltb value (2 ^ 32) then returns value else panics expectation
