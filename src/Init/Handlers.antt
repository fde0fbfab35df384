-- ===== src/Init/Handlers.antt =====
-- os/src/bin/init/exception.rs: the handler of exceptions of the init program, which panics for each.
use rasperry_pi_os.Prelude.{
  ℕ, ◌+◌, ◌-◌, ◌%◌, ◌^◌, Option, none, some, ltb, ◌==◌, if◌then◌else◌, expectation, unreachable,
  unexpected, Outcome, returns, panics, ◌>>◌,
}

pub data ExceptionCode : Type 0 where
  preemption resumption page_fault user_signal : ExceptionCode

-- `FromPrimitive::from_u64`
abbrev pub from_u64 : ℕ → Option ExceptionCode
from_u64 code =
    if code == 0
    then some preemption
    else if code == 1
    then some resumption
    else if code == 2
    then some page_fault
    else if code == 3
    then some user_signal
    else none

-- `UserContext::pop_value`, on the memory's words and the pointer of the stack.
unfoldable pub pop_value : (ℕ → ℕ) → ℕ → ℕ × ℕ
pop_value memory stack = let new = (stack + 2 ^ 64 - 8) % 2 ^ 64 in (memory new, new)

abbrev pub handle_page_fault : ℕ → Outcome (Unit {0})
handle_page_fault faulting_info = panics unexpected

abbrev pub handle_user_signal : ℕ → Outcome (Unit {0})
handle_user_signal sender_pid = panics unexpected

-- `general_handler`: the registers `x0` and `x1`, and the stack of exceptions.
unfoldable pub general_handler : (ℕ → ℕ) → ℕ → ℕ → ℕ → Outcome ((ℕ × ℕ) × ℕ)
unfolding pop_value
general_handler memory stack exception_code arg0 = elim (from_u64 exception_code) [
  | none ↦ panics unreachable
  | some code ↦ elim code [
    | preemption ↦ panics unreachable
    | resumption ↦ panics unreachable
    | page_fault ↦ do
      handle_page_fault arg0
      let first = pop_value memory stack
      let second = pop_value memory first.1
      returns ((second.0, first.0), second.1)
    | user_signal ↦
        if ltb arg0 (2 ^ 16)
        then (do handle_user_signal arg0; returns ((exception_code, arg0), stack))
        else panics expectation
  ]
]
