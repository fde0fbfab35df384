-- ===== src/Kernel.antt =====
-- The system calls of os/src/bin/kernel/exception/svc/mod.rs, and the run queue, the idle loop and
-- the jumps into user mode of os/src/bin/kernel/execution/mod.rs.
-- One call runs without another core's access in between. `execution::current()` is the argument
-- `current`. What the hardware does is the argument `board`. The prints of `jump_into_async` are left out.
pub mod Invariant
pub mod Pages
pub mod Fork
pub mod Calls
pub mod Schedule
use rasperry_pi_os.Prelude.{
  ℕ, zero, suc, ◌+◌, ◌-◌, ◌*◌, ◌/◌, ◌%◌, ◌^◌, ◌≤◌, ◌<◌, ◌≡◌, refl, sym, ap, ◌∙◌, ◌≢◌, ◌↔◌, ◌⊎◌, inl,
  inr, Bool, true, false, not, ◌&&◌, ◌||◌, Option, none, some, List, [], ◌∷◌, ◌++◌, map, arith, ltb,
  leb, ◌==◌, if◌then◌else◌, ltb→lt, lt→ltb, le→ltb, ltb→le, leb→le, ==_iff, ==_refl, Bool-cases,
  Option-cases, length, get_elem?, get_or, set, replicate, All, length-append, length-set,
  length-replicate, get_or-set_self, get_or-set_ne, get_or_above, get_or-replicate, All-replicate,
  All-set, All-append, All-get_or, Panic, expectation, assertion, bounds, unreachable, todo,
  Outcome, returns, panics, ◌>>=◌, ◌>>◌, assert, expect, Outcome-cases, OnReturn-any, OnReturn,
  OnReturn->>=, OnReturn-map, OnReturn-returns, >>=-returns,
}
use rasperry_pi_os.Memory.Allocator.{PageAllocator}
use rasperry_pi_os.Memory.Allocator as Allocator
use rasperry_pi_os.Execution.{
  Execution, ContextError, misaligned_ttbr0, inaccessible_ttbr0, invalid_tcr_bits,
  misaligned_user_context, inaccessible_user_context, add_signal, pop_signal, set_context,
  add_writable_page, unblock, block,
}
use rasperry_pi_os.Execution.Map.{ExecutionMap, get, remove, fork, drop_execution}

-- The statics of the kernel: `PAGE_ALLOCATOR`, `EXECUTIONS`, `RUN_QUEUE` (its front first), whether a
-- guard of its lock is left, and the bytes that the UART was given. No code drops a guard that is left.
pub record Kernel : Type 0 where
  pub page_allocator : PageAllocator
  pub executions : ExecutionMap
  pub run_queue : List ℕ
  pub queue_locked : Bool
  pub console : List ℕ

-- The byte at an address of the caller's memory, whether the UART takes a byte after those that it was
-- given before, and the line that the formatting makes of the death of a PID.
pub record Board : Type 0 where
  pub memory : ℕ → ℕ
  pub accepts : List ℕ → ℕ → Bool
  pub died : ℕ → List ℕ

pub data CallCode : Type 0 where
  print exit alloc_page set_info unblock_code block_code send_signal fork_code eret : CallCode

-- `ExceptionCode`
pub data ExceptionCode : Type 0 where
  preemption resumption page_fault user_signal : ExceptionCode

-- How a core leaves the kernel: back to the caller with a `Return`, into user mode by
-- `jump_into_async`, or not, for the idle loop, or as it waits for the lock of the run queue for ever.
pub data Resume : Type 0 where
  returned : ℕ → ℕ → Resume
  jumped : ℕ → ExceptionCode → ℕ → Resume
  idles waits : Resume

abbrev pub success : ℕ → Resume
success value = returned 0 value

abbrev pub fail : ℕ → Resume
fail status = returned status 0

-- `SetContextFailure`, and the match that selects it.
abbrev pub set_context_failure : ContextError → ℕ
set_context_failure inaccessible_ttbr0 = 2
set_context_failure misaligned_ttbr0 = 3
set_context_failure invalid_tcr_bits = 4
set_context_failure inaccessible_user_context = 6
set_context_failure misaligned_user_context = 7

-- `execution.user_context()`: the pointer must be aligned and not null.
abbrev pub user_context : Execution → Outcome ℕ
user_context e = do
  assert (e.user_context % 8 == 0)
  if e.user_context == 0 then panics expectation else returns e.user_context

-- `jump_into_async`, up to the registers that it loads.
abbrev pub jump_into_async : ExecutionMap → ℕ → ExceptionCode → ℕ → Outcome Resume
jump_into_async executions pid code argument = do
  execution ← expect (get executions pid)
  _ ← user_context execution
  returns (jumped pid code argument)

-- An operation on the execution of a PID, in its place.
abbrev pub store : Kernel → ℕ → Execution → Kernel
store k pid e = record k { executions = set k.executions pid (some e) }

-- `add_to_running`, and what the caller does after it.
abbrev pub add_to_running : Kernel → ℕ → Resume → Kernel × Resume
add_to_running k pid resume =
    if k.queue_locked
    then (k, waits)
    else (record k { run_queue = k.run_queue ++ pid ∷ [] }, resume)

-- The loop over the bytes of `Print`.
pub print_bytes : Board → ℕ → ℕ → List ℕ → Outcome (List ℕ)
print_bytes board zero address console = returns console
print_bytes board (suc len) address console =
    if board.accepts console (board.memory address)
    then print_bytes board len (address + 1) (console ++ board.memory address ∷ [])
    else panics expectation

pub handle_print : Board → Kernel → ℕ → ℕ → Outcome (Kernel × Resume)
unfolding print_bytes
handle_print board k data_ptr data_len = do
  console ← print_bytes board data_len data_ptr k.console
  returns (record k { console = console }, success 0)

-- A line on the UART, whose error is unwrapped.
pub println : Board → List ℕ → List ℕ → Outcome (List ℕ)
println board [] console = returns console
println board (byte ∷ bytes) console =
    if board.accepts console byte
    then println board bytes (console ++ byte ∷ [])
    else panics expectation

-- `Execution::exit`; the execution that is removed is dropped: its line is printed, and then its pages
-- are dropped.
pub handle_exit : Board → Kernel → ℕ → Outcome (Kernel × Resume)
handle_exit board k current = do
  execution ← expect (get k.executions current)
  console ← println board (board.died execution.pid) k.console
  page_allocator ← drop_execution k.page_allocator execution
  let executions = (remove k.executions current).1
  returns (
    record k { page_allocator = page_allocator; executions = executions; console = console },
    idles,
  )

unfoldable pub handle_alloc_page : Kernel → ℕ → Outcome (Kernel × Resume)
handle_alloc_page k current = do
  answer ← Allocator.alloc k.page_allocator
  elim answer [
    | none ↦ returns (k, fail 1)
    | some (page, page_allocator) ↦ do
      execution ← expect (get k.executions current)
      execution' ← add_writable_page execution page
      returns
          (store (record k { page_allocator = page_allocator }) current execution', success page)
  ]

unfoldable pub handle_set_info : Kernel → ℕ → ℕ → ℕ → ℕ → ℕ → Outcome (Kernel × Resume)
handle_set_info k current arg0 arg1 arg2 arg3 = do
  execution ← expect (get k.executions current)
  elim (set_context execution arg0 arg1 arg2) [
    | inl execution' ↦ do
      let k' = store k current execution'
      resume ← jump_into_async k'.executions current resumption arg3
      returns (k', resume)
    | inr err ↦ returns (k, fail (set_context_failure err))
  ]

pub handle_unblock : Kernel → ℕ → Outcome (Kernel × Resume)
handle_unblock k arg0 =
    if ltb arg0 (2 ^ 16)
    then elim (get k.executions arg0) [
      | none ↦ returns (k, fail 1)
      | some execution ↦ do
        answer ← unblock execution
        let k' = store k arg0 answer.0
        returns (if answer.1 then add_to_running k' execution.pid (success 0) else (k', success 0))
    ]
    else returns (k, fail 1)

unfoldable pub handle_block : Kernel → ℕ → Outcome (Kernel × Resume)
handle_block k current = do
  execution ← expect (get k.executions current)
  answer ← block execution
  returns (store k current answer.0, (if answer.1 then idles else success 0))

pub handle_send_signal : Kernel → ℕ → ℕ → Outcome (Kernel × Resume)
handle_send_signal k current arg0 =
    if ltb arg0 (2 ^ 16)
    then returns (elim (get k.executions arg0) [
      | none ↦ (k, fail 1)
      | some target ↦ (store k arg0 (add_signal target current), success 0)
    ])
    else panics expectation

unfoldable pub handle_fork : Kernel → ℕ → Outcome (Kernel × Resume)
handle_fork k current = do
  answer ← fork k.page_allocator k.executions current
  elim answer [
    | inr err ↦ panics todo
    | inl (pid, page_allocator, executions) ↦ returns (
        add_to_running (record k { page_allocator = page_allocator; executions = executions }) pid
          (success pid))
  ]

-- `svc::handle`
unfoldable pub handle : Board → Kernel → ℕ → CallCode → ℕ → ℕ → ℕ → ℕ → Outcome (Kernel × Resume)
handle board k current exit arg0 arg1 arg2 arg3 = handle_exit board k current
handle board k current print arg0 arg1 arg2 arg3 = handle_print board k arg0 arg1
handle board k current alloc_page arg0 arg1 arg2 arg3 = handle_alloc_page k current
handle board k current set_info arg0 arg1 arg2 arg3 = handle_set_info k current arg0 arg1 arg2 arg3
handle board k current eret arg0 arg1 arg2 arg3 = panics unreachable
handle board k current unblock_code arg0 arg1 arg2 arg3 = handle_unblock k arg0
handle board k current block_code arg0 arg1 arg2 arg3 = handle_block k current
handle board k current send_signal arg0 arg1 arg2 arg3 = handle_send_signal k current arg0
handle board k current fork_code arg0 arg1 arg2 arg3 = handle_fork k current

-- One round of `idle_loop`: the execution in front of the queue is resumed, with its last signal if
-- it has one, and the guard of the queue is left for ever; with an empty queue the guard is dropped and
-- the core spins.
unfoldable pub idle_queue : Kernel → List ℕ → Outcome (Kernel × Resume)
idle_queue k [] = returns (k, idles)
idle_queue k (pid ∷ rest) = do
  execution ← expect (get k.executions pid)
  let k' = store (record k { run_queue = rest; queue_locked = true }) pid (pop_signal execution).1
  resume ← elim (pop_signal execution).0 [
    | some sender ↦ jump_into_async k'.executions pid user_signal sender
    | none ↦ jump_into_async k'.executions pid resumption 0
  ]
  returns (k', resume)

unfoldable pub idle_round : Kernel → Outcome (Kernel × Resume)
idle_round k = if k.queue_locked then returns (k, waits) else idle_queue k k.run_queue
