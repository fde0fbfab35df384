-- ===== src/Tests/Contexts.antt =====
-- A core that is interrupted, and a handler that uses every register that it may.
use rasperry_pi_os.Prelude.{ℕ, ◌*◌, ◌≤◌, ◌<◌, ◌≡◌, refl, ◌≢◌, ◌||◌, arith, ltb, ◌==◌, if◌then◌else◌}
use rasperry_pi_os.Assembly.{Cpu, run, address, flags_of}
use rasperry_pi_os.Assembly.Call.{IsCall}
use rasperry_pi_os.UserLibrary.Context.{preemption, exception_handler}
use rasperry_pi_os.UserLibrary.Context.Resume.{interrupted, resume-preempt}
use rasperry_pi_os.UserLibrary.Context.Handler.{entered, switched, exception_handler_lem}
use rasperry_pi_os.Bootloader.Entry.{start}
use rasperry_pi_os.Bootloader.Entry.Laws.{start_lem}
use rasperry_pi_os.Init.Context as InitContext
use rasperry_pi_os.Init.Context.Laws.{resumption-preemption}

-- With the flags Z and C set, and interrupts masked.
abbrev core : Cpu
core = record {
  x = λ r. r * 3;
  sp = 65536;
  nzcv = 1610612736;
  daif = 960;
  memory = λ a. a;
  saved_sp = 0;
  sp_address = 8;
}

-- The handler leaves 7 in its registers and 5 in a place that is not on the stack.
abbrev handler : Cpu → Cpu
handler c = record c { x = λ r. if ltb r 19 || r == 30 then 7 else c.x r; nzcv = 0 }

handler-IsCall : IsCall handler
handler-IsCall = record {
  stack = λ c. refl;
  callee = λ c r low high. ground arith;
  frame = λ c o h. refl;
}

-- The kernel resumes a program after others have run on the core.
abbrev later_of : Cpu → Cpu
later_of c = record c { x = λ r. if r == 0 then 1 else 0; sp = 0; nzcv = 0 }

resume-preempt_example :
    let later = later_of (run preemption core) in
    let after = exception_handler handler later in
    ((r : ℕ) → r < 31 → after.x r ≡ interrupted core r)
    × (after.nzcv ≡ core.nzcv)
    × (after.sp ≡ address core.sp 16)
resume-preempt_example =
    resume-preempt handler core (later_of (run preemption core)) (omega arith) refl refl refl refl

resumption-preemption_example :
    let later = later_of (run InitContext.preemption core) in
    let after = InitContext.exception_handler handler later in
    ((r : ℕ) → r < 31 → after.x r ≡ core.x r) × (after.nzcv ≡ core.nzcv) × (after.sp ≡ core.sp)
resumption-preemption_example =
    resumption-preemption handler core (later_of (run InitContext.preemption core)) (omega arith)
      (omega arith) refl refl refl

-- A signal.
abbrev signalled : Cpu
signalled = record core { x = λ r. if r == 0 then 3 else r * 3; saved_sp = 32768 }

exception_handler_example :
    let after = exception_handler handler signalled in
    let left = handler (entered (switched signalled)) in
    ((r : ℕ) → 3 ≤ r → r < 31 → r ≢ 18 → after.x r ≡ signalled.x r)
    × (after.x 2 ≡ 32768)
    × (after.sp ≡ 32768)
    × ((r : ℕ) → r < 2 → after.x r ≡ left.x r)
    × (after.x 18 ≡ left.x 18)
    × (after.nzcv ≡ flags_of (left.x 17))
exception_handler_example =
    exception_handler_lem handler signalled handler-IsCall (omega arith) (omega arith) (omega arith)
      (omega arith)

start_example :
    let after = start handler core in
    ((r : ℕ) → r < 30 → after.x r ≡ core.x r)
    × (after.nzcv ≡ core.nzcv)
    × (after.daif ≡ core.daif)
    × (after.x 30 ≡ 16208)
    × (after.sp ≡ 16208)
start_example = start_lem handler handler-IsCall core (omega arith) (omega arith)
