-- ===== src/Kernel/Schedule.antt =====
-- The cores of the machine, what each of them runs, and the steps of the whole system. One step is
-- one system call of a running execution, or one round of the idle loop on an idle core.
pub mod Boot
pub mod Reachable
pub mod Safety
use rasperry_pi_os.Prelude.{
  ℕ, zero, suc, ◌+◌, ◌-◌, ◌*◌, ◌/◌, ◌%◌, ◌^◌, ◌≤◌, ◌<◌, ◌≡◌, refl, sym, ap, ◌∙◌, ◌≢◌, ◌↔◌, ◌⊎◌, inl,
  inr, Bool, true, false, not, ◌&&◌, ◌||◌, Option, none, some, List, [], ◌∷◌, ◌++◌, map, arith, ltb,
  leb, ◌==◌, if◌then◌else◌, ltb→lt, lt→ltb, le→ltb, ltb→le, leb→le, ==_iff, ==_refl, Bool-cases,
  Option-cases, length, get_elem?, get_or, set, replicate, All, length-append, length-set,
  length-replicate, get_or-set_self, get_or-set_ne, get_or_above, get_or-replicate, All-replicate,
  All-set, All-append, All-get_or, Panic, expectation, assertion, bounds, unreachable, todo,
  Outcome, returns, panics, ◌>>=◌, ◌>>◌, assert, expect, Outcome-cases, OnReturn-any, OnReturn,
  OnReturn->>=, OnReturn-map, OnReturn-returns, >>=-returns,
}
use rasperry_pi_os.Execution.{Execution}
use rasperry_pi_os.Execution.Map.{get}
use rasperry_pi_os.Kernel.{
  Kernel, Board, CallCode, Resume, returned, jumped, idles, waits, handle, idle_round,
}

-- What each core runs, and what its register `TPIDRRO_EL0` holds, which no code of the kernel writes: it
-- is what `execution::current()` reads. A core that runs no execution is in the idle loop, or waits for the
-- run queue for ever.
pub record System : Type 0 where
  pub kernel : Kernel
  pub cores : List (Option ℕ)
  pub registers : List ℕ

-- What the core runs after the kernel, if it ran `before` on the way in.
abbrev pub next_on_core : Option ℕ → Resume → Option ℕ
next_on_core before (returned status value) = before
next_on_core before (jumped pid code argument) = some pid
next_on_core before idles = none
next_on_core before waits = none

-- A system call of the execution that a core runs, with the PID that its register has, or a round of the
-- idle loop.
pub data Step (board : Board) (s : System) : System → Type 0 where
  call :
      (i pid : ℕ) (code : CallCode) (arg0 arg1 arg2 arg3 : ℕ) (k : Kernel) (resume : Resume)
      → i < length s.cores
      → get_or s.cores i none ≡ some pid
      → handle board s.kernel (get_or s.registers i 0) code arg0 arg1 arg2 arg3
        ≡ returns (k, resume)
      → Step board s
          (record s { kernel = k; cores = set s.cores i (next_on_core (some pid) resume) })
  idle :
      (i : ℕ) (k : Kernel) (resume : Resume)
      → i < length s.cores
      → get_or s.cores i none ≡ none
      → idle_round s.kernel ≡ returns (k, resume)
      → Step board s (record s { kernel = k; cores = set s.cores i (next_on_core none resume) })

pub data Reach (board : Board) (s : System) : System → Type 0 where
  here : Reach board s s
  later : {t u : System} → Reach board s t → Step board t u → Reach board s u

-- How often a PID stands in the run queue, and on how many cores it runs.
abbrev pub queued : List ℕ → ℕ → ℕ
queued [] j = 0
queued (pid ∷ pids) j = (if pid == j then 1 else 0) + queued pids j

abbrev pub runs : Option ℕ → ℕ → ℕ
runs none j = 0
runs (some pid) j = if pid == j then 1 else 0

abbrev pub running : List (Option ℕ) → ℕ → ℕ
running [] j = 0
running (o ∷ cores) j = runs o j + running cores j

-- An execution that is not blocked.
abbrev pub runnable : Option Execution → ℕ
runnable none = 0
runnable (some e) = if e.token == 0 then 0 else 1

abbrev pub runnable_at : Kernel → ℕ → ℕ
runnable_at k j = runnable (get k.executions j)

-- How many cores run an execution.
abbrev pub busy : Option ℕ → ℕ
busy none = 0
busy (some pid) = 1

abbrev pub busy_cores : List (Option ℕ) → ℕ
busy_cores [] = 0
busy_cores (o ∷ cores) = busy o + busy_cores cores
