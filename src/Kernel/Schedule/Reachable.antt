-- ===== src/Kernel/Schedule/Reachable.antt =====
-- How many cores run an execution, in every state that the system reaches.
use rasperry_pi_os.Prelude.{
  ℕ, zero, suc, ◌+◌, ◌≤◌, ◌<◌, ◌≡◌, refl, ◌⊎◌, inl, inr, Bool, true, false, Option, none, some,
  List, [], ◌∷◌, arith, if◌then◌else◌, length, get_or, set, replicate, Bool-cases, Option-cases,
  returns, assert, expect, ltb, ◌==◌, ◌^◌, OnReturn, OnReturn-after, OnReturn-if, OnReturn-returns,
  ◌>>=◌, ◌++◌,
}
use rasperry_pi_os.Memory.Allocator.{PageAllocator, alloc}
use rasperry_pi_os.Execution.{
  Execution, ContextError, set_context, add_writable_page, unblock, block, pop_signal,
}
use rasperry_pi_os.Execution.Map.{get, fork, drop_execution, create}
use rasperry_pi_os.Kernel.{
  Kernel, Board, CallCode, print, exit, alloc_page, set_info, unblock_code, block_code, send_signal,
  fork_code, eret, Resume, returned, waits, store, add_to_running, println, print_bytes,
  jump_into_async, resumption, user_signal, fail, set_context_failure, handle, handle_print,
  handle_exit, handle_alloc_page, handle_set_info, handle_unblock, handle_block, handle_send_signal,
  handle_fork, idle_queue, idle_round,
}
use rasperry_pi_os.Kernel.Schedule.{
  System, Step, call, idle, Reach, here, later, next_on_core, busy, busy_cores,
}
use rasperry_pi_os.Kernel.Schedule.Boot.{boot, booted}

abbrev Locked : Bool → Kernel × Resume → Type 0
Locked b (k, resume) = k.queue_locked ≡ b

if_any {ℓ} : {A : Type ℓ} (P : A → Type 0) (b : Bool) (x y : A) → P x → P y → P (if b then x else y)
if_any P true x y h k = h
if_any P false x y h k = k

add_to_running-Locked :
    (k : Kernel) (pid : ℕ) (resume : Resume) → Locked k.queue_locked (add_to_running k pid resume)
add_to_running-Locked k pid resume =
    if_any (Locked k.queue_locked) k.queue_locked (k, waits)
      (record k { run_queue = k.run_queue ++ pid ∷ [] }, resume) refl refl

module _ (k : Kernel) where
  abbrev Same : Kernel × Resume → Type 0
  Same = Locked k.queue_locked

  set_info-Same :
      (current arg3 : ℕ) (s : Execution ⊎ ContextError)
      → OnReturn Same (elim s [
        | inl e' ↦
            jump_into_async (store k current e').executions current resumption arg3 >>= λ resume.
            returns (store k current e', resume)
        | inr err ↦ returns (k, fail (set_context_failure err))
      ])
  set_info-Same current arg3 (inr err) = refl
  set_info-Same current arg3 (inl e') =
      OnReturn-after Same (jump_into_async (store k current e').executions current resumption arg3)
        _ (λ resume. refl)

  unblock-Same : (arg0 : ℕ) → OnReturn Same (handle_unblock k arg0)
  unfolding handle_unblock
  unblock-Same arg0 = elim (Bool-cases (ltb arg0 (2 ^ 16))) [
    | inr big ↦ rw big refl
    | inl small ↦ elim (Option-cases (get k.executions arg0)) [
      | inl gone ↦ rw (small, gone) refl
      | inr (e, live) ↦
          rw (small, live)
            (OnReturn-after Same (unblock e) _ (λ answer.
              if_any Same answer.1 (add_to_running (store k arg0 answer.0) e.pid (returned 0 0))
                (store k arg0 answer.0, returned 0 0)
                (add_to_running-Locked (store k arg0 answer.0) e.pid (returned 0 0)) refl))
    ]
  ]

  send_signal-Same : (current arg0 : ℕ) → OnReturn Same (handle_send_signal k current arg0)
  unfolding handle_send_signal
  send_signal-Same current arg0 = elim (Bool-cases (ltb arg0 (2 ^ 16))) [
    | inr big ↦ rw big tt
    | inl small ↦ elim (Option-cases (get k.executions arg0)) [
      | inl gone ↦ rw (small, gone) refl
      | inr (e, live) ↦ rw (small, live) refl
    ]
  ]

  -- No system call locks the run queue for ever.
  handle-Same :
      (board : Board) (current : ℕ) (code : CallCode) (arg0 arg1 arg2 arg3 : ℕ)
      → OnReturn Same (handle board k current code arg0 arg1 arg2 arg3)
  unfolding handle handle_print handle_exit handle_alloc_page handle_set_info handle_block
      handle_fork
  handle-Same board current print arg0 arg1 arg2 arg3 =
      OnReturn-after Same (print_bytes board arg1 arg0 k.console) _ (λ console. refl)
  handle-Same board current exit arg0 arg1 arg2 arg3 =
      OnReturn-after Same (expect (get k.executions current)) _ (λ e.
        OnReturn-after Same (println board (board.died e.pid) k.console) _
          (λ console. OnReturn-after Same (drop_execution k.page_allocator e) _ (λ a. refl)))
  handle-Same board current alloc_page arg0 arg1 arg2 arg3 =
      OnReturn-after Same (alloc k.page_allocator) _ (elim [
        | none ↦ refl
        | some (page, page_allocator) ↦
            OnReturn-after Same (expect (get k.executions current)) _
              (λ e. OnReturn-after Same (add_writable_page e page) _ (λ e'. refl))
      ])
  handle-Same board current set_info arg0 arg1 arg2 arg3 =
      OnReturn-after Same (expect (get k.executions current)) _
        (λ e. set_info-Same current arg3 (set_context e arg0 arg1 arg2))
  handle-Same board current unblock_code arg0 arg1 arg2 arg3 = unblock-Same arg0
  handle-Same board current block_code arg0 arg1 arg2 arg3 =
      OnReturn-after Same (expect (get k.executions current)) _
        (λ e. OnReturn-after Same (block e) _ (λ answer. refl))
  handle-Same board current send_signal arg0 arg1 arg2 arg3 = send_signal-Same current arg0
  handle-Same board current fork_code arg0 arg1 arg2 arg3 =
      OnReturn-after Same (fork k.page_allocator k.executions current) _ (elim [
        | inr err ↦ tt
        | inl (pid, page_allocator, executions) ↦
            add_to_running-Locked
              (record k { page_allocator = page_allocator; executions = executions }) pid
              (returned 0 pid)
      ])
  handle-Same board current eret arg0 arg1 arg2 arg3 = tt

  -- A round of the idle loop leaves the core idle and the lock as it is, or it locks the free queue.
  abbrev Takes : Kernel × Resume → Type 0
  Takes (k', resume) =
      ((busy (next_on_core none resume) ≡ 0) × (k'.queue_locked ≡ k.queue_locked))
      ⊎ ((k.queue_locked ≡ false) × (k'.queue_locked ≡ true))

  idle_queue-Takes : (queue : List ℕ) → k.queue_locked ≡ false → OnReturn Takes (idle_queue k queue)
  unfolding idle_queue
  idle_queue-Takes [] free = inl (refl, refl)
  idle_queue-Takes (pid ∷ rest) free = OnReturn-after Takes (expect (get k.executions pid)) _ (λ e.
      let k' = store (record k { run_queue = rest; queue_locked = true }) pid (pop_signal e).1 in
      OnReturn-after Takes
        (elim (pop_signal e).0 [
          | some sender ↦ jump_into_async k'.executions pid user_signal sender
          | none ↦ jump_into_async k'.executions pid resumption 0
        ])
        _ (λ resume. inr (free, refl)))

  idle_round-Takes : OnReturn Takes (idle_round k)
  unfolding idle_round
  idle_round-Takes =
      OnReturn-if Takes k.queue_locked _ _ (λ locked. inl (refl, refl))
        (λ free. idle_queue-Takes k.run_queue free)

busy-le : (o : Option ℕ) → busy o ≤ 1
busy-le none = omega arith
busy-le (some pid) = omega arith

busy_cores-set :
    (cores : List (Option ℕ)) (i : ℕ) (o : Option ℕ)
    → i < length cores
    → busy_cores (set cores i o) + busy (get_or cores i none) ≡ busy_cores cores + busy o
busy_cores-set [] i o h = elim h [ ]
busy_cores-set (x ∷ cores) zero o h = omega arith
busy_cores-set (x ∷ cores) (suc i) o h = omega (arith, busy_cores-set cores i o (omega arith))

-- At most one core is busy, and a second one once the queue is locked for ever.
abbrev pub IsBounded : System → Type 0
IsBounded s = busy_cores s.cores ≤ (if s.kernel.queue_locked then 2 else 1)

Step-IsBounded : (board : Board) {s t : System} → IsBounded s → Step board s t → IsBounded t
Step-IsBounded board {s} few (call i pid code arg0 arg1 arg2 arg3 k resume h on ran) =
    let same : k.queue_locked ≡ s.kernel.queue_locked =
      OnReturn-returns (Same s.kernel) _ (k, resume)
        (handle-Same s.kernel board _ code arg0 arg1 arg2 arg3) ran in
    let moved = busy_cores-set s.cores i (next_on_core (some pid) resume) h in
    let was : busy (get_or s.cores i none) ≡ 1 = rw on refl in
    let most = busy-le (next_on_core (some pid) resume) in
    let fewer : busy_cores (set s.cores i (next_on_core (some pid) resume)) ≤ busy_cores s.cores =
      omega (arith, moved, was, most) in
    rw same (omega (arith, fewer, few))
Step-IsBounded board {s} few (idle i k resume h off ran) =
    let moved = busy_cores-set s.cores i (next_on_core none resume) h in
    let was : busy (get_or s.cores i none) ≡ 0 = rw off refl in
    let most = busy-le (next_on_core none resume) in
    elim (OnReturn-returns (Takes s.kernel) _ (k, resume) (idle_round-Takes s.kernel) ran) [
      | inl (idle_still, same) ↦ rw same (omega (arith, moved, was, idle_still, few))
      | inr (free, locked) ↦
          let one : busy_cores s.cores ≤ 1 = rw free at few in
          rw locked (omega (arith, moved, was, most, one))
    ]

Reach-IsBounded : (board : Board) {s t : System} → IsBounded s → Reach board s t → IsBounded t
Reach-IsBounded board few here = few
Reach-IsBounded board few (later r st) = Step-IsBounded board (Reach-IsBounded board few r) st

busy_cores-idle : (n : ℕ) → busy_cores (replicate n none) ≡ 0
busy_cores-idle zero = refl
busy_cores-idle (suc n) = omega (arith, busy_cores-idle n)

boot-free : (a : PageAllocator) (tcr : ℕ) → OnReturn (Locked false) (boot a tcr)
unfolding boot
boot-free a tcr = OnReturn-after (Locked false) (alloc a) _ (λ answer.
    OnReturn-after (Locked false) (expect answer) _ (λ page.
      OnReturn-after (Locked false) (assert (page.0 == 0)) _ (λ _.
        OnReturn-after (Locked false) (create [] tcr 0 16) _ (λ created.
          OnReturn-after (Locked false) (expect (get created.1 created.0)) _ (λ init.
            OnReturn-after (Locked false) (add_writable_page init page.0) _ (λ init'.
              OnReturn-after (Locked false)
                (jump_into_async (set created.1 created.0 (some init')) created.0 resumption 0) _
                (λ resume. refl)))))))

-- In every state that the system reaches from the end of `main` on, whatever the registers hold that
-- `execution::current()` reads: at most two cores run an execution, and at most one as long as the guard
-- of the run queue is not left.
pub Reach-IsBounded-boot :
    (board : Board) (a : PageAllocator) (tcr : ℕ) (k : Kernel) (resume : Resume) (others : ℕ)
    (registers : List ℕ) {t : System}
    → boot a tcr ≡ returns (k, resume)
    → Reach board (booted k resume others registers) t
    → IsBounded t
Reach-IsBounded-boot board a tcr k resume others registers ran r =
    let free = OnReturn-returns (Locked false) _ (k, resume) (boot-free a tcr) ran in
    let first : IsBounded (booted k resume others registers) =
      rw free (omega (arith, busy-le (next_on_core none resume), busy_cores-idle others)) in
    Reach-IsBounded board first r
