-- ===== src/Kernel/Schedule/Safety.antt =====
-- The memory in every step of the system, and the places of the executions when it starts.
use rasperry_pi_os.Prelude.{
  ℕ, ◌+◌, ◌≡◌, refl, inl, inr, true, List, [], ◌∷◌, arith, Option-cases, ◌>>=◌, OnReturn-if,
  OnReturn-returns,
}
use rasperry_pi_os.Execution.{Execution, pop_signal}
use rasperry_pi_os.Execution.Laws.{IsValid}
use rasperry_pi_os.Execution.Map.{get}
use rasperry_pi_os.Kernel.{Kernel, Board, user_signal, resumption, store, idle_queue, idle_round}
use rasperry_pi_os.Kernel.Invariant.{Inv, store-Inv}
use rasperry_pi_os.Kernel.Calls.{KeepsInv, call-KeepsInv, jump_keeps}
use rasperry_pi_os.Kernel.Schedule.{System, Step, call, idle, queued, running, runnable_at}

-- The memory's invariant, and the places of the executions.
pub record IsSafe (reserved : ℕ → ℕ) (s : System) : Type 0 where
  pub memory : Inv reserved s.kernel
  pub placed : (j : ℕ) → queued s.kernel.run_queue j + running s.cores j ≡ runnable_at s.kernel j

pop_signal-fields :
    (e : Execution)
    → let e' = (pop_signal e).1 in
      (e'.token ≡ e.token)
      × (e'.pid ≡ e.pid)
      × (e'.writeable_pages ≡ e.writeable_pages)
      × (e'.readable_pages ≡ e.readable_pages)
unfolding pop_signal
pop_signal-fields e = ground arith

idle_queue-KeepsInv :
    (reserved : ℕ → ℕ) (k : Kernel) (queue : List ℕ)
    → Inv reserved k
    → KeepsInv reserved (idle_queue k queue)
unfolding idle_queue
idle_queue-KeepsInv reserved k [] inv = inv
idle_queue-KeepsInv reserved k (pid ∷ rest) inv = elim (Option-cases (get k.executions pid)) [
  | inl gone ↦ rw gone tt
  | inr (e, live) ↦
      let e' = (pop_signal e).1 in
      let taken : Kernel = record k { run_queue = rest; queue_locked = true } in
      let k' = store taken pid e' in
      let (token, own, writeable, readable) = pop_signal-fields e in
      let valid = (inv.registered pid e live).0 in
      let valid' : IsValid e' = record {
        writeable = rw writeable valid.writeable;
        readable = rw readable valid.readable;
        small = rw token valid.small;
      } in
      let inv' : Inv reserved k' =
        store-Inv reserved taken pid e e'
          (record { pages = inv.pages; owned = inv.owned; registered = inv.registered }) live valid'
          own (λ n. rw (writeable, readable) refl) in
      rw live (elim (Option-cases (pop_signal e).0) [
        | inl quiet ↦ rw (quiet, ◌>>=◌) (jump_keeps reserved k inv k' pid resumption 0 inv')
        | inr (sender, signal) ↦
            rw (signal, ◌>>=◌) (jump_keeps reserved k inv k' pid user_signal sender inv')
      ])
]

idle_round-KeepsInv :
    (reserved : ℕ → ℕ) (k : Kernel) → Inv reserved k → KeepsInv reserved (idle_round k)
unfolding idle_round
idle_round-KeepsInv reserved k inv =
    OnReturn-if (λ out. Inv reserved out.0) k.queue_locked _ _ (λ _. inv)
      (λ _. idle_queue-KeepsInv reserved k k.run_queue inv)

-- Whatever the registers hold that `execution::current()` reads: a step of any core, be it a system call
-- with any arguments or a round of the idle loop, keeps the invariant of the memory. The count of each
-- page stays the number of its owners, and each execution stays well formed and at its own PID.
pub Step-Inv :
    (reserved : ℕ → ℕ) (board : Board) {s t : System}
    → Inv reserved s.kernel
    → Step board s t
    → Inv reserved t.kernel
Step-Inv reserved board {s} inv (call i pid code arg0 arg1 arg2 arg3 k resume h on ran) =
    OnReturn-returns (λ out. Inv reserved out.0) _ (k, resume)
      (call-KeepsInv reserved s.kernel inv board _ code arg0 arg1 arg2 arg3) ran
Step-Inv reserved board {s} inv (idle i k resume h off ran) =
    OnReturn-returns (λ out. Inv reserved out.0) _ (k, resume)
      (idle_round-KeepsInv reserved s.kernel inv) ran
