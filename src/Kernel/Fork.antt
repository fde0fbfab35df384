-- ===== src/Kernel/Fork.antt =====
-- The system call `fork`, and who owns the pages of the copy.
use rasperry_pi_os.Prelude.{
  ℕ, ◌+◌, ◌^◌, ◌<◌, ◌≡◌, refl, ap, List, ◌≢◌, inl, inr, none, some, [], ◌∷◌, ◌++◌, arith, ◌==◌,
  if◌then◌else◌, ==_iff, Bool-cases, length, returns, Outcome-cases, OnReturn, OnReturn-returns,
}
use rasperry_pi_os.Memory.Allocator.{PageAllocator}
use rasperry_pi_os.Memory.Allocator.Refs.{contains, refs}
use rasperry_pi_os.Memory.Allocator.Laws.{refs_outside}
use rasperry_pi_os.Execution.{Execution}
use rasperry_pi_os.Execution.Laws.{IsValid, holds}
use rasperry_pi_os.Execution.Map.{
  ExecutionMap, Slot, slot_pid, put, get, find_available_pid, clone_execution, fork,
}
use rasperry_pi_os.Execution.Map.Laws.{Picks, find_available_pid-Picks, find_available_pid-OnReturn}
use rasperry_pi_os.Execution.Map.Total.{total, total-put}
use rasperry_pi_os.Execution.Map.Clones.{
  Becomes, CanFork, clone_execution-Becomes, clone_execution-OnReturn,
}
use rasperry_pi_os.Kernel.{Kernel, Resume, waits, success, add_to_running, handle_fork}
use rasperry_pi_os.Kernel.Invariant.{Inv}
use rasperry_pi_os.Kernel.Pages.{holds-le}

module _ (reserved : ℕ → ℕ) (k : Kernel) (current : ℕ) (e : Execution) (inv : Inv reserved k)
    (live : get k.executions current ≡ some e) where
  -- The run queue after the copy is scheduled, and what the caller does.
  abbrev pub queued : ℕ → List ℕ
  queued pid = if k.queue_locked then k.run_queue else k.run_queue ++ pid ∷ []

  abbrev pub answer : ℕ → Resume
  answer pid = if k.queue_locked then waits else success pid

  forked_kernel : PageAllocator → ExecutionMap → ℕ → Kernel
  forked_kernel a' m' pid = record k {
    page_allocator = a';
    executions = m';
    run_queue = queued pid;
  }

  add_to_running_lem :
      (a' : PageAllocator) (m' : ExecutionMap) (pid : ℕ)
      → add_to_running (record k { page_allocator = a'; executions = m' }) pid (success pid)
        ≡ (forked_kernel a' m' pid, answer pid)
  unfolding forked_kernel
  add_to_running_lem a' m' pid = elim (Bool-cases k.queue_locked) [
    | inl locked ↦ rw locked refl
    | inr free ↦ rw free refl
  ]

  -- What `fork` leaves: a copy of the caller at the lowest unused PID, and in the run queue if no guard of
  -- it is left.
  pub record Forks (pid : ℕ) (k' : Kernel) : Type 0 where
    pub kept : Inv reserved k'
    pub fresh : get k.executions pid ≡ none
    pub lowest : (j : ℕ) → j < pid → get k.executions j ≢ none
    pub child :
        (j : ℕ)
        → get k'.executions j
          ≡ (if pid == j then some (record e { pid = pid }) else get k.executions j)
    pub queue : k'.run_queue ≡ queued pid

  copy_of : ℕ → Execution
  copy_of pid = record e { pid = pid }

  copy_of-IsValid : (pid : ℕ) → IsValid (copy_of pid)
  unfolding copy_of
  copy_of-IsValid pid =
      let valid = (inv.registered current e live).0 in
      record { writeable = valid.writeable; readable = valid.readable; small = valid.small }

  forked :
      (pid : ℕ) (a' : PageAllocator) (m' : ExecutionMap)
      → get k.executions pid ≡ none
      → ((j : ℕ) → j < pid → get k.executions j ≢ none)
      → Becomes k.page_allocator (λ n. refs k.page_allocator n + holds e n) a'
      → ((j : ℕ) → get m' j ≡ (if pid == j then some (copy_of pid) else get k.executions j))
      → ((n : ℕ) → total m' n ≡ total k.executions n + holds e n)
      → Forks pid (forked_kernel a' m' pid)
  unfolding copy_of forked_kernel
  forked pid a' m' unused lowest b at totals = record {
    kept = record {
      pages = b.valid;
      owned = λ n. omega (arith, b.counts n, totals n, inv.owned n);
      registered = λ j f q. elim (Bool-cases (pid == j)) [
        | inl here ↦
            let same : pid ≡ j = (==_iff pid j).0 here in
            let new : copy_of pid ≡ f = ground (arith, at j) in
            rw (← new) (copy_of-IsValid pid, same)
        | inr other ↦ inv.registered j f (ground (arith, at j))
      ];
    };
    fresh = unused;
    lowest = lowest;
    child = at;
    queue = refl;
  }

  -- The clone of a live caller never meets a page that is not in use.
  can_clone : ((n : ℕ) → refs k.page_allocator n + holds e n < 2 ^ 16) → CanFork k.page_allocator e
  can_clone room n h = (
    elim (Bool-cases (contains k.page_allocator n)) [
      | inl here ↦ here
      | inr gone ↦ absurd (
          omega (
            arith,
            refs_outside k.page_allocator.regions n gone,
            inv.owned n,
            holds-le reserved k current e inv live n,
          ))
    ],
    omega (arith, inv.owned n, holds-le reserved k current e inv live n),
    room n,
  )

  fork_runs :
      (slot : Slot) (a' : PageAllocator) (m' : ExecutionMap)
      → find_available_pid k.executions ≡ returns slot
      → clone_execution k.page_allocator e ≡ returns a'
      → put k.executions slot (copy_of (slot_pid slot)) ≡ returns m'
      → handle_fork k current
        ≡ returns (forked_kernel a' m' (slot_pid slot), answer (slot_pid slot))
  unfolding handle_fork fork copy_of
  fork_runs slot a' m' found_it cloned stored =
      rw (live, handle_fork, fork)
        (rw (found_it, cloned, stored) (ap returns (add_to_running_lem a' m' (slot_pid slot))))

  -- Under the invariant of the memory, with room for one more execution, and in each page's count
  -- for the caller's holds once more, `fork` does not panic. A copy of the caller is at the lowest unused
  -- PID, every other execution is as before, and the invariant holds. If no guard of the run queue is left,
  -- the copy is at its end and the caller gets the PID; otherwise the copy is not queued, and the caller
  -- waits for ever.
  pub fork-Forks :
      length k.executions < 2 ^ 16
      → ((n : ℕ) → refs k.page_allocator n + holds e n < 2 ^ 16)
      → (pid : ℕ) × (k' : Kernel) × (handle_fork k current ≡ returns (k', answer pid))
        × Forks pid k'
  unfolding copy_of
  fork-Forks places room =
      let (slot, found_it, p) = find_available_pid-Picks k.executions places in
      let valid = (inv.registered current e live).0 in
      let (a', cloned, b) =
        clone_execution-Becomes e k.page_allocator inv.pages valid.writeable.1 valid.readable.1
          (can_clone room) in
      let (m', stored, at, size) = p.stores (copy_of (slot_pid slot)) in
      (
        slot_pid slot,
        forked_kernel a' m' (slot_pid slot),
        fork_runs slot a' m' found_it cloned stored,
        forked (slot_pid slot) a' m' p.unused p.lowest b at
            (λ n. total-put k.executions slot (copy_of (slot_pid slot)) m' n p.unused stored),
      )

  -- A `fork` that returns leaves such a copy, whatever room there was.
  pub fork-OnReturn :
      OnReturn (λ out. (pid : ℕ) × (out.1 ≡ answer pid) × Forks pid out.0) (handle_fork k current)
  unfolding handle_fork fork copy_of
  fork-OnReturn = elim (Outcome-cases (find_available_pid k.executions)) [
    | inr (_, failed) ↦ rw (live, handle_fork, fork) (rw failed tt)
    | inl (slot, found_it) ↦ elim (Outcome-cases (clone_execution k.page_allocator e)) [
      | inr (_, failed) ↦ rw (live, handle_fork, fork) (rw (found_it, failed) tt)
      | inl (a', cloned) ↦
          let valid = (inv.registered current e live).0 in
          let p : Picks k.executions slot =
            OnReturn-returns (Picks k.executions) _ slot (find_available_pid-OnReturn k.executions)
              found_it in
          let b : Becomes k.page_allocator (λ n. refs k.page_allocator n + holds e n) a' =
            OnReturn-returns _ _ a'
              (clone_execution-OnReturn e k.page_allocator inv.pages valid.writeable.1
                valid.readable.1)
              cloned in
          let (m', stored, at, size) = p.stores (copy_of (slot_pid slot)) in
          rw (fork_runs slot a' m' found_it cloned stored) (
            slot_pid slot,
            refl,
            forked (slot_pid slot) a' m' p.unused p.lowest b at
                (λ n. total-put k.executions slot (copy_of (slot_pid slot)) m' n p.unused stored),
          )
    ]
  ]
