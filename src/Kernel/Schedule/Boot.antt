-- ===== src/Kernel/Schedule/Boot.antt =====
-- The end of `main` in os/src/bin/kernel/main.rs, from the page that core 0 allocates for the init
-- program on. The other cores enter the idle loop.
use rasperry_pi_os.Prelude.{
  ℕ, zero, suc, ◌*◌, ◌≡◌, refl, inl, inr, none, some, [], ◌∷◌, arith, ◌==◌, ==_iff, Bool-cases, set,
  replicate, List, false, Outcome, returns, ◌>>=◌, ◌>>◌, assert, expect, OnReturn, OnReturn-returns,
}
use rasperry_pi_os.Memory.Region.{page_size}
use rasperry_pi_os.Memory.Allocator.{PageAllocator, alloc}
use rasperry_pi_os.Memory.Allocator.Refs.{IsValid, refs}
use rasperry_pi_os.Memory.Allocator.Laws.{Sets, alloc-Sets}
use rasperry_pi_os.Execution.{Execution, new, add_writable_page}
use rasperry_pi_os.Execution.Search.{binary_search_by_key}
use rasperry_pi_os.Execution.Map.{get, create, find_available_pid}
use rasperry_pi_os.Kernel.{Kernel, Resume, jumped, resumption, jump_into_async}
use rasperry_pi_os.Kernel.Invariant.{Registered}
use rasperry_pi_os.Kernel.Schedule.{System, next_on_core, running}
use rasperry_pi_os.Kernel.Schedule.Safety.{IsSafe}

-- The state in which core 0 jumps into the init program.
unfoldable pub boot : PageAllocator → ℕ → Outcome (Kernel × Resume)
boot a tcr = do
  answer ← alloc a
  (page, a') ← expect answer
  assert (page == 0)
  (init_pid, executions) ← create [] tcr 0 16
  init ← expect (get executions init_pid)
  init' ← add_writable_page init page
  let executions' = set executions init_pid (some init')
  resume ← jump_into_async executions' init_pid resumption 0
  returns (
    record {
      page_allocator = a';
      executions = executions';
      run_queue = [];
      queue_locked = false;
      console = [];
    },
    resume,
  )

-- The cores once core 0 runs the init program and `others` more idle.
abbrev pub booted : Kernel → Resume → ℕ → List ℕ → System
booted k resume others registers = record {
  kernel = k;
  cores = next_on_core none resume ∷ replicate others none;
  registers = registers;
}

running-idle : (n j : ℕ) → running (replicate n none) j ≡ 0
running-idle zero j = refl
running-idle (suc n) j = omega (arith, running-idle n j)

-- The execution of the init program, with its page.
init_execution : ℕ → Execution
init_execution tcr = record (new tcr 0 16 0) { writeable_pages = 0 ∷ [] }

start : PageAllocator → ℕ → Kernel
start a' tcr = record {
  page_allocator = a';
  executions = some (init_execution tcr) ∷ [];
  run_queue = [];
  queue_locked = false;
  console = [];
}

boot_runs :
    (a a' : PageAllocator) (tcr : ℕ)
    → alloc a ≡ returns (some (0, a'))
    → boot a tcr ≡ returns (start a' tcr, jumped 0 resumption 0)
unfolding boot new add_writable_page create find_available_pid init_execution start
    binary_search_by_key
boot_runs a a' tcr taken = rw (taken, boot) refl

init_execution-Registered : (tcr : ℕ) → Registered (some (init_execution tcr) ∷ [])
unfolding init_execution new
init_execution-Registered tcr zero e q =
    let same : init_execution tcr ≡ e = ground (arith, q) in
    rw (← same) (
      record { writeable = ((tt, tt), (refl, tt)); readable = (tt, tt); small = omega arith },
      refl,
    )
init_execution-Registered tcr (suc j) e q = absurd (ground (arith, q))

start-IsSafe :
    (reserved : ℕ → ℕ) (a a' : PageAllocator) (tcr others : ℕ) (registers : List ℕ)
    → ((n : ℕ) → refs a n ≡ reserved n)
    → refs a 0 ≡ 0
    → Sets a 0 1 a'
    → IsSafe reserved (booted (start a' tcr) (jumped 0 resumption 0) others registers)
unfolding start init_execution new
start-IsSafe reserved a a' tcr others registers counts free s = record {
  memory = record {
    pages = s.valid;
    owned = λ m. ground (arith, s.counts m, counts m, counts 0);
    registered = init_execution-Registered tcr;
  };
  placed = λ j. ground (arith, running-idle others j);
}

boot-OnReturn :
    (reserved : ℕ → ℕ) (a : PageAllocator) (tcr others : ℕ) (registers : List ℕ)
    → IsValid a
    → ((n : ℕ) → refs a n ≡ reserved n)
    → OnReturn (λ out. IsSafe reserved (booted out.0 out.1 others registers)) (boot a tcr)
unfolding boot
boot-OnReturn reserved a tcr others registers v counts = elim (alloc-Sets a v) [
  | inl (none_left, full) ↦ rw (none_left, boot) tt
  | inr (n, a', taken, here, free, s) ↦ elim (Bool-cases (n * page_size == 0)) [
    | inr other ↦ rw (taken, boot) (rw (other, ◌>>=◌) tt)
    | inl at ↦
        let zero_page : n * page_size ≡ 0 = (==_iff _ _).0 at in
        let first : n ≡ 0 = omega (arith, zero_page) in
        rw (boot_runs a a' tcr (rw zero_page at taken)) (
          start-IsSafe reserved a a' tcr others registers counts (rw first at free) (rw first at s))
  ]
]

-- Where the counts of a valid memory are those of the reserved pages and `main` does not panic,
-- the system is safe once core 0 runs the init program and the others are idle.
pub boot-IsSafe :
    (reserved : ℕ → ℕ) (a : PageAllocator) (tcr : ℕ) (k : Kernel) (resume : Resume) (others : ℕ)
    (registers : List ℕ)
    → IsValid a
    → ((n : ℕ) → refs a n ≡ reserved n)
    → boot a tcr ≡ returns (k, resume)
    → IsSafe reserved (booted k resume others registers)
boot-IsSafe reserved a tcr k resume others registers v counts ran =
    OnReturn-returns (λ out. IsSafe reserved (booted out.0 out.1 others registers)) _ (k, resume)
      (boot-OnReturn reserved a tcr others registers v counts) ran
