-- ===== src/Tests/Cores.antt =====
-- The system calls and the scheduler at a concrete machine: three pages of memory, two cores, the
-- init program on core 0.
use rasperry_pi_os.Prelude.{
  ℕ, ◌+◌, List, false, Panic, panics, ◌*◌, ◌<◌, ◌≡◌, refl, ◌⊎◌, true, none, some, [], ◌∷◌, arith,
  returns,
}
use rasperry_pi_os.Memory.Region.{page_size}
use rasperry_pi_os.Memory.Region as Region
use rasperry_pi_os.Memory.Allocator.{PageAllocator, alloc_first, alloc, add_ref, update_first}
use rasperry_pi_os.Memory.Allocator.Refs.{contains, refs}
use rasperry_pi_os.Memory.Allocator.Refs as Allocator
use rasperry_pi_os.Execution.{Execution, new, add_writable_page, pop_signal}
use rasperry_pi_os.Execution.Search.{binary_search_by_key}
use rasperry_pi_os.Execution.Map.{
  create, find_available_pid, vacant_index, fork, clone_execution, clone_pages,
}
use rasperry_pi_os.Kernel.{
  Kernel, Board, println, jumped, resumption, success, fail, fork_code, idles, idle_round,
  idle_queue, handle, handle_exit, handle_alloc_page, handle_fork,
}
use rasperry_pi_os.Kernel.Invariant.{Inv}
use rasperry_pi_os.Kernel.Pages.{Exits, exit-Exits, Grants, alloc_page-Grants}
use rasperry_pi_os.Kernel.Fork.{Forks, fork-Forks}
use rasperry_pi_os.Kernel.Schedule.{System, Step, call, idle, Reach, here, later}
use rasperry_pi_os.Kernel.Schedule.Safety.{IsSafe, Step-Inv}
use rasperry_pi_os.Kernel.Schedule.Boot.{boot, booted, boot-IsSafe}
use rasperry_pi_os.Kernel.Schedule.Reachable.{IsBounded, Reach-IsBounded-boot}

abbrev memory : PageAllocator
memory = record { regions = record { start = 0; physical_pages = 0 ∷ 0 ∷ 1 ∷ [] } ∷ [] }

memory-IsValid : Allocator.IsValid memory
memory-IsValid = (
  record {
    aligned = refl;
    fits = omega arith;
    counts = (omega arith, (omega arith, (omega arith, tt)));
  },
  λ n h. refl,
  tt,
)

-- Page 2 is reserved.
abbrev reserved : ℕ → ℕ
reserved n = refs memory n

abbrev board : Board
board = record {
  memory = λ address. 65;
  accepts = λ console byte. true;
  died = λ pid. (48 + pid) ∷ (10 ∷ []);
}

abbrev init : Execution
init = record {
  writeable_pages = 0 ∷ [];
  readable_pages = [];
  user_context = 16;
  ttbr0 = 0;
  tcr_el1 = 9;
  token = 1;
  pid = 0;
  pending_messages = [];
}

abbrev first_kernel : Kernel
first_kernel = record {
  page_allocator = record { regions = record { start = 0; physical_pages = 1 ∷ 0 ∷ 1 ∷ [] } ∷ [] };
  executions = some init ∷ [];
  run_queue = [];
  queue_locked = false;
  console = [];
}

abbrev first : System
first = booted first_kernel (jumped 0 resumption 0) 1 (0 ∷ 0 ∷ [])

boot_runs : boot memory 9 ≡ returns (first_kernel, jumped 0 resumption 0)
unfolding boot alloc alloc_first Region.alloc Region.claim_free Region.physical_page
    add_writable_page create find_available_pid new binary_search_by_key
boot_runs = refl

boot-IsSafe_example : IsSafe reserved (booted first_kernel (jumped 0 resumption 0) 1 (0 ∷ 0 ∷ []))
boot-IsSafe_example =
    boot-IsSafe reserved memory 9 first_kernel (jumped 0 resumption 0) 1 (0 ∷ 0 ∷ []) memory-IsValid
      (λ n. refl) boot_runs

first-Inv : Inv reserved first_kernel
first-Inv =
    (boot-IsSafe reserved memory 9 first_kernel (jumped 0 resumption 0) 1 (0 ∷ 0 ∷ [])
      memory-IsValid (λ n. refl) boot_runs).memory

-- The init program forks, and core 1 takes the copy from the run queue.
abbrev forked_kernel : Kernel
forked_kernel = record {
  page_allocator = record { regions = record { start = 0; physical_pages = 2 ∷ 0 ∷ 1 ∷ [] } ∷ [] };
  executions = some init ∷ some (record init { pid = 1 }) ∷ [];
  run_queue = 1 ∷ [];
  queue_locked = false;
  console = [];
}

abbrev forked : System
forked = record { kernel = forked_kernel; cores = some 0 ∷ none ∷ []; registers = 0 ∷ 0 ∷ [] }

abbrev both_kernel : Kernel
both_kernel = record forked_kernel { run_queue = []; queue_locked = true }

abbrev both : System
both = record { kernel = both_kernel; cores = some 0 ∷ some 1 ∷ []; registers = 0 ∷ 0 ∷ [] }

fork_runs : handle board first_kernel 0 fork_code 0 0 0 0 ≡ returns (forked_kernel, success 1)
unfolding handle handle_fork fork find_available_pid vacant_index clone_execution clone_pages
    add_ref update_first Region.add_ref Region.update_page Region.get_page
fork_runs = refl

idle_runs : idle_round forked_kernel ≡ returns (both_kernel, jumped 1 resumption 0)
unfolding idle_round idle_queue pop_signal
idle_runs = refl

fork-Step : Step board first forked
fork-Step = call 0 0 fork_code 0 0 0 0 forked_kernel (success 1) (omega arith) refl fork_runs

idle-Step : Step board forked both
idle-Step = idle 1 both_kernel (jumped 1 resumption 0) (omega arith) refl idle_runs

Reach-forked : Reach board first forked
Reach-forked = later here fork-Step

Reach-both : Reach board first both
Reach-both = later Reach-forked idle-Step

Step-Inv_example : Inv reserved forked_kernel
Step-Inv_example = Step-Inv reserved board first-Inv fork-Step

Reach-IsBounded_example : IsBounded both
Reach-IsBounded_example =
    Reach-IsBounded-boot board memory 9 first_kernel (jumped 0 resumption 0) 1 (0 ∷ 0 ∷ [])
      boot_runs Reach-both

exit-Exits_example :
    ((console : List ℕ) × (println board (board.died 0) [] ≡ returns console)
      × ((k' : Kernel) × (handle_exit board first_kernel 0 ≡ returns (k', idles))
          × (k'.console ≡ console)
          × Exits reserved first_kernel 0 init first-Inv refl k'))
    ⊎ ((p : Panic) × (println board (board.died 0) [] ≡ panics p)
        × (handle_exit board first_kernel 0 ≡ panics p))
exit-Exits_example = exit-Exits reserved first_kernel 0 init first-Inv refl board

alloc_page-Grants_example :
    ((handle_alloc_page first_kernel 0 ≡ returns (first_kernel, fail 1))
      × ((n : ℕ)
          → contains first_kernel.page_allocator n ≡ true
          → 0 < refs first_kernel.page_allocator n))
    ⊎ ((n : ℕ) × (k' : Kernel) × (handle_alloc_page first_kernel 0
          ≡ returns (k', success (n * page_size)))
        × Grants reserved first_kernel 0 init first-Inv refl n k')
alloc_page-Grants_example = alloc_page-Grants reserved first_kernel 0 init first-Inv refl

fork-Forks_example :
    (pid : ℕ) × (k' : Kernel) × (handle_fork first_kernel 0 ≡ returns (k', success pid))
    × Forks reserved first_kernel 0 init first-Inv refl pid k'
fork-Forks_example =
    fork-Forks reserved first_kernel 0 init first-Inv refl (omega arith) (λ n. ground arith)
