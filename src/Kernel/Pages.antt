-- ===== src/Kernel/Pages.antt =====
-- The system calls that change who owns a page: `alloc_page` and `exit`.
use rasperry_pi_os.Prelude.{
  ℕ, ◌+◌, ◌*◌, ◌/◌, ◌%◌, ◌≤◌, ◌<◌, ◌≡◌, refl, ◌⊎◌, inl, inr, true, none, some, arith, ◌==◌,
  if◌then◌else◌, set, returns, panics, Panic, List, Outcome-cases,
}
use rasperry_pi_os.Memory.Region.{page_size}
use rasperry_pi_os.Memory.Allocator.{PageAllocator, alloc}
use rasperry_pi_os.Memory.Allocator.Refs.{contains, refs}
use rasperry_pi_os.Memory.Allocator.Laws.{Sets, alloc-Sets}
use rasperry_pi_os.Execution.{Execution, add_writable_page}
use rasperry_pi_os.Execution.Laws.{IsValid, holds, Adds, add_writable_page_lem}
use rasperry_pi_os.Execution.Map.{get}
use rasperry_pi_os.Execution.Map.Total.{total, held-le-total}
use rasperry_pi_os.Execution.Map.Clones.{drop_execution-Becomes}
use rasperry_pi_os.Kernel.{
  Kernel, Board, println, idles, success, fail, handle_exit, handle_alloc_page,
}
use rasperry_pi_os.Kernel.Invariant.{Inv, get-set, total-replace, set-Registered}

module _ (reserved : ℕ → ℕ) (k : Kernel) (current : ℕ) (e : Execution) (inv : Inv reserved k)
    (live : get k.executions current ≡ some e) where
  pub holds-le : (n : ℕ) → holds e n ≤ total k.executions n
  holds-le n = ground (arith, held-le-total k.executions current n)

  -- What `exit` leaves: the execution is gone, and each of its pages is counted less by as often as
  -- it held it.
  pub record Exits (k' : Kernel) : Type 0 where
    pub kept : Inv reserved k'
    pub gone : (j : ℕ) → get k'.executions j ≡ (if current == j then none else get k.executions j)
    pub freed : (n : ℕ) → refs k'.page_allocator n + holds e n ≡ refs k.page_allocator n
    pub queue : k'.run_queue ≡ k.run_queue

  exit_printed :
      (board : Board) (console : List ℕ)
      → println board (board.died e.pid) k.console ≡ returns console
      → (k' : Kernel) × (handle_exit board k current ≡ returns (k', idles))
        × (k'.console ≡ console)
        × Exits k'
  unfolding handle_exit
  exit_printed board console prints =
      let valid = (inv.registered current e live).0 in
      let enough : (n : ℕ) → holds e n ≤ refs k.page_allocator n =
        λ n. omega (arith, inv.owned n, holds-le n) in
      let (a', dropped, b) =
        drop_execution-Becomes e k.page_allocator inv.pages valid.writeable.1 valid.readable.1
          enough in
      (
        record k {
          page_allocator = a';
          executions = set k.executions current none;
          console = console;
        },
        rw (live, prints, dropped) refl,
        refl,
        record {
          kept = record {
            pages = b.valid;
            owned = λ n. omega (
              arith,
              b.counts n,
              inv.owned n,
              holds-le n,
              total-replace k.executions current e none n live,
            );
            registered = λ i f q.
                inv.registered i f (ground (arith, get-set k.executions current e none i live));
          };
          gone = λ j. get-set k.executions current e none j live;
          freed = λ n. omega (arith, b.counts n, enough n);
          queue = refl;
        },
      )

  -- Under the invariant of the memory `exit` of a live execution panics only where the UART does not take
  -- the line that is printed for it. Where it does, `exit` leaves the invariant, removes that execution and
  -- no other, prints that line, and lowers the count of each page by as often as the execution held it.
  pub exit-Exits :
      (board : Board)
      → ((console : List ℕ) × (println board (board.died e.pid) k.console ≡ returns console)
          × ((k' : Kernel) × (handle_exit board k current ≡ returns (k', idles))
              × (k'.console ≡ console)
              × Exits k'))
        ⊎ ((p : Panic) × (println board (board.died e.pid) k.console ≡ panics p)
            × (handle_exit board k current ≡ panics p))
  unfolding handle_exit
  exit-Exits board = elim (Outcome-cases (println board (board.died e.pid) k.console)) [
    | inr (p, fails) ↦ inr (p, fails, rw (live, fails) refl)
    | inl (console, prints) ↦ inl (console, prints, exit_printed board console prints)
  ]

  -- What `alloc_page` leaves where it hands out page `n`.
  pub record Grants (n : ℕ) (k' : Kernel) : Type 0 where
    pub kept : Inv reserved k'
    pub unowned : (reserved n ≡ 0) × (total k.executions n ≡ 0)
    pub owned : (m : ℕ) → total k'.executions m ≡ (if n == m then 1 else total k.executions m)
    pub queue : k'.run_queue ≡ k.run_queue

  granted :
      (n : ℕ) (a' : PageAllocator)
      → alloc k.page_allocator ≡ returns (some (n * page_size, a'))
      → refs k.page_allocator n ≡ 0
      → Sets k.page_allocator n 1 a'
      → Adds e (n * page_size) (add_writable_page e (n * page_size))
      → (k' : Kernel) × (handle_alloc_page k current ≡ returns (k', success (n * page_size)))
        × Grants n k'
  unfolding handle_alloc_page
  granted n a' taken free s (inl (dup, q)) =
      let whole : n * page_size / page_size ≡ n = omega arith in
      let dup' = rw whole at dup in absurd (omega (arith, inv.owned n, holds-le n))
  granted n a' taken free s (inr (new, (ws, q, sorted, counts))) =
      let e' = record e { writeable_pages = ws } in
      let valid = (inv.registered current e live).0 in
      let k' : Kernel = record k {
        page_allocator = a';
        executions = set k.executions current (some e');
      } in
      let totals : (m : ℕ) → total k'.executions m ≡ (if n == m then 1 else total k.executions m) =
        λ m. ground (
          arith,
          counts m,
          inv.owned m,
          inv.owned n,
          total-replace k.executions current e (some e') m live,
        ) in
      let valid' : IsValid e' = record {
        writeable = sorted;
        readable = valid.readable;
        small = valid.small;
      } in
      (
        k',
        rw (taken, live, q) refl,
        record {
          kept = record {
            pages = s.valid;
            owned = λ m. ground (arith, totals m, s.counts m, inv.owned m, inv.owned n);
            registered = set-Registered k.executions current e e' inv.registered live valid' refl;
          };
          unowned = (omega (arith, inv.owned n), omega (arith, inv.owned n));
          owned = totals;
          queue = refl;
        },
      )

  -- Under the invariant of the memory `alloc_page` of a live execution never panics. It fails, and
  -- changes nothing, only if every page is in use. Otherwise it returns the address of a page that
  -- was not reserved and that nobody held, the caller is its one owner, no other page changes its
  -- owners, and the invariant holds.
  pub alloc_page-Grants :
      ((handle_alloc_page k current ≡ returns (k, fail 1))
        × ((n : ℕ) → contains k.page_allocator n ≡ true → 0 < refs k.page_allocator n))
      ⊎ ((n : ℕ) × (k' : Kernel) × (handle_alloc_page k current
            ≡ returns (k', success (n * page_size)))
          × Grants n k')
  unfolding handle_alloc_page
  alloc_page-Grants = elim (alloc-Sets k.page_allocator inv.pages) [
    | inl (none_left, full) ↦ inl (rw none_left refl, full)
    | inr (n, a', taken, here, free, s) ↦
        let aligned : n * page_size % page_size ≡ 0 = omega arith in
        let valid = (inv.registered current e live).0 in
        let (k', runs, g) =
          granted n a' taken free s (add_writable_page_lem e (n * page_size) valid aligned) in
        inr (n, k', runs, g)
  ]
