-- ===== src/Init/Main.antt =====
-- `main` of os/src/bin/init/main.rs, on the kernel that answers its system calls. A print is the places
-- and the lengths of the pieces that the formatting hands to `write_str`. The table in the new page is
-- what the page holds, once `temporary_map` has made it readable. `with_pa` is as for `load_elf`.
pub mod Launch
use rasperry_pi_os.Prelude.{
  ℕ, ◌+◌, ◌-◌, ◌*◌, ◌/◌, ◌%◌, ◌^◌, not, Option, none, some, List, [], ◌∷◌, ◌==◌, expectation,
  Outcome, returns, panics, ◌>>=◌, ◌>>◌, assert,
}
use rasperry_pi_os.Kernel.{Kernel, Board, Resume}
use rasperry_pi_os.UserLibrary.Syscalls.{Reply, replies, leaves}
use rasperry_pi_os.UserLibrary.Start.{bytes_at}
use rasperry_pi_os.Init.Syscalls.{alloc_page, write, exec, getpid}
use rasperry_pi_os.Vm.Tables.{PageTable}
use rasperry_pi_os.Vm.Elf.Load.{Loaded, failed, loaded, Source}
use rasperry_pi_os.Vm.Elf.Program.{Program, Spaces, load_elf}

-- What goes on with the answer of a system call, unless the kernel goes on elsewhere.
abbrev pub answered {ℓ} :
    {A : Type ℓ}
    → (Kernel → A → Outcome (Kernel × Resume))
    → Kernel × Reply A
    → Outcome (Kernel × Resume)
answered f (k, replies a) = f k a
answered f (k, leaves resume) = returns (k, resume)

-- The status and the page of `alloc_page`.
abbrev pub status_of : Option ℕ → ℕ × ℕ
status_of none = (1, 0)
status_of (some page) = (0, page)

-- The arguments of `main`, the memory that it reads, and the tables.
pub record Start : Type 0 where
  pub next_part : ℕ
  pub next_len : ℕ
  pub pa : ℕ
  pub memory : ℕ → ℕ
  pub table : PageTable
  pub own : PageTable
  pub with_pa : ℕ → ℕ

-- The pieces of each print.
pub record Prints : Type 0 where
  pub hello : List (ℕ × ℕ)
  pub identity : List (ℕ × ℕ)
  pub got : List (ℕ × ℕ)

-- The slice of words, as its bytes.
unfoldable pub elf_of : Start → Source
elf_of start = record {
  elf = bytes_at start.memory start.next_part ((start.next_len + 7) / 8 * 8);
  address = start.next_part;
  elf_pa = start.pa;
  with_pa = start.with_pa;
}

module _ (board : Board) (current : ℕ) where
  -- `Stdout::write_str` of each piece, whose answer is ignored.
  unfoldable pub print : List (ℕ × ℕ) → Kernel → Outcome Kernel
  print [] k = returns k
  print ((bytes, len) ∷ pieces) k = do
    answer ← write board current k bytes len
    print pieces answer.0

  -- `exec`, whose error is unwrapped.
  unfoldable pub launch : ℕ → Kernel → Loaded Program × Spaces → Outcome (Kernel × Resume)
  launch new_pd k (failed e, spaces) = panics expectation
  launch new_pd k (loaded program, spaces) =
      exec board current k program.ctx_addr new_pd 0 (program.sp - 256)
      >>= answered (λ k' _. panics expectation)

  -- From the new page on. The system call for the page of the stack stands before `load_elf`, which makes
  -- it.
  unfoldable pub load_next : Start → List (ℕ × ℕ) → Kernel → Option ℕ → Outcome (Kernel × Resume)
  load_next start got k none = panics expectation
  load_next start got k (some new_pd) = do
    k' ← print got k
    stack ← alloc_page board current k'
    answered
        (λ k'' page.
          load_elf (elf_of start) new_pd (status_of page) start.table start.own
          >>= launch new_pd k'')
        stack

  -- `main`: what the kernel does at its end.
  unfoldable pub main : Start → Prints → Kernel → Outcome (Kernel × Resume)
  main start prints k = do
    greeted ← print prints.hello k
    pid ← getpid board current greeted
    k' ← print prints.identity greeted
    assert (not (start.next_part == 0))
    assert (start.pa % 2 ^ 16 == 0)
    page ← alloc_page board current k'
    answered (load_next start prints.got) page
