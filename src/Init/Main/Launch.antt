-- ===== src/Init/Main/Launch.antt =====
-- How `main` of the init program ends.
use rasperry_pi_os.Prelude.{
  ℕ, ◌%◌, ◌≡◌, refl, true, not, Bool-cases, ◌==◌, ==_iff, inl, inr, none, some, Option-cases,
  assert, expect, expectation, sym, ==_refl, ◌∙◌, ◌/◌, ◌^◌, ◌⊎◌, Option, List, returns, panics,
  ◌>>=◌, Outcome, OnReturn, OnReturn-after, OnReturn->>=, arith,
}
use mathlib.Core.Path.{subst}
use rasperry_pi_os.Memory.Allocator.{alloc}
use rasperry_pi_os.Execution.{Execution, add_writable_page, contains_pa, ContextError, set_context}
use rasperry_pi_os.Execution.Map.{ExecutionMap, get}
use rasperry_pi_os.Kernel.{
  Kernel, Board, Resume, ExceptionCode, idles, waits, jump_into_async, user_context, fail,
  set_context_failure, jumped, returned, resumption, handle, handle_set_info, handle_alloc_page,
  store,
}
use rasperry_pi_os.Kernel.Invariant.{get-set}
use rasperry_pi_os.Exception.Codes.{call_code_from_bits}
use rasperry_pi_os.Exception.Classes.{find_variant}
use rasperry_pi_os.UserLibrary.Syscalls.{Reply, replies, leaves, decode, svc}
use rasperry_pi_os.Vm.Elf.Load.{Loaded, failed, loaded}
use rasperry_pi_os.Vm.Elf.Program.{Program, Spaces, load_elf}
use rasperry_pi_os.Init.Syscalls.{alloc_page, exec, getpid}
use rasperry_pi_os.Init.Main.{
  answered, elf_of, status_of, print, launch, load_next, Start, Prints, main,
}

-- The execution goes on in its handler, with a table in a page that it holds.
abbrev Launched : ℕ → Kernel × Resume → Type 0
Launched current (k, resume) =
    (e : Execution) × (get k.executions current ≡ some e)
    × (e.ttbr0 % 64 ≡ 0)
    × (contains_pa e e.ttbr0 ≡ true)
    × ((argument : ℕ) × (resume ≡ jumped current resumption argument))

-- The kernel answers, or it goes on so.
abbrev Leaves {ℓ} : {A : Type ℓ} → ℕ → Kernel × Reply A → Type 0
Leaves current (k, replies a) = Unit {0}
Leaves current (k, leaves resume) = Launched current (k, resume)

abbrev Held : Execution ⊎ ContextError → Type 0
Held (inl e) = (e.ttbr0 % 64 ≡ 0) × (contains_pa e e.ttbr0 ≡ true)
Held (inr err) = Unit {0}

contains_pa-set_context :
    (e : Execution) (user_context ttbr0 pa : ℕ)
    → contains_pa (record e { ttbr0 = ttbr0; user_context = user_context }) pa ≡ contains_pa e pa
unfolding contains_pa
contains_pa-set_context e user_context ttbr0 pa = refl

set_context-Held :
    (e : Execution) (user_context ttbr0 tcr_el1 : ℕ)
    → Held (set_context e user_context ttbr0 tcr_el1)
unfolding set_context
set_context-Held e user_context ttbr0 tcr_el1 = elim (Bool-cases (ttbr0 % 64 == 0)) [
  | inr crooked ↦ rw crooked tt
  | inl straight ↦ elim (Bool-cases (contains_pa e ttbr0)) [
    | inr other ↦ rw (straight, other) tt
    | inl own ↦ elim (Bool-cases (user_context % 8 == 0)) [
      | inr odd ↦ rw (straight, own, odd) tt
      | inl even ↦ elim (Bool-cases (user_context / 2 ^ 48 % 256 == 0)) [
        | inr high ↦ rw (straight, own, even, high) tt
        | inl low ↦
            let held : (ttbr0 % 64 ≡ 0)
                × (contains_pa (record e { ttbr0 = ttbr0; user_context = user_context }) ttbr0
                    ≡ true) =
              ((==_iff _ _).0 straight, contains_pa-set_context e user_context ttbr0 ttbr0 ∙ own) in
            rw (straight, own, even, low) held
      ]
    ]
  ]
]

abbrev Resumes : ℕ → Kernel × Resume → Type 0
Resumes current (k, returned status value) = Unit {0}
Resumes current (k, resume) = Launched current (k, resume)

decode-Leaves {ℓ} :
    {A : Type ℓ} (current : ℕ) (f : ℕ → ℕ → Outcome A) (answer : Kernel × Resume)
    → Resumes current answer
    → OnReturn (Leaves current) (decode f answer)
decode-Leaves current f (k, returned status value) h =
    OnReturn-after (Leaves current) (f status value) _ (λ a. tt)
decode-Leaves current f (k, jumped pid code argument) h = h
decode-Leaves current f (k, idles) h = h
decode-Leaves current f (k, waits) h = h

handle_alloc_page-Resumes :
    (k : Kernel) (current : ℕ) → OnReturn (Resumes current) (handle_alloc_page k current)
unfolding handle_alloc_page
handle_alloc_page-Resumes k current =
    OnReturn-after (Resumes current) (alloc k.page_allocator) _ (elim [
      | none ↦ tt
      | some (page, page_allocator) ↦
          OnReturn-after (Resumes current) (expect (get k.executions current)) _
            (λ e. OnReturn-after (Resumes current) (add_writable_page e page) _ (λ e'. tt))
    ])

alloc_page-Leaves :
    (board : Board) (current : ℕ) (k : Kernel)
    → OnReturn (Leaves current) (alloc_page board current k)
unfolding alloc_page svc handle call_code_from_bits find_variant
alloc_page-Leaves board current k =
    OnReturn->>= (Resumes current) (Leaves current) _ _ (handle_alloc_page-Resumes k current)
      (λ answer _ h. decode-Leaves current _ answer h)

jump_into_async-jumped :
    (executions : ExecutionMap) (pid : ℕ) (code : ExceptionCode) (argument : ℕ)
    → OnReturn
        (λ resume. resume ≡ jumped pid code argument)
        (jump_into_async executions pid code argument)
jump_into_async-jumped executions pid code argument =
    OnReturn-after (λ resume. resume ≡ jumped pid code argument) (expect (get executions pid)) _
      (λ e.
        OnReturn-after (λ resume. resume ≡ jumped pid code argument) (user_context e) _ (λ _. refl))

set_info-Resumes :
    (k : Kernel) (current sp : ℕ) (e : Execution) (answer : Execution ⊎ ContextError)
    → get k.executions current ≡ some e
    → Held answer
    → OnReturn (Resumes current) (elim answer [
      | inl e' ↦ jump_into_async (store k current e').executions current resumption sp >>= λ resume.
          returns (store k current e', resume)
      | inr err ↦ returns (k, fail (set_context_failure err))
    ])
set_info-Resumes k current sp e (inr err) at held = tt
set_info-Resumes k current sp e (inl e') at (straight, own) =
    let k' = store k current e' in
    let there : get k'.executions current ≡ some e' =
      ground (arith, get-set k.executions current e (some e') current at, ==_refl current) in
    OnReturn->>= (λ resume. resume ≡ jumped current resumption sp) (Resumes current) _ _
      (jump_into_async-jumped k'.executions current resumption sp)
      (λ resume _ same.
        subst (λ r. Resumes current (k', r)) (sym same) (e', there, straight, own, (sp, refl)))

handle_set_info-Resumes :
    (k : Kernel) (current context ttbr0 tcr_el1 sp : ℕ)
    → OnReturn (Resumes current) (handle_set_info k current context ttbr0 tcr_el1 sp)
unfolding handle_set_info
handle_set_info-Resumes k current context ttbr0 tcr_el1 sp =
    elim (Option-cases (get k.executions current)) [
      | inl absent ↦ rw absent tt
      | inr (e, at) ↦ rw at (
          set_info-Resumes k current sp e (set_context e context ttbr0 tcr_el1) at
            (set_context-Held e context ttbr0 tcr_el1))
    ]

exec-Leaves :
    (board : Board) (current : ℕ) (k : Kernel) (context ttbr0 tcr_el1 sp : ℕ)
    → OnReturn (Leaves current) (exec board current k context ttbr0 tcr_el1 sp)
unfolding exec svc handle call_code_from_bits find_variant
exec-Leaves board current k context ttbr0 tcr_el1 sp =
    OnReturn->>= (Resumes current) (Leaves current) _ _
      (handle_set_info-Resumes k current context ttbr0 tcr_el1 sp)
      (λ answer _ h. decode-Leaves current _ answer h)

answered-Launched {ℓ} :
    {A : Type ℓ} (current : ℕ) (f : Kernel → A → Outcome (Kernel × Resume))
    (reply : Kernel × Reply A)
    → Leaves current reply
    → ((k : Kernel) (a : A) → OnReturn (Launched current) (f k a))
    → OnReturn (Launched current) (answered f reply)
answered-Launched current f (k, replies a) h go = go k a
answered-Launched current f (k, leaves resume) h go = h

launch-Launched :
    (board : Board) (current new_pd : ℕ) (k : Kernel) (answer : Loaded Program × Spaces)
    → OnReturn (Launched current) (launch board current new_pd k answer)
unfolding launch
launch-Launched board current new_pd k (failed e, spaces) = tt
launch-Launched board current new_pd k (loaded program, spaces) =
    OnReturn->>= (Leaves current) (Launched current) _ _ (exec-Leaves board current k _ _ _ _)
      (λ reply _ h. answered-Launched current (λ k' _. panics expectation) reply h (λ k' a. tt))

load_next-Launched :
    (board : Board) (current : ℕ) (start : Start) (got : List (ℕ × ℕ)) (k : Kernel)
    (page : Option ℕ)
    → OnReturn (Launched current) (load_next board current start got k page)
unfolding load_next
load_next-Launched board current start got k none = tt
load_next-Launched board current start got k (some new_pd) =
    OnReturn-after (Launched current) (print board current got k) _ (λ k'.
      OnReturn->>= (Leaves current) (Launched current) (alloc_page board current k') _
        (alloc_page-Leaves board current k')
        (λ reply _ h.
          answered-Launched current
            (λ k'' page.
              load_elf (elf_of start) new_pd (status_of page) start.table start.own
              >>= launch board current new_pd k'')
            reply h
            (λ k'' page.
              OnReturn-after (Launched current)
                (load_elf (elf_of start) new_pd (status_of page) start.table start.own) _
                (launch-Launched board current new_pd k''))))

-- When `main` of the init program does not panic, whatever the kernel, the next program and the tables
-- are, it ends with a jump of the kernel to its own execution, by the code of a resumption. The execution
-- is there then, and its translation table is aligned and in a page that it holds.
pub main-Launched :
    (board : Board) (current : ℕ) (start : Start) (prints : Prints) (k : Kernel)
    → OnReturn (Launched current) (main board current start prints k)
unfolding main
main-Launched board current start prints k =
    OnReturn-after (Launched current) (print board current prints.hello k) _ (λ greeted.
      OnReturn-after (Launched current) (getpid board current greeted) _ (λ pid.
        OnReturn-after (Launched current) (print board current prints.identity greeted) _ (λ k'.
          OnReturn-after (Launched current) (assert (not (start.next_part == 0))) _ (λ _.
            OnReturn-after (Launched current) (assert (start.pa % 2 ^ 16 == 0)) _ (λ _.
              OnReturn->>= (Leaves current) (Launched current) (alloc_page board current k') _
                (alloc_page-Leaves board current k')
                (λ reply _ h.
                  answered-Launched current _ reply h
                    (load_next-Launched board current start prints.got)))))))
