-- ===== src/UserLibrary/Context/Resume.antt =====
-- A program that is preempted and then resumes.
use rasperry_pi_os.Prelude.{
  ℕ, ◌-◌, ◌^◌, ◌<◌, ◌≡◌, refl, ap, ◌∙◌, Bool, true, List, [], ◌∷◌, ◌++◌, arith, ◌==◌, if◌then◌else◌,
}
use rasperry_pi_os.Assembly.{flags_of, Cpu, ldr_sp, mov_to_sp, cmp, update, address, run}
use rasperry_pi_os.Assembly.Save.{
  Slot, slots_from, Fits, save, restore, loads, restore-save, all_below, all_below_lem, offset_of,
  saved_at,
}
use rasperry_pi_os.UserLibrary.Context.{preemption, loads_all, resumption, exception_handler}

-- What the program had when it was preempted: the kernel has put its first two registers on the stack.
-- The flags are counted as register 31.
unfoldable pub interrupted : Cpu → ℕ → ℕ
interrupted cpu r =
    if r == 0
    then cpu.memory (address cpu.sp 0)
    else if r == 1
    then cpu.memory (address cpu.sp 8)
    else if r == 31
    then cpu.nzcv
    else cpu.x r

-- The places that `preemption` stores to, and that `resumption` loads from.
unfoldable pub stored : List Slot
unfolding slots_from
stored = slots_from 0 29 ++ (31, 232) ∷ (29, 240) ∷ (30, 248) ∷ []

abbrev loaded : List Slot
unfolding slots_from
loaded = slots_from 2 27 ++ (29, 232) ∷ (29, 240) ∷ (30, 248) ∷ (0, 0) ∷ (1, 8) ∷ []

abbrev area : Cpu → ℕ
area cpu = address (address cpu.sp 16) (2 ^ 64 - 256)

-- The register that `resumption` loads from where `preemption` stored register `k`.
abbrev loads_own : ℕ → Bool
loads_own r = loads 256 stored loaded r r

module _ (cpu : Cpu) where
  preemption-save :
      (run preemption cpu).memory ≡ save stored (area cpu) (interrupted cpu) cpu.memory
  unfolding run save interrupted update stored
  preemption-save = refl

  preemption_sp : (run preemption cpu).saved_sp ≡ area cpu
  unfolding run update
  preemption_sp = refl

  loads_all-restore : (run loads_all cpu).x ≡ restore loaded cpu.sp cpu.memory cpu.x
  unfolding run restore update loaded
  loads_all-restore = refl

  loads_all_nzcv :
      (run loads_all cpu).nzcv ≡ flags_of (restore ((31, 232) ∷ []) cpu.sp cpu.memory cpu.x 31)
  unfolding run restore update
  loads_all_nzcv = refl

  loads_all_sp : (run loads_all cpu).sp ≡ address cpu.sp 256
  unfolding run
  loads_all_sp = refl

fits : Fits stored
unfolding stored
fits = omega arith

own_table : all_below 31 loads_own ≡ true
unfolding stored loaded loads offset_of saved_at
own_table = refl

flags_own : loads 256 stored ((31, 232) ∷ []) 31 31 ≡ true
unfolding stored loads offset_of saved_at
flags_own = refl

area_end : (cpu : Cpu) → address (area cpu) 256 ≡ address cpu.sp 16
unfolding address
area_end cpu = omega arith

-- Where every register is in its place, with the flags as register 31, `resumption` loads them all.
pub loads_all_lem :
    (cpu : Cpu) (base : ℕ) (values memory : ℕ → ℕ)
    → cpu.sp ≡ base
    → cpu.memory ≡ save stored base values memory
    → ((r : ℕ) → r < 31 → (run loads_all cpu).x r ≡ values r)
      × ((run loads_all cpu).nzcv ≡ flags_of (values 31))
      × ((run loads_all cpu).sp ≡ address base 256)
loads_all_lem cpu base values memory sp kept =
    let loaded_from = λ (slots : List Slot) (r : ℕ) (h : loads 256 stored slots r r ≡ true).
      restore-save 256 stored slots base values memory (save stored base values memory) cpu.x r r
        fits (omega arith) (λ o _. refl) h in
    (
      λ r below.
          rw (loads_all-restore cpu)
            (rw (sp, kept) (loaded_from loaded r (all_below_lem 31 loads_own r own_table below))),
      rw (loads_all_nzcv cpu)
          (rw (sp, kept) (ap flags_of (loaded_from ((31, 232) ∷ []) 31 flags_own))),
      rw (loads_all_sp cpu) (rw sp refl),
    )

-- Where the code is 1, the stack pointer is taken from `SP`.
unfoldable pub resuming : Cpu → Cpu
resuming later = run (ldr_sp 2 ∷ mov_to_sp 2 ∷ cmp 0 1 ∷ []) later

exception_handler-resuming :
    (call : Cpu → Cpu) (later : Cpu)
    → later.x 0 ≡ 1
    → later.x 1 ≡ 0
    → exception_handler call later ≡ run loads_all (resuming later)
unfolding exception_handler resumption resuming run
exception_handler-resuming call later code argument = rw code (rw argument refl)

pub resuming_lem :
    (later : Cpu)
    → ((resuming later).sp ≡ later.saved_sp) × ((resuming later).memory ≡ later.memory)
unfolding resuming run update
resuming_lem later = (refl, refl)

-- A program is preempted, and later the kernel resumes it by the code 1 and no argument, whatever the
-- registers are then, while its memory and `SP` are as they were: each of its registers `x0` to `x30`, of
-- which the kernel put the first two on the stack, and the flags are what they were, and the stack
-- pointer is above those two.
pub resume-preempt :
    (call : Cpu → Cpu) (cpu later : Cpu)
    → flags_of cpu.nzcv ≡ cpu.nzcv
    → later.memory ≡ (run preemption cpu).memory
    → later.saved_sp ≡ (run preemption cpu).saved_sp
    → later.x 0 ≡ 1
    → later.x 1 ≡ 0
    → let after = exception_handler call later in
      ((r : ℕ) → r < 31 → after.x r ≡ interrupted cpu r)
      × (after.nzcv ≡ cpu.nzcv)
      × (after.sp ≡ address cpu.sp 16)
unfolding interrupted
resume-preempt call cpu later word memory saved code argument =
    let at = resuming later in
    let (sp, same) = resuming_lem later in
    let base : at.sp ≡ area cpu = sp ∙ saved ∙ preemption_sp cpu in
    let kept : at.memory ≡ save stored (area cpu) (interrupted cpu) cpu.memory =
      same ∙ memory ∙ preemption-save cpu in
    let (registers, flags, top) =
      loads_all_lem at (area cpu) (interrupted cpu) cpu.memory base kept in
    rw (exception_handler-resuming call later code argument)
      (registers, flags ∙ word, top ∙ area_end cpu)
