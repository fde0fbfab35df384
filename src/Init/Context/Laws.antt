-- ===== src/Init/Context/Laws.antt =====
-- What the init program has when it resumes, and after it takes an exception.
use rasperry_pi_os.Prelude.{ℕ, ◌-◌, ◌^◌, ◌<◌, ◌≡◌, refl, ◌∙◌, arith, ◌==◌, if◌then◌else◌}
use rasperry_pi_os.Assembly.{flags_of, Cpu, update, address, run}
use rasperry_pi_os.Assembly.Save.{save, slots_from}
use rasperry_pi_os.UserLibrary.Context.Resume.{stored, loads_all_lem, resuming, resuming_lem}
use rasperry_pi_os.UserLibrary.Context as Library
use rasperry_pi_os.Init.Context.{preemption, handle_exception, exception_handler}

with_flags : Cpu → ℕ → ℕ
with_flags cpu r = if r == 31 then cpu.nzcv else cpu.x r

abbrev area : Cpu → ℕ
area cpu = address cpu.sp (2 ^ 64 - 256)

module _ (cpu : Cpu) where
  preemption-save : (run preemption cpu).memory ≡ save stored (area cpu) (with_flags cpu) cpu.memory
  unfolding run save with_flags update stored slots_from
  preemption-save = refl

  preemption_sp : (run preemption cpu).saved_sp ≡ area cpu
  unfolding run update
  preemption_sp = refl

  area_end : cpu.sp < 2 ^ 64 → address (area cpu) 256 ≡ cpu.sp
  unfolding address
  area_end h = omega arith

-- The init program is preempted, and later resumes by the code 1, whatever the registers are then, while
-- its memory and `SP` are as they were: it has the registers `x0` to `x30`, the flags and the stack
-- pointer that it entered the handler with.
pub resumption-preemption :
    (call : Cpu → Cpu) (cpu later : Cpu)
    → cpu.sp < 2 ^ 64
    → flags_of cpu.nzcv ≡ cpu.nzcv
    → later.memory ≡ (run preemption cpu).memory
    → later.saved_sp ≡ (run preemption cpu).saved_sp
    → later.x 0 ≡ 1
    → let after = exception_handler call later in
      ((r : ℕ) → r < 31 → after.x r ≡ cpu.x r) × (after.nzcv ≡ cpu.nzcv) × (after.sp ≡ cpu.sp)
unfolding exception_handler with_flags resuming
resumption-preemption call cpu later small word memory saved code =
    let at = resuming later in
    let (sp, same) = resuming_lem later in
    let base : at.sp ≡ area cpu = sp ∙ saved ∙ preemption_sp cpu in
    let kept : at.memory ≡ save stored (area cpu) (with_flags cpu) cpu.memory =
      same ∙ memory ∙ preemption-save cpu in
    let (registers, flags, top) =
      loads_all_lem at (area cpu) (with_flags cpu) cpu.memory base kept in
    rw code (λ r below. ground (arith, registers r below), flags ∙ word, top ∙ area_end cpu small)

-- The init program takes an exception and calls a handler of the C ABI, as the programs of the user
-- library do.
handle_exception-library :
    (call : Cpu → Cpu) (cpu : Cpu) → handle_exception call cpu ≡ Library.handle_exception call cpu
unfolding handle_exception Library.handle_exception
handle_exception-library call cpu = refl
