-- ===== src/Bootloader/Entry/Laws.antt =====
-- What the boot loader hands to the kernel.
use rasperry_pi_os.Prelude.{
  ℕ, ◌+◌, ◌*◌, ◌/◌, ◌%◌, ◌^◌, ◌≤◌, ◌<◌, ◌≡◌, refl, ◌∙◌, Bool, true, false, ◌&&◌, ◌||◌, none, some,
  List, [], ◌∷◌, ◌++◌, arith, leb, ◌==◌, if◌then◌else◌,
}
use rasperry_pi_os.Assembly.{Cpu, flags_of, update, run}
use rasperry_pi_os.Assembly.Save.{
  Slot, slots_from, Fits, save, restore, loads, all_below, all_below_lem, offset_of, saved_at,
}
use rasperry_pi_os.Assembly.Call.{IsCall, loads_after, restore-free}
use rasperry_pi_os.Bootloader.Entry.{prologue, epilogue, start}

-- The registers on entry, with the interrupt masks and the flags together as register 31.
values : Cpu → ℕ → ℕ
values cpu r = if r == 31 then cpu.daif + cpu.nzcv else if r == 30 then 16208 else cpu.x r

stored : List Slot
unfolding slots_from
stored = slots_from 0 19 ++ (31, 152) ∷ (29, 160) ∷ (30, 168) ∷ []

abbrev loaded : List Slot
unfolding slots_from
loaded = slots_from 2 17 ++ (0, 152) ∷ (29, 160) ∷ (30, 168) ∷ (0, 0) ∷ (1, 8) ∷ []

entered : Cpu → Cpu
entered cpu = run prologue cpu

is_callee : ℕ → Bool
is_callee r = elim (offset_of r loaded) [ some o ↦ false | none ↦ leb 19 r && leb r 29 ]

kept : ℕ → Bool
kept r = loads 176 stored loaded r r || is_callee r

kept_table : all_below 31 kept ≡ true
unfolding kept stored loaded slots_from loads offset_of saved_at is_callee
kept_table = refl

state_kept : loads 176 stored ((31, 152) ∷ []) 31 31 ≡ true
unfolding stored slots_from loads offset_of saved_at
state_kept = refl

link_kept : loads 176 stored loaded 30 30 ≡ true
unfolding stored loaded slots_from loads offset_of saved_at
link_kept = refl

fits : Fits stored
unfolding stored slots_from
fits = omega arith

module _ (cpu : Cpu) where
  entered-save : (entered cpu).memory ≡ save stored (entered cpu).sp (values cpu) cpu.memory
  unfolding entered run save values update stored slots_from
  entered-save = refl

  entered_callee : (r : ℕ) → 19 ≤ r → r ≤ 29 → (entered cpu).x r ≡ cpu.x r
  unfolding entered run update
  entered_callee r h h' = ground arith

  entered_sp : (entered cpu).sp ≡ 16208
  unfolding entered run update
  entered_sp = refl

  epilogue-restore : (run epilogue cpu).x ≡ restore loaded cpu.sp cpu.memory cpu.x
  unfolding run restore update loaded slots_from
  epilogue-restore = refl

  epilogue_state :
      let word = restore ((31, 152) ∷ []) cpu.sp cpu.memory cpu.x 31 in
      ((run epilogue cpu).nzcv ≡ flags_of word)
      × ((run epilogue cpu).daif ≡ word / 2 ^ 6 % 2 ^ 4 * 2 ^ 6)
      × ((run epilogue cpu).sp ≡ cpu.sp)
  unfolding run restore update
  epilogue_state = (refl, refl, refl)

module _ (call : Cpu → Cpu) (c : IsCall call) (cpu : Cpu) where
  after_call :
      (slots : List Slot) (k r : ℕ)
      → loads 176 stored slots k r ≡ true
      → restore slots (call (entered cpu)).sp (call (entered cpu)).memory (call (entered cpu)).x r
        ≡ values cpu k
  after_call =
      loads_after call c (entered cpu) stored (values cpu) cpu.memory fits (entered-save cpu)

  start_loaded : (r : ℕ) → loads 176 stored loaded r r ≡ true → (start call cpu).x r ≡ values cpu r
  unfolding start entered
  start_loaded r h = rw (epilogue-restore (call (entered cpu))) (after_call loaded r r h)

  start_callee : (r : ℕ) → is_callee r ≡ true → (start call cpu).x r ≡ cpu.x r
  unfolding start entered is_callee
  start_callee r h =
      let left = call (entered cpu) in
      rw (epilogue-restore left)
        (ground (arith, restore-free left loaded r, c.callee (entered cpu) r, entered_callee cpu r))

  -- The boot loader starts with masks and flags in their bits and hands over to the kernel: the kernel
  -- gets `x0` to `x29`, the masks and the flags as they were, and `x30` and the stack pointer are the boot
  -- loader's stack.
  pub start_lem :
      flags_of cpu.nzcv ≡ cpu.nzcv
      → cpu.daif / 2 ^ 6 % 2 ^ 4 * 2 ^ 6 ≡ cpu.daif
      → let after = start call cpu in
        ((r : ℕ) → r < 30 → after.x r ≡ cpu.x r)
        × (after.nzcv ≡ cpu.nzcv)
        × (after.daif ≡ cpu.daif)
        × (after.x 30 ≡ 16208)
        × (after.sp ≡ 16208)
  unfolding start entered kept values
  start_lem flags masks =
      let left = call (entered cpu) in
      let (n, d, s) = epilogue_state left in
      let word = after_call ((31, 152) ∷ []) 31 31 state_kept in
      (
        λ r below. ground (
          arith,
          all_below_lem 31 kept r kept_table (omega arith),
          start_loaded r,
          start_callee r,
        ),
        rw (n, word) (omega (arith, flags, masks)),
        rw (d, word) (omega (arith, flags, masks)),
        start_loaded 30 link_kept,
        s ∙ c.stack (entered cpu) ∙ entered_sp cpu,
      )
