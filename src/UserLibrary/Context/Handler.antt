-- ===== src/UserLibrary/Context/Handler.antt =====
-- What a program that takes a page fault or a signal has after its handler.
use rasperry_pi_os.Prelude.{
  ℕ, zero, suc, ◌-◌, ◌^◌, ◌≤◌, ◌<◌, ◌≡◌, refl, ◌∙◌, ◌≢◌, Bool, true, false, ◌&&◌, ◌||◌, not, ◌%◌,
  none, some, List, [], ◌∷◌, ◌++◌, arith, ltb, leb, ◌==◌, if◌then◌else◌,
}
use rasperry_pi_os.Assembly.Call.{IsCall, loads_after, restore-free}
use rasperry_pi_os.Assembly.{flags_of, Cpu, update, address, run, ldr_sp, mov_to_sp, cmp}
use rasperry_pi_os.Assembly.Save.{
  Slot, slots_from, Fits, save, restore, loads, all_below, all_below_lem, offset_of, saved_at,
}
use rasperry_pi_os.UserLibrary.Context.{
  handler_stores, handler_loads, handle_exception, exception_handler,
}

-- The registers on entry, with the flags as register 31.
values : Cpu → ℕ → ℕ
values cpu r = if r == 31 then cpu.nzcv else cpu.x r

abbrev stored : List Slot
unfolding slots_from
stored = (20, 0) ∷ (30, 8) ∷ slots_from 2 17 ++ (31, 152) ∷ []

abbrev loaded : List Slot
loaded =
    (16, 128)
    ∷ (17, 136)
    ∷ (14, 112)
    ∷ (15, 120)
    ∷ (12, 96)
    ∷ (13, 104)
    ∷ (10, 80)
    ∷ (11, 88)
    ∷ (8, 64)
    ∷ (9, 72)
    ∷ (6, 48)
    ∷ (7, 56)
    ∷ (4, 32)
    ∷ (5, 40)
    ∷ (2, 16)
    ∷ (3, 24)
    ∷ (20, 0)
    ∷ (30, 8)
    ∷ []

abbrev frame_of : Cpu → ℕ
frame_of cpu = address cpu.sp (2 ^ 64 - 160)

-- The registers and the memory when the handler is called.
unfoldable pub entered : Cpu → Cpu
entered cpu = run handler_stores cpu

is_callee : ℕ → Bool
is_callee r = elim (offset_of r loaded) [ some o ↦ false | none ↦ leb 19 r && leb r 29 ]

kept : ℕ → Bool
kept r = ltb r 2 || r == 18 || loads 176 stored loaded r r || is_callee r

kept_table : all_below 31 kept ≡ true
unfolding kept stored loads offset_of saved_at is_callee
kept_table = refl

fits : Fits stored
unfolding stored
fits = omega arith

module _ (cpu : Cpu) where
  entered-save : (entered cpu).memory ≡ save stored (entered cpu).sp (values cpu) cpu.memory
  unfolding entered run save values update stored
  entered-save = refl

  entered_sp : (entered cpu).sp ≡ frame_of cpu
  unfolding entered run
  entered_sp = refl

  entered_callee : (r : ℕ) → 19 ≤ r → (entered cpu).x r ≡ cpu.x r
  unfolding entered run update
  entered_callee r h = ground arith

  loads-restore : (run handler_loads cpu).x ≡ restore loaded cpu.sp cpu.memory cpu.x
  unfolding run restore update
  loads-restore = refl

  loads_nzcv : (run handler_loads cpu).nzcv ≡ flags_of (cpu.x 17)
  unfolding run
  loads_nzcv = refl

  loads_sp : (run handler_loads cpu).sp ≡ address cpu.sp 160
  unfolding run
  loads_sp = refl

frame_end : (cpu : Cpu) → cpu.sp < 2 ^ 64 → address (frame_of cpu) 160 ≡ cpu.sp
unfolding address
frame_end cpu h = omega arith

low_free : (r : ℕ) → r < 2 → offset_of r loaded ≡ none
unfolding offset_of
low_free zero h = refl
low_free (suc zero) h = refl
low_free (suc (suc r)) h = absurd (omega arith)

x18_free : offset_of 18 loaded ≡ none
unfolding offset_of
x18_free = refl

module _ (call : Cpu → Cpu) (c : IsCall call) (cpu : Cpu) where
  keeps_free :
      (r : ℕ)
      → offset_of r loaded ≡ none
      → (handle_exception call cpu).x r ≡ (call (entered cpu)).x r
  unfolding handle_exception entered
  keeps_free r free =
      let left = call (entered cpu) in rw (loads-restore left) (restore-free left loaded r free)

  keeps_loaded :
      (r : ℕ)
      → r < 31
      → loads 176 stored loaded r r ≡ true
      → (handle_exception call cpu).x r ≡ cpu.x r
  unfolding handle_exception entered values
  keeps_loaded r below h =
      let stays =
        loads_after call c (entered cpu) stored (values cpu) cpu.memory fits (entered-save cpu)
          loaded r r h in
      rw (loads-restore (call (entered cpu))) (ground (arith, stays))

  keeps_callee : (r : ℕ) → is_callee r ≡ true → (handle_exception call cpu).x r ≡ cpu.x r
  unfolding is_callee
  keeps_callee r h = ground (arith, keeps_free r, c.callee (entered cpu) r, entered_callee cpu r)

  -- From the label on.
  handle_exception_lem :
      cpu.sp < 2 ^ 64
      → let after = handle_exception call cpu in
        let left = call (entered cpu) in
        ((r : ℕ) → 2 ≤ r → r < 31 → r ≢ 18 → after.x r ≡ cpu.x r)
        × (after.sp ≡ cpu.sp)
        × ((r : ℕ) → r < 2 → after.x r ≡ left.x r)
        × (after.x 18 ≡ left.x 18)
        × (after.nzcv ≡ flags_of (left.x 17))
  unfolding kept entered handle_exception
  handle_exception_lem small =
      let left = call (entered cpu) in
      (
        λ r low below ne.
            ground (
              arith,
              all_below_lem 31 kept r kept_table below,
              keeps_loaded r below,
              keeps_callee r,
            ),
        rw (loads_sp left) (rw (c.stack (entered cpu) ∙ entered_sp cpu) (frame_end cpu small)),
        λ r low. keeps_free r (low_free r low),
        keeps_free 18 x18_free,
        loads_nzcv left,
      )

-- What the handler of exceptions is called with for a code: one that is odd first takes the stack pointer
-- from the static `SP`, through `x2`.
unfoldable pub switched : Cpu → Cpu
switched cpu = if cpu.x 0 % 2 == 0 then cpu else run (ldr_sp 2 ∷ mov_to_sp 2 ∷ cmp 0 1 ∷ []) cpu

module _ (cpu : Cpu) where
  switched_x :
      (r : ℕ)
      → (switched cpu).x r ≡ (if r == 2 && not (cpu.x 0 % 2 == 0) then cpu.saved_sp else cpu.x r)
  unfolding switched run update
  switched_x r = ground arith

  switched_sp : (switched cpu).sp ≡ (if cpu.x 0 % 2 == 0 then cpu.sp else cpu.saved_sp)
  unfolding switched run update
  switched_sp = ground arith

  exception_handler-switched :
      (call : Cpu → Cpu)
      → cpu.x 0 ≢ 0
      → cpu.x 0 ≢ 1
      → exception_handler call cpu ≡ handle_exception call (switched cpu)
  unfolding exception_handler switched
  exception_handler-switched call some_code other = ground (arith, some_code, other)

-- A program takes a page fault, a signal, or any code but 0 and 1, and calls a handler of the C ABI that
-- returns. Afterwards `x3` to `x30` but for `x18` are what they were, `x0` and `x1` are the handler's
-- results, `x18` is what it left there, and the flags are those bits of what it left in `x17`. For an even
-- code `x2` and the stack pointer are what they were, too; for an odd one, like that of a signal, both are
-- the static `SP`.
pub exception_handler_lem :
    (call : Cpu → Cpu) (cpu : Cpu)
    → IsCall call
    → cpu.x 0 ≢ 0
    → cpu.x 0 ≢ 1
    → cpu.sp < 2 ^ 64
    → cpu.saved_sp < 2 ^ 64
    → let after = exception_handler call cpu in
      let left = call (entered (switched cpu)) in
      ((r : ℕ) → 3 ≤ r → r < 31 → r ≢ 18 → after.x r ≡ cpu.x r)
      × (after.x 2 ≡ (if cpu.x 0 % 2 == 0 then cpu.x 2 else cpu.saved_sp))
      × (after.sp ≡ (if cpu.x 0 % 2 == 0 then cpu.sp else cpu.saved_sp))
      × ((r : ℕ) → r < 2 → after.x r ≡ left.x r)
      × (after.x 18 ≡ left.x 18)
      × (after.nzcv ≡ flags_of (left.x 17))
exception_handler_lem call cpu c some_code other small saved =
    let at = switched cpu in
    let path = exception_handler-switched cpu call some_code other in
    let fits_at : at.sp < 2 ^ 64 = rw (switched_sp cpu) (ground (arith, small, saved)) in
    let (registers, top, results, x18, flags) = handle_exception_lem call c at fits_at in
    rw path (
      λ r low below ne. registers r (omega arith) below ne ∙ switched_x cpu r ∙ ground arith,
      registers 2 (omega arith) (omega arith) (omega arith) ∙ switched_x cpu 2 ∙ ground arith,
      top ∙ switched_sp cpu,
      results,
      x18,
      flags,
    )
