-- ===== src/UserLibrary/Context.antt =====
-- The assembly of user/src/runtime/exception.rs: the entry of all exceptions, and what it does when the
-- program is preempted and when it resumes. `call` is the call of `general_handler`.
pub mod Resume
pub mod Handler
use rasperry_pi_os.Prelude.{◌%◌, List, [], ◌∷◌, ◌==◌, if◌then◌else◌}
use rasperry_pi_os.Assembly.{
  Cpu, Instruction, stp, ldp, stp_before, ldp_after, mrs_nzcv, msr_nzcv, mov_from_sp, mov_to_sp,
  ldr_sp, adr_sp, str, cmp, run,
}

-- `preemption`
abbrev pub preemption : List Instruction
preemption =
    ldp_after 0 1 16
    ∷ stp_before 0 1 256
    ∷ stp 2 3 16
    ∷ stp 4 5 32
    ∷ stp 6 7 48
    ∷ stp 8 9 64
    ∷ stp 10 11 80
    ∷ stp 12 13 96
    ∷ stp 14 15 112
    ∷ stp 16 17 128
    ∷ stp 18 19 144
    ∷ stp 20 21 160
    ∷ stp 22 23 176
    ∷ stp 24 25 192
    ∷ stp 26 27 208
    ∷ mrs_nzcv 27
    ∷ stp 28 27 224
    ∷ stp 29 30 240
    ∷ mov_from_sp 0
    ∷ adr_sp 1
    ∷ str 0
    ∷ []

-- The loads of `resumption`.
abbrev pub loads_all : List Instruction
loads_all =
    ldp 2 3 16
    ∷ ldp 4 5 32
    ∷ ldp 6 7 48
    ∷ ldp 8 9 64
    ∷ ldp 10 11 80
    ∷ ldp 12 13 96
    ∷ ldp 14 15 112
    ∷ ldp 16 17 128
    ∷ ldp 18 19 144
    ∷ ldp 20 21 160
    ∷ ldp 22 23 176
    ∷ ldp 24 25 192
    ∷ ldp 26 27 208
    ∷ ldp 28 29 224
    ∷ msr_nzcv 29
    ∷ ldp 29 30 240
    ∷ ldp_after 0 1 256
    ∷ []

unfoldable pub resumption : Cpu → Cpu
resumption cpu =
    let at = if cpu.x 1 == 0 then cpu else run (mov_to_sp 1 ∷ []) cpu in run loads_all at

abbrev pub handler_stores : List Instruction
handler_stores =
    stp_before 20 30 160
    ∷ stp 2 3 16
    ∷ stp 4 5 32
    ∷ stp 6 7 48
    ∷ stp 8 9 64
    ∷ stp 10 11 80
    ∷ stp 12 13 96
    ∷ stp 14 15 112
    ∷ stp 16 17 128
    ∷ mrs_nzcv 17
    ∷ stp 18 17 144
    ∷ []

abbrev pub handler_loads : List Instruction
handler_loads =
    msr_nzcv 17
    ∷ ldp 16 17 128
    ∷ ldp 14 15 112
    ∷ ldp 12 13 96
    ∷ ldp 10 11 80
    ∷ ldp 8 9 64
    ∷ ldp 6 7 48
    ∷ ldp 4 5 32
    ∷ ldp 2 3 16
    ∷ ldp_after 20 30 160
    ∷ []

module _ (call : Cpu → Cpu) where
  -- The part of `_exception_handler` from its label on.
  unfoldable pub handle_exception : Cpu → Cpu
  handle_exception cpu = run handler_loads (call (run handler_stores cpu))

  -- `_exception_handler`, up to the `svc` that ends each of its paths.
  unfoldable pub exception_handler : Cpu → Cpu
  exception_handler cpu =
      if cpu.x 0 == 0
      then run preemption cpu
      else if cpu.x 0 % 2 == 0
      then handle_exception cpu
      else let saved = run (ldr_sp 2 ∷ mov_to_sp 2 ∷ cmp 0 1 ∷ []) cpu in
        if cpu.x 0 == 1 then resumption saved else handle_exception saved
