-- ===== src/Bootloader/Entry.antt =====
-- The entry of bootloader-loader/src/main.rs. `call` is what stands between the stores and the loads: the
-- loader moves its code, and `main` loads a kernel.
pub mod Laws
use rasperry_pi_os.Prelude.{List, [], ◌∷◌}
use rasperry_pi_os.Assembly.{
  Cpu, Instruction, stp, ldp, mrs_nzcv, msr_nzcv, mov_to_sp, mrs_daif, msr_daif, mask_daif, mov,
  orr, run,
}

abbrev pub prologue : List Instruction
prologue =
    mov 30 16208
    ∷ mov_to_sp 30
    ∷ stp 0 1 0
    ∷ mrs_daif 0
    ∷ mask_daif
    ∷ mrs_nzcv 1
    ∷ orr 0 1
    ∷ stp 2 3 16
    ∷ stp 4 5 32
    ∷ stp 6 7 48
    ∷ stp 8 9 64
    ∷ stp 10 11 80
    ∷ stp 12 13 96
    ∷ stp 14 15 112
    ∷ stp 16 17 128
    ∷ stp 18 0 144
    ∷ stp 29 30 160
    ∷ []

abbrev pub epilogue : List Instruction
epilogue =
    ldp 2 3 16
    ∷ ldp 4 5 32
    ∷ ldp 6 7 48
    ∷ ldp 8 9 64
    ∷ ldp 10 11 80
    ∷ ldp 12 13 96
    ∷ ldp 14 15 112
    ∷ ldp 16 17 128
    ∷ ldp 18 0 144
    ∷ ldp 29 30 160
    ∷ msr_daif 0
    ∷ msr_nzcv 0
    ∷ ldp 0 1 0
    ∷ []

-- `_start`, up to the branch to the new kernel.
unfoldable pub start : (Cpu → Cpu) → Cpu → Cpu
start call cpu = run epilogue (call (run prologue cpu))
