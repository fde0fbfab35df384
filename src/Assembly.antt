-- ===== src/Assembly.antt =====
-- The instructions that the assembly of user/src/runtime/exception.rs, os/src/bin/init/exception.rs and
-- bootloader-loader/src/main.rs saves and restores registers with. A word of the memory has 64 bits and
-- its address is a multiple of 8, as the stack pointer is where the processor checks it. The static `SP`
-- is a place of its own.
pub mod Call
pub mod Save
use rasperry_pi_os.Prelude.{
  ℕ, ◌+◌, ◌-◌, ◌*◌, ◌/◌, ◌%◌, ◌^◌, ◌||◌, List, [], ◌∷◌, leb, ◌==◌, if◌then◌else◌,
}

-- Registers `x0` to `x30` by their number, the condition flags and the interrupt masks as `mrs` gives
-- them, and what a `ldr` of `SP` reads.
pub record Cpu : Type 0 where
  pub x : ℕ → ℕ
  pub sp : ℕ
  pub nzcv : ℕ
  pub daif : ℕ
  pub memory : ℕ → ℕ
  pub saved_sp : ℕ
  pub sp_address : ℕ

-- `mov_from_sp a` is `mov xa, sp`, and `mov_to_sp a` is `mov sp, xa`. `stp_before` is the form with a
-- negative offset that is written back first, and `ldp_after` that with an offset added at the end.
pub data Instruction : Type 0 where
  stp ldp : ℕ → ℕ → ℕ → Instruction
  stp_before ldp_after : ℕ → ℕ → ℕ → Instruction
  mrs_nzcv msr_nzcv mov_from_sp mov_to_sp ldr_sp adr_sp : ℕ → Instruction
  str : ℕ → Instruction
  cmp : ℕ → ℕ → Instruction
  mrs_daif msr_daif : ℕ → Instruction
  mask_daif : Instruction
  mov orr : ℕ → ℕ → Instruction

unfoldable pub update : (ℕ → ℕ) → ℕ → ℕ → ℕ → ℕ
update f i v = λ j. if j == i then v else f j

unfoldable pub address : ℕ → ℕ → ℕ
address base offset = (base + offset) % 2 ^ 64

unfoldable pub store_pair : Cpu → ℕ → ℕ → ℕ → Cpu
store_pair cpu a b offset = record cpu {
  memory =
      update (update cpu.memory (address cpu.sp offset) (cpu.x a)) (address cpu.sp (offset + 8))
        (cpu.x b);
}

unfoldable pub load_pair : Cpu → ℕ → ℕ → ℕ → Cpu
load_pair cpu a b offset = record cpu {
  x =
      update (update cpu.x a (cpu.memory (address cpu.sp offset))) b
        (cpu.memory (address cpu.sp (offset + 8)));
}

-- The condition flags in a word.
abbrev pub flags_of : ℕ → ℕ
flags_of word = word / 2 ^ 28 % 2 ^ 4 * 2 ^ 28

-- The flags N, Z, C and V of a comparison with a constant.
unfoldable pub cmp_flags : ℕ → ℕ → ℕ
cmp_flags a n =
    let difference = (a + 2 ^ 64 - n) % 2 ^ 64 in
    let negative = difference / 2 ^ 63 in
    let zero_flag = if a == n then 1 else 0 in
    let carry = if leb n a then 1 else 0 in
    let overflow = if a / 2 ^ 63 == n / 2 ^ 63 || a / 2 ^ 63 == negative then 0 else 1 in
    negative * 2 ^ 31 + zero_flag * 2 ^ 30 + carry * 2 ^ 29 + overflow * 2 ^ 28

-- `mov a n` is of a constant, and `orr a b` is `orr xa, xa, xb` of words with no bit in common.
-- `ldr_sp`, `adr_sp` and `str` are the accesses to `SP`, whose address is in a register for `str`.
unfoldable pub execute : Instruction → Cpu → Cpu
unfolding update address store_pair load_pair cmp_flags
execute (stp a b offset) cpu = store_pair cpu a b offset
execute (ldp a b offset) cpu = load_pair cpu a b offset
execute (stp_before a b amount) cpu =
    store_pair (record cpu { sp = address cpu.sp (2 ^ 64 - amount) }) a b 0
execute (ldp_after a b amount) cpu =
    let cpu' = load_pair cpu a b 0 in record cpu' { sp = address cpu.sp amount }
execute (mrs_nzcv a) cpu = record cpu { x = update cpu.x a cpu.nzcv }
execute (msr_nzcv a) cpu = record cpu { nzcv = flags_of (cpu.x a) }
execute (mov_from_sp a) cpu = record cpu { x = update cpu.x a cpu.sp }
execute (mov_to_sp a) cpu = record cpu { sp = cpu.x a }
execute (ldr_sp a) cpu = record cpu { x = update cpu.x a cpu.saved_sp }
execute (adr_sp a) cpu = record cpu { x = update cpu.x a cpu.sp_address }
execute (cmp a n) cpu = record cpu { nzcv = cmp_flags (cpu.x a) n }
execute (mrs_daif a) cpu = record cpu { x = update cpu.x a cpu.daif }
execute (msr_daif a) cpu = record cpu { daif = cpu.x a / 2 ^ 6 % 2 ^ 4 * 2 ^ 6 }
execute mask_daif cpu = record cpu { daif = 960 }
execute (mov a n) cpu = record cpu { x = update cpu.x a n }
execute (orr a b) cpu = record cpu { x = update cpu.x a (cpu.x a + cpu.x b) }
execute (str a) cpu = record cpu { saved_sp = cpu.x a }

unfoldable pub run : List Instruction → Cpu → Cpu
unfolding execute
run [] cpu = cpu
run (i ∷ is) cpu = run is (execute i cpu)
