-- ===== src/Assembly/Call.antt =====
-- A call between the stores of registers and their loads.
use rasperry_pi_os.Prelude.{ℕ, ◌≤◌, ◌<◌, ◌≡◌, refl, true, none, List, arith}
use rasperry_pi_os.Assembly.{Cpu, address}
use rasperry_pi_os.Assembly.Save.{
  Slot, Fits, save, restore, restore_lem, offset_of, loads, restore-save,
}

-- A function of the C ABI: it gives back the stack pointer, `x19` to `x29` and its caller's frame, of
-- which there are 176 bytes at most here.
pub record IsCall (call : Cpu → Cpu) : Type 0 where
  pub stack : (c : Cpu) → (call c).sp ≡ c.sp
  pub callee : (c : Cpu) (r : ℕ) → 19 ≤ r → r ≤ 29 → (call c).x r ≡ c.x r
  pub frame :
      (c : Cpu) (o : ℕ) → o < 176 → (call c).memory (address c.sp o) ≡ c.memory (address c.sp o)

module _ (call : Cpu → Cpu) (c : IsCall call) (entered : Cpu) (stores : List Slot)
    (values memory : ℕ → ℕ) (fits : Fits stores)
    (stored : entered.memory ≡ save stores entered.sp values memory) where
  frame_lem :
      (o : ℕ)
      → o < 176
      → (call entered).memory (address (call entered).sp o)
        ≡ save stores entered.sp values memory (address entered.sp o)
  frame_lem o h = cc (stored, c.stack entered, c.frame entered o h)

  -- A register that is loaded after the call from where register `k` was stored has its value.
  pub loads_after :
      (slots : List Slot) (k r : ℕ)
      → loads 176 stores slots k r ≡ true
      → restore slots (call entered).sp (call entered).memory (call entered).x r ≡ values k
  loads_after slots k r h = rw (c.stack entered) (
      restore-save 176 stores slots entered.sp values memory (call entered).memory (call entered).x
        k r fits (omega arith) (λ o below. rw (c.stack entered) at (frame_lem o below)) h)

-- A register that is not loaded is as the call left it.
pub restore-free :
    (cpu : Cpu) (slots : List Slot) (r : ℕ)
    → offset_of r slots ≡ none
    → restore slots cpu.sp cpu.memory cpu.x r ≡ cpu.x r
restore-free cpu slots r free = rw (restore_lem slots cpu.sp cpu.memory cpu.x r) (rw free refl)
