-- ===== src/Assembly/Save.antt =====
-- What is read back from a save area, whatever the order of the stores and of the loads.
use rasperry_pi_os.Prelude.{
  ℕ, zero, suc, ◌+◌, ◌*◌, ◌^◌, ◌≤◌, ◌<◌, ◌≡◌, refl, inl, inr, Bool, true, false, ◌&&◌, Option, none,
  some, List, [], ◌∷◌, arith, ltb, ◌==◌, if◌then◌else◌, Option-cases, All,
}
use rasperry_pi_os.Assembly.{update, address}

-- A register, and the offset of its place.
abbrev pub Slot : Type 0
Slot = ℕ × ℕ

-- A number of registers from one on, each at 8 times its number.
unfoldable pub slots_from : ℕ → ℕ → List Slot
slots_from r zero = []
slots_from r (suc n) = (r, 8 * r) ∷ slots_from (r + 1) n

unfoldable pub save : List Slot → ℕ → (ℕ → ℕ) → (ℕ → ℕ) → ℕ → ℕ
unfolding update address
save [] base values memory = memory
save ((r, offset) ∷ slots) base values memory =
    save slots base values (update memory (address base offset) (values r))

unfoldable pub restore : List Slot → ℕ → (ℕ → ℕ) → (ℕ → ℕ) → ℕ → ℕ
unfolding update address
restore [] base memory x = x
restore ((r, offset) ∷ slots) base memory x =
    restore slots base memory (update x r (memory (address base offset)))

-- Where a register is loaded from last, and what is stored at an offset last.
unfoldable pub offset_of : ℕ → List Slot → Option ℕ
offset_of r [] = none
offset_of r ((k, offset) ∷ slots) = elim (offset_of r slots) [
  | some o ↦ some o
  | none ↦ if r == k then some offset else none
]

unfoldable pub saved_at : ℕ → List Slot → Option ℕ
saved_at o [] = none
saved_at o ((k, offset) ∷ slots) = elim (saved_at o slots) [
  | some r ↦ some r
  | none ↦ if o == offset then some k else none
]

abbrev pub Fits : List Slot → Type 0
Fits slots = All (λ ((_, offset) : Slot). offset < 2 ^ 64) slots

address-== :
    (base o o' : ℕ) → o < 2 ^ 64 → o' < 2 ^ 64 → (address base o == address base o') ≡ (o == o')
unfolding address
address-== base o o' h h' = ground arith

-- A register that is loaded has what its place holds, and any other is unchanged.
pub restore_lem :
    (slots : List Slot) (base : ℕ) (memory x : ℕ → ℕ) (r : ℕ)
    → restore slots base memory x r
      ≡ elim (offset_of r slots) [ some o ↦ memory (address base o) | none ↦ x r ]
unfolding restore offset_of update
restore_lem [] base memory x r = refl
restore_lem ((k, offset) ∷ slots) base memory x r =
    ground (arith, restore_lem slots base memory (update x k (memory (address base offset))) r)

-- A place that is stored to has the register stored there last, and any other is unchanged.
pub save_lem :
    (slots : List Slot) (base : ℕ) (values memory : ℕ → ℕ) (o : ℕ)
    → Fits slots
    → o < 2 ^ 64
    → save slots base values memory (address base o)
      ≡ elim (saved_at o slots) [ some r ↦ values r | none ↦ memory (address base o) ]
unfolding save saved_at update
save_lem [] base values memory o h fits = refl
save_lem ((k, offset) ∷ slots) base values memory o h fits =
    let memory' = update memory (address base offset) (values k) in
    ground (arith, save_lem slots base values memory' o h.1 fits, address-== base o offset fits h.0)

-- Whether a register is loaded from a place, below a size, where a register `k` was stored last.
unfoldable pub loads : ℕ → List Slot → List Slot → ℕ → ℕ → Bool
loads size stores slots k r = elim (offset_of r slots) [
  | none ↦ false
  | some o ↦ elim (saved_at o stores) [ none ↦ false | some i ↦ ltb o size && i == k ]
]

-- So it has that register's value, where the area still holds what was stored in it.
pub restore-save :
    (size : ℕ) (stores slots : List Slot) (base : ℕ) (values memory memory' x : ℕ → ℕ) (k r : ℕ)
    → Fits stores
    → size ≤ 2 ^ 64
    → ((o : ℕ)
        → o < size
        → memory' (address base o) ≡ save stores base values memory (address base o))
    → loads size stores slots k r ≡ true
    → restore slots base memory' x r ≡ values k
unfolding loads
restore-save size stores slots base values memory memory' x k r fits bound same h =
    elim (Option-cases (offset_of r slots)) [
      | inl e ↦ ground (arith, e)
      | inr (o, e) ↦ ground (
        arith,
        e,
        same o,
        restore_lem slots base memory' x r,
        save_lem stores base values memory o fits,
      )
    ]

-- A test of every number below a bound.
abbrev pub all_below : ℕ → (ℕ → Bool) → Bool
all_below zero test = true
all_below (suc n) test = test n && all_below n test

pub all_below_lem :
    (n : ℕ) (test : ℕ → Bool) (i : ℕ) → all_below n test ≡ true → i < n → test i ≡ true
all_below_lem zero test i all below = absurd (omega arith)
all_below_lem (suc n) test i all below = ground (arith, all_below_lem n test i)
