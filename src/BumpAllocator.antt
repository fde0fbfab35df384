-- ===== src/BumpAllocator.antt =====
-- The kernel's heap, os/src/bin/kernel/bump_allocator.rs (user/src/bump_allocator.rs is the same).
-- Addresses are those of a 64-bit `usize`, and additions wrap.
pub mod Laws
use rasperry_pi_os.Prelude.{
  ℕ, zero, suc, ◌+◌, ◌-◌, ◌*◌, ◌/◌, ◌%◌, ◌^◌, ◌≤◌, ◌<◌, ◌≡◌, refl, sym, ap, ◌∙◌, ◌≢◌, ◌↔◌, ◌⊎◌, inl,
  inr, Bool, true, false, not, ◌&&◌, ◌||◌, Option, none, some, List, [], ◌∷◌, ◌++◌, map, arith, ltb,
  leb, ◌==◌, if◌then◌else◌, ltb→lt, lt→ltb, le→ltb, ltb→le, leb→le, ==_iff, ==_refl, Bool-cases,
  Option-cases, length, get_elem?, get_or, set, replicate, All, length-append, length-set,
  length-replicate, get_or-set_self, get_or-set_ne, get_or_above, get_or-replicate, All-replicate,
  All-set, All-append, All-get_or, Panic, expectation, assertion, bounds, unreachable, todo,
  unexpected, Outcome, returns, panics, ◌>>=◌, ◌>>◌, assert, expect, Outcome-cases, OnReturn-any,
  OnReturn, OnReturn->>=, OnReturn-map, OnReturn-returns, >>=-returns,
}

pub record BumpAllocator : Type 0 where
  pub pointer : ℕ
  pub bound : ℕ

abbrev pub empty : BumpAllocator
empty = record { pointer = 0; bound = 0 }

-- The allocator that `set` leaves for the memory from `start` to `end`.
abbrev pub set_memory : ℕ → ℕ → BumpAllocator
set_memory start end = record { pointer = start; bound = end }

-- `next_multiple_of`
unfoldable pub align_to : ℕ → ℕ → ℕ
align_to pointer alignment =
    if pointer % alignment == 0
    then pointer
    else (pointer + (alignment - pointer % alignment)) % 2 ^ 64

-- `allocate` of a layout's size and alignment: the address of the block, if there is one. A layout
-- of size 0 gets its dangling pointer, which is its alignment.
unfoldable pub allocate : BumpAllocator → ℕ → ℕ → Option ℕ × BumpAllocator
unfolding align_to
allocate a size align =
    let base_pointer = align_to a.pointer align in
    let final_pointer = (base_pointer + size) % 2 ^ 64 in
    if size == 0
    then (some align, a)
    else if leb final_pointer a.bound
    then (
      (if base_pointer == 0 then none else some base_pointer),
      record a { pointer = final_pointer },
    )
    else (none, a)

-- The blocks that a list of requests gets in turn, each with its size. `deallocate` gives nothing back.
unfoldable pub allocate_all : BumpAllocator → List (ℕ × ℕ) → List (ℕ × ℕ)
allocate_all a [] = []
allocate_all a ((size, align) ∷ layouts) =
    let rest = allocate_all (allocate a size align).1 layouts in
    elim (allocate a size align).0 [ none ↦ rest | some base ↦ (base, size) ∷ rest ]
