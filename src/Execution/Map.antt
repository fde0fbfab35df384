-- ===== src/Execution/Map.antt =====
-- ExecutionMap of os/src/bin/kernel/execution/execution_map.rs: the executions by their PID. The
-- clone and the drop of an execution change the counts of its pages, so `fork` is given the page
-- allocator and returns it.
pub mod Laws
pub mod Total
pub mod Clones
use rasperry_pi_os.Prelude.{
  ℕ, zero, suc, ◌+◌, ◌-◌, ◌*◌, ◌/◌, ◌%◌, ◌^◌, ◌≤◌, ◌<◌, ◌≡◌, refl, sym, ap, ◌∙◌, ◌≢◌, ◌↔◌, ◌⊎◌, inl,
  inr, Bool, true, false, not, ◌&&◌, ◌||◌, Option, none, some, List, [], ◌∷◌, ◌++◌, map, arith, ltb,
  leb, ◌==◌, if◌then◌else◌, ltb→lt, lt→ltb, le→ltb, ltb→le, leb→le, ==_iff, ==_refl, Bool-cases,
  Option-cases, length, get_elem?, get_or, set, replicate, All, length-append, length-set,
  length-replicate, get_or-set_self, get_or-set_ne, get_or_above, get_or-replicate, All-replicate,
  All-set, All-append, All-get_or, Panic, expectation, assertion, bounds, unreachable, todo,
  Outcome, returns, panics, ◌>>=◌, ◌>>◌, assert, expect, Outcome-cases, OnReturn-any, OnReturn,
  OnReturn->>=, OnReturn-map, OnReturn-returns, >>=-returns,
}
use rasperry_pi_os.Memory.Allocator.{PageAllocator, add_ref, remove_ref}
use rasperry_pi_os.Execution.{Execution, new}

abbrev pub ExecutionMap : Type 0
ExecutionMap = List (Option Execution)

pub data ForkError : Type 0 where
  no_mem no_pid src_not_valid : ForkError

-- `Ok(pid)` and `Err(pid)` of `find_available_pid`.
pub data Slot : Type 0 where
  vacant : ℕ → Slot
  past_end : ℕ → Slot

unfoldable pub vacant_index : ExecutionMap → Option ℕ
vacant_index [] = none
vacant_index (none ∷ m) = some 0
vacant_index (some e ∷ m) = elim (vacant_index m) [ none ↦ none | some i ↦ some (i + 1) ]

-- `u16::try_from(id)`, and its `expect` or `unwrap`.
abbrev pub to_u16 : ℕ → Outcome ℕ
to_u16 n = if ltb n (2 ^ 16) then returns n else panics expectation

unfoldable pub find_available_pid : ExecutionMap → Outcome Slot
unfolding vacant_index
find_available_pid m = elim (vacant_index m) [
  | some id ↦ do pid ← to_u16 id; returns (vacant pid)
  | none ↦ do pid ← to_u16 (length m); returns (past_end pid)
]

abbrev pub slot_pid : Slot → ℕ
slot_pid (vacant pid) = pid
slot_pid (past_end pid) = pid

-- `self.0[pid] = Some(e)`, which panics out of bounds, or `self.0.push(Some(e))`.
abbrev pub put : ExecutionMap → Slot → Execution → Outcome ExecutionMap
put m (vacant pid) e = if ltb pid (length m) then returns (set m pid (some e)) else panics bounds
put m (past_end pid) e = returns (m ++ some e ∷ [])

unfoldable pub create : ExecutionMap → ℕ → ℕ → ℕ → Outcome (ℕ × ExecutionMap)
create m tcr_el1 ttbr0 user_context = do
  slot ← find_available_pid m
  m' ← put m slot (new tcr_el1 ttbr0 user_context (slot_pid slot))
  returns (slot_pid slot, m')

abbrev pub get : ExecutionMap → ℕ → Option Execution
get m pid = get_or m pid none

-- `Option::take` at the index, if it is in bounds.
abbrev pub remove : ExecutionMap → ℕ → Option Execution × ExecutionMap
remove m pid = (get m pid, set m pid none)

-- The clone of a `Vec` of pages counts each of them once more; its drop counts each once less.
unfoldable pub clone_pages : PageAllocator → List ℕ → Outcome PageAllocator
clone_pages a [] = returns a
clone_pages a (page ∷ pages) = add_ref a page >>= λ a'. clone_pages a' pages

unfoldable pub drop_pages : PageAllocator → List ℕ → Outcome PageAllocator
drop_pages a [] = returns a
drop_pages a (page ∷ pages) = remove_ref a page >>= λ a'. drop_pages a' pages

-- `Execution::clone` and the drop of an execution, as far as they touch anything else.
unfoldable pub clone_execution : PageAllocator → Execution → Outcome PageAllocator
clone_execution a e = clone_pages a e.writeable_pages >>= λ a'. clone_pages a' e.readable_pages

unfoldable pub drop_execution : PageAllocator → Execution → Outcome PageAllocator
drop_execution a e = drop_pages a e.writeable_pages >>= λ a'. drop_pages a' e.readable_pages

unfoldable pub fork :
    PageAllocator → ExecutionMap → ℕ → Outcome ((ℕ × PageAllocator × ExecutionMap) ⊎ ForkError)
fork a m src_pid = elim (get m src_pid) [
  | none ↦ returns (inr src_not_valid)
  | some src_exec ↦ do
    slot ← find_available_pid m
    a' ← clone_execution a src_exec
    m' ← put m slot (record src_exec { pid = slot_pid slot })
    returns (inl (slot_pid slot, a', m'))
]
