-- ===== src/Vm/Tables.antt =====
-- os/src/os/vm/mod.rs: page table entries, and the table of an `AddressSpace`.
pub mod Laws
use rasperry_pi_os.Prelude.{
  ℕ, zero, suc, ◌+◌, ◌-◌, ◌*◌, ◌/◌, ◌%◌, ◌^◌, ◌≤◌, ◌<◌, ◌≡◌, refl, sym, ap, ◌∙◌, ◌≢◌, ◌↔◌, ◌⊎◌, inl,
  inr, Bool, true, false, not, ◌&&◌, ◌||◌, Option, none, some, List, [], ◌∷◌, ◌++◌, map, arith, ltb,
  leb, ◌==◌, if◌then◌else◌, ltb→lt, lt→ltb, le→ltb, ltb→le, leb→le, ==_iff, ==_refl, Bool-cases,
  Option-cases, length, get_elem?, get_or, set, replicate, All, length-append, length-set,
  length-replicate, get_or-set_self, get_or-set_ne, get_or_above, get_or-replicate, All-replicate,
  All-set, All-append, All-get_or, Panic, expectation, assertion, bounds, unreachable, todo,
  unexpected, Outcome, returns, panics, ◌>>=◌, ◌>>◌, assert, expect, Outcome-cases, OnReturn-any,
  OnReturn, OnReturn->>=, OnReturn-map, OnReturn-returns, >>=-returns,
}

-- The const parameters of the only address spaces there are, `AddressSpace<16, 25>`.
abbrev pub page_bits : ℕ
page_bits = 16

abbrev pub address_bits : ℕ
address_bits = 25

pub data MemoryAttribute : Type 0 where
  normal device : MemoryAttribute

pub data Shareability : Type 0 where
  non outer inner : Shareability

-- The fields of a `PageTableEntry` that have a use.
pub record PageTableEntry : Type 0 where
  pub valid : Bool
  pub res1 : Bool
  pub memory_type : MemoryAttribute
  pub el0_accessible : Bool
  pub writeable_never : Bool
  pub shareability : Shareability
  pub access : Bool
  pub not_global : Bool
  pub pa : ℕ
  pub dirty : Bool
  pub privilege_execute_never : Bool
  pub execute_never : Bool

abbrev pub new : PageTableEntry
new = record {
  valid = false;
  res1 = false;
  memory_type = normal;
  el0_accessible = false;
  writeable_never = false;
  shareability = non;
  access = false;
  not_global = false;
  pa = 0;
  dirty = false;
  privilege_execute_never = false;
  execute_never = false;
}

-- `PageTableEntry::valid_base`. What the field `pa` keeps of a number is what the crate's `with_pa`
-- makes of it.
unfoldable pub valid_base : (ℕ → ℕ) → ℕ → Option PageTableEntry
valid_base with_pa pa =
    if ltb pa 4503599627370496
    then some (record new {
      valid = true;
      res1 = true;
      memory_type = normal;
      el0_accessible = true;
      writeable_never = true;
      shareability = inner;
      access = true;
      not_global = true;
      pa = with_pa (pa / 2 ^ 12);
      privilege_execute_never = false;
      execute_never = true;
    })
    else none

-- `PageTable`: 2^(25 - 16) entries.
abbrev pub PageTable : Type 0
PageTable = List PageTableEntry

abbrev pub table_length : ℕ
table_length = 2 ^ (address_bits - page_bits)

-- The attributes of a mapping.
pub record Attributes : Type 0 where
  pub writeable : Bool
  pub executable : Bool
  pub is_device : Bool

-- The body of the loop of `map_range`, with the sums of `u64`s wrapped around.
unfoldable pub map_page : (ℕ → ℕ) → ℕ → ℕ → Attributes → ℕ → PageTable → Outcome PageTable
map_page with_pa va pa attributes offset table = do
  let index = (va + offset) % 2 ^ 64 / 2 ^ page_bits
  base ← expect (valid_base with_pa ((pa + offset) % 2 ^ 64))
  let entry = record base {
    writeable_never = not attributes.writeable;
    execute_never = not attributes.executable;
    memory_type = if attributes.is_device then device else normal;
  }
  if ltb index (length table) then returns (set table index entry) else panics expectation

-- The loop over the offsets, of which there are `count` more.
unfoldable pub map_pages : (ℕ → ℕ) → ℕ → ℕ → Attributes → ℕ → ℕ → PageTable → Outcome PageTable
map_pages with_pa va pa attributes zero offset table = returns table
map_pages with_pa va pa attributes (suc count) offset table =
    map_page with_pa va pa attributes offset table >>= λ table'.
    map_pages with_pa va pa attributes count (offset + 2 ^ page_bits) table'

-- How many offsets `(0..size).step_by(1 << PAGE_BITS)` has.
abbrev pub page_count : ℕ → ℕ
page_count size = (size + (2 ^ page_bits - 1)) / 2 ^ page_bits

-- `AddressSpace::map_range`
unfoldable pub map_range : (ℕ → ℕ) → ℕ → ℕ → ℕ → Attributes → PageTable → Outcome PageTable
map_range with_pa va pa size attributes table =
    map_pages with_pa va pa attributes (page_count size) 0 table
