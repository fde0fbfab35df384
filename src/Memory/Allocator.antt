-- ===== src/Memory/Allocator.antt =====
-- PageAllocator of os/src/bin/kernel/memory/mod.rs: all regions of physical memory. The kernel's
-- global `PAGE_ALLOCATOR` is the state that these operations are given and return.
pub mod Refs
pub mod Laws
use rasperry_pi_os.Prelude.{
  ℕ, zero, suc, ◌+◌, ◌-◌, ◌*◌, ◌/◌, ◌%◌, ◌^◌, ◌≤◌, ◌<◌, ◌≡◌, refl, sym, ap, ◌∙◌, ◌≢◌, ◌↔◌, ◌⊎◌, inl,
  inr, Bool, true, false, not, ◌&&◌, ◌||◌, Option, none, some, List, [], ◌∷◌, ◌++◌, map, arith, ltb,
  leb, ◌==◌, if◌then◌else◌, ltb→lt, lt→ltb, le→ltb, ltb→le, leb→le, ==_iff, ==_refl, Bool-cases,
  Option-cases, length, get_elem?, get_or, set, replicate, All, length-append, length-set,
  length-replicate, get_or-set_self, get_or-set_ne, get_or_above, get_or-replicate, All-replicate,
  All-set, All-append, Panic, expectation, assertion, bounds, unreachable, todo, Outcome, returns,
  panics, ◌>>=◌, ◌>>◌, assert, expect, Outcome-cases, OnReturn-any, OnReturn, OnReturn->>=,
  OnReturn-map, OnReturn-returns, >>=-returns,
}
use rasperry_pi_os.Memory.Region.{RegionAllocator}
use rasperry_pi_os.Memory.Region as Region

pub record PageAllocator : Type 0 where
  pub regions : List RegionAllocator

-- `collect` of the regions; the first `None` ends it.
pub new_regions : List (ℕ × ℕ) → List (ℕ × ℕ) → Outcome (Option (List RegionAllocator))
new_regions [] reserved = returns (some [])
new_regions ((start, size) ∷ ranges) reserved = do
  region ← Region.new start size reserved
  elim region [
    | none ↦ returns none
    | some r ↦ new_regions ranges reserved >>= λ rest.
        returns (elim rest [ none ↦ none | some rs ↦ some (r ∷ rs) ])
  ]

pub new : List (ℕ × ℕ) → List (ℕ × ℕ) → Outcome (Option PageAllocator)
new ranges reserved = new_regions ranges reserved >>= λ rs.
    returns (elim rs [ none ↦ none | some l ↦ some (record { regions = l }) ])

-- `find_map(RegionAllocator::alloc)`
unfoldable pub alloc_first : List RegionAllocator → Outcome (Option (ℕ × List RegionAllocator))
alloc_first [] = returns none
alloc_first (r ∷ rs) = do
  answer ← Region.alloc r
  elim answer [
    | some (page, r') ↦ returns (some (page, r' ∷ rs))
    | none ↦ alloc_first rs >>= λ rest.
        returns (elim rest [ none ↦ none | some (page, rs') ↦ some (page, r ∷ rs') ])
  ]

unfoldable pub alloc : PageAllocator → Outcome (Option (ℕ × PageAllocator))
alloc a = alloc_first a.regions >>= λ found.
    returns (elim found [ none ↦ none | some (page, rs) ↦ some (page, record { regions = rs }) ])

-- `find(|region| region.update(page))`: the update runs on each region up to the first that has
-- the page.
unfoldable pub update_first :
    (RegionAllocator → Outcome (Bool × RegionAllocator))
    → List RegionAllocator
    → Outcome (Option (List RegionAllocator))
update_first f [] = returns none
update_first f (r ∷ rs) = do
  answer ← f r
  elim answer.0 [
    | true ↦ returns (some (answer.1 ∷ rs))
    | false ↦ update_first f rs >>= λ rest.
        returns (elim rest [ none ↦ none | some rs' ↦ some (answer.1 ∷ rs') ])
  ]

unfoldable pub add_ref : PageAllocator → ℕ → Outcome PageAllocator
add_ref a page = do
  rs ← update_first (λ r. Region.add_ref r page) a.regions
  l ← expect rs
  returns (record { regions = l })

pub remove_ref : PageAllocator → ℕ → Outcome PageAllocator
remove_ref a page = do
  rs ← update_first (λ r. Region.remove_ref r page) a.regions
  l ← expect rs
  returns (record { regions = l })
