-- ===== src/Memory/Region.antt =====
-- RegionAllocator of os/src/bin/kernel/memory/mod.rs: one contiguous region of physical memory.
-- Each operation runs with no other core's access in between; a loop of `fetch_update` that nobody
-- disturbs is one update.
pub mod Refs
pub mod Updates
pub mod Reserve
use rasperry_pi_os.Prelude.{
  ℕ, zero, suc, ◌+◌, ◌-◌, ◌*◌, ◌/◌, ◌%◌, ◌^◌, Bool, true, false, ◌||◌, not, Option, none, some,
  List, [], ◌∷◌, ltb, ◌==◌, if◌then◌else◌, length, get_or, set, replicate, Outcome, returns, panics,
  expectation, unreachable, todo, ◌>>=◌, ◌>>◌, assert, expect,
}

abbrev pub page_size : ℕ
page_size = 2 ^ 16

-- `start`, and the reference count of each page from there on.
pub record RegionAllocator : Type 0 where
  pub start : ℕ
  pub physical_pages : List ℕ

-- `a.checked_add(b)` and `a.checked_mul(b)` on `u64`.
abbrev pub checked_add : ℕ → ℕ → Option ℕ
checked_add a b = if ltb (a + b) (2 ^ 64) then some (a + b) else none

abbrev pub checked_mul : ℕ → ℕ → Option ℕ
checked_mul a b = if ltb (a * b) (2 ^ 64) then some (a * b) else none

-- `n` addresses, a page apart.
pub pages_from : ℕ → ℕ → List ℕ
pages_from zero a = []
pages_from (suc n) a = a ∷ pages_from n (a + page_size)

-- The index of a page among the counts; `none` if the page is not of this region.
unfoldable pub get_page : RegionAllocator → ℕ → Outcome (Option ℕ)
get_page r page = if ltb page r.start then returns none else do
  let offset = page - r.start
  assert (offset % page_size == 0)
  let index = offset / page_size
  returns (if ltb index (length r.physical_pages) then some index else none)

-- The update of a count that `other_add_ref`, `add_ref` and `remove_ref` share, by a function that
-- may panic; whether the page is of this region, and the region after it.
unfoldable pub update_page :
    RegionAllocator → ℕ → (ℕ → Outcome ℕ) → Outcome (Bool × RegionAllocator)
update_page r page f = do
  slot ← get_page r page
  elim slot [
    | none ↦ returns (false, r)
    | some i ↦ f (get_or r.physical_pages i 0) >>= λ c.
        returns (true, record r { physical_pages = set r.physical_pages i c })
  ]

-- The closures of the three updates.
abbrev pub reserve_count : ℕ → Outcome ℕ
reserve_count refcount = do assert (refcount == 0); returns 1

abbrev pub increment_count : ℕ → Outcome ℕ
increment_count refcount = do
  assert (not (refcount == 0))
  if ltb (refcount + 1) (2 ^ 16) then returns (refcount + 1) else panics expectation

abbrev pub decrement_count : ℕ → Outcome ℕ
decrement_count refcount = if refcount == 0 then panics expectation else returns (refcount - 1)

unfoldable pub other_add_ref : RegionAllocator → ℕ → Outcome (Bool × RegionAllocator)
other_add_ref r page = update_page r page reserve_count

unfoldable pub add_ref : RegionAllocator → ℕ → Outcome (Bool × RegionAllocator)
add_ref r page = update_page r page increment_count

unfoldable pub remove_ref : RegionAllocator → ℕ → Outcome (Bool × RegionAllocator)
remove_ref r page = update_page r page decrement_count

-- The first count that is 0, as an index, and the counts with a 1 in its place.
unfoldable pub claim_free : List ℕ → Option (ℕ × List ℕ)
claim_free [] = none
claim_free (c ∷ cs) =
    if c == 0
    then some (0, 1 ∷ cs)
    else elim (claim_free cs) [ none ↦ none | some (i, cs') ↦ some (i + 1, c ∷ cs') ]

-- `PhysicalPage::new`
unfoldable pub physical_page : ℕ → Outcome ℕ
physical_page page = do assert (page % page_size == 0); returns page

unfoldable pub alloc : RegionAllocator → Outcome (Option (ℕ × RegionAllocator))
alloc r = elim (claim_free r.physical_pages) [
  | none ↦ returns none
  | some (index, counts) ↦ do
    offset ← expect (checked_mul index page_size)
    paddr ← expect (checked_add offset r.start)
    page ← physical_page paddr
    returns (some (page, record r { physical_pages = counts }))
]

-- `Ok` is true, `Err` is false; the page is handed back as it was, or the call panics.
pub to_owned : RegionAllocator → ℕ → Outcome Bool
to_owned r page = do
  slot ← get_page r page
  elim slot [
    | none ↦ returns false
    | some i ↦
        let refcount = get_or r.physical_pages i 0 in
        if refcount == 0
        then panics unreachable
        else if refcount == 1
        then returns true
        else (alloc r >>= λ fresh. expect fresh >>= λ _. panics todo)
  ]

-- The loop over the pages of one reserved range; `other_add_ref`'s answer is dropped.
pub reserve_pages : RegionAllocator → List ℕ → Outcome RegionAllocator
reserve_pages r [] = returns r
reserve_pages r (page ∷ pages) = other_add_ref r page >>= λ answer. reserve_pages answer.1 pages

-- `(start..end).step_by(PAGE_SIZE)` has `size / PAGE_SIZE` pages, rounded up.
pub reserve : RegionAllocator → List (ℕ × ℕ) → Outcome RegionAllocator
reserve r [] = returns r
reserve r ((start, size) ∷ ranges) = do
  end ← expect (checked_add start size)
  r' ← reserve_pages r (pages_from ((end - start + page_size - 1) / page_size) start)
  reserve r' ranges

-- `RegionAllocator::new`
unfoldable pub new : ℕ → ℕ → List (ℕ × ℕ) → Outcome (Option RegionAllocator)
new start size reserved =
    if not (size % page_size == 0)
      || not (start % page_size == 0)
      || not (ltb (start + size) (2 ^ 64))
    then returns none
    else (reserve (record { start = start; physical_pages = replicate (size / page_size) 0 })
          reserved
        >>= λ r. returns (some r))
