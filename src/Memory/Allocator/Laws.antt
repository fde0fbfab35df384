-- ===== src/Memory/Allocator/Laws.antt =====
-- What the operations of the page allocator do to the count of each page, on every branch.
use rasperry_pi_os.Prelude.{
  ℕ, ◌+◌, ◌-◌, ◌*◌, ◌^◌, ◌<◌, ◌≡◌, refl, ◌⊎◌, inl, inr, true, false, none, some, List, [], ◌∷◌,
  arith, ltb, ◌==◌, if◌then◌else◌, ltb→lt, Bool-cases, expectation, assertion, returns, panics,
}
use rasperry_pi_os.Memory.Region.{RegionAllocator, page_size, increment_count, decrement_count}
use rasperry_pi_os.Memory.Region as Region
use rasperry_pi_os.Memory.Region.Refs as Region_refs
use rasperry_pi_os.Memory.Region.Updates.{Allocates, alloc-Allocates}
use rasperry_pi_os.Memory.Allocator.{PageAllocator, alloc_first, alloc, add_ref, remove_ref}
use rasperry_pi_os.Memory.Allocator.Refs.{
  contains_any, refs_any, write_any, AllValid, contains, refs, write, IsValid, update_first_lem,
  contains-write, refs-write, refs_any-lt, write-AllValid,
}

-- Allocation from a list of regions: none is free, or page `n` was free and is now held once.
abbrev Finds : List RegionAllocator → Type 0
Finds rs =
    ((alloc_first rs ≡ returns none) × ((n : ℕ) → contains_any rs n ≡ true → 0 < refs_any rs n))
    ⊎ ((n : ℕ) × (alloc_first rs ≡ returns (some (n * page_size, write_any rs n 1)))
        × (contains_any rs n ≡ true)
        × (refs_any rs n ≡ 0))

Finds-cons :
    (r : RegionAllocator) (rs : List RegionAllocator)
    → AllValid (r ∷ rs)
    → Allocates r (Region.alloc r)
    → Finds rs
    → Finds (r ∷ rs)
unfolding alloc_first
Finds-cons r rs v (inr (n, e, here, free, lowest)) rest =
    inr (n, rw (e, here) refl, rw here refl, rw here free)
Finds-cons r rs v (inl (e, full)) (inl (e', full')) =
    inl (rw (e, e') refl, λ n here. ground (arith, full n, full' n))
Finds-cons r rs v (inl (e, full)) (inr (n, e', here, free)) =
    let other : Region_refs.contains r n ≡ false = ground (arith, v.1 n) in
    inr (n, rw (e, e', other) refl, rw other here, rw other free)

alloc_first-Finds : (rs : List RegionAllocator) → AllValid rs → Finds rs
unfolding alloc_first
alloc_first-Finds [] v = inl (refl, λ n h. cc)
alloc_first-Finds (r ∷ rs) v = Finds-cons r rs v (alloc-Allocates r v.0) (alloc_first-Finds rs v.2)

-- One page's count is `c` afterwards, all others and the set of pages are as before.
pub record Sets (a : PageAllocator) (n c : ℕ) (a' : PageAllocator) : Type 0 where
  pub valid : IsValid a'
  pub same_pages : (m : ℕ) → contains a' m ≡ contains a m
  pub counts : (m : ℕ) → refs a' m ≡ (if n == m then c else refs a m)

write-Sets :
    (a : PageAllocator) (n c : ℕ)
    → IsValid a
    → contains a n ≡ true
    → c < 2 ^ 16
    → Sets a n c (write a n c)
write-Sets a n c v here h = record {
  valid = write-AllValid a.regions n c h v;
  same_pages = λ m. contains-write a.regions n c m;
  counts = λ m. refs-write a.regions n c m here;
}

-- `alloc` returns `None` only if every page is in use. Otherwise it returns a page that was not
-- in use, whose count becomes 1, and no other count changes.
pub alloc-Sets :
    (a : PageAllocator)
    → IsValid a
    → ((alloc a ≡ returns none) × ((n : ℕ) → contains a n ≡ true → 0 < refs a n))
      ⊎ ((n : ℕ) × (a' : PageAllocator) × (alloc a ≡ returns (some (n * page_size, a')))
          × (contains a n ≡ true)
          × (refs a n ≡ 0)
          × Sets a n 1 a')
unfolding alloc
alloc-Sets a v = elim (alloc_first-Finds a.regions v) [
  | inl (e, full) ↦ inl (rw e refl, full)
  | inr (n, e, here, free) ↦
      inr (n, write a n 1, rw e refl, here, free, write-Sets a n 1 v here (omega arith))
]

pub add_ref-returns :
    (a : PageAllocator) (n : ℕ)
    → IsValid a
    → contains a n ≡ true
    → 0 < refs a n
    → refs a n + 1 < 2 ^ 16
    → (a' : PageAllocator) × (add_ref a (n * page_size) ≡ returns a') × Sets a n (refs a n + 1) a'
unfolding add_ref Region.add_ref
add_ref-returns a n v here pos small = (
  write a n (refs a n + 1),
  rw (update_first_lem a.regions n increment_count v, here) (ground arith),
  write-Sets a n (refs a n + 1) v here small,
)

pub remove_ref-returns :
    (a : PageAllocator) (n : ℕ)
    → IsValid a
    → contains a n ≡ true
    → 0 < refs a n
    → (a' : PageAllocator) × (remove_ref a (n * page_size) ≡ returns a')
      × Sets a n (refs a n - 1) a'
unfolding remove_ref Region.remove_ref
remove_ref-returns a n v here pos = (
  write a n (refs a n - 1),
  rw (update_first_lem a.regions n decrement_count v, here) (ground arith),
  write-Sets a n (refs a n - 1) v here (omega (arith, refs_any-lt a.regions n v)),
)

pub refs_outside :
    (rs : List RegionAllocator) (n : ℕ) → contains_any rs n ≡ false → refs_any rs n ≡ 0
refs_outside [] n h = refl
refs_outside (r ∷ rs) n h = ground (arith, refs_outside rs n)

-- `add_ref` adds 1 to the count of a page that is in use. It panics if the page is not one of the
-- allocator's, if nobody uses it, and if its count stands at the end of its range.
pub add_ref-Sets :
    (a : PageAllocator) (n : ℕ)
    → IsValid a
    → ((contains a n ≡ false) × (add_ref a (n * page_size) ≡ panics expectation))
      ⊎ (((contains a n ≡ true) × (refs a n ≡ 0) × (add_ref a (n * page_size) ≡ panics assertion))
          ⊎ (((contains a n ≡ true)
                × (refs a n + 1 ≡ 2 ^ 16)
                × (add_ref a (n * page_size) ≡ panics expectation))
              ⊎ ((contains a n ≡ true)
                  × (0 < refs a n)
                  × ((a' : PageAllocator) × (add_ref a (n * page_size) ≡ returns a')
                      × Sets a n (refs a n + 1) a'))))
unfolding add_ref Region.add_ref
add_ref-Sets a n v = elim (Bool-cases (contains a n)) [
  | inr gone ↦ inl (gone, rw (update_first_lem a.regions n increment_count v, gone) refl)
  | inl here ↦ elim (Bool-cases (refs a n == 0)) [
    | inl unused ↦ inr (
        inl (
          here,
          ground arith,
          rw (update_first_lem a.regions n increment_count v, here) (ground arith),
        ))
    | inr used ↦ elim (Bool-cases (ltb (refs a n + 1) (2 ^ 16))) [
      | inr last ↦ inr (
          inr (
            inl (
              here,
              ground (arith, refs_any-lt a.regions n v),
              rw (update_first_lem a.regions n increment_count v, here) (ground arith),
            )))
      | inl more ↦
          let pos : 0 < refs a n = ground arith in
          inr (inr (inr (here, pos, add_ref-returns a n v here pos (ltb→lt _ _ more))))
    ]
  ]
]

-- `remove_ref` takes 1 from the count of a page that is in use, and panics on any other page.
pub remove_ref-Sets :
    (a : PageAllocator) (n : ℕ)
    → IsValid a
    → ((refs a n ≡ 0) × (remove_ref a (n * page_size) ≡ panics expectation))
      ⊎ ((0 < refs a n)
          × ((a' : PageAllocator) × (remove_ref a (n * page_size) ≡ returns a')
              × Sets a n (refs a n - 1) a'))
unfolding remove_ref Region.remove_ref
remove_ref-Sets a n v = elim (Bool-cases (contains a n)) [
  | inr gone ↦ inl (
    refs_outside a.regions n gone,
    rw (update_first_lem a.regions n decrement_count v, gone) refl,
  )
  | inl here ↦ elim (Bool-cases (refs a n == 0)) [
    | inl unused ↦
        inl (ground arith, rw (update_first_lem a.regions n decrement_count v, here) (ground arith))
    | inr used ↦
        let pos : 0 < refs a n = ground arith in inr (pos, remove_ref-returns a n v here pos)
  ]
]
