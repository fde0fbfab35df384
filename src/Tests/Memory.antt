-- ===== src/Tests/Memory.antt =====
-- The page allocator of os/src/bin/kernel/memory/mod.rs, at concrete regions.
use rasperry_pi_os.Prelude.{
  ℕ, ◌+◌, ◌-◌, ◌*◌, ◌^◌, ◌<◌, ◌≡◌, refl, ◌⊎◌, true, false, none, some, [], ◌∷◌, arith, expectation,
  assertion, returns, panics,
}
use rasperry_pi_os.Memory.Region.{RegionAllocator, page_size}
use rasperry_pi_os.Memory.Region.Refs as Region
use rasperry_pi_os.Memory.Allocator.{PageAllocator, alloc, add_ref, remove_ref}
use rasperry_pi_os.Memory.Allocator.Refs.{IsValid, contains, refs}
use rasperry_pi_os.Memory.Allocator.Laws.{Sets, alloc-Sets, add_ref-Sets, remove_ref-Sets}

-- Pages 0 to 2 from address 0, and pages 16 and 17 from address 0x100000.
abbrev pub low_region : RegionAllocator
low_region = record { start = 0; physical_pages = 0 ∷ 2 ∷ 65535 ∷ [] }

abbrev pub high_region : RegionAllocator
high_region = record { start = 1048576; physical_pages = 1 ∷ 0 ∷ [] }

abbrev pub two_regions : PageAllocator
two_regions = record { regions = low_region ∷ high_region ∷ [] }

low_region-IsValid : Region.IsValid low_region
low_region-IsValid = record {
  aligned = refl;
  fits = omega arith;
  counts = (omega arith, (omega arith, (omega arith, tt)));
}

high_region-IsValid : Region.IsValid high_region
high_region-IsValid = record {
  aligned = refl;
  fits = omega arith;
  counts = (omega arith, (omega arith, tt));
}

two_regions-IsValid : IsValid two_regions
two_regions-IsValid =
    (low_region-IsValid, λ n h. ground arith, (high_region-IsValid, λ n h. refl, tt))

alloc-Sets_example :
    ((alloc two_regions ≡ returns none)
      × ((n : ℕ) → contains two_regions n ≡ true → 0 < refs two_regions n))
    ⊎ ((n : ℕ) × (a' : PageAllocator) × (alloc two_regions ≡ returns (some (n * page_size, a')))
        × (contains two_regions n ≡ true)
        × (refs two_regions n ≡ 0)
        × Sets two_regions n 1 a')
alloc-Sets_example = alloc-Sets two_regions two_regions-IsValid

add_ref-Sets_example :
    ((contains two_regions 1 ≡ false) × (add_ref two_regions (1 * page_size) ≡ panics expectation))
    ⊎ (((contains two_regions 1 ≡ true)
          × (refs two_regions 1 ≡ 0)
          × (add_ref two_regions (1 * page_size) ≡ panics assertion))
        ⊎ (((contains two_regions 1 ≡ true)
              × (refs two_regions 1 + 1 ≡ 2 ^ 16)
              × (add_ref two_regions (1 * page_size) ≡ panics expectation))
            ⊎ ((contains two_regions 1 ≡ true)
                × (0 < refs two_regions 1)
                × ((a' : PageAllocator) × (add_ref two_regions (1 * page_size) ≡ returns a')
                    × Sets two_regions 1 (refs two_regions 1 + 1) a'))))
add_ref-Sets_example = add_ref-Sets two_regions 1 two_regions-IsValid

remove_ref-Sets_example :
    ((refs two_regions 1 ≡ 0) × (remove_ref two_regions (1 * page_size) ≡ panics expectation))
    ⊎ ((0 < refs two_regions 1)
        × ((a' : PageAllocator) × (remove_ref two_regions (1 * page_size) ≡ returns a')
            × Sets two_regions 1 (refs two_regions 1 - 1) a'))
remove_ref-Sets_example = remove_ref-Sets two_regions 1 two_regions-IsValid
