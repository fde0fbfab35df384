-- ===== src/Memory/Region/Refs.antt =====
-- The specification of a region: the reference count of each page by its number, and what it takes
-- for a region to be well formed. The page of number `n` has the address `n * page_size`.
use rasperry_pi_os.Prelude.{
  ℕ, ◌+◌, ◌-◌, ◌*◌, ◌/◌, ◌%◌, ◌^◌, ◌≤◌, ◌<◌, ◌≡◌, Bool, true, ◌&&◌, none, some, ltb, leb, ◌==◌,
  if◌then◌else◌, length, get_or, set, All, All-set, length-set, get_or-set_self, get_or-set_ne,
  returns, arith,
}
use rasperry_pi_os.Memory.Region.{RegionAllocator, page_size, get_page}

-- The number of the first page.
abbrev pub base : RegionAllocator → ℕ
base r = r.start / page_size

abbrev pub contains : RegionAllocator → ℕ → Bool
contains r n = leb (base r) n && ltb (n - base r) (length r.physical_pages)

abbrev pub refs : RegionAllocator → ℕ → ℕ
refs r n = if ltb n (base r) then 0 else get_or r.physical_pages (n - base r) 0

abbrev pub write : RegionAllocator → ℕ → ℕ → RegionAllocator
write r n c = record r { physical_pages = set r.physical_pages (n - base r) c }

-- The counts are `u16`s, and the addresses of all pages are `u64`s.
pub record IsValid (r : RegionAllocator) : Type 0 where
  pub aligned : r.start % page_size ≡ 0
  pub fits : r.start + length r.physical_pages * page_size < 2 ^ 64
  pub counts : All (λ c. c < 2 ^ 16) r.physical_pages

pub contains-lt :
    (r : RegionAllocator) (n : ℕ) → contains r n ≡ true → n - base r < length r.physical_pages
contains-lt r n h = ground arith

pub contains-le : (r : RegionAllocator) (n : ℕ) → contains r n ≡ true → base r ≤ n
contains-le r n h = ground arith

pub write-IsValid : (r : RegionAllocator) (n c : ℕ) → c < 2 ^ 16 → IsValid r → IsValid (write r n c)
write-IsValid r n c h v = record {
  aligned = v.aligned;
  fits = omega (arith, v.fits, length-set r.physical_pages (n - base r) c);
  counts = All-set (λ c. c < 2 ^ 16) r.physical_pages (n - base r) c h v.counts;
}

pub contains-write : (r : RegionAllocator) (n c m : ℕ) → contains (write r n c) m ≡ contains r m
contains-write r n c m = ground (arith, length-set r.physical_pages (n - base r) c)

pub refs-write :
    (r : RegionAllocator) (n c m : ℕ)
    → contains r n ≡ true
    → refs (write r n c) m ≡ (if n == m then c else refs r m)
refs-write r n c m h = ground (
  arith,
  get_or-set_self r.physical_pages (n - base r) c 0,
  get_or-set_ne r.physical_pages (n - base r) (m - base r) c 0,
)

pub get_page_lem :
    (r : RegionAllocator) (n : ℕ)
    → IsValid r
    → get_page r (n * page_size) ≡ returns (if contains r n then some (n - base r) else none)
unfolding get_page
get_page_lem r n v = ground (arith, v.aligned)
