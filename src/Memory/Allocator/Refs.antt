-- ===== src/Memory/Allocator/Refs.antt =====
-- The specification of the page allocator: one count for each page number, whichever region has it.
use rasperry_pi_os.Prelude.{
  ℕ, ◌-◌, ◌*◌, ◌^◌, ◌<◌, ◌≡◌, refl, inl, inr, Bool, true, false, none, some, List, [], ◌∷◌, arith,
  ◌==◌, if◌then◌else◌, Bool-cases, All-get_or, Outcome, returns, ◌>>=◌,
}
use rasperry_pi_os.Memory.Region.{RegionAllocator, page_size, update_page}
use rasperry_pi_os.Memory.Region.Refs as Region
use rasperry_pi_os.Memory.Region.Updates.{update_page_lem}
use rasperry_pi_os.Memory.Allocator.{PageAllocator, update_first}

abbrev pub contains_any : List RegionAllocator → ℕ → Bool
contains_any [] n = false
contains_any (r ∷ rs) n = if Region.contains r n then true else contains_any rs n

abbrev pub refs_any : List RegionAllocator → ℕ → ℕ
refs_any [] n = 0
refs_any (r ∷ rs) n = if Region.contains r n then Region.refs r n else refs_any rs n

abbrev pub write_any : List RegionAllocator → ℕ → ℕ → List RegionAllocator
write_any [] n c = []
write_any (r ∷ rs) n c =
    if Region.contains r n then Region.write r n c ∷ rs else r ∷ write_any rs n c

-- Each region is well formed, and no page is in two of them.
abbrev pub AllValid : List RegionAllocator → Type 0
AllValid [] = Unit {0}
AllValid (r ∷ rs) =
    Region.IsValid r
    × ((n : ℕ) → Region.contains r n ≡ true → contains_any rs n ≡ false)
    × AllValid rs

abbrev pub contains : PageAllocator → ℕ → Bool
contains a n = contains_any a.regions n

abbrev pub refs : PageAllocator → ℕ → ℕ
refs a n = refs_any a.regions n

abbrev pub write : PageAllocator → ℕ → ℕ → PageAllocator
write a n c = record { regions = write_any a.regions n c }

abbrev pub IsValid : PageAllocator → Type 0
IsValid a = AllValid a.regions

pub update_first_lem :
    (rs : List RegionAllocator) (n : ℕ) (f : ℕ → Outcome ℕ)
    → AllValid rs
    → update_first (λ r. update_page r (n * page_size) f) rs ≡ (
        if contains_any rs n
        then (f (refs_any rs n) >>= λ c. returns (some (write_any rs n c)))
        else returns none)
unfolding update_first
update_first_lem [] n f v = refl
update_first_lem (r ∷ rs) n f v = elim (Bool-cases (Region.contains r n)) [
  | inl here ↦ rw (update_page_lem r n f v.0, here) (ground arith)
  | inr gone ↦ rw (update_page_lem r n f v.0, gone, update_first_lem rs n f v.2) (ground arith)
]

pub contains-write :
    (rs : List RegionAllocator) (n c m : ℕ) → contains_any (write_any rs n c) m ≡ contains_any rs m
contains-write [] n c m = refl
contains-write (r ∷ rs) n c m =
    ground (arith, Region.contains-write r n c m, contains-write rs n c m)

pub refs-write :
    (rs : List RegionAllocator) (n c m : ℕ)
    → contains_any rs n ≡ true
    → refs_any (write_any rs n c) m ≡ (if n == m then c else refs_any rs m)
refs-write [] n c m h = cc
refs-write (r ∷ rs) n c m h = elim (Bool-cases (Region.contains r n)) [
  | inl here ↦
      rw here (ground (arith, Region.contains-write r n c m, Region.refs-write r n c m here))
  | inr gone ↦ rw gone (ground (arith, refs-write rs n c m))
]

pub refs_any-lt : (rs : List RegionAllocator) (n : ℕ) → AllValid rs → refs_any rs n < 2 ^ 16
refs_any-lt [] n v = omega arith
refs_any-lt (r ∷ rs) n v = ground (
  arith,
  All-get_or (λ c. c < 2 ^ 16) r.physical_pages (n - Region.base r) 0 (omega arith) v.0.counts,
  refs_any-lt rs n v.2,
)

pub write-AllValid :
    (rs : List RegionAllocator) (n c : ℕ) → c < 2 ^ 16 → AllValid rs → AllValid (write_any rs n c)
write-AllValid [] n c h v = tt
write-AllValid (r ∷ rs) n c h v = elim (Bool-cases (Region.contains r n)) [
  | inl here ↦ rw here (
    Region.write-IsValid r n c h v.0,
    λ m q. v.1 m (rw (Region.contains-write r n c m) at q),
    v.2,
  )
  | inr gone ↦
      rw gone (v.0, λ m q. rw (contains-write rs n c m) (v.1 m q), write-AllValid rs n c h v.2)
]
