-- ===== src/Memory/Region/Updates.antt =====
-- What an update of one count does, on every branch, and what `alloc` finds.
use rasperry_pi_os.Prelude.{
  ℕ, zero, suc, ◌+◌, ◌-◌, ◌*◌, ◌<◌, ◌≡◌, refl, ◌⊎◌, inl, inr, true, false, Option, none, some, List,
  [], ◌∷◌, ◌==◌, if◌then◌else◌, length, get_or, set, Outcome, returns, ◌>>=◌, arith, ==_iff,
  Bool-cases,
}
use native.Mathlib.Numerals.{add-one}
use rasperry_pi_os.Memory.Region.{
  RegionAllocator, page_size, update_page, claim_free, alloc, physical_page,
}
use rasperry_pi_os.Memory.Region.Refs.{
  IsValid, base, contains, refs, write, get_page_lem, contains-le,
}

pub update_page_lem :
    (r : RegionAllocator) (n : ℕ) (f : ℕ → Outcome ℕ)
    → IsValid r
    → update_page r (n * page_size) f ≡ (
        if contains r n
        then (f (refs r n) >>= λ c. returns (true, write r n c))
        else returns (false, r))
unfolding update_page
update_page_lem r n f v = elim (Bool-cases (contains r n)) [
  | inl here ↦ rw (get_page_lem r n v, here, ◌>>=◌) (ground (arith, contains-le r n here))
  | inr gone ↦ rw (get_page_lem r n v, gone, ◌>>=◌) refl
]

-- What `claim_free` finds is the first 0.
abbrev Claims : List ℕ → Option (ℕ × List ℕ) → Type 0
Claims cs none = (i : ℕ) → i < length cs → 0 < get_or cs i 0
Claims cs (some (i, cs')) =
    (i < length cs)
    × (get_or cs i 0 ≡ 0)
    × (cs' ≡ set cs i 1)
    × ((j : ℕ) → j < i → 0 < get_or cs j 0)

Claims-skip :
    (c : ℕ) (cs : List ℕ) (o : Option (ℕ × List ℕ))
    → 0 < c
    → Claims cs o
    → Claims (c ∷ cs) (elim o [ none ↦ none | some (i, cs') ↦ some (i + 1, c ∷ cs') ])
Claims-skip c cs none pos h = λ i. elim i as (λ i. i < length (c ∷ cs) → 0 < get_or (c ∷ cs) i 0) [
  | zero ↦ λ _. pos
  | suc i ↦ λ lt. h i (omega arith)
]
Claims-skip c cs (some (i, cs')) pos h = (
  omega (arith, h.0),
  rw add-one h.1,
  rw (add-one, h.2) refl,
  λ j. elim j as (λ j. j < i + 1 → 0 < get_or (c ∷ cs) j 0) [
    | zero ↦ λ _. pos
    | suc j ↦ λ lt. h.3 j (omega arith)
  ],
)

claim_free-Claims : (cs : List ℕ) → Claims cs (claim_free cs)
unfolding claim_free
claim_free-Claims [] = λ i h. absurd (omega arith)
claim_free-Claims (c ∷ cs) = elim (Bool-cases (c == 0)) [
  | inl free ↦ rw free (omega arith, (==_iff c 0).0 free, refl, λ j h. absurd (omega arith))
  | inr taken ↦ rw taken (Claims-skip c cs (claim_free cs) (ground arith) (claim_free-Claims cs))
]

-- `alloc` hands out the lowest page that nobody uses, and fails only where there is none.
abbrev pub Allocates : RegionAllocator → Outcome (Option (ℕ × RegionAllocator)) → Type 0
Allocates r o =
    ((o ≡ returns none) × ((n : ℕ) → contains r n ≡ true → 0 < refs r n))
    ⊎ ((n : ℕ) × (o ≡ returns (some (n * page_size, write r n 1)))
        × (contains r n ≡ true)
        × (refs r n ≡ 0)
        × ((m : ℕ) → contains r m ≡ true → m < n → 0 < refs r m))

alloc-cases :
    (r : RegionAllocator) (o : Option (ℕ × List ℕ))
    → IsValid r
    → claim_free r.physical_pages ≡ o
    → Claims r.physical_pages o
    → Allocates r (alloc r)
unfolding alloc physical_page
alloc-cases r none v e h = inl (rw (e, alloc) refl, λ n here. ground (arith, h (n - base r)))
alloc-cases r (some (i, cs')) v e h = inr (
  base r + i,
  rw (e, alloc) (ground arith),
  ground (arith, h.0),
  ground (arith, h.1),
  λ m here lt. ground (arith, h.3 (m - base r)),
)

pub alloc-Allocates : (r : RegionAllocator) → IsValid r → Allocates r (alloc r)
alloc-Allocates r v =
    alloc-cases r (claim_free r.physical_pages) v refl (claim_free-Claims r.physical_pages)
