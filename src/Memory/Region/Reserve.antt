-- ===== src/Memory/Region/Reserve.antt =====
-- What `RegionAllocator::new` sets up.
use rasperry_pi_os.Prelude.{
  ℕ, zero, suc, ◌+◌, ◌-◌, ◌*◌, ◌/◌, ◌%◌, ◌^◌, ◌≤◌, ◌<◌, ◌≡◌, refl, ap, ◌∙◌, inl, inr, true, false,
  ◌&&◌, some, List, [], ◌∷◌, arith, ltb, leb, ◌==◌, if◌then◌else◌, lt→ltb, Bool-cases, length,
  replicate, length-set, length-replicate, get_or-replicate, All-replicate, returns,
}
use rasperry_pi_os.Memory.Region.{
  RegionAllocator, page_size, pages_from, other_add_ref, reserve_pages, reserve, new,
}
use rasperry_pi_os.Memory.Region.Refs.{
  IsValid, base, contains, refs, write, refs-write, contains-write, write-IsValid,
}
use rasperry_pi_os.Memory.Region.Updates.{update_page_lem}

-- The region after `k` pages from number `m` on are reserved.
record Reserves (r : RegionAllocator) (k m : ℕ) (r' : RegionAllocator) : Type 0 where
  valid : IsValid r'
  same_start : r'.start ≡ r.start
  same_length : length r'.physical_pages ≡ length r.physical_pages
  counts :
      (n : ℕ) → refs r' n ≡ (if contains r n && (leb m n && ltb n (m + k)) then 1 else refs r n)

other_add_ref_lem :
    (r : RegionAllocator) (m : ℕ)
    → IsValid r
    → refs r m ≡ 0
    → other_add_ref r (m * page_size)
      ≡ (if contains r m then returns (true, write r m 1) else returns (false, r))
unfolding other_add_ref
other_add_ref_lem r m v e = rw (update_page_lem r m _ v) (ground arith)

after_reserve : RegionAllocator → ℕ → RegionAllocator
after_reserve r m = if contains r m then write r m 1 else r

after_reserve-IsValid : (r : RegionAllocator) (m : ℕ) → IsValid r → IsValid (after_reserve r m)
unfolding after_reserve
after_reserve-IsValid r m v = elim (Bool-cases (contains r m)) [
  | inl h ↦ rw h (write-IsValid r m 1 (omega arith) v)
  | inr h ↦ rw h v
]

refs-after_reserve :
    (r : RegionAllocator) (m n : ℕ)
    → refs (after_reserve r m) n ≡ (if contains r n && (m == n) then 1 else refs r n)
unfolding after_reserve
refs-after_reserve r m n = ground (arith, refs-write r m 1 n)

contains-after_reserve :
    (r : RegionAllocator) (m n : ℕ) → contains (after_reserve r m) n ≡ contains r n
unfolding after_reserve
contains-after_reserve r m n = ground (arith, contains-write r m 1 n)

length-after_reserve :
    (r : RegionAllocator) (m : ℕ)
    → length (after_reserve r m).physical_pages ≡ length r.physical_pages
unfolding after_reserve
length-after_reserve r m = ground (arith, length-set r.physical_pages (m - base r) 1)

start-after_reserve : (r : RegionAllocator) (m : ℕ) → (after_reserve r m).start ≡ r.start
unfolding after_reserve
start-after_reserve r m = ground arith

reserve_pages-step :
    (r : RegionAllocator) (m : ℕ) (rest : List ℕ)
    → IsValid r
    → refs r m ≡ 0
    → reserve_pages r (m * page_size ∷ rest) ≡ reserve_pages (after_reserve r m) rest
unfolding reserve_pages after_reserve
reserve_pages-step r m rest v e =
    rw (other_add_ref_lem r m v e)
      (elim (Bool-cases (contains r m)) [ inl h ↦ rw h refl | inr h ↦ rw h refl ])

pages_from-suc :
    (k m : ℕ)
    → pages_from (suc k) (m * page_size) ≡ m * page_size ∷ pages_from k ((m + 1) * page_size)
unfolding pages_from
pages_from-suc k m = ap (λ a. m * page_size ∷ pages_from k a) (omega arith)

-- Where nothing from page `m` on is in use, the next `k` pages are reserved and the call returns.
reserve_pages_total :
    (k m : ℕ) (r : RegionAllocator)
    → IsValid r
    → ((j : ℕ) → m ≤ j → refs r j ≡ 0)
    → (r' : RegionAllocator) × (reserve_pages r (pages_from k (m * page_size)) ≡ returns r')
      × Reserves r k m r'
reserve_pages_total zero m r v e = (
  r,
  unfold reserve_pages pages_from in refl,
  record { valid = v; same_start = refl; same_length = refl; counts = λ n. ground arith },
)
reserve_pages_total (suc k) m r v e =
    let s = after_reserve r m in
    let later : (j : ℕ) → m + 1 ≤ j → refs s j ≡ 0 =
      λ j h. ground (arith, refs-after_reserve r m j, e j) in
    let (r', runs, res) = reserve_pages_total k (m + 1) s (after_reserve-IsValid r m v) later in
    (
      r',
      rw (pages_from-suc k m, reserve_pages-step r m _ v (e m (omega arith))) runs,
      record {
        valid = res.valid;
        same_start = res.same_start ∙ start-after_reserve r m;
        same_length = res.same_length ∙ length-after_reserve r m;
        counts = λ n.
            ground (arith, res.counts n, refs-after_reserve r m n, contains-after_reserve r m n);
      },
    )

empty_region : ℕ → ℕ → RegionAllocator
empty_region start size = record { start = start; physical_pages = replicate (size / page_size) 0 }

empty_region-IsValid :
    (start size : ℕ)
    → size % page_size ≡ 0
    → start % page_size ≡ 0
    → start + size < 2 ^ 64
    → IsValid (empty_region start size)
unfolding empty_region
empty_region-IsValid start size hs ha hf = record {
  aligned = ha;
  fits = omega (arith, length-replicate {A = ℕ} (size / page_size) 0);
  counts = All-replicate (λ c. c < 2 ^ 16) (size / page_size) 0 (omega arith);
}

refs-empty_region : (start size n : ℕ) → refs (empty_region start size) n ≡ 0
unfolding empty_region
refs-empty_region start size n =
    ground (arith, get_or-replicate {A = ℕ} (size / page_size) (n - start / page_size) 0)

-- What a new region holds: the pages of its range, those of the reserved range in use.
pub record Initial (start size from len : ℕ) (r : RegionAllocator) : Type 0 where
  pub valid : IsValid r
  pub pages :
      (n : ℕ) → contains r n ≡ (leb start (n * page_size) && ltb (n * page_size) (start + size))
  pub counts :
      (n : ℕ)
      → refs r n ≡ (
          if contains r n && (leb from (n * page_size) && ltb (n * page_size) (from + len))
          then 1
          else 0)

module _ (start size from len : ℕ) (hs : size % page_size ≡ 0) (ha : start % page_size ≡ 0)
    (hf : start + size < 2 ^ 64) (hr : from % page_size ≡ 0) (hl : from + len < 2 ^ 64) where
  Reserves-Initial :
      (r : RegionAllocator)
      → Reserves (empty_region start size) ((len + page_size - 1) / page_size) (from / page_size) r
      → Initial start size from len r
  unfolding empty_region
  Reserves-Initial r res = record {
    valid = res.valid;
    pages = pages;
    counts = λ n.
        ground
          (arith, res.counts n, refs-empty_region start size n, res.same_start, res.same_length);
  }
    where
      pages :
          (n : ℕ) → contains r n ≡ (leb start (n * page_size) && ltb (n * page_size) (start + size))
      pages n =
          ground
            (arith, res.same_start, res.same_length, length-replicate {A = ℕ} (size / page_size) 0)

  reserve_one :
      (r r' : RegionAllocator)
      → reserve_pages r
          (pages_from ((len + page_size - 1) / page_size) (from / page_size * page_size))
        ≡ returns r'
      → reserve r ((from, len) ∷ []) ≡ returns r'
  unfolding reserve
  reserve_one r r' e =
      let whole : from / page_size * page_size ≡ from = omega arith in
      let span : from + len - from ≡ len = omega arith in
      rw (lt→ltb (from + len) (2 ^ 64) hl, span) (rw (rw whole at e) refl)

  -- For an aligned region and one aligned reserved range, neither beyond 2^64, `new` returns a
  -- well formed region of exactly the pages from `start` to `start + size`. Those that meet the
  -- reserved range are counted once, and no other is.
  pub new-Initial :
      (r : RegionAllocator) × (new start size ((from, len) ∷ []) ≡ returns (some r))
      × Initial start size from len r
  unfolding new empty_region
  new-Initial =
      let (r, runs, res) =
        reserve_pages_total ((len + page_size - 1) / page_size) (from / page_size)
          (empty_region start size) (empty_region-IsValid start size hs ha hf)
          (λ j _. refs-empty_region start size j) in
      (
        r,
        rw (hs, ha, lt→ltb (start + size) (2 ^ 64) hf, reserve_one _ r runs) refl,
        Reserves-Initial r res,
      )
