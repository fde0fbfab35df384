-- ===== src/Execution/Pages.antt =====
-- The page lists of an execution against a linear count: binary search, insertion.
use rasperry_pi_os.Prelude.{
  ℕ, zero, suc, ◌+◌, ◌/◌, ◌%◌, ◌≤◌, ◌<◌, ◌≡◌, refl, ◌≢◌, inl, inr, List, [], ◌∷◌, arith, ltb, ◌==◌,
  if◌then◌else◌, ltb→lt, ltb→le, Bool-cases, length, get_or, All,
}
use rasperry_pi_os.Memory.Region.{page_size}
use rasperry_pi_os.Execution.Search.{
  Position, found, missing, is_ok, binary_search_by_key, insert, IsSorted, All-index, Finds,
  binary_search-Finds,
}

-- How often the page of number `n` stands in a list of page addresses.
abbrev pub count : List ℕ → ℕ → ℕ
count [] n = 0
count (x ∷ xs) n = (if x / page_size == n then 1 else 0) + count xs n

-- Page addresses in strictly ascending order.
abbrev pub IsPages : List ℕ → Type 0
IsPages xs = IsSorted (λ x. x) xs × All (λ x. x % page_size ≡ 0) xs

above_pages :
    (x : ℕ) (xs : List ℕ)
    → x % page_size ≡ 0
    → All (λ y. x < y) xs
    → All (λ y. y % page_size ≡ 0) xs
    → All (λ y. x / page_size < y / page_size) xs
above_pages x [] h a b = tt
above_pages x (y ∷ ys) h a b = (omega arith, above_pages x ys h a.1 b.1)

IsPages-IsSorted : (xs : List ℕ) → IsPages xs → IsSorted (λ x. x / page_size) xs
IsPages-IsSorted [] p = tt
IsPages-IsSorted (x ∷ xs) (s, a) = (above_pages x xs a.0 s.0 a.1, IsPages-IsSorted xs (s.1, a.1))

count-index :
    (xs : List ℕ) (i n : ℕ) → i < length xs → get_or xs i 0 / page_size ≡ n → 0 < count xs n
count-index [] i n h e = elim h [ ]
count-index (x ∷ xs) zero n h e = ground arith
count-index (x ∷ xs) (suc i) n h e = omega (arith, count-index xs i n (omega arith) e)

count_none :
    (xs : List ℕ) (n : ℕ)
    → ((j : ℕ) → j < length xs → get_or xs j 0 / page_size ≢ n)
    → count xs n ≡ 0
count_none [] n h = refl
count_none (x ∷ xs) n h =
    ground (arith, h 0 (omega arith), count_none xs n (λ j q. h (suc j) (omega arith)))

Finds-count :
    (xs : List ℕ) (n : ℕ) (p : Position)
    → Finds (λ x. x / page_size) n xs p
    → is_ok p ≡ ltb 0 (count xs n)
Finds-count xs n (found i) f = ground (arith, count-index xs i n f.0 f.1)
Finds-count xs n (missing i) f =
    let absent : (j : ℕ) → j < length xs → get_or xs j 0 / page_size ≢ n = λ j q.
      elim (Bool-cases (ltb j i)) [
        | inl lo ↦ let below = f.1 j (ltb→lt j i lo) in omega arith
        | inr hi ↦ let above = f.2 j (ltb→le j i hi) q in omega arith
      ] in
    ground (arith, count_none xs n absent)

-- The search by page number finds exactly the pages that are in the list.
pub search-count :
    (xs : List ℕ) (n : ℕ)
    → IsPages xs
    → is_ok (binary_search_by_key (λ x. x / page_size) n xs) ≡ ltb 0 (count xs n)
search-count xs n p =
    Finds-count xs n _ (binary_search-Finds (λ x. x / page_size) n xs (IsPages-IsSorted xs p))

count-insert :
    (xs : List ℕ) (i v n : ℕ)
    → count (insert xs i v) n ≡ count xs n + (if v / page_size == n then 1 else 0)
count-insert xs zero v n = omega arith
count-insert [] (suc i) v n = omega arith
count-insert (x ∷ xs) (suc i) v n = omega (arith, count-insert xs i v n)

All-insert : (P : ℕ → Type 0) (xs : List ℕ) (i v : ℕ) → P v → All P xs → All P (insert xs i v)
All-insert P xs zero v h a = (h, a)
All-insert P [] (suc i) v h a = (h, tt)
All-insert P (x ∷ xs) (suc i) v h a = (a.0, All-insert P xs i v h a.1)

All-of_index :
    (P : ℕ → Type 0) (xs : List ℕ) → ((j : ℕ) → j < length xs → P (get_or xs j 0)) → All P xs
All-of_index P [] h = tt
All-of_index P (x ∷ xs) h = (h 0 (omega arith), All-of_index P xs (λ j q. h (suc j) (omega arith)))

insert-IsSorted :
    (xs : List ℕ) (i v : ℕ)
    → IsSorted (λ x. x) xs
    → ((j : ℕ) → j < i → j < length xs → get_or xs j 0 < v)
    → ((j : ℕ) → i ≤ j → j < length xs → v < get_or xs j 0)
    → IsSorted (λ x. x) (insert xs i v)
insert-IsSorted xs zero v s lo hi = (All-of_index (λ y. v < y) xs (λ j q. hi j (omega arith) q), s)
insert-IsSorted [] (suc i) v s lo hi = (tt, tt)
insert-IsSorted (x ∷ xs) (suc i) v s lo hi = (
  All-insert (λ y. x < y) xs i v (lo 0 (omega arith) (omega arith)) s.0,
  insert-IsSorted xs i v s.1 (λ j p q. lo (suc j) (omega arith) (omega arith))
      (λ j p q. hi (suc j) (omega arith) (omega arith)),
)

-- Insertion where the search by address says: the list stays sorted, one page comes in.
abbrev pub Inserts : List ℕ → ℕ → Position → Type 0
Inserts xs page (found i) = 0 < count xs (page / page_size)
Inserts xs page (missing i) =
    IsPages (insert xs i page)
    × ((n : ℕ) → count (insert xs i page) n ≡ count xs n + (if page / page_size == n then 1 else 0))
    × (count xs (page / page_size) ≡ 0)

Finds-Inserts :
    (xs : List ℕ) (page : ℕ) (p : Position)
    → IsPages xs
    → page % page_size ≡ 0
    → Finds (λ x. x) page xs p
    → Inserts xs page p
Finds-Inserts xs page (found i) v h f = count-index xs i (page / page_size) f.0 (omega (arith, f.1))
Finds-Inserts xs page (missing i) v h f = (
  (
    insert-IsSorted xs i page v.0 (λ j p q. f.1 j p) f.2,
    All-insert (λ x. x % page_size ≡ 0) xs i page h v.1,
  ),
  count-insert xs i page,
  count_none xs (page / page_size) (λ j q. elim (Bool-cases (ltb j i)) [
    | inl lo ↦
        let below = f.1 j (ltb→lt j i lo) in
        let whole = All-index (λ x. x % page_size ≡ 0) xs j v.1 q in omega arith
    | inr hi ↦
        let above = f.2 j (ltb→le j i hi) q in
        let whole = All-index (λ x. x % page_size ≡ 0) xs j v.1 q in omega arith
  ]),
)

pub search-Inserts :
    (xs : List ℕ) (page : ℕ)
    → IsPages xs
    → page % page_size ≡ 0
    → Inserts xs page (binary_search_by_key (λ x. x) page xs)
search-Inserts xs page v h = Finds-Inserts xs page _ v h (binary_search-Finds (λ x. x) page xs v.0)
