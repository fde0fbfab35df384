-- ===== src/Execution/Search.antt =====
-- The standard library's `binary_search_by_key` on a slice, as its documentation and its loop have
-- it, and `Vec::insert`. The keys are compared as numbers; the loop has fuel for each element.
use rasperry_pi_os.Prelude.{
  ℕ, zero, suc, ◌+◌, ◌-◌, ◌/◌, ◌≤◌, ◌<◌, ◌≡◌, ◌⊎◌, inl, inr, Bool, true, false, List, [], ◌∷◌,
  arith, ltb, ◌==◌, if◌then◌else◌, ltb→lt, ltb→le, ==_iff, Bool-cases, length, get_or, All,
}
use Prim.Native.Nat.{compare, Ordering}

pub data Position : Type 0 where
  found : ℕ → Position
  missing : ℕ → Position

-- `Result::is_ok`
abbrev pub is_ok : Position → Bool
is_ok (found i) = true
is_ok (missing i) = false

pub search_loop : ℕ → (ℕ → ℕ) → ℕ → List ℕ → ℕ → ℕ → Position
search_loop zero key target xs left right = missing left
search_loop (suc fuel) key target xs left right =
    let mid = left + (right - left) / 2 in
    let above = search_loop fuel key target xs (mid + 1) right in
    let below = search_loop fuel key target xs left mid in
    if ltb left right
    then elim (compare (key (get_or xs mid 0)) target) [
      | Ordering.lt ↦ above
      | Ordering.gt ↦ below
      | Ordering.eq ↦ found mid
    ]
    else missing left

unfoldable pub binary_search_by_key : (ℕ → ℕ) → ℕ → List ℕ → Position
unfolding search_loop
binary_search_by_key key target xs = search_loop (length xs) key target xs 0 (length xs)

abbrev pub insert : List ℕ → ℕ → ℕ → List ℕ
insert xs zero v = v ∷ xs
insert [] (suc i) v = v ∷ []
insert (x ∷ xs) (suc i) v = x ∷ insert xs i v

-- Strictly ascending keys.
abbrev pub IsSorted : (ℕ → ℕ) → List ℕ → Type 0
IsSorted key [] = Unit {0}
IsSorted key (x ∷ xs) = All (λ y. key x < key y) xs × IsSorted key xs

pub All-index :
    (P : ℕ → Type 0) (xs : List ℕ) (i : ℕ) → All P xs → i < length xs → P (get_or xs i 0)
All-index P [] i a h = elim h [ ]
All-index P (x ∷ xs) zero a h = a.0
All-index P (x ∷ xs) (suc i) a h = All-index P xs i a.1 (omega arith)

IsSorted-lt :
    (key : ℕ → ℕ) (xs : List ℕ) (i j : ℕ)
    → IsSorted key xs
    → i < j
    → j < length xs
    → key (get_or xs i 0) < key (get_or xs j 0)
IsSorted-lt key [] i j s lt h = elim h [ ]
IsSorted-lt key (x ∷ xs) i zero s lt h = elim lt [ ]
IsSorted-lt key (x ∷ xs) zero (suc j) s lt h = All-index (λ y. key x < key y) xs j s.0 (omega arith)
IsSorted-lt key (x ∷ xs) (suc i) (suc j) s lt h =
    IsSorted-lt key xs i j s.1 (omega arith) (omega arith)

-- A key that is found stands at the index; one that is missing belongs before it.
abbrev pub Finds : (ℕ → ℕ) → ℕ → List ℕ → Position → Type 0
Finds key target xs (found i) = (i < length xs) × (key (get_or xs i 0) ≡ target)
Finds key target xs (missing i) =
    (i ≤ length xs)
    × ((j : ℕ) → j < i → key (get_or xs j 0) < target)
    × ((j : ℕ) → i ≤ j → j < length xs → target < key (get_or xs j 0))

IsSorted-le :
    (key : ℕ → ℕ) (xs : List ℕ) (i j : ℕ)
    → IsSorted key xs
    → i ≤ j
    → j < length xs
    → key (get_or xs i 0) ≤ key (get_or xs j 0)
IsSorted-le key xs i j s le h = elim (Bool-cases (i == j)) [
  | inl e ↦ rw ((==_iff i j).0 e) (omega arith)
  | inr ne ↦ let lt : i < j = ground arith in omega (arith, IsSorted-lt key xs i j s lt h)
]

compare-cases :
    (a b : ℕ)
    → ((compare a b ≡ Ordering.lt) × (a < b))
      ⊎ (((compare a b ≡ Ordering.eq) × (a ≡ b)) ⊎ ((compare a b ≡ Ordering.gt) × (b < a)))
compare-cases a b = ground arith

module _ (key : ℕ → ℕ) (target : ℕ) (xs : List ℕ) (sorted : IsSorted key xs) where
  search_loop-Finds :
      (fuel left right : ℕ)
      → left ≤ right
      → right ≤ length xs
      → right - left ≤ fuel
      → ((j : ℕ) → j < left → key (get_or xs j 0) < target)
      → ((j : ℕ) → right ≤ j → j < length xs → target < key (get_or xs j 0))
      → Finds key target xs (search_loop fuel key target xs left right)
  unfolding search_loop
  search_loop-Finds zero left right h1 h2 h3 lo hi =
      (omega arith, lo, λ j p q. hi j (omega arith) q)
  search_loop-Finds (suc fuel) left right h1 h2 h3 lo hi =
      let mid = left + (right - left) / 2 in
      elim (Bool-cases (ltb left right)) [
        | inr empty ↦
            rw (empty, search_loop)
              (
                omega (arith, ltb→le left right empty),
                lo,
                λ j p q. hi j (omega (arith, ltb→le left right empty)) q,
              )
        | inl more ↦
            let some_left : left < right = ltb→lt left right more in
            rw more (elim (compare-cases (key (get_or xs mid 0)) target) [
              | inl (c, small) ↦
                  let below : (j : ℕ) → j < mid + 1 → key (get_or xs j 0) < target = λ j p.
                    omega (arith, IsSorted-le key xs j mid sorted (omega arith) (omega arith)) in
                  rw c
                    (search_loop-Finds fuel (mid + 1) right (omega arith) h2 (omega arith) below hi)
              | inr (inl (c, same)) ↦ rw c ((omega arith), same)
              | inr (inr (c, big)) ↦
                  let above : (j : ℕ) → mid ≤ j → j < length xs → target < key (get_or xs j 0) =
                    λ j p q. omega (arith, IsSorted-le key xs mid j sorted p q) in
                  rw c (
                    search_loop-Finds fuel left mid (omega arith) (omega arith) (omega arith) lo
                      above)
            ])
      ]

  -- In a list in strictly ascending order of the keys the search finds an index of the target, or
  -- the place before which all keys are less and from which on all are greater.
  pub binary_search-Finds : Finds key target xs (binary_search_by_key key target xs)
  unfolding binary_search_by_key
  binary_search-Finds =
      search_loop-Finds (length xs) 0 (length xs) (omega arith) (omega arith) (omega arith)
        (λ j h. absurd (omega arith)) (λ j p q. absurd (omega arith))
