-- ===== src/Sync/Threads.antt =====
-- Threads as a list of what each of them does, and how many do one of some things.
use rasperry_pi_os.Prelude.{
  ℕ, zero, suc, ◌+◌, ◌≤◌, ◌<◌, ◌≡◌, refl, ap, ◌≢◌, List, [], ◌∷◌, arith, length, get_or, set,
  replicate,
}

-- How many threads are in a phase that `f` counts.
abbrev pub total {ℓ} : {A : Type ℓ} → (A → ℕ) → List A → ℕ
total f [] = 0
total f (x ∷ xs) = f x + total f xs

pub total-set {ℓ} :
    {A : Type ℓ} (f : A → ℕ) (xs : List A) (i : ℕ) (x d : A)
    → i < length xs
    → total f (set xs i x) + f (get_or xs i d) ≡ total f xs + f x
total-set f [] i x d h = elim h [ ]
total-set f (y ∷ ys) zero x d h = omega arith
total-set f (y ∷ ys) (suc i) x d h = omega (arith, total-set f ys i x d (omega arith))

-- A thread that is counted once is counted in the total, and two of them are two.
pub total-le {ℓ} :
    {A : Type ℓ} (f : A → ℕ) (xs : List A) (i : ℕ) (d : A)
    → i < length xs
    → f (get_or xs i d) ≤ total f xs
total-le f [] i d h = elim h [ ]
total-le f (y ∷ ys) zero d h = omega arith
total-le f (y ∷ ys) (suc i) d h = omega (arith, total-le f ys i d (omega arith))

pub total_two {ℓ} :
    {A : Type ℓ} (f : A → ℕ) (xs : List A) (i j : ℕ) (d : A)
    → i < length xs
    → j < length xs
    → i ≢ j
    → f (get_or xs i d) + f (get_or xs j d) ≤ total f xs
total_two f [] i j d h h' ne = elim h [ ]
total_two f (y ∷ ys) zero zero d h h' ne = absurd (ne refl)
total_two f (y ∷ ys) zero (suc j) d h h' ne = omega (arith, total-le f ys j d (omega arith))
total_two f (y ∷ ys) (suc i) zero d h h' ne = omega (arith, total-le f ys i d (omega arith))
total_two f (y ∷ ys) (suc i) (suc j) d h h' ne =
    omega (arith, total_two f ys i j d (omega arith) (omega arith) (λ e. ne (ap suc e)))

pub total-replicate {ℓ} :
    {A : Type ℓ} (f : A → ℕ) (n : ℕ) (x : A) → f x ≡ 0 → total f (replicate n x) ≡ 0
total-replicate f zero x h = refl
total-replicate f (suc n) x h = omega (arith, h, total-replicate f n x h)

total-monotone {ℓ} :
    {A : Type ℓ} (f g : A → ℕ) (xs : List A) → ((x : A) → f x ≤ g x) → total f xs ≤ total g xs
total-monotone f g [] le = omega arith
total-monotone f g (y ∷ ys) le = omega (arith, le y, total-monotone f g ys le)

-- A thread that only the larger of two counts has is missing from the smaller total.
pub total-gap {ℓ} :
    {A : Type ℓ} (f g : A → ℕ) (xs : List A) (i : ℕ) (d : A)
    → ((x : A) → f x ≤ g x)
    → i < length xs
    → total f xs + g (get_or xs i d) ≤ total g xs + f (get_or xs i d)
total-gap f g [] i d le h = elim h [ ]
total-gap f g (y ∷ ys) zero d le h = omega (arith, total-monotone f g ys le)
total-gap f g (y ∷ ys) (suc i) d le h = omega (arith, le y, total-gap f g ys i d le (omega arith))
