-- ===== src/BumpAllocator/Laws.antt =====
-- The blocks of the bump allocator lie in its memory, aligned and apart.
use rasperry_pi_os.Prelude.{
  ℕ, ◌+◌, ◌-◌, ◌%◌, ◌^◌, ◌≤◌, ◌<◌, ◌≡◌, refl, sym, ap, ◌∙◌, ◌⊎◌, inl, inr, false, none, some, List,
  [], ◌∷◌, arith, leb, ◌==◌, leb→le, ==_iff, Bool-cases, All,
}
use native.Mathlib.Nat.{mod-lt, mod-add-mod, mod_self}
use rasperry_pi_os.BumpAllocator.{BumpAllocator, align_to, allocate, allocate_all}

align_to-le :
    (p n : ℕ)
    → 0 < n
    → p + n < 2 ^ 64
    → (p ≤ align_to p n) × (align_to p n < p + n) × (align_to p n % n ≡ 0)
unfolding align_to
align_to-le p n h room =
    let small = mod-lt p h in
    let sum : p % n + (n - p % n) ≡ n = omega (arith, small) in
    let up : (p + (n - p % n)) % n ≡ 0 =
      sym (mod-add-mod p n (n - p % n)) ∙ ap (λ x. x % n) sum ∙ mod_self n in
    elim (Bool-cases (p % n == 0)) [
      | inl whole ↦ rw whole (omega arith, omega arith, (==_iff (p % n) 0).0 whole)
      | inr part ↦
          let fits : (p + (n - p % n)) % 2 ^ 64 ≡ p + (n - p % n) = omega (arith, small) in
          rw part (rw fits (omega (arith, small), ground (arith, part, small), up))
    ]

-- A request of positive size, with no address beyond 2^64, gets a block exactly if one fits: at the
-- least multiple of the alignment that is not below the pointer, which then stands at the block's end.
-- A request that does not fit changes nothing.
pub allocate_lem :
    (a : BumpAllocator) (size align : ℕ)
    → 0 < size
    → 0 < align
    → 0 < a.pointer
    → a.pointer + align + size < 2 ^ 64
    → ((base : ℕ) × (allocate a size align ≡ (some base, record a { pointer = base + size }))
        × (a.pointer ≤ base)
        × (base < a.pointer + align)
        × (base % align ≡ 0)
        × (base + size ≤ a.bound))
      ⊎ ((allocate a size align ≡ (none, a)) × (a.bound < align_to a.pointer align + size))
unfolding allocate
allocate_lem a size align hs ha hp room =
    let (above, near, aligned) = align_to-le a.pointer align ha (omega arith) in
    let whole : (align_to a.pointer align + size) % 2 ^ 64 ≡ align_to a.pointer align + size =
      omega (arith, near) in
    let size_positive : (size == 0) ≡ false = ground arith in
    let not_null : (align_to a.pointer align == 0) ≡ false = ground (arith, above) in
    elim (Bool-cases (leb (align_to a.pointer align + size) a.bound)) [
      | inl fits ↦ inl (
        align_to a.pointer align,
        rw (size_positive, whole, fits, not_null) refl,
        above,
        near,
        aligned,
        leb→le _ _ fits,
      )
      | inr full ↦ inr (rw (size_positive, whole, full) refl, ground (arith, full))
    ]

-- Each block that is not empty lies between `from` and `bound`, above those before it in the list.
abbrev pub Apart : ℕ → ℕ → List (ℕ × ℕ) → Type 0
Apart from bound [] = Unit {0}
Apart from bound ((base, size) ∷ blocks) =
    ((size ≡ 0) × Apart from bound blocks)
    ⊎ ((from ≤ base) × (base + size ≤ bound) × Apart (base + size) bound blocks)

Apart-le :
    (from from' bound : ℕ) (blocks : List (ℕ × ℕ))
    → from ≤ from'
    → Apart from' bound blocks
    → Apart from bound blocks
Apart-le from from' bound [] h p = tt
Apart-le from from' bound ((base, size) ∷ blocks) h (inl (none_of_it, rest)) =
    inl (none_of_it, Apart-le from from' bound blocks h rest)
Apart-le from from' bound ((base, size) ∷ blocks) h (inr (above, below, rest)) =
    inr (omega arith, below, rest)

-- Requests that have an alignment, and do not reach beyond 2^64 from the bound.
abbrev pub InRange : ℕ → List (ℕ × ℕ) → Type 0
InRange bound layouts = All (λ l. (0 < l.1) × (bound + l.1 + l.0 < 2 ^ 64)) layouts

allocate_step :
    (a : BumpAllocator) (size align : ℕ)
    → 0 < a.pointer
    → a.pointer ≤ a.bound
    → 0 < align
    → a.bound + align + size < 2 ^ 64
    → (((allocate a size align).1 ≡ a)
        × (((allocate a size align).0 ≡ none)
            ⊎ ((size ≡ 0) × ((allocate a size align).0 ≡ some align))))
      ⊎ ((base : ℕ) × ((allocate a size align).0 ≡ some base)
          × ((allocate a size align).1 ≡ record a { pointer = base + size })
          × (a.pointer ≤ base)
          × (base + size ≤ a.bound))
unfolding allocate
allocate_step a size align hp hb ha room = elim (Bool-cases (size == 0)) [
  | inl empty_size ↦ inl (rw empty_size (refl, inr ((==_iff size 0).0 empty_size, refl)))
  | inr positive ↦ elim (allocate_lem a size align (ground arith) ha hp (omega arith)) [
    | inl (base, e, above, near, aligned, below) ↦
        inr (base, ap (λ x. x.0) e, ap (λ x. x.1) e, above, below)
    | inr (e, full) ↦ inl (rw e (refl, inl refl))
  ]
]

-- Whatever is requested in range of an allocator whose pointer is not null and not above its bound:
-- the blocks that are not empty lie in its memory, and no two of them overlap.
pub allocate_all-Apart :
    (a : BumpAllocator) (layouts : List (ℕ × ℕ))
    → 0 < a.pointer
    → a.pointer ≤ a.bound
    → InRange a.bound layouts
    → Apart a.pointer a.bound (allocate_all a layouts)
unfolding allocate_all
allocate_all-Apart a [] hp hb r = tt
allocate_all-Apart a ((size, align) ∷ layouts) hp hb ((ha, room), r) =
    elim (allocate_step a size align hp hb ha room) [
      | inl (same, inl refused) ↦
          rw (refused, same, allocate_all) (allocate_all-Apart a layouts hp hb r)
      | inl (same, inr (nothing, given)) ↦
          rw (given, same, allocate_all) (inl (nothing, allocate_all-Apart a layouts hp hb r))
      | inr (base, given, moved, above, below) ↦
          rw (given, moved, allocate_all)
            (inr (
              above,
              below,
              allocate_all-Apart (record a { pointer = base + size }) layouts (omega arith) below r,
            ))
    ]
