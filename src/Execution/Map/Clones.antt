-- ===== src/Execution/Map/Clones.antt =====
-- What the clone and the drop of an execution do to the counts of its pages.
use rasperry_pi_os.Prelude.{
  ℕ, ◌+◌, ◌-◌, ◌*◌, ◌/◌, ◌%◌, ◌^◌, ◌≤◌, ◌<◌, ◌≡◌, refl, inl, inr, true, List, [], ◌∷◌, arith,
  Bool-cases, All, returns, OnReturn, OnReturn->>=, OnReturn-map,
}
use rasperry_pi_os.Memory.Region.{page_size}
use rasperry_pi_os.Memory.Allocator.{PageAllocator}
use rasperry_pi_os.Memory.Allocator.Refs.{contains, refs, IsValid}
use rasperry_pi_os.Memory.Allocator.Laws.{
  add_ref-Sets, add_ref-returns, remove_ref-returns, refs_outside,
}
use rasperry_pi_os.Execution.{Execution}
use rasperry_pi_os.Execution.Pages.{count}
use rasperry_pi_os.Execution.Laws.{holds}
use rasperry_pi_os.Execution.Map.{clone_pages, drop_pages, clone_execution, drop_execution}

-- The counts afterwards are those of a function; the pages are the same.
pub record Becomes (a : PageAllocator) (f : ℕ → ℕ) (a' : PageAllocator) : Type 0 where
  pub valid : IsValid a'
  pub same_pages : (n : ℕ) → contains a' n ≡ contains a n
  pub counts : (n : ℕ) → refs a' n ≡ f n

-- Every page of the list is in use, and none is counted past the range of a count.
abbrev pub CanClone : PageAllocator → List ℕ → Type 0
CanClone a pages =
    (n : ℕ)
    → 0 < count pages n
    → (contains a n ≡ true) × (0 < refs a n) × (refs a n + count pages n < 2 ^ 16)

pub clone_pages-Becomes :
    (pages : List ℕ) (a : PageAllocator)
    → IsValid a
    → All (λ x. x % page_size ≡ 0) pages
    → CanClone a pages
    → (a' : PageAllocator) × (clone_pages a pages ≡ returns a')
      × Becomes a (λ n. refs a n + count pages n) a'
unfolding clone_pages
clone_pages-Becomes [] a v al c =
    (a, refl, record { valid = v; same_pages = λ n. refl; counts = λ n. omega arith })
clone_pages-Becomes (page ∷ pages) a v al c =
    let n = page / page_size in
    let whole : n * page_size ≡ page = omega (arith, al.0) in
    let here = c n (ground arith) in
    let (b, added, s) = add_ref-returns a n v here.0 here.1 (ground (arith, here.2)) in
    let still : CanClone b pages = λ m h. ground (arith, c m, s.counts m, s.same_pages m) in
    let (a', cloned, t) = clone_pages-Becomes pages b s.valid al.1 still in
    (
      a',
      rw (rw whole at added) cloned,
      record {
        valid = t.valid;
        same_pages = λ m. ground (arith, t.same_pages m, s.same_pages m);
        counts = λ m. ground (arith, t.counts m, s.counts m);
      },
    )

pub drop_pages-Becomes :
    (pages : List ℕ) (a : PageAllocator)
    → IsValid a
    → All (λ x. x % page_size ≡ 0) pages
    → ((n : ℕ) → count pages n ≤ refs a n)
    → (a' : PageAllocator) × (drop_pages a pages ≡ returns a')
      × Becomes a (λ n. refs a n - count pages n) a'
unfolding drop_pages
drop_pages-Becomes [] a v al c =
    (a, refl, record { valid = v; same_pages = λ n. refl; counts = λ n. omega arith })
drop_pages-Becomes (page ∷ pages) a v al c =
    let n = page / page_size in
    let whole : n * page_size ≡ page = omega (arith, al.0) in
    let pos : 0 < refs a n = ground (arith, c n) in
    let here : contains a n ≡ true = elim (Bool-cases (contains a n)) [
      | inl h ↦ h
      | inr h ↦ absurd (omega (arith, refs_outside a.regions n h))
    ] in
    let (b, removed, s) = remove_ref-returns a n v here pos in
    let still : (m : ℕ) → count pages m ≤ refs b m = λ m. ground (arith, c m, s.counts m) in
    let (a', dropped, t) = drop_pages-Becomes pages b s.valid al.1 still in
    (
      a',
      rw (rw whole at removed) dropped,
      record {
        valid = t.valid;
        same_pages = λ m. ground (arith, t.same_pages m, s.same_pages m);
        counts = λ m. ground (arith, t.counts m, s.counts m, c m);
      },
    )

-- The pages of an execution that can be counted once more.
abbrev pub CanFork : PageAllocator → Execution → Type 0
CanFork a e =
    (n : ℕ)
    → 0 < holds e n
    → (contains a n ≡ true) × (0 < refs a n) × (refs a n + holds e n < 2 ^ 16)

module _ (e : Execution) (a : PageAllocator) (v : IsValid a)
    (aw : All (λ x. x % page_size ≡ 0) e.writeable_pages)
    (ar : All (λ x. x % page_size ≡ 0) e.readable_pages) where
  pub clone_execution-Becomes :
      CanFork a e
      → (a' : PageAllocator) × (clone_execution a e ≡ returns a')
        × Becomes a (λ n. refs a n + holds e n) a'
  unfolding clone_execution
  clone_execution-Becomes c =
      let first : CanClone a e.writeable_pages = λ n h. ground (arith, c n) in
      let (b, cloned, s) = clone_pages-Becomes e.writeable_pages a v aw first in
      let second : CanClone b e.readable_pages =
        λ n h. ground (arith, c n, s.counts n, s.same_pages n) in
      let (a', cloned', t) = clone_pages-Becomes e.readable_pages b s.valid ar second in
      (
        a',
        rw cloned cloned',
        record {
          valid = t.valid;
          same_pages = λ n. ground (arith, t.same_pages n, s.same_pages n);
          counts = λ n. omega (arith, t.counts n, s.counts n);
        },
      )

  pub drop_execution-Becomes :
      ((n : ℕ) → holds e n ≤ refs a n)
      → (a' : PageAllocator) × (drop_execution a e ≡ returns a')
        × Becomes a (λ n. refs a n - holds e n) a'
  unfolding drop_execution
  drop_execution-Becomes c =
      let first : (n : ℕ) → count e.writeable_pages n ≤ refs a n = λ n. omega (arith, c n) in
      let (b, dropped, s) = drop_pages-Becomes e.writeable_pages a v aw first in
      let second : (n : ℕ) → count e.readable_pages n ≤ refs b n =
        λ n. omega (arith, c n, s.counts n) in
      let (a', dropped', t) = drop_pages-Becomes e.readable_pages b s.valid ar second in
      (
        a',
        rw dropped dropped',
        record {
          valid = t.valid;
          same_pages = λ n. ground (arith, t.same_pages n, s.same_pages n);
          counts = λ n. omega (arith, t.counts n, s.counts n);
        },
      )

-- A clone that returns counts each page of the list once more, whatever the counts were.
clone_pages-OnReturn :
    (pages : List ℕ) (a : PageAllocator)
    → IsValid a
    → All (λ x. x % page_size ≡ 0) pages
    → OnReturn (Becomes a (λ n. refs a n + count pages n)) (clone_pages a pages)
unfolding clone_pages
clone_pages-OnReturn [] a v al = record {
  valid = v;
  same_pages = λ n. refl;
  counts = λ n. omega arith;
}
clone_pages-OnReturn (page ∷ pages) a v al =
    let n = page / page_size in
    let whole : n * page_size ≡ page = omega (arith, al.0) in
    elim (add_ref-Sets a n v) [
      | inl (_, e) ↦ rw (rw whole at e) tt
      | inr (inl (_, _, e)) ↦ rw (rw whole at e) tt
      | inr (inr (inl (_, _, e))) ↦ rw (rw whole at e) tt
      | inr (inr (inr (_, _, (b, e, s)))) ↦ rw (rw whole at e) (
          OnReturn-map (clone_pages b pages) (clone_pages-OnReturn pages b s.valid al.1) (λ a' t.
            record {
              valid = t.valid;
              same_pages = λ m. ground (arith, t.same_pages m, s.same_pages m);
              counts = λ m. ground (arith, t.counts m, s.counts m);
            }))
    ]

pub clone_execution-OnReturn :
    (e : Execution) (a : PageAllocator)
    → IsValid a
    → All (λ x. x % page_size ≡ 0) e.writeable_pages
    → All (λ x. x % page_size ≡ 0) e.readable_pages
    → OnReturn (Becomes a (λ n. refs a n + holds e n)) (clone_execution a e)
unfolding clone_execution
clone_execution-OnReturn e a v aw ar =
    OnReturn->>= (Becomes a (λ n. refs a n + count e.writeable_pages n)) _
      (clone_pages a e.writeable_pages) (λ b. clone_pages b e.readable_pages)
      (clone_pages-OnReturn e.writeable_pages a v aw)
      (λ b _ s.
        OnReturn-map (clone_pages b e.readable_pages)
          (clone_pages-OnReturn e.readable_pages b s.valid ar)
          (λ a' t. record {
            valid = t.valid;
            same_pages = λ n. ground (arith, t.same_pages n, s.same_pages n);
            counts = λ n. omega (arith, t.counts n, s.counts n);
          }))
