-- ===== src/Execution/Laws.antt =====
-- What the operations of one execution do, on every branch.
use rasperry_pi_os.Prelude.{
  ℕ, zero, suc, ◌+◌, ◌/◌, ◌%◌, ◌^◌, ◌≤◌, ◌<◌, ◌≡◌, refl, ◌≢◌, ◌⊎◌, inl, inr, true, false, some,
  List, [], ◌∷◌, ◌++◌, arith, ltb, ◌==◌, if◌then◌else◌, expectation, unreachable, Outcome, returns,
  panics, ◌>>=◌,
}
use rasperry_pi_os.Memory.Region.{page_size}
use rasperry_pi_os.Execution.{
  Execution, misaligned_ttbr0, inaccessible_ttbr0, misaligned_user_context,
  inaccessible_user_context, pop, add_signal, pop_signal, contains_pa, contains_pa_writeable,
  set_context, add_writable_page, unblock, block,
}
use rasperry_pi_os.Execution.Search.{Position, found, missing, binary_search_by_key, insert}
use rasperry_pi_os.Execution.Pages.{count, IsPages, Inserts, search-count, search-Inserts}

pub record IsValid (e : Execution) : Type 0 where
  pub writeable : IsPages e.writeable_pages
  pub readable : IsPages e.readable_pages
  pub small : e.token ≤ 2

-- How often an execution holds a page, in either list.
abbrev pub holds : Execution → ℕ → ℕ
holds e n = count e.writeable_pages n + count e.readable_pages n

-- The two checks of a physical address find exactly the pages that the execution holds, and holds
-- for writing.
pub contains_pa-holds :
    (e : Execution) (pa : ℕ)
    → IsValid e
    → (contains_pa e pa ≡ ltb 0 (holds e (pa / page_size)))
      × (contains_pa_writeable e pa ≡ ltb 0 (count e.writeable_pages (pa / page_size)))
unfolding contains_pa contains_pa_writeable
contains_pa-holds e pa v = (
  ground (
    arith,
    search-count e.writeable_pages (pa / page_size) v.writeable,
    search-count e.readable_pages (pa / page_size) v.readable,
  ),
  search-count e.writeable_pages (pa / page_size) v.writeable,
)

-- `set_context` checks, in this order, the alignment of the table, that the execution holds its
-- page, the alignment of the context, and bits 48 to 55 of its address. The first check that fails
-- gives the error; if all hold, the table and the context are replaced and nothing else.
pub set_context_lem :
    (e : Execution) (user_context ttbr0 tcr_el1 : ℕ)
    → IsValid e
    → let result = set_context e user_context ttbr0 tcr_el1 in
      ((ttbr0 % 64 ≢ 0) × (result ≡ inr misaligned_ttbr0))
      ⊎ ((ttbr0 % 64 ≡ 0)
          × (((holds e (ttbr0 / page_size) ≡ 0) × (result ≡ inr inaccessible_ttbr0))
              ⊎ ((0 < holds e (ttbr0 / page_size))
                  × (((user_context % 8 ≢ 0) × (result ≡ inr misaligned_user_context))
                      ⊎ ((user_context % 8 ≡ 0)
                          × (((user_context / 2 ^ 48 % 256 ≢ 0)
                                × (result ≡ inr inaccessible_user_context))
                              ⊎ ((user_context / 2 ^ 48 % 256 ≡ 0)
                                  × (result
                                      ≡ inl (record e {
                                        ttbr0 = ttbr0;
                                        user_context = user_context;
                                      })))))))))
unfolding set_context
set_context_lem e user_context ttbr0 tcr_el1 v = ground (arith, (contains_pa-holds e ttbr0 v).0)

-- The page is held for writing already and the call panics, or it comes into the sorted list and
-- nothing else of the execution changes.
abbrev pub Adds : Execution → ℕ → Outcome Execution → Type 0
Adds e page o =
    ((0 < count e.writeable_pages (page / page_size)) × (o ≡ panics expectation))
    ⊎ ((count e.writeable_pages (page / page_size) ≡ 0)
        × ((ws : List ℕ) × (o ≡ returns (record e { writeable_pages = ws }))
            × IsPages ws
            × ((n : ℕ)
                → count ws n
                  ≡ count e.writeable_pages n + (if page / page_size == n then 1 else 0))))

Inserts-Adds :
    (e : Execution) (page : ℕ) (p : Position)
    → binary_search_by_key (λ x. x) page e.writeable_pages ≡ p
    → Inserts e.writeable_pages page p
    → Adds e page (add_writable_page e page)
unfolding add_writable_page
Inserts-Adds e page (found i) q f = inl (f, rw (q, add_writable_page) refl)
Inserts-Adds e page (missing i) q f =
    inr (f.2, (insert e.writeable_pages i page, rw (q, add_writable_page) refl, f.0, f.1))

-- `add_writable_page` panics on a page that the execution already holds for writing; any other page
-- comes into the list, which stays sorted, and nothing else of the execution changes.
pub add_writable_page_lem :
    (e : Execution) (page : ℕ)
    → IsValid e
    → page % page_size ≡ 0
    → Adds e page (add_writable_page e page)
add_writable_page_lem e page v h =
    Inserts-Adds e page _ refl (search-Inserts e.writeable_pages page v.writeable h)

-- `k` calls of `unblock`.
pub unblocks : ℕ → Execution → Outcome Execution
unblocks zero e = returns e
unblocks (suc k) e = do answer ← unblock e; unblocks k answer.0

unblocks_full :
    (k : ℕ) (e : Execution) → e.token ≡ 2 → unblocks k e ≡ returns (record e { token = 2 })
unfolding unblocks unblock
unblocks_full zero e h = ground arith
unblocks_full (suc k) e h = ground (arith, unblocks_full k (record e { token = 2 }))

-- An execution with one token that is unblocked once or more does not idle at its next `block`, and has
-- one token after it; without an `unblock` it idles, with none. One without a token is scheduled by the
-- first `unblock` and not by any further one, and its `block` panics.
pub unblock-block :
    (k : ℕ) (e : Execution)
    → e.token ≤ 1
    → ((e.token ≡ 1)
        × ((unblocks (suc k) e >>= block) ≡ returns (record e { token = 1 }, false))
        × (block e ≡ returns (record e { token = 0 }, true)))
      ⊎ ((e.token ≡ 0)
          × (unblock e ≡ returns (record e { token = 1 }, true))
          × ((unblocks (suc k) e >>= unblock) ≡ returns (record e { token = 2 }, false))
          × (block e ≡ panics unreachable))
unfolding unblocks unblock block
unblock-block zero e h = ground arith
unblock-block (suc k) e h = ground (
  arith,
  unblocks_full k (record e { token = 2 }),
  unblocks_full (suc k) (record e { token = 2 }),
)

pop-append {ℓ} : {A : Type ℓ} (xs : List A) (x : A) → pop (xs ++ x ∷ []) ≡ some (x, xs)
pop-append [] x = refl
pop-append (y ∷ ys) x = rw (pop-append ys x) refl

-- The signal that came last is delivered first, and what waited before still waits.
pub pop_signal-add_signal :
    (e : Execution) (sender : ℕ) → pop_signal (add_signal e sender) ≡ (some sender, e)
unfolding pop_signal add_signal
pop_signal-add_signal e sender = rw (pop-append e.pending_messages sender, pop_signal) refl
