-- ===== src/Execution.antt =====
-- Execution of os/src/bin/kernel/execution/mod.rs: what the kernel keeps of one running program.
-- A page is its address; a `Vec` is a list, whose end is the end of the `Vec`. `current()` and the
-- jumps into user mode belong to `Kernel`.
pub mod Search
pub mod Pages
pub mod Laws
pub mod Map
use rasperry_pi_os.Prelude.{
  ℕ, zero, suc, ◌+◌, ◌-◌, ◌*◌, ◌/◌, ◌%◌, ◌^◌, ◌≤◌, ◌<◌, ◌≡◌, refl, sym, ap, ◌∙◌, ◌≢◌, ◌↔◌, ◌⊎◌, inl,
  inr, Bool, true, false, not, ◌&&◌, ◌||◌, Option, none, some, List, [], ◌∷◌, ◌++◌, map, arith, ltb,
  leb, ◌==◌, if◌then◌else◌, ltb→lt, lt→ltb, le→ltb, ltb→le, leb→le, ==_iff, ==_refl, Bool-cases,
  Option-cases, length, get_elem?, get_or, set, replicate, All, length-append, length-set,
  length-replicate, get_or-set_self, get_or-set_ne, get_or_above, get_or-replicate, All-replicate,
  All-set, All-append, All-get_or, Panic, expectation, assertion, bounds, unreachable, todo,
  Outcome, returns, panics, ◌>>=◌, ◌>>◌, assert, expect, Outcome-cases, OnReturn-any, OnReturn,
  OnReturn->>=, OnReturn-map, OnReturn-returns, >>=-returns,
}
use rasperry_pi_os.Execution.Search.{found, missing, is_ok, binary_search_by_key, insert}

pub record Execution : Type 0 where
  pub writeable_pages : List ℕ
  pub readable_pages : List ℕ
  pub user_context : ℕ
  pub ttbr0 : ℕ
  pub tcr_el1 : ℕ
  pub token : ℕ
  pub pid : ℕ
  pub pending_messages : List ℕ

pub data ContextError : Type 0 where
  misaligned_ttbr0 inaccessible_ttbr0 invalid_tcr_bits : ContextError
  misaligned_user_context inaccessible_user_context : ContextError

-- `Execution::new`
unfoldable pub new : ℕ → ℕ → ℕ → ℕ → Execution
new tcr_el1 ttbr0 user_context pid = record {
  writeable_pages = [];
  readable_pages = [];
  user_context = user_context;
  ttbr0 = ttbr0;
  tcr_el1 = tcr_el1;
  token = 1;
  pid = pid;
  pending_messages = [];
}

unfoldable pub add_signal : Execution → ℕ → Execution
add_signal e sender = record e { pending_messages = e.pending_messages ++ sender ∷ [] }

-- `Vec::pop`
abbrev pub pop {ℓ} : {A : Type ℓ} → List A → Option (A × List A)
pop [] = none
pop (x ∷ xs) = elim (pop xs) [ none ↦ some (x, []) | some (last, rest) ↦ some (last, x ∷ rest) ]

unfoldable pub pop_signal : Execution → Option ℕ × Execution
pop_signal e = elim (pop e.pending_messages) [
  | none ↦ (none, e)
  | some (sender, rest) ↦ (some sender, record e { pending_messages = rest })
]

-- `page_bits` is 16.
abbrev pub page_bits : ℕ
page_bits = 16

unfoldable pub contains_pa_writeable : Execution → ℕ → Bool
contains_pa_writeable e pa =
    is_ok (binary_search_by_key (λ x. x / 2 ^ page_bits) (pa / 2 ^ page_bits) e.writeable_pages)

unfoldable pub contains_pa : Execution → ℕ → Bool
contains_pa e pa =
    is_ok (binary_search_by_key (λ x. x / 2 ^ page_bits) (pa / 2 ^ page_bits) e.writeable_pages)
    || is_ok (binary_search_by_key (λ x. x / 2 ^ page_bits) (pa / 2 ^ page_bits) e.readable_pages)

-- `ttbr0 & 0x3F`, the alignment of a `UserContext`, which is 8, and bits 48 to 55 of its address.
unfoldable pub set_context : Execution → ℕ → ℕ → ℕ → Execution ⊎ ContextError
set_context e user_context ttbr0 tcr_el1 =
    if not (ttbr0 % 64 == 0)
    then inr misaligned_ttbr0
    else if not (contains_pa e ttbr0)
    then inr inaccessible_ttbr0
    else if not (user_context % 8 == 0)
    then inr misaligned_user_context
    else if not (user_context / 2 ^ 48 % 256 == 0)
    then inr inaccessible_user_context
    else inl (record e { ttbr0 = ttbr0; user_context = user_context })

-- `binary_search(&page)`, whose `Ok` is a duplicate page, and `Vec::insert`.
unfoldable pub add_writable_page : Execution → ℕ → Outcome Execution
add_writable_page e page = elim (binary_search_by_key (λ x. x) page e.writeable_pages) [
  | found i ↦ panics expectation
  | missing insertion ↦
      returns (record e { writeable_pages = insert e.writeable_pages insertion page })
]

-- The updates of the token in `unblock` and `block`.
abbrev pub give_token : ℕ → Outcome ℕ
give_token token =
    if token == 0
    then returns 1
    else if token == 1
    then returns 2
    else if token == 2
    then returns 2
    else panics unreachable

abbrev pub take_token : ℕ → Outcome ℕ
take_token token =
    if token == 0
    then panics unreachable
    else if token == 1
    then returns 0
    else if token == 2
    then returns 1
    else panics unreachable

-- The execution after `unblock`, and whether it has to be scheduled.
unfoldable pub unblock : Execution → Outcome (Execution × Bool)
unblock e = do token ← give_token e.token; returns (record e { token = token }, e.token == 0)

-- The execution after `block`, and whether its core goes idle.
unfoldable pub block : Execution → Outcome (Execution × Bool)
block e = do token ← take_token e.token; returns (record e { token = token }, e.token == 1)
