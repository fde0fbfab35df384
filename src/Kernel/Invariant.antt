-- ===== src/Kernel/Invariant.antt =====
-- The invariant of the kernel's memory: who owns the pages.
use rasperry_pi_os.Prelude.{
  ℕ, ◌+◌, ◌<◌, ◌≡◌, ◌∙◌, inl, inr, Option, none, some, arith, ltb, ◌==◌, if◌then◌else◌, ltb→lt,
  ltb→le, ==_iff, Bool-cases, length, set, get_or-set_self, get_or-set_ne, get_or_above,
}
use rasperry_pi_os.Memory.Allocator.Refs.{contains, refs}
use rasperry_pi_os.Memory.Allocator.Refs as Allocator
use rasperry_pi_os.Execution.{Execution}
use rasperry_pi_os.Execution.Laws.{IsValid, holds}
use rasperry_pi_os.Execution.Map.{ExecutionMap, get}
use rasperry_pi_os.Execution.Map.Total.{total, total-set, held}
use rasperry_pi_os.Kernel.{Kernel, store}

-- Every execution is well formed and stands at its own PID.
abbrev pub Registered : ExecutionMap → Type 0
Registered m = (j : ℕ) (e : Execution) → get m j ≡ some e → IsValid e × (e.pid ≡ j)

-- The count of each page is the number of times that executions hold it, and 1 more for a page
-- that was reserved at boot.
pub record Inv (reserved : ℕ → ℕ) (k : Kernel) : Type 0 where
  pub pages : Allocator.IsValid k.page_allocator
  pub owned : (n : ℕ) → refs k.page_allocator n ≡ reserved n + total k.executions n
  pub registered : Registered k.executions

pub get-length : (m : ExecutionMap) (j : ℕ) (e : Execution) → get m j ≡ some e → j < length m
get-length m j e h = elim (Bool-cases (ltb j (length m))) [
  | inl lt ↦ ltb→lt _ _ lt
  | inr ge ↦ absurd (ground (arith, get_or_above m j none (ltb→le _ _ ge)))
]

pub get-set :
    (m : ExecutionMap) (j : ℕ) (e : Execution) (e' : Option Execution) (i : ℕ)
    → get m j ≡ some e
    → get (set m j e') i ≡ (if j == i then e' else get m i)
get-set m j e e' i h =
    let lt = get-length m j e h in
    ground (arith, get_or-set_self m j e' none lt, get_or-set_ne m j i e' none)

pub total-replace :
    (m : ExecutionMap) (j : ℕ) (e : Execution) (o : Option Execution) (n : ℕ)
    → get m j ≡ some e
    → total (set m j o) n + holds e n ≡ total m n + held o n
total-replace m j e o n h = ground (arith, total-set m j o n (get-length m j e h))

pub set-Registered :
    (m : ExecutionMap) (j : ℕ) (e e' : Execution)
    → Registered m
    → get m j ≡ some e
    → IsValid e'
    → e'.pid ≡ e.pid
    → Registered (set m j (some e'))
set-Registered m j e e' r h v same = λ i f q. elim (Bool-cases (j == i)) [
  | inl at ↦
      let here : j ≡ i = (==_iff j i).0 at in
      let new : e' ≡ f = ground (arith, get-set m j e (some e') i h) in
      let old = (r j e h).1 in rw (← new) (v, rw (← here) (same ∙ old))
  | inr off ↦ r i f (ground (arith, get-set m j e (some e') i h))
]

-- An execution changes in its place, and holds what it held.
pub store-Inv :
    (reserved : ℕ → ℕ) (k : Kernel) (j : ℕ) (e e' : Execution)
    → Inv reserved k
    → get k.executions j ≡ some e
    → IsValid e'
    → e'.pid ≡ e.pid
    → ((n : ℕ) → holds e' n ≡ holds e n)
    → Inv reserved (store k j e')
store-Inv reserved k j e e' inv h v same same_pages = record {
  pages = inv.pages;
  owned =
      λ n. omega (arith, inv.owned n, total-replace k.executions j e (some e') n h, same_pages n);
  registered = set-Registered k.executions j e e' inv.registered h v same;
}
