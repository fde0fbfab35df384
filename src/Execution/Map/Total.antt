-- ===== src/Execution/Map/Total.antt =====
-- The pages that all executions together hold.
use rasperry_pi_os.Prelude.{
  ℕ, zero, suc, ◌+◌, ◌≤◌, ◌<◌, ◌≡◌, inl, inr, Option, none, some, [], ◌∷◌, ◌++◌, arith, ltb, ltb→lt,
  Bool-cases, length, set, returns,
}
use rasperry_pi_os.Execution.{Execution}
use rasperry_pi_os.Execution.Laws.{holds}
use rasperry_pi_os.Execution.Map.{ExecutionMap, Slot, vacant, past_end, slot_pid, put, get}

abbrev pub held : Option Execution → ℕ → ℕ
held none n = 0
held (some e) n = holds e n

abbrev pub total : ExecutionMap → ℕ → ℕ
total [] n = 0
total (o ∷ m) n = held o n + total m n

pub total-set :
    (m : ExecutionMap) (i : ℕ) (o : Option Execution) (n : ℕ)
    → i < length m
    → total (set m i o) n + held (get m i) n ≡ total m n + held o n
total-set [] i o n h = elim h [ ]
total-set (x ∷ m) zero o n h = omega arith
total-set (x ∷ m) (suc i) o n h = omega (arith, total-set m i o n (omega arith))

total-append :
    (m : ExecutionMap) (o : Option Execution) (n : ℕ) → total (m ++ o ∷ []) n ≡ total m n + held o n
total-append [] o n = omega arith
total-append (x ∷ m) o n = omega (arith, total-append m o n)

pub held-le-total : (m : ExecutionMap) (i n : ℕ) → held (get m i) n ≤ total m n
held-le-total [] i n = omega arith
held-le-total (x ∷ m) zero n = omega arith
held-le-total (x ∷ m) (suc i) n = omega (arith, held-le-total m i n)

-- An execution that comes into an unused place adds its pages.
pub total-put :
    (m : ExecutionMap) (slot : Slot) (e : Execution) (m' : ExecutionMap) (n : ℕ)
    → get m (slot_pid slot) ≡ none
    → put m slot e ≡ returns m'
    → total m' n ≡ total m n + holds e n
total-put m (vacant pid) e m' n unused q = elim (Bool-cases (ltb pid (length m))) [
  | inl h ↦
      let whole : set m pid (some e) ≡ m' = ground arith in
      rw (← whole) (ground (arith, total-set m pid (some e) n (ltb→lt _ _ h)))
  | inr h ↦ absurd (ground arith)
]
total-put m (past_end pid) e m' n unused q =
    let whole : m ++ some e ∷ [] ≡ m' = cc in
    rw (← whole) (omega (arith, total-append m (some e) n))
