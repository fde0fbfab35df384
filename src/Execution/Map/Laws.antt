-- ===== src/Execution/Map/Laws.antt =====
-- The execution map as a function from PIDs to executions.
use rasperry_pi_os.Prelude.{
  ℕ, zero, suc, ◌+◌, ◌^◌, ◌≤◌, ◌<◌, ◌≡◌, refl, ◌≢◌, inl, inr, Option, none, some, [], ◌∷◌, ◌++◌,
  arith, ltb, ◌==◌, if◌then◌else◌, ltb→lt, lt→ltb, ltb→le, Bool-cases, length, get_or, set,
  length-append, length-set, get_or-set_self, get_or-set_ne, get_or_above, returns, OnReturn,
}
use native.Mathlib.Numerals.{add-one}
use rasperry_pi_os.Execution.{Execution, new}
use rasperry_pi_os.Execution.Map.{
  ExecutionMap, Slot, vacant, past_end, vacant_index, find_available_pid, slot_pid, put, create,
  get, remove,
}

get_or-append :
    (m : ExecutionMap) (e : Option Execution) (j : ℕ)
    → get_or (m ++ e ∷ []) j none ≡ (if length m == j then e else get_or m j none)
get_or-append [] e zero = refl
get_or-append [] e (suc j) = ground arith
get_or-append (x ∷ m) e zero = ground arith
get_or-append (x ∷ m) e (suc j) = ground (arith, get_or-append m e j)

-- The first vacant place.
abbrev Vacant : ExecutionMap → Option ℕ → Type 0
Vacant m none = (j : ℕ) → j < length m → get m j ≢ none
Vacant m (some i) = (i < length m) × (get m i ≡ none) × ((j : ℕ) → j < i → get m j ≢ none)

Vacant-cons :
    (e : Execution) (m : ExecutionMap) (o : Option ℕ)
    → Vacant m o
    → Vacant (some e ∷ m) (elim o [ none ↦ none | some i ↦ some (i + 1) ])
Vacant-cons e m none v = λ j. elim j as (λ j. j < suc (length m) → get (some e ∷ m) j ≢ none) [
  | zero ↦ λ h q. cc
  | suc j ↦ λ h. v j (omega arith)
]
Vacant-cons e m (some i) v = (
  omega (arith, v.0),
  rw add-one v.1,
  λ j. elim j as (λ j. j < i + 1 → get (some e ∷ m) j ≢ none) [
    | zero ↦ λ h q. cc
    | suc j ↦ λ h. v.2 j (omega arith)
  ],
)

vacant_index-Vacant : (m : ExecutionMap) → Vacant m (vacant_index m)
unfolding vacant_index
vacant_index-Vacant [] = λ j h. absurd (omega arith)
vacant_index-Vacant (none ∷ m) = (omega arith, refl, λ j h. absurd (omega arith))
vacant_index-Vacant (some e ∷ m) = Vacant-cons e m (vacant_index m) (vacant_index-Vacant m)

-- The slot of the lowest PID that is not in use; to put an execution there changes nothing else.
pub record Picks (m : ExecutionMap) (slot : Slot) : Type 0 where
  pub small : slot_pid slot < 2 ^ 16
  pub unused : get m (slot_pid slot) ≡ none
  pub lowest : (j : ℕ) → j < slot_pid slot → get m j ≢ none
  pub stores :
      (e : Execution)
      → (m' : ExecutionMap) × (put m slot e ≡ returns m')
        × ((j : ℕ) → get m' j ≡ (if slot_pid slot == j then some e else get m j))
        × (length m' ≤ length m + 1)

past_end-Picks :
    (m : ExecutionMap) → Vacant m none → length m < 2 ^ 16 → Picks m (past_end (length m))
past_end-Picks m v h = record {
  small = h;
  unused = get_or_above m (length m) none (omega arith);
  lowest = v;
  stores = λ e. (
    m ++ some e ∷ [],
    refl,
    λ j. get_or-append m (some e) j,
    omega (arith, length-append m (some e ∷ [])),
  );
}

vacant-Picks : (m : ExecutionMap) (i : ℕ) → Vacant m (some i) → i < 2 ^ 16 → Picks m (vacant i)
vacant-Picks m i v h = record {
  small = h;
  unused = v.1;
  lowest = v.2;
  stores = λ e. (
    set m i (some e),
    rw (lt→ltb _ _ v.0) refl,
    λ j. ground (arith, get_or-set_self m i (some e) none v.0, get_or-set_ne m i j (some e) none),
    omega (arith, length-set m i (some e)),
  );
}

Vacant-Picks :
    (m : ExecutionMap) (o : Option ℕ)
    → vacant_index m ≡ o
    → Vacant m o
    → length m < 2 ^ 16
    → (slot : Slot) × (find_available_pid m ≡ returns slot) × Picks m slot
unfolding find_available_pid
Vacant-Picks m none q v h =
    (past_end (length m), rw (q, find_available_pid, lt→ltb _ _ h) refl, past_end-Picks m v h)
Vacant-Picks m (some i) q v h =
    let small : i < 2 ^ 16 = omega (arith, v.0) in
    (vacant i, rw (q, find_available_pid, lt→ltb i (2 ^ 16) small) refl, vacant-Picks m i v small)

Vacant-OnReturn :
    (m : ExecutionMap) (o : Option ℕ)
    → vacant_index m ≡ o
    → Vacant m o
    → OnReturn (Picks m) (find_available_pid m)
unfolding find_available_pid
Vacant-OnReturn m none q v =
    rw (q, find_available_pid)
      (elim (Bool-cases (ltb (length m) (2 ^ 16))) [
        | inl h ↦ rw h (past_end-Picks m v (ltb→lt _ _ h))
        | inr h ↦ rw h tt
      ])
Vacant-OnReturn m (some i) q v =
    rw (q, find_available_pid)
      (elim (Bool-cases (ltb i (2 ^ 16))) [
        | inl h ↦ rw h (vacant-Picks m i v (ltb→lt _ _ h))
        | inr h ↦ rw h tt
      ])

pub find_available_pid-OnReturn : (m : ExecutionMap) → OnReturn (Picks m) (find_available_pid m)
find_available_pid-OnReturn m = Vacant-OnReturn m (vacant_index m) refl (vacant_index-Vacant m)

-- While there are fewer than 2^16 places, `find_available_pid` returns, and its slot is that of the
-- lowest PID not in use.
pub find_available_pid-Picks :
    (m : ExecutionMap)
    → length m < 2 ^ 16
    → (slot : Slot) × (find_available_pid m ≡ returns slot) × Picks m slot
find_available_pid-Picks m h = Vacant-Picks m (vacant_index m) refl (vacant_index-Vacant m) h

-- After `remove` the PID has no execution, and every other PID has what it had, also if the PID is
-- out of range.
pub get-remove :
    (m : ExecutionMap) (pid j : ℕ) → get (remove m pid).1 j ≡ (if pid == j then none else get m j)
get-remove m pid j = elim (Bool-cases (ltb pid (length m))) [
  | inl h ↦
      ground
        (arith, get_or-set_self m pid none none (ltb→lt _ _ h), get_or-set_ne m pid j none none)
  | inr h ↦ ground (
    arith,
    get_or_above m pid none (ltb→le _ _ h),
    get_or_above (set m pid none) pid none,
    length-set m pid none,
    get_or-set_ne m pid j none none,
  )
]

-- `create` registers a new execution at the lowest PID that is not in use: with no page, one
-- token, no signal, and the table and the context that are given.
pub create_lem :
    (m : ExecutionMap) (tcr_el1 ttbr0 user_context : ℕ)
    → length m < 2 ^ 16
    → (pid : ℕ) × (m' : ExecutionMap) × (create m tcr_el1 ttbr0 user_context ≡ returns (pid, m'))
      × (get m pid ≡ none)
      × ((j : ℕ) → j < pid → get m j ≢ none)
      × ((j : ℕ)
          → get m' j ≡ (if pid == j then some (new tcr_el1 ttbr0 user_context pid) else get m j))
unfolding create
create_lem m tcr_el1 ttbr0 user_context h =
    let (slot, found_it, p) = find_available_pid-Picks m h in
    let (m', stored, at, size) = p.stores (new tcr_el1 ttbr0 user_context (slot_pid slot)) in
    (slot_pid slot, m', rw (found_it, stored) refl, p.unused, p.lowest, at)
