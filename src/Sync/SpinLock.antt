-- ===== src/Sync/SpinLock.antt =====
-- `SpinLock` and `MutexGuard` of os/src/sync/mod.rs.
use rasperry_pi_os.Prelude.{
  ℕ, ◌+◌, ◌-◌, ◌<◌, ◌≡◌, refl, inl, inr, Bool, true, false, List, [], ◌∷◌, arith, ltb, ◌==◌,
  if◌then◌else◌, ltb→lt, lt→ltb, ltb→le, ==_iff, Bool-cases, length, get_or, set, replicate,
  get_or_above,
}
use rasperry_pi_os.Sync.Threads.{total, total-set, total_two, total-le, total-replicate}

-- Where a thread stands: outside, before the `swap` or the `load` of `lock`, or with a guard.
-- `MutexGuard::unlock` is called nowhere, and is not modelled.
pub data Phase : Type 0 where
  outside swapping spinning locked : Phase

-- The lock's flag, and its threads.
pub record SpinLock : Type 0 where
  pub is_locked : Bool
  pub threads : List Phase

abbrev pub phase : SpinLock → ℕ → Phase
phase s i = get_or s.threads i outside

unfoldable pub new : ℕ → SpinLock
new n = record { is_locked = false; threads = replicate n outside }

-- The drop of a guard unlocks.
abbrev pub drop_guard : Bool × Phase
drop_guard = (false, outside)

-- The next atomic access of a thread: the flag after it, and where the thread then stands. A thread
-- with a guard drops it.
unfoldable pub access : Bool → Phase → Bool × Phase
access is_locked outside = (is_locked, swapping)
access is_locked swapping = (true, if is_locked then spinning else locked)
access is_locked spinning = (is_locked, if is_locked then spinning else swapping)
access is_locked locked = drop_guard

unfoldable pub step : SpinLock → ℕ → SpinLock
unfolding access
step s i =
    let (is_locked, p) = access s.is_locked (phase s i) in
    if ltb i (length s.threads)
    then record { is_locked = is_locked; threads = set s.threads i p }
    else s

-- A run in any order of the threads.
unfoldable pub run : SpinLock → List ℕ → SpinLock
run s [] = s
run s (i ∷ is) = run (step s i) is

abbrev pub guards : Phase → ℕ
guards outside = 0
guards swapping = 0
guards spinning = 0
guards locked = 1

-- The flag is set exactly while a guard lives, and there is at most one guard.
abbrev pub IsExclusive : SpinLock → Type 0
IsExclusive s = total guards s.threads ≡ (if s.is_locked then 1 else 0)

access-guards :
    (b : Bool) (p : Phase) (n : ℕ)
    → n + guards p ≡ (if b then 1 else 0)
    → n + guards (access b p).1 ≡ (if (access b p).0 then 1 else 0)
unfolding access
access-guards b outside n h = ground arith
access-guards b swapping n h = ground arith
access-guards b spinning n h = ground arith
access-guards b locked n h = ground arith

step-IsExclusive : (s : SpinLock) (i : ℕ) → IsExclusive s → IsExclusive (step s i)
unfolding step
step-IsExclusive s i h = elim (Bool-cases (ltb i (length s.threads))) [
  | inr out ↦ rw out h
  | inl lt ↦
      let p = (access s.is_locked (phase s i)).1 in
      let here = total-le guards s.threads i outside (ltb→lt _ _ lt) in
      let fact =
        access-guards s.is_locked (phase s i) (total guards s.threads - guards (phase s i))
          (omega (arith, h, here)) in
      rw lt (omega (arith, fact, here, total-set guards s.threads i p outside (ltb→lt _ _ lt)))
]

run-IsExclusive : (s : SpinLock) (is : List ℕ) → IsExclusive s → IsExclusive (run s is)
unfolding run
run-IsExclusive s [] h = h
run-IsExclusive s (i ∷ is) h = run-IsExclusive (step s i) is (step-IsExclusive s i h)

new-IsExclusive : (n : ℕ) → IsExclusive (new n)
unfolding new
new-IsExclusive n = total-replicate guards n outside refl

locked-lt : (s : SpinLock) (i : ℕ) → phase s i ≡ locked → i < length s.threads
locked-lt s i h = elim (Bool-cases (ltb i (length s.threads))) [
  | inl lt ↦ ltb→lt _ _ lt
  | inr ge ↦ absurd (ground (arith, get_or_above s.threads i outside (ltb→le _ _ ge)))
]

locked-guards : (s : SpinLock) (i : ℕ) → phase s i ≡ locked → guards (phase s i) ≡ 1
locked-guards s i h = rw h refl

locked-is_locked : (s : SpinLock) (i : ℕ) → IsExclusive s → phase s i ≡ locked → s.is_locked ≡ true
locked-is_locked s i e h =
    ground (arith, locked-guards s i h, total-le guards s.threads i outside (locked-lt s i h))

locked-alone :
    (s : SpinLock) (i j : ℕ) → IsExclusive s → phase s i ≡ locked → phase s j ≡ locked → i ≡ j
locked-alone s i j e h h' = elim (Bool-cases (i == j)) [
  | inl same ↦ (==_iff i j).0 same
  | inr other ↦ absurd (
      ground (
        arith,
        locked-guards s i h,
        locked-guards s j h',
        total_two guards s.threads i j outside (locked-lt s i h) (locked-lt s j h') (ground arith),
      ))
]

-- However the accesses of `n` threads interleave, two threads with a guard of the lock are the same
-- thread, and while one has a guard, the flag is set.
pub run-exclusive :
    (n : ℕ) (is : List ℕ) (i j : ℕ)
    → phase (run (new n) is) i ≡ locked
    → phase (run (new n) is) j ≡ locked
    → (i ≡ j) × ((run (new n) is).is_locked ≡ true)
run-exclusive n is i j h h' =
    let s = run (new n) is in
    let e = run-IsExclusive (new n) is (new-IsExclusive n) in
    (locked-alone s i j e h h', locked-is_locked s i e h)

-- The step of a thread that `access` moves.
step-access :
    (s : SpinLock) (i : ℕ) (b : Bool) (p : Phase)
    → i < length s.threads
    → access s.is_locked (phase s i) ≡ (b, p)
    → step s i ≡ record { is_locked = b; threads = set s.threads i p }
unfolding step
step-access s i b p lt e = rw (lt→ltb _ _ lt, e) refl
