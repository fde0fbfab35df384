-- ===== src/Tests/Locks.antt =====
-- The locks of os/src/sync/mod.rs with two threads.
use rasperry_pi_os.Prelude.{ℕ, ◌≤◌, ◌≡◌, refl, ◌≢◌, ◌⊎◌, true, some, List, [], ◌∷◌, arith, returns}
use rasperry_pi_os.Sync.SpinLock.{
  SpinLock, locked, swapping, outside, phase, step, run, access, run-exclusive,
}
use rasperry_pi_os.Sync.SpinLock as Spin
use rasperry_pi_os.Sync.RwLock.{RwLock, Action, read, write, proceed, downgrade, writer, reader}
use rasperry_pi_os.Sync.RwLock.Laws.{run-writer}
use rasperry_pi_os.Sync.RwLock as Rw
use rasperry_pi_os.Sync.Threads.{total}
use rasperry_pi_os.Sync.OnceLock.{OnceLock, stored}
use rasperry_pi_os.Sync.OnceLock.Laws.{run-IsOnce}
use rasperry_pi_os.Sync.OnceLock as Once

-- Thread 0 takes the lock, and thread 1 spins.
abbrev accesses : List ℕ
accesses = 0 ∷ 1 ∷ 0 ∷ 1 ∷ 1 ∷ []

first_holds : phase (run (Spin.new 2) accesses) 0 ≡ locked
unfolding run step access Spin.new
first_holds = refl

run-exclusive_example : (◌≡◌ {A = ℕ} 0 0) × ((run (Spin.new 2) accesses).is_locked ≡ true)
run-exclusive_example = run-exclusive 2 accesses 0 0 first_holds first_holds

-- Thread 0 writes, thread 1 waits to read.
abbrev calls : List (ℕ × Action)
calls = (0, write) ∷ (1, read) ∷ (0, proceed) ∷ (1, proceed) ∷ []

first_writes : Rw.phase (Rw.run (Rw.new 2) calls) 0 ≡ writer
unfolding Rw.run Rw.step Rw.access Rw.new
first_writes = refl

run-writer_example :
    (Rw.phase (Rw.run (Rw.new 2) calls) 1 ≢ writer)
    × (Rw.phase (Rw.run (Rw.new 2) calls) 1 ≢ reader)
run-writer_example = run-writer 2 calls 0 1 first_writes (λ h. absurd (omega (arith, h)))

run-IsOnce_example :
    (s : OnceLock) × (Once.run (Once.new 2) (0 ∷ 1 ∷ 0 ∷ 0 ∷ 0 ∷ []) ≡ returns s)
    × (total Once.stores s.threads ≤ 1)
    × ((i : ℕ) → (Once.phase s i ≢ stored) ⊎ (Once.get s ≡ some i))
run-IsOnce_example = run-IsOnce 2 (0 ∷ 1 ∷ 0 ∷ 0 ∷ 0 ∷ [])
