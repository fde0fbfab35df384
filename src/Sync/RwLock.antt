-- ===== src/Sync/RwLock.antt =====
-- `RwLock`, `ReadGuard` and `WriteGuard` of os/src/sync/mod.rs.
pub mod Laws
use rasperry_pi_os.Prelude.{
  ℕ, ◌+◌, ◌-◌, ◌%◌, ◌^◌, ◌≤◌, ◌<◌, ◌≡◌, refl, ap, ◌≢◌, ◌⊎◌, inl, inr, ◌||◌, Option, none, some,
  List, [], ◌∷◌, arith, ltb, ◌==◌, if◌then◌else◌, ltb→lt, ltb→le, Bool-cases, length, get_or, set,
  replicate, get_or_above,
}
use rasperry_pi_os.Sync.Threads.{total, total-set, total_two, total-le, total-replicate}

-- Where a thread stands: outside, before the `fetch_update` of `read` or of `write`, or with a guard.
pub data Phase : Type 0 where
  outside reading writing reader writer : Phase

-- What a thread does next. `proceed` is the next access of the call that it is in, or the drop of
-- its guard.
pub data Action : Type 0 where
  read write proceed downgrade : Action

-- The `u8` of the lock, and the threads.
pub record RwLock : Type 0 where
  pub state : ℕ
  pub threads : List Phase

abbrev pub max_readers : ℕ
max_readers = 254

abbrev pub writer_state : ℕ
writer_state = 255

abbrev pub phase : RwLock → ℕ → Phase
phase s i = get_or s.threads i outside

unfoldable pub new : ℕ → RwLock
new n = record { state = 0; threads = replicate n outside }

-- The closures of the two `fetch_update`s.
abbrev pub lock_read : ℕ → Option ℕ
lock_read state = if state == max_readers || state == writer_state then none else some (state + 1)

abbrev pub lock_write : ℕ → Option ℕ
lock_write state = if state == 0 then some writer_state else none

-- `fetch_sub(1)` on a `u8`, which wraps.
abbrev pub unlock_read : ℕ → ℕ
unlock_read state = (state + 255) % 2 ^ 8

abbrev pub unlock_write : ℕ
unlock_write = 0

abbrev pub downgrade_write : ℕ
downgrade_write = 1

-- The drops of the two guards, and `WriteGuard::downgrade`, which forgets its guard.
abbrev pub drop_reader : ℕ → ℕ × Phase
drop_reader state = (unlock_read state, outside)

abbrev pub drop_writer : ℕ × Phase
drop_writer = (unlock_write, outside)

abbrev pub downgrade_writer : ℕ × Phase
downgrade_writer = (downgrade_write, reader)

-- One access: the state after it, and where the thread then stands. An action that the thread
-- cannot take where it stands is none.
unfoldable pub access : ℕ → Phase → Action → ℕ × Phase
access state outside read = (state, reading)
access state outside write = (state, writing)
access state outside a = (state, outside)
access state reading proceed = elim (lock_read state) [
  | some state' ↦ (state', reader)
  | none ↦ (state, reading)
]
access state reading a = (state, reading)
access state writing proceed = elim (lock_write state) [
  | some state' ↦ (state', writer)
  | none ↦ (state, writing)
]
access state writing a = (state, writing)
access state reader proceed = drop_reader state
access state reader a = (state, reader)
access state writer proceed = drop_writer
access state writer downgrade = downgrade_writer
access state writer a = (state, writer)

unfoldable pub step : RwLock → ℕ → Action → RwLock
unfolding access
step s i a =
    let (state, p) = access s.state (phase s i) a in
    if ltb i (length s.threads) then record { state = state; threads = set s.threads i p } else s

-- A run in any order of the threads.
unfoldable pub run : RwLock → List (ℕ × Action) → RwLock
run s [] = s
run s ((i, a) ∷ rest) = run (step s i a) rest

abbrev pub reads : Phase → ℕ
reads reader = 1
reads outside = 0
reads reading = 0
reads writing = 0
reads writer = 0

abbrev pub writes : Phase → ℕ
writes writer = 1
writes outside = 0
writes reading = 0
writes writing = 0
writes reader = 0
