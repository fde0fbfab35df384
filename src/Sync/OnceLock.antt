-- ===== src/Sync/OnceLock.antt =====
-- `OnceLock` of os/src/cell/mod.rs.
pub mod Laws
use rasperry_pi_os.Prelude.{
  ℕ, ◌+◌, ◌≤◌, ◌<◌, ◌≡◌, refl, sym, ap, ◌∙◌, ◌≢◌, ◌⊎◌, inl, inr, Bool, true, false, not, Option,
  none, some, List, [], ◌∷◌, arith, ltb, ◌==◌, if◌then◌else◌, ltb→lt, ltb→le, ==_iff, Bool-cases,
  length, get_or, set, replicate, get_or-set_self, get_or-set_ne, get_or_above, get_or-replicate,
  Outcome, returns, ◌>>=◌, ◌>>◌, assert,
}
use rasperry_pi_os.Sync.Threads.{total, total-set, total-le, total-gap, total-replicate}

-- Where a thread stands in `set`: before it, before the first assertion, before the value is
-- written, before the swap of `is_set`, or after it with `Ok` or with `Err`.
pub data Phase : Type 0 where
  outside claimed writing swapping stored refused : Phase

-- The cell, and its threads. Thread `i` sets the value `i`.
pub record OnceLock : Type 0 where
  pub contents : Option ℕ
  pub is_set : Bool
  pub is_setting : Bool
  pub threads : List Phase

abbrev pub phase : OnceLock → ℕ → Phase
phase s i = get_or s.threads i outside

unfoldable pub new : ℕ → OnceLock
new n = record {
  contents = none;
  is_set = false;
  is_setting = false;
  threads = replicate n outside;
}

abbrev pub move : OnceLock → ℕ → Phase → OnceLock
move s i p = record s { threads = set s.threads i p }

-- The next access of a thread, on its phase; the assertions of `set` may panic.
unfoldable pub access : OnceLock → ℕ → Phase → Outcome OnceLock
access s i outside =
    returns (move (record s { is_setting = true }) i (if s.is_setting then refused else claimed))
access s i claimed = do assert (not s.is_set); returns (move s i writing)
access s i writing = do
  assert (elim s.contents [ none ↦ true | some value ↦ false ])
  returns (move (record s { contents = some i }) i swapping)
access s i swapping = do assert (not s.is_set); returns (move (record s { is_set = true }) i stored)
access s i stored = returns s
access s i refused = returns s

unfoldable pub step : OnceLock → ℕ → Outcome OnceLock
step s i = if ltb i (length s.threads) then access s i (phase s i) else returns s

unfoldable pub run : OnceLock → List ℕ → Outcome OnceLock
run s [] = returns s
run s (i ∷ is) = step s i >>= λ s'. run s' is

unfoldable pub get : OnceLock → Option ℕ
get s = if s.is_set then s.contents else none

-- One thread is past the first swap, once that was made.
abbrev pub wins : Phase → ℕ
wins outside = 0
wins claimed = 1
wins writing = 1
wins swapping = 1
wins stored = 1
wins refused = 0

abbrev pub stores : Phase → ℕ
stores outside = 0
stores claimed = 0
stores writing = 0
stores swapping = 0
stores stored = 1
stores refused = 0

abbrev pub writes : Phase → ℕ
writes outside = 0
writes claimed = 0
writes writing = 0
writes swapping = 1
writes stored = 1
writes refused = 0

-- The flags and the contents follow the one winner.
pub record IsOnce (s : OnceLock) : Type 0 where
  pub one : total wins s.threads ≡ (if s.is_setting then 1 else 0)
  pub set_once : total stores s.threads ≡ (if s.is_set then 1 else 0)
  pub written : total writes s.threads ≡ elim s.contents [ none ↦ 0 | some value ↦ 1 ]
  pub value : (i : ℕ) → writes (phase s i) ≡ 1 → s.contents ≡ some i
