-- ===== src/Pipe/PidMap.antt =====
-- `U16Map` of user/src/pid_map.rs.
use rasperry_pi_os.Prelude.{
  ℕ, zero, suc, ◌+◌, ◌-◌, ◌^◌, ◌≤◌, ◌<◌, ◌≡◌, refl, ap, ◌≢◌, ◌⊎◌, inl, inr, Bool, true, false,
  Option, none, some, List, [], ◌∷◌, ◌++◌, arith, ltb, ◌==◌, if◌then◌else◌, ltb→lt, lt→ltb, ltb→le,
  ==_iff, Bool-cases, length, get_or, set, replicate, get_or-set_self, get_or-set_ne, get_or_above,
  expectation, Outcome, returns, panics, ◌>>=◌, ◌>>◌, assert,
}

abbrev pub U16Map {ℓ} : Type ℓ → Type ℓ
U16Map A = List (Option A)

abbrev pub get {ℓ} : {A : Type ℓ} → U16Map A → ℕ → Option A
get m pid = get_or m pid none

-- `extend` by as many `None`s as `pid` is above the length; the value before, and the map after.
unfoldable pub put {ℓ} : {A : Type ℓ} → U16Map A → ℕ → Option A → Outcome (Option A × U16Map A)
put m pid value =
    let extended = m ++ replicate (pid - length m) none in
    if ltb pid (length extended)
    then returns (get_or extended pid none, set extended pid value)
    else panics expectation

unfoldable pub lowest_index {ℓ} : {A : Type ℓ} → U16Map A → Option ℕ
lowest_index [] = none
lowest_index (none ∷ m) = some 0
lowest_index (some a ∷ m) = elim (lowest_index m) [ none ↦ none | some i ↦ some (i + 1) ]

abbrev pub is_vacant {ℓ} : {A : Type ℓ} → Option A → Bool
is_vacant none = true
is_vacant (some a) = false

-- The value at an index, if one was found.
unfoldable pub insert_at {ℓ} :
    {A : Type ℓ} → U16Map A → A → Option ℕ → Outcome (Option ℕ × U16Map A)
insert_at m value none = returns (none, m)
insert_at m value (some pid) = do
  answer ← put m pid (some value)
  assert (is_vacant answer.0)
  returns (some pid, answer.1)

-- The first index without a value, which is checked to be a `u16`, or else the length, if that is one.
unfoldable pub available_index {ℓ} : {A : Type ℓ} → U16Map A → Outcome (Option ℕ)
available_index m = elim (lowest_index m) [
  | some i ↦ if ltb i (2 ^ 16) then returns (some i) else panics expectation
  | none ↦ returns (if ltb (length m) (2 ^ 16) then some (length m) else none)
]

unfoldable pub insert_lowest {ℓ} : {A : Type ℓ} → U16Map A → A → Outcome (Option ℕ × U16Map A)
insert_lowest m value = available_index m >>= insert_at m value

append_nil {ℓ} : {A : Type ℓ} (xs : List A) → xs ++ [] ≡ xs
append_nil [] = refl
append_nil (x ∷ xs) = ap (λ l. x ∷ l) (append_nil xs)

length-extended {ℓ} :
    {A : Type ℓ} (m : U16Map A) (n : ℕ) → length (m ++ replicate n none) ≡ length m + n
length-extended [] zero = refl
length-extended {A = A} [] (suc n) = omega (arith, length-extended {A = A} [] n)
length-extended (x ∷ m) n = omega (arith, length-extended m n)

pub get-set {ℓ} :
    {A : Type ℓ} (m : U16Map A) (pid j : ℕ) (value : Option A)
    → pid < length m
    → get (set m pid value) j ≡ (if pid == j then value else get m j)
get-set m pid j value short = elim (Bool-cases (pid == j)) [
  | inl at ↦ rw (at, ← (==_iff pid j).0 at) (get_or-set_self m pid value none short)
  | inr other ↦ rw other (get_or-set_ne m pid j value none (λ e. ground (arith, e, other)))
]

pub get_short {ℓ} :
    {A : Type ℓ} (m : U16Map A) (pid : ℕ) (a : A) → get m pid ≡ some a → pid < length m
get_short m pid a e = elim (Bool-cases (ltb pid (length m))) [
  | inl lt ↦ ltb→lt _ _ lt
  | inr ge ↦ let above = get_or_above m pid none (ltb→le _ _ ge) in absurd (cc)
]

-- Below the map's length `set` returns the value that stood at the PID and replaces it, and no other
-- value changes. From the length on it panics: the map is extended to the length `pid`, which has no
-- place for the PID.
pub put_lem {ℓ} :
    {A : Type ℓ} (m : U16Map A) (pid : ℕ) (value : Option A)
    → ((pid < length m)
        × ((m' : U16Map A) × (put m pid value ≡ returns (get m pid, m'))
            × ((j : ℕ) → get m' j ≡ (if pid == j then value else get m j))))
      ⊎ ((length m ≤ pid) × (put m pid value ≡ panics expectation))
unfolding put
put_lem m pid value = elim (Bool-cases (ltb pid (length m))) [
  | inl lt ↦
      let short : pid < length m = ltb→lt _ _ lt in
      let no_extension : pid - length m ≡ 0 = omega arith in
      inl (
        short,
        (
          set m pid value,
          rw (no_extension, append_nil m, lt) refl,
          λ j. elim (Bool-cases (pid == j)) [
            | inl at ↦ rw (at, ← (==_iff pid j).0 at) (get_or-set_self m pid value none short)
            | inr other ↦
                rw other (get_or-set_ne m pid j value none (λ e. ground (arith, e, other)))
          ],
        ),
      )
  | inr ge ↦
      let reached : length (m ++ replicate (pid - length m) none) ≡ pid =
        omega (arith, length-extended m (pid - length m), ltb→le _ _ ge) in
      inr (ltb→le _ _ ge, rw reached (ground arith))
]

full-lowest_index {ℓ} :
    {A : Type ℓ} (m : U16Map A) → ((j : ℕ) → j < length m → get m j ≢ none) → lowest_index m ≡ none
unfolding lowest_index
full-lowest_index [] h = refl
full-lowest_index (none ∷ m) h = absurd (h 0 (omega arith) refl)
full-lowest_index (some a ∷ m) h =
    rw (full-lowest_index m (λ j lt. h (suc j) (omega (arith, lt)))) refl

-- `insert_lowest` panics on a map whose places all have a value, such as the empty map, while its
-- length is a `u16`: so no value ever gets into a new map.
pub full-insert_lowest {ℓ} :
    {A : Type ℓ} (m : U16Map A) (value : A)
    → ((j : ℕ) → j < length m → get m j ≢ none)
    → length m < 2 ^ 16
    → insert_lowest m value ≡ panics expectation
unfolding insert_lowest available_index insert_at
full-insert_lowest m value h small = elim (put_lem m (length m) (some value)) [
  | inl (lt, _) ↦ absurd (omega arith)
  | inr (_, e) ↦
      rw (insert_lowest, available_index, full-lowest_index m h)
        (rw (lt→ltb _ _ small) (rw (insert_at, e) refl))
]
