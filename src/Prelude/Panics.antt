-- ===== src/Prelude/Panics.antt =====
-- Code that may panic: a result, or the kind of panic that ends the program.
use mathlib.Core.Path.{◌≡◌, refl}
use mathlib.Core.Logic.{◌⊎◌, inl, inr}
use mathlib.Core.Bool.{Bool, true, false}
use mathlib.Core.Option.{Option, none, some}
use native.Mathlib.Omega.{arith}
use rasperry_pi_os.Prelude.Tests.{if◌then◌else◌}

-- `expectation` is `unwrap` and `expect`, on an `Option` or on a `Result`.
-- `unexpected` is a bare `panic!`.
pub data Panic : Type 0 where
  expectation assertion bounds unreachable todo unexpected : Panic

pub data Outcome {ℓ} (A : Type ℓ) : Type ℓ where
  returns : A → Outcome A
  panics : Panic → Outcome A

infixl 5 ◌>>=◌ ◌>>◌
abbrev pub ◌>>=◌ {ℓ κ} : {A : Type ℓ} {B : Type κ} → Outcome A → (A → Outcome B) → Outcome B
returns a >>= f = f a
panics p >>= f = panics p

abbrev pub ◌>>◌ {ℓ} : {B : Type ℓ} → Outcome (Unit {0}) → Outcome B → Outcome B
m >> k = m >>= λ _. k

abbrev pub assert : Bool → Outcome (Unit {0})
assert true = returns tt
assert false = panics assertion

abbrev pub expect {ℓ} : {A : Type ℓ} → Option A → Outcome A
expect (some a) = returns a
expect none = panics expectation

-- A property of the value that is returned, if one is.
abbrev pub OnReturn {ℓ} : {A : Type ℓ} → (A → Type 0) → Outcome A → Type 0
OnReturn P (returns a) = P a
OnReturn P (panics p) = Unit

pub Outcome-cases {ℓ} :
    {A : Type ℓ} (m : Outcome A) → ((a : A) × (m ≡ returns a)) ⊎ ((p : Panic) × (m ≡ panics p))
Outcome-cases (returns a) = inl (a, refl)
Outcome-cases (panics p) = inr (p, refl)

pub OnReturn->>= {ℓ κ} :
    {A : Type ℓ} {B : Type κ} (P : A → Type 0) (Q : B → Type 0) (m : Outcome A) (f : A → Outcome B)
    → OnReturn P m
    → ((a : A) → m ≡ returns a → P a → OnReturn Q (f a))
    → OnReturn Q (m >>= f)
OnReturn->>= P Q (returns a) f h k = k a refl h
OnReturn->>= P Q (panics p) f h k = tt

pub OnReturn-map {ℓ} :
    {A : Type ℓ} {P Q : A → Type 0} (m : Outcome A)
    → OnReturn P m
    → ((a : A) → P a → Q a)
    → OnReturn Q m
OnReturn-map (returns a) h k = k a h
OnReturn-map (panics p) h k = tt

pub OnReturn-returns {ℓ} :
    {A : Type ℓ} (P : A → Type 0) (m : Outcome A) (a : A) → OnReturn P m → m ≡ returns a → P a
OnReturn-returns P (returns b) a h e = ground (arith, h)
OnReturn-returns P (panics p) a h e = cc

pub >>=-returns {ℓ κ} :
    {A : Type ℓ} {B : Type κ} (m : Outcome A) (f : A → Outcome B) {b : B}
    → (m >>= f) ≡ returns b
    → (a : A) × (m ≡ returns a) × (f a ≡ returns b)
>>=-returns (returns a) f h = (a, refl, h)
>>=-returns (panics p) f h = cc

pub OnReturn-any {ℓ} : {A : Type ℓ} (m : Outcome A) → OnReturn (λ _. Unit {0}) m
OnReturn-any (returns a) = tt
OnReturn-any (panics p) = tt

-- Whatever is returned first, what follows returns the right thing.
pub OnReturn-after {ℓ κ} :
    {A : Type ℓ} {B : Type κ} (Q : B → Type 0) (m : Outcome A) (f : A → Outcome B)
    → ((a : A) → OnReturn Q (f a))
    → OnReturn Q (m >>= f)
OnReturn-after Q (returns a) f h = h a
OnReturn-after Q (panics p) f h = tt

-- Both branches of a test return the right thing.
pub OnReturn-if {ℓ} :
    {A : Type ℓ} (Q : A → Type 0) (b : Bool) (m n : Outcome A)
    → (b ≡ true → OnReturn Q m)
    → (b ≡ false → OnReturn Q n)
    → OnReturn Q (if b then m else n)
OnReturn-if Q true m n h k = h refl
OnReturn-if Q false m n h k = k refl
