-- ===== src/UserLibrary/Signals.antt =====
-- user/src/runtime/exception.rs: the box that holds the handler of a signal, and the handler of all
-- exceptions. A box is a word: a count of its readers in the upper 8 bits, and an address, which is 0
-- when the box is empty.
pub mod Readers
use rasperry_pi_os.Prelude.{
  ℕ, zero, suc, ◌+◌, ◌-◌, ◌*◌, ◌/◌, ◌%◌, ◌^◌, Option, none, some, List, [], ◌∷◌, ◌++◌, ltb, ◌==◌,
  if◌then◌else◌, expectation, assertion, unreachable, todo, unexpected, Outcome, returns, panics,
  ◌>>=◌, ◌>>◌,
}

-- The word of an `AtomicBox`.
abbrev pub AtomicBox : Type 0
AtomicBox = ℕ

-- `addr & 0xFF_FFFF_FFFF_FFFF`
abbrev pub addr_portion : ℕ → ℕ
addr_portion addr = addr % 2 ^ 56

-- `TaggedPointer::tag`
abbrev pub tag : ℕ → ℕ
tag addr = addr / 2 ^ 56

-- The bitwise `and` of two numbers of so many bits.
unfoldable pub bitwise_and : ℕ → ℕ → ℕ → ℕ
bitwise_and zero a b = 0
bitwise_and (suc bits) a b = a % 2 * (b % 2) + 2 * bitwise_and bits (a / 2) (b / 2)

-- One round of the loop of `AtomicBox::replace`: the box after it, and the address before, if the
-- exchange took place.
unfoldable pub replace : ℕ → AtomicBox → AtomicBox × Option ℕ
replace info box = if tag box == 0 then (info, some box) else (box, none)

-- `AtomicBox::read`: the box after it, and the pointer that the guard refers to.
unfoldable pub read : AtomicBox → Outcome (AtomicBox × Option ℕ)
read box =
    if box == 0
    then returns (box, none)
    else if ltb (tag box + 1) 256
    then returns (bitwise_and 64 (addr_portion box) ((tag box + 1) * 2 ^ 56), some box)
    else panics expectation

-- `AtomicBox::decrement_readers`, which runs when a guard is dropped.
unfoldable pub decrement_readers : AtomicBox → Outcome AtomicBox
decrement_readers box =
    if box == 0
    then panics assertion
    else if tag box == 0
    then panics expectation
    else returns (bitwise_and 64 (addr_portion box) ((tag box - 1) * 2 ^ 56))

pub data HandlerType : Type 0 where
  signal sig_action : HandlerType

-- What the program did, from the first on: it called a handler with a code.
abbrev pub Calls : Type 0
Calls = List ℕ

-- `handle_user_signal`, with the handler that is at an address: the calls, and how it ends. Dropping the
-- guard ends it. Its print is left out.
unfoldable pub handle_user_signal :
    (ℕ → HandlerType) → ℕ → AtomicBox → Calls → Calls × Outcome AtomicBox
handle_user_signal handler_at sender_pid box calls = elim (read box) [
  | panics p ↦ (calls, panics p)
  | returns answer ↦ elim answer.1 [
    | none ↦ (calls, returns answer.0)
    | some info ↦ elim (handler_at info) [
      | sig_action ↦ (calls, panics todo)
      | signal ↦ (calls ++ (3 ∷ []), decrement_readers answer.0)
    ]
  ]
]

-- `general_handler`: the registers that it returns, for the codes that are none of the handlers in
-- assembly.
unfoldable pub general_handler :
    (ℕ → HandlerType) → ℕ → ℕ → AtomicBox → Calls → Calls × Outcome ((ℕ × ℕ) × AtomicBox)
general_handler handler_at exception_code arg0 box calls =
    if exception_code == 2
    then (calls, panics unexpected)
    else if exception_code == 3
    then (if ltb arg0 (2 ^ 16)
        then (let answer = handle_user_signal handler_at arg0 box calls in
            (answer.0, answer.1 >>= (λ box'. returns ((exception_code, arg0), box'))))
        else (calls, panics expectation))
    else (calls, panics unreachable)
