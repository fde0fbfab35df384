-- ===== src/UserLibrary/Signals/Readers.antt =====
-- The readers of an `AtomicBox`.
use rasperry_pi_os.Prelude.{
  ℕ, zero, suc, ◌+◌, ◌*◌, ◌/◌, ◌%◌, ◌^◌, ◌<◌, ◌≡◌, refl, ◌≢◌, ◌⊎◌, inl, inr, true, false, none, [],
  ◌∷◌, ◌++◌, some, arith, ◌==◌, if◌then◌else◌, lt→ltb, Bool-cases, set, assertion, todo, returns,
  panics,
}
use rasperry_pi_os.UserLibrary.Signals.{
  AtomicBox, addr_portion, tag, bitwise_and, read, decrement_readers, HandlerType, signal,
  sig_action, Calls, handle_user_signal, general_handler,
}

-- A number with so many zeros at its end.
double : ℕ → ℕ → ℕ
double zero b = b
double (suc k) b = 2 * double k b

bitwise_and-zero : (bits a b : ℕ) → a ≡ 0 → bitwise_and bits a b ≡ 0
unfolding bitwise_and
bitwise_and-zero zero a b e = refl
bitwise_and-zero (suc bits) a b e =
    let rest = bitwise_and-zero bits (a / 2) (b / 2) (omega (arith, e)) in
    let low : a % 2 ≡ 0 = omega (arith, e) in rw (rest, low) (ground arith)

-- Numbers whose bits are in different places have no bit in common.
bitwise_and-double : (bits k a b : ℕ) → a < double k 1 → bitwise_and bits a (double k b) ≡ 0
unfolding bitwise_and double
bitwise_and-double zero k a b h = refl
bitwise_and-double (suc bits) zero a b h = bitwise_and-zero (suc bits) a b (omega (arith, h))
bitwise_and-double (suc bits) (suc k) a b h =
    let even : 2 * double k b % 2 ≡ 0 = omega arith in
    let half : 2 * double k b / 2 ≡ double k b = omega arith in
    let rest = bitwise_and-double bits k (a / 2) b (omega (arith, h)) in
    rw (even, half, rest) (omega arith)

-- The count never gets into the word: `&` leaves nothing of the address and the new count.
bitwise_and-addr_portion : (box count : ℕ) → bitwise_and 64 (addr_portion box) (count * 2 ^ 56) ≡ 0
unfolding double
bitwise_and-addr_portion box count =
    let shifted : count * 2 ^ 56 ≡ double 56 count = omega arith in
    rw shifted (bitwise_and-double 64 56 (addr_portion box) count (omega arith))

-- A read of a box with a handler leaves the box empty, and its end panics.
pub read-decrement_readers :
    (box : AtomicBox)
    → box ≢ 0
    → tag box + 1 < 256
    → (box' : AtomicBox) × (read box ≡ returns (box', some box))
      × (read box' ≡ returns (box', none))
      × (decrement_readers box' ≡ panics assertion)
unfolding read decrement_readers
read-decrement_readers box set few =
    let full : (box == 0) ≡ false = ground (arith, set) in
    (
      0,
      rw (full, lt→ltb (tag box + 1) 256 few)
          (rw (bitwise_and-addr_portion box (tag box + 1)) refl),
      refl,
      refl,
    )

handle_user_signal-empty :
    (handler_at : ℕ → HandlerType) (sender_pid : ℕ) (box : AtomicBox) (calls : Calls)
    → (box == 0) ≡ true
    → handle_user_signal handler_at sender_pid box calls ≡ (calls, returns box)
unfolding handle_user_signal read
handle_user_signal-empty handler_at sender_pid box calls null = rw (handle_user_signal, null) refl

HandlerType-cases : (h : HandlerType) → (h ≡ signal) ⊎ (h ≡ sig_action)
HandlerType-cases signal = inl refl
HandlerType-cases sig_action = inr refl

handle_user_signal-read :
    (handler_at : ℕ → HandlerType) (sender_pid : ℕ) (box box' : AtomicBox) (calls : Calls)
    → read box ≡ returns (box', some box)
    → decrement_readers box' ≡ panics assertion
    → handle_user_signal handler_at sender_pid box calls ≡ (elim (handler_at box) [
      | signal ↦ (calls ++ 3 ∷ [], panics assertion)
      | sig_action ↦ (calls, panics todo)
    ])
unfolding handle_user_signal
handle_user_signal-read handler_at sender_pid box box' calls reads ends =
    elim (HandlerType-cases (handler_at box)) [
      | inl e ↦ rw (handle_user_signal, reads, e) (rw ends refl)
      | inr e ↦ rw (handle_user_signal, reads, e) refl
    ]

-- A signal from another program, as long as fewer than 255 reads of the handler are under way: a handler
-- that was set is called once, with the code 3, and then the end of the read finds the box empty, and the
-- program panics; for a `SigAction` it panics before any call. Without a handler nothing is called, and
-- the registers are the code and the sender.
pub general_handler-signal :
    (handler_at : ℕ → HandlerType) (sender_pid : ℕ) (box : AtomicBox) (calls : Calls)
    → sender_pid < 2 ^ 16
    → tag box + 1 < 256
    → general_handler handler_at 3 sender_pid box calls ≡ (
        if box == 0 then (calls, returns ((3, sender_pid), box)) else (elim (handler_at box) [
          | signal ↦ (calls ++ 3 ∷ [], panics assertion)
          | sig_action ↦ (calls, panics todo)
        ]))
unfolding general_handler
general_handler-signal handler_at sender_pid box calls pid few = elim (Bool-cases (box == 0)) [
  | inl null ↦
      rw
        (
          lt→ltb sender_pid (2 ^ 16) pid,
          null,
          handle_user_signal-empty handler_at sender_pid box calls null,
        )
        refl
  | inr full ↦
      let (box', reads, empty, ends) =
        read-decrement_readers box (λ e. ground (arith, full, e)) few in
      let handled = handle_user_signal-read handler_at sender_pid box box' calls reads ends in
      elim (HandlerType-cases (handler_at box)) [
        | inl e ↦ rw (lt→ltb sender_pid (2 ^ 16) pid, full, handled) (rw e refl)
        | inr e ↦ rw (lt→ltb sender_pid (2 ^ 16) pid, full, handled) (rw e refl)
      ]
]
