-- ===== src/Mailbox/Exchange.antt =====
-- What the driver of the mailbox gets back from the firmware.
use rasperry_pi_os.Prelude.{
  ℕ, ◌+◌, ◌*◌, ◌/◌, ◌%◌, ◌^◌, ◌<◌, ◌≡◌, refl, true, none, some, List, [], ◌∷◌, arith, ltb, ◌==◌,
  if◌then◌else◌, lt→ltb, ==_refl,
}
use rasperry_pi_os.Exception.Syndrome.{Bitfield, to_physical_addr}
use rasperry_pi_os.Mailbox.{
  Memory, store_words, Clock, clock_id, get_clock_rate, tag_id, buffer, Mailbox, wait, channel,
  exchange, send, location, request, rate_of, clock_rate,
}

-- A request for the rate of a clock in the memory: the size of the buffer, the code of a request, the tag
-- with its size and its code, and the end tag.
pub record IsRequest (address : ℕ) (memory : Memory) : Type 0 where
  pub size : memory address ≡ 32
  pub code : memory (address + 4) ≡ 0
  pub tag : memory (address + 8) ≡ tag_id get_clock_rate
  pub value_size : memory (address + 12) ≡ 8
  pub tag_status : memory (address + 16) ≡ 0
  pub end : memory (address + 28) ≡ 0

-- A firmware that answers such a request, at a 16-byte aligned address, with the same word, and stores the
-- rate of the clock in the sixth word in the seventh.
abbrev pub Serves : (ℕ → ℕ) → (ℕ → Memory → Memory × ℕ) → Type 0
Serves rates firmware =
    (address : ℕ) (memory : Memory)
    → address % 16 ≡ 0
    → IsRequest address memory
    → ((firmware (address + channel) memory).1 ≡ address + channel)
      × ((firmware (address + channel) memory).0 (address + 24) ≡ rates (memory (address + 20)))

message_lem :
    (page : ℕ) → page * 2 ^ 12 < 2 ^ 32 → page * 2 ^ 12 / 2 ^ 4 % 2 ^ 28 * 2 ^ 4 ≡ page * 2 ^ 12
message_lem page h = omega arith

-- A filled buffer, and two of its words.
unfoldable filled : ℕ → ℕ → ℕ → Memory → Memory
filled address id rate = store_words address (buffer get_clock_rate (id ∷ rate ∷ []))

filled-IsRequest :
    (address id rate : ℕ) (memory : Memory) → IsRequest address (filled address id rate memory)
unfolding filled buffer store_words
filled-IsRequest address id rate memory = record {
  size = ground arith;
  code = ground arith;
  tag = ground arith;
  value_size = ground arith;
  tag_status = ground arith;
  end = ground arith;
}

filled-clock :
    (address id rate : ℕ) (memory : Memory) → filled address id rate memory (address + 20) ≡ id
unfolding filled buffer store_words
filled-clock address id rate memory = ground arith

module _ (b : Bitfield) (par_el1 : ℕ → ℕ) (firmware : ℕ → Memory → Memory × ℕ) where
  location_lem :
      (virtual_addr page : ℕ)
      → to_physical_addr b (par_el1 virtual_addr) ≡ some (page * 2 ^ 12)
      → virtual_addr % 2 ^ 12 ≡ 0
      → location b par_el1 virtual_addr ≡ page * 2 ^ 12
  location_lem virtual_addr page at aligned = ground arith

  send_lem :
      (virtual_addr page : ℕ) (mailbox : Mailbox) (sendable received : List ℕ)
      → to_physical_addr b (par_el1 virtual_addr) ≡ some (page * 2 ^ 12)
      → page * 2 ^ 12 < 2 ^ 32
      → wait 31 mailbox.polls ≡ some sendable
      → wait 30 sendable ≡ some received
      → (firmware (page * 2 ^ 12 + channel) mailbox.memory).1 ≡ page * 2 ^ 12 + channel
      → send b par_el1 firmware virtual_addr mailbox
        ≡ some (
          true,
          record {
            polls = received;
            memory = (firmware (page * 2 ^ 12 + channel) mailbox.memory).0;
          },
        )
  unfolding send exchange
  send_lem virtual_addr page mailbox sendable received at small w w' answers =
      let fits : ltb (page * 2 ^ 12) (2 ^ 32) ≡ true = lt→ltb _ _ small in
      let even : (page * 2 ^ 12 % 16 == 0) ≡ true = ground arith in
      rw (at, send)
        (rw (fits, even)
          (rw (w, exchange)
            (rw w' (
              rw (message_lem page small)
                (rw answers (rw (==_refl (page * 2 ^ 12 + channel)) refl))))))

  -- The rate of a clock, asked for with a buffer at the start of a mapped page below 2^32, of a
  -- firmware that serves rates, while the status lets both waits end: the result is the rate, or none
  -- where it is zero.
  pub clock_rate_lem :
      (rates : ℕ → ℕ) (virtual_addr page rate : ℕ) (clock : Clock) (mailbox : Mailbox)
      (sendable received : List ℕ)
      → Serves rates firmware
      → to_physical_addr b (par_el1 virtual_addr) ≡ some (page * 2 ^ 12)
      → page * 2 ^ 12 < 2 ^ 32
      → virtual_addr % 2 ^ 12 ≡ 0
      → wait 31 mailbox.polls ≡ some sendable
      → wait 30 sendable ≡ some received
      → (after : Mailbox) × (after.polls ≡ received)
        × (clock_rate b par_el1 firmware virtual_addr clock rate mailbox
            ≡ some (
              if rates (clock_id clock) == 0 then none else some (rates (clock_id clock)),
              after,
            ))
  unfolding clock_rate request rate_of filled
  clock_rate_lem rates virtual_addr page rate clock mailbox sendable received serves at small
        aligned w w' =
      let here = location_lem virtual_addr page at aligned in
      let id = clock_id clock in
      let memory = filled (page * 2 ^ 12) id rate mailbox.memory in
      let asks = filled-IsRequest (page * 2 ^ 12) id rate mailbox.memory in
      let asked = filled-clock (page * 2 ^ 12) id rate mailbox.memory in
      let served = serves (page * 2 ^ 12) memory (omega arith) asks in
      let sends =
        send_lem virtual_addr page (record mailbox { memory = memory }) sendable received at small w
          w' served.0 in
      let after : Mailbox = record {
        polls = received;
        memory = (firmware (page * 2 ^ 12 + channel) memory).0;
      } in
      (after, refl, rw here (rw sends (rw (here, served.1, asked) refl)))
