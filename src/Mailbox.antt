-- ===== src/Mailbox.antt =====
-- os/src/bin/kernel/mailbox.rs: the property mailbox. The firmware is a parameter: it takes the word
-- that is written to the mailbox and the memory, and gives the memory and the word that it answers. The
-- translation of an address is what the processor leaves in `PAR_EL1`. The memory has no
-- cache, and barriers are left out.
pub mod Exchange
pub mod Cache
use rasperry_pi_os.Prelude.{
  ℕ, zero, ◌+◌, ◌*◌, ◌/◌, ◌%◌, ◌^◌, Bool, false, not, ◌&&◌, ◌||◌, Option, none, some, List, [], ◌∷◌,
  ◌++◌, ltb, ◌==◌, if◌then◌else◌, length,
}
use rasperry_pi_os.Exception.Syndrome.{Bitfield, to_physical_addr}

-- The word at each address.
abbrev pub Memory : Type 0
Memory = ℕ → ℕ

unfoldable pub store_words : ℕ → List ℕ → Memory → Memory
store_words address [] memory = memory
store_words address (w ∷ ws) memory =
    let rest = store_words (address + 4) ws memory in λ i. if i == address then w else rest i

pub data Clock : Type 0 where
  emmc uart arm core v3d h264 isp sdram pixel pwm hevc emmc2 pixel_bvb : Clock

abbrev pub clock_id : Clock → ℕ
clock_id emmc = 1
clock_id uart = 2
clock_id arm = 3
clock_id core = 4
clock_id v3d = 5
clock_id h264 = 6
clock_id isp = 7
clock_id sdram = 8
clock_id pixel = 9
clock_id pwm = 10
clock_id hevc = 11
clock_id emmc2 = 13
clock_id pixel_bvb = 14

pub data Tag : Type 0 where
  get_max_clock_rate get_clock_rate set_clock_rate get_arm_memory : Tag

abbrev pub tag_id : Tag → ℕ
tag_id get_max_clock_rate = 196612
tag_id get_clock_rate = 196679
tag_id set_clock_rate = 229378
tag_id get_arm_memory = 65541

-- The words of a buffer that the `buffer!` macro declares: a header of five, the fields and the end
-- tag. Its size is a multiple of 16. The padding is not written.
unfoldable pub buffer : Tag → List ℕ → List ℕ
buffer tag fields =
    (4 * (length fields + 6) + 15) / 16 * 16 ∷ 0 ∷ tag_id tag ∷ 4 * length fields ∷ 0 ∷ fields
    ++ 0 ∷ []

-- What the status registers will hold at each look, and the memory.
pub record Mailbox : Type 0 where
  pub polls : List ℕ
  pub memory : Memory

-- A wait for a bit of the status to be clear. Where no poll is left, it still waits.
unfoldable pub wait : ℕ → List ℕ → Option (List ℕ)
wait bit [] = none
wait bit (status ∷ polls) =
    let rest = wait bit polls in if status / 2 ^ bit % 2 == 1 then rest else some polls

abbrev pub channel : ℕ
channel = 8

module _ (b : Bitfield) (par_el1 : ℕ → ℕ) where
  -- Where the buffer lies in the memory.
  abbrev pub location : ℕ → ℕ
  location virtual_addr = b.field 12 40 (par_el1 virtual_addr) * 2 ^ 12 + virtual_addr % 2 ^ 12

  -- The rate in the buffer, where a zero is no rate. `rate` is what the field holds before.
  unfoldable pub rate_of : ℕ → Option (Bool × Mailbox) → Option (Option ℕ × Mailbox)
  rate_of virtual_addr none = none
  rate_of virtual_addr (some (ok, mailbox)) =
      let rate = mailbox.memory (location virtual_addr + 24) in
      some (if not ok || rate == 0 then none else some rate, mailbox)

  -- The base address and the size of the memory in the buffer.
  unfoldable pub range_of : ℕ → Option (Bool × Mailbox) → Option (Option (ℕ × ℕ) × Mailbox)
  range_of virtual_addr none = none
  range_of virtual_addr (some (ok, mailbox)) =
      let base_addr = mailbox.memory (location virtual_addr + 20) in
      let size = mailbox.memory (location virtual_addr + 24) in
      some (if ok then some (base_addr, size) else none, mailbox)

module _ (b : Bitfield) (par_el1 : ℕ → ℕ) (firmware : ℕ → Memory → Memory × ℕ) where
  -- The word, the two waits, and the comparison of the answer.
  unfoldable pub exchange : ℕ → Mailbox → Option (Bool × Mailbox)
  exchange buffer_addr mailbox =
      let message = buffer_addr / 2 ^ 4 % 2 ^ 28 * 2 ^ 4 + channel in
      elim (wait 31 mailbox.polls) [
        | none ↦ none
        | some polls ↦
            let (memory, data_word) = firmware message mailbox.memory in
            elim (wait 30 polls) [
              | none ↦ none
              | some polls' ↦
                  some (data_word == message, record { polls = polls'; memory = memory })
            ]
      ]

  -- `Mailbox::send`
  unfoldable pub send : ℕ → Mailbox → Option (Bool × Mailbox)
  send virtual_addr mailbox = elim (to_physical_addr b (par_el1 virtual_addr)) [
    | none ↦ some (false, mailbox)
    | some physical_addr ↦
        if ltb physical_addr (2 ^ 32) && physical_addr % 16 == 0
        then exchange physical_addr mailbox
        else some (false, mailbox)
  ]

  -- A buffer is filled, and sent.
  unfoldable pub request : ℕ → Tag → List ℕ → Mailbox → Option (Bool × Mailbox)
  request virtual_addr tag fields mailbox = send virtual_addr (record mailbox {
    memory = store_words (location b par_el1 virtual_addr) (buffer tag fields) mailbox.memory;
  })

  unfoldable pub clock_rate : ℕ → Clock → ℕ → Mailbox → Option (Option ℕ × Mailbox)
  clock_rate virtual_addr clock rate mailbox =
      rate_of b par_el1 virtual_addr
        (request virtual_addr get_clock_rate (clock_id clock ∷ rate ∷ []) mailbox)

  unfoldable pub max_clock_rate : ℕ → Clock → ℕ → Mailbox → Option (Option ℕ × Mailbox)
  max_clock_rate virtual_addr clock rate mailbox =
      rate_of b par_el1 virtual_addr
        (request virtual_addr get_max_clock_rate (clock_id clock ∷ rate ∷ []) mailbox)

  unfoldable pub change_clock_rate : ℕ → Clock → ℕ → Mailbox → Option (Option ℕ × Mailbox)
  change_clock_rate virtual_addr clock rate mailbox =
      rate_of b par_el1 virtual_addr
        (request virtual_addr set_clock_rate (clock_id clock ∷ rate ∷ 0 ∷ []) mailbox)

  unfoldable pub arm_memory : ℕ → Mailbox → Option (Option (ℕ × ℕ) × Mailbox)
  arm_memory virtual_addr mailbox =
      range_of b par_el1 virtual_addr
        (request virtual_addr get_arm_memory (291 ∷ 1110 ∷ []) mailbox)
