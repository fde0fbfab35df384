-- ===== src/Tests/Drivers.antt =====
-- A clock whose rate the firmware gives, over a mailbox that is first full and then empty.
use rasperry_pi_os.Prelude.{ℕ, ◌+◌, ◌*◌, ◌≡◌, refl, true, some, [], ◌∷◌, arith, ==_refl}
use rasperry_pi_os.Tests.Faults.{bitfield}
use rasperry_pi_os.Mailbox.{Memory, store_words, Mailbox, wait, arm, clock_rate}
use rasperry_pi_os.Mailbox.Cache.{maintained}
use rasperry_pi_os.Mailbox.Cache.Lines.{line_of, covers, maintained-covers}
use rasperry_pi_os.Mailbox.Exchange.{Serves, clock_rate_lem}

-- Each address is in page 5.
abbrev page_5 : ℕ → ℕ
page_5 addr = 20480

abbrev rates : ℕ → ℕ
rates id = id * 1000

abbrev firmware : ℕ → Memory → Memory × ℕ
firmware word memory = (store_words (word + 16) (rates (memory (word + 12)) ∷ []) memory, word)

firmware-Serves : Serves rates firmware
unfolding store_words
firmware-Serves address memory aligned asks =
    let there : address + 8 + 12 ≡ address + 20 = omega arith in
    let result : address + 8 + 16 ≡ address + 24 = omega arith in
    (refl, rw (there, result) (rw (==_refl (address + 24)) refl))

abbrev mailbox : Mailbox
mailbox = record { polls = 2147483648 ∷ 0 ∷ 1073741824 ∷ 0 ∷ []; memory = λ address. 7 }

clock_rate_example :
    (after : Mailbox) × (after.polls ≡ [])
    × (clock_rate bitfield page_5 firmware 8192 arm 7 mailbox ≡ some (some 3000, after))
unfolding wait
clock_rate_example =
    clock_rate_lem bitfield page_5 firmware rates 8192 5 7 arm mailbox (1073741824 ∷ 0 ∷ []) []
      firmware-Serves refl (omega arith) refl refl refl

-- Lines of 64 bytes, and a buffer of 48 bytes whose last bytes are in the second of its lines.
abbrev ctr_el0 : ℕ
ctr_el0 = 4 * 65536 + 3

maintained-covers_example : covers (line_of ctr_el0) (8224 + 40) (maintained ctr_el0 8224 48) ≡ true
maintained-covers_example =
    maintained-covers ctr_el0 8224 48 40 (omega arith) (omega arith) (omega arith)
