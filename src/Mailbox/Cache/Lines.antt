-- ===== src/Mailbox/Cache/Lines.antt =====
-- The cache lines that the maintenance of a buffer reaches.
use rasperry_pi_os.Prelude.{
  ℕ, zero, suc, ◌+◌, ◌-◌, ◌*◌, ◌/◌, ◌%◌, ◌^◌, ◌<◌, ◌≤◌, ◌≡◌, ◌∙◌, refl, ap, Bool, true, false, ◌||◌,
  List, [], ◌∷◌, arith, ◌==◌, ==_iff,
}
use rasperry_pi_os.Mailbox.Cache.{cache_line_size, step_by, maintained}

-- The lines of the cache, in bytes: the register has the binary logarithm of their words.
abbrev pub line_of : ℕ → ℕ
line_of ctr_el0 = 4 * 2 ^ (ctr_el0 / 2 ^ 16 % 2 ^ 4)

-- Whether an address is in the line of one of some addresses.
unfoldable pub covers : ℕ → ℕ → List ℕ → Bool
covers line byte [] = false
covers line byte (a ∷ rest) = byte / line == a / line || covers line byte rest

step_by-covers :
    (line byte count address step i : ℕ)
    → i < count
    → byte / line ≡ (address + i * step) / line
    → covers line byte (step_by count address step) ≡ true
unfolding covers step_by
step_by-covers line byte zero address step i below same = elim below [ ]
step_by-covers line byte (suc count) address step zero below same =
    let at : address + 0 * step ≡ address = omega arith in
    rw ((==_iff (byte / line) (address / line)).1 (same ∙ ap (λ a. a / line) at)) refl
step_by-covers line byte (suc count) address step (suc i) below same =
    let at : address + suc i * step ≡ address + step + i * step = grind arith in
    let rest =
      step_by-covers line byte count (address + step) step i (omega arith)
        (same ∙ ap (λ a. a / line) at) in
    rw rest (ground arith)

-- Lines of a power of two words, by its exponent.
covers_at :
    (d virtual_addr size k : ℕ)
    → virtual_addr % 16 ≡ 0
    → d ≤ 4
    → k < size
    → covers
        (4 * 2 ^ d)
        (virtual_addr + k)
        (step_by ((size + 2 ^ d - 1) / 2 ^ d) virtual_addr (2 ^ d))
      ≡ true
covers_at zero virtual_addr size k aligned short below =
    step_by-covers 4 (virtual_addr + k) _ virtual_addr 1 k (omega arith) (omega arith)
covers_at (suc zero) virtual_addr size k aligned short below =
    step_by-covers 8 (virtual_addr + k) _ virtual_addr 2 (k / 2) (omega arith) (omega arith)
covers_at (suc (suc zero)) virtual_addr size k aligned short below =
    step_by-covers 16 (virtual_addr + k) _ virtual_addr 4 (k / 4) (omega arith) (omega arith)
covers_at (suc (suc (suc zero))) virtual_addr size k aligned short below =
    step_by-covers 32 (virtual_addr + k) _ virtual_addr 8 (k / 8) (omega arith) (omega arith)
covers_at (suc (suc (suc (suc zero)))) virtual_addr size k aligned short below =
    step_by-covers 64 (virtual_addr + k) _ virtual_addr 16 (k / 16) (omega arith) (omega arith)
covers_at (suc (suc (suc (suc (suc d))))) virtual_addr size k aligned short below =
    let impossible : suc d < 0 = omega arith in elim impossible [ ]

-- The buffers are aligned to 16 bytes. Where the register gives lines of at most 16 words, each byte of
-- a buffer is in a line that `send` maintains.
pub maintained-covers :
    (ctr_el0 virtual_addr size k : ℕ)
    → virtual_addr % 16 ≡ 0
    → ctr_el0 / 2 ^ 16 % 2 ^ 4 ≤ 4
    → k < size
    → covers (line_of ctr_el0) (virtual_addr + k) (maintained ctr_el0 virtual_addr size) ≡ true
unfolding maintained cache_line_size
maintained-covers ctr_el0 virtual_addr size k aligned short below =
    covers_at (ctr_el0 / 2 ^ 16 % 2 ^ 4) virtual_addr size k aligned short below
