-- ===== src/Mailbox/Cache.antt =====
-- os/src/bin/kernel/mailbox.rs: the cache maintenance of `Mailbox::send`, as the addresses of the `dc`
-- instructions, and `Mailbox::new`.
pub mod Lines
use rasperry_pi_os.Prelude.{
  ℕ, zero, suc, ◌+◌, ◌-◌, ◌/◌, ◌%◌, ◌^◌, Option, none, some, List, [], ◌∷◌, ◌==◌, if◌then◌else◌,
}

-- `Mailbox::new`: whether there is a driver for registers at an address. The registers have 4 bytes.
unfoldable pub new : ℕ → Option ℕ
new base_address = if base_address % 4 == 0 then some base_address else none

-- `cache_line_size`, of the register `CTR_EL0`.
unfoldable pub cache_line_size : ℕ → ℕ
cache_line_size ctr_el0 = 2 ^ (ctr_el0 / 2 ^ 16 % 2 ^ 4)

-- Some steps from an address on, and those of a range that ends after a size.
unfoldable pub step_by : ℕ → ℕ → ℕ → List ℕ
step_by zero address step = []
step_by (suc count) address step = address ∷ step_by count (address + step) step

unfoldable pub maintained : ℕ → ℕ → ℕ → List ℕ
maintained ctr_el0 virtual_addr size =
    let step = cache_line_size ctr_el0 in step_by ((size + step - 1) / step) virtual_addr step
