-- ===== src/Init/Entry/Words.antt =====
-- Words in a memory of bytes.
use rasperry_pi_os.Prelude.{ℕ, zero, suc, ◌+◌, ◌/◌, ◌%◌, ◌^◌, ◌<◌, ◌≤◌, ◌≡◌, refl, ◌⊎◌, inl, arith}
use rasperry_pi_os.Assembly.{address}
use rasperry_pi_os.KernelEntry.{Memory, write}
use rasperry_pi_os.Init.Entry.{store_bytes, load_bytes, str, ldr}

store_bytes_outside :
    (n address value : ℕ) (bytes : Memory) (a : ℕ)
    → (a < address) ⊎ (address + n ≤ a)
    → store_bytes n address value bytes a ≡ bytes a
unfolding store_bytes write
store_bytes_outside zero address value bytes a h = refl
store_bytes_outside (suc n) address value bytes a h =
    ground (
      arith,
      store_bytes_outside n (address + 1) (value / 256) (write address (value % 256) bytes) a,
    )

load_bytes-store_bytes :
    (n address value : ℕ) (bytes : Memory)
    → value < 256 ^ n
    → load_bytes n (store_bytes n address value bytes) address ≡ value
unfolding store_bytes load_bytes write
load_bytes-store_bytes zero address value bytes small = omega arith
load_bytes-store_bytes (suc n) address value bytes small =
    let bytes' = write address (value % 256) bytes in
    let first =
      store_bytes_outside n (address + 1) (value / 256) bytes' address (inl (omega arith)) in
    let rest = load_bytes-store_bytes n (address + 1) (value / 256) bytes' (omega arith) in
    rw (first, rest) (ground arith)

load_bytes_cong :
    (n : ℕ) (bytes bytes' : Memory) (address : ℕ)
    → ((a : ℕ) → address ≤ a → a < address + n → bytes a ≡ bytes' a)
    → load_bytes n bytes address ≡ load_bytes n bytes' address
unfolding load_bytes
load_bytes_cong zero bytes bytes' address h = refl
load_bytes_cong (suc n) bytes bytes' address h =
    let first = h address (omega arith) (omega arith) in
    let rest =
      load_bytes_cong n bytes bytes' (address + 1)
        (λ a low high. h a (omega arith) (omega arith)) in
    rw (first, rest) refl

pub load_bytes_bound :
    (n : ℕ) (bytes : Memory) (a : ℕ) → ((a : ℕ) → bytes a < 256) → load_bytes n bytes a < 256 ^ n
unfolding load_bytes
load_bytes_bound zero bytes a h = omega arith
load_bytes_bound (suc n) bytes a h =
    let first = h a in let rest = load_bytes_bound n bytes (a + 1) h in omega arith

pub ldr-str : (value a : ℕ) (bytes : Memory) → value < 2 ^ 64 → ldr (str value a bytes) a ≡ value
unfolding ldr str
ldr-str value a bytes small = load_bytes-store_bytes 8 a value bytes small

pub str_outside :
    (value address : ℕ) (bytes : Memory) (a : ℕ)
    → (a < address) ⊎ (address + 8 ≤ a)
    → str value address bytes a ≡ bytes a
unfolding str
str_outside value address bytes a h = store_bytes_outside 8 address value bytes a h

pub ldr_cong :
    (bytes bytes' : Memory) (address : ℕ)
    → ((a : ℕ) → address ≤ a → a < address + 8 → bytes a ≡ bytes' a)
    → ldr bytes address ≡ ldr bytes' address
unfolding ldr
ldr_cong bytes bytes' address h = load_bytes_cong 8 bytes bytes' address h

-- A word is not changed by a store to another one.
pub ldr-str_apart :
    (value address other : ℕ) (bytes : Memory)
    → (other + 8 ≤ address) ⊎ (address + 8 ≤ other)
    → ldr (str value address bytes) other ≡ ldr bytes other
ldr-str_apart value address other bytes apart =
    ldr_cong (str value address bytes) bytes other
      (λ a low high. str_outside value address bytes a (ground arith))
