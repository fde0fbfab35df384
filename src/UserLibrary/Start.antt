-- ===== src/UserLibrary/Start.antt =====
-- user/src/runtime/init.rs: how a program reads its arguments off the stack. The memory is its bytes.
pub mod Arguments
use rasperry_pi_os.Prelude.{
  ℕ, zero, suc, ◌+◌, ◌*◌, ◌%◌, Option, List, [], ◌∷◌, ◌==◌, ◌^◌, none, some, length, unexpected,
  Outcome, returns, panics, ◌>>=◌, ◌>>◌, assert, expect,
}
use rasperry_pi_os.BumpAllocator.{set_memory, allocate}

unfoldable pub bytes_at : (ℕ → ℕ) → ℕ → ℕ → List ℕ
bytes_at memory address zero = []
bytes_at memory address (suc n) = memory address ∷ bytes_at memory (address + 1) n

-- A little-endian number.
unfoldable pub from_le_bytes : List ℕ → ℕ
from_le_bytes [] = 0
from_le_bytes (byte ∷ bytes) = byte + 256 * from_le_bytes bytes

-- `PointerReader::read` of an unsigned type of a size: the value, and the pointer after it.
unfoldable pub read : (ℕ → ℕ) → ℕ → ℕ → ℕ × ℕ
read memory size pointer = (from_le_bytes (bytes_at memory pointer size), pointer + size)

-- `PointerReader::read_slice`
unfoldable pub read_slice : (ℕ → ℕ) → ℕ → ℕ → ℕ → List ℕ × ℕ
read_slice memory size zero pointer = ([], pointer)
read_slice memory size (suc count) pointer =
    let (value, next) = read memory size pointer in
    let (values, end) = read_slice memory size count next in (value ∷ values, end)

-- The `scan` over the lengths.
unfoldable pub read_arguments : (ℕ → ℕ) → List ℕ → ℕ → List (List ℕ)
read_arguments memory [] pointer = []
read_arguments memory (len ∷ lens) pointer =
    let (argument, next) = read_slice memory 1 len pointer in
    argument ∷ read_arguments memory lens next

-- What the reader reads: the address of the translation table, and the arguments.
unfoldable pub read_all : (ℕ → ℕ) → ℕ → ℕ × List (List ℕ)
read_all memory sp =
    let table = read memory 8 sp in
    let count = read memory 2 table.1 in
    let lens = read_slice memory 2 count.0 count.1 in (table.0, read_arguments memory lens.0 lens.1)

-- The `Box` of the arguments, in the heap that `HEAP_MEM` is: none for no argument, and otherwise room for
-- as many slices, of 16 bytes each, as the collection asks for first.
abbrev pub heap_size : ℕ
heap_size = 4

unfoldable pub boxed : ℕ → (ℕ → ℕ) → List (List ℕ) → Outcome (List (List ℕ))
boxed heap capacity [] = returns []
boxed heap capacity (argument ∷ arguments) =
    let room = 16 * capacity (suc (length arguments)) in
    elim (allocate (set_memory heap (heap + heap_size)) room 8).0 [
      | none ↦ panics unexpected
      | some block ↦ returns (argument ∷ arguments)
    ]

-- `start`, up to the call of `main`: the address of the translation table, and the arguments. The null
-- pointer is `none`, `heap` is the address of `HEAP_MEM`, and `capacity` is for how many slices the
-- collection of so many arguments asks first. The prints are left out.
unfoldable pub start : ℕ → (ℕ → ℕ) → (ℕ → ℕ) → Option ℕ → Outcome (ℕ × List (List ℕ))
start heap capacity memory pointer = do
  sp ← expect pointer
  assert (sp % 16 == 0)
  let values = read_all memory sp
  arguments ← boxed heap capacity values.1
  returns (values.0, arguments)
