-- ===== src/UserLibrary/Start/Arguments.antt =====
-- The layout of the arguments, and that a program reads them back.
use rasperry_pi_os.Prelude.{
  ℕ, zero, suc, ◌+◌, ◌/◌, ◌%◌, ◌^◌, ◌<◌, ◌≡◌, refl, sym, true, false, some, none, List, [], ◌∷◌,
  ◌++◌, map, arith, ◌==◌, length, All, length-append, Bool-cases, inl, inr, if◌then◌else◌, ◌*◌,
  unexpected, panics, returns,
}
use rasperry_pi_os.UserLibrary.Start.{
  bytes_at, from_le_bytes, read, read_slice, read_arguments, read_all, boxed, start,
}
use rasperry_pi_os.BumpAllocator.{allocate, align_to, set_memory}

unfoldable pub to_le_bytes : ℕ → ℕ → List ℕ
to_le_bytes zero n = []
to_le_bytes (suc size) n = n % 256 ∷ to_le_bytes size (n / 256)

unfoldable pub lengths : List (List ℕ) → List ℕ
lengths [] = []
lengths (argument ∷ arguments) = to_le_bytes 2 (length argument) ++ lengths arguments

unfoldable pub contents : List (List ℕ) → List ℕ
contents [] = []
contents (argument ∷ arguments) = argument ++ contents arguments

-- The address of the table, the number of the arguments, their lengths, and the arguments.
unfoldable pub layout : ℕ → List (List ℕ) → List ℕ
unfolding to_le_bytes lengths contents
layout ttbr0 arguments =
    to_le_bytes 8 ttbr0
    ++ (to_le_bytes 2 (length arguments) ++ (lengths arguments ++ contents arguments))

-- The memory has these bytes from an address on.
abbrev pub Holds : (ℕ → ℕ) → ℕ → List ℕ → Type 0
Holds memory address [] = Unit {0}
Holds memory address (byte ∷ bytes) = (memory address ≡ byte) × Holds memory (address + 1) bytes

module _ (memory : ℕ → ℕ) where
  Holds-append :
      (xs ys : List ℕ) (a : ℕ)
      → Holds memory a (xs ++ ys)
      → Holds memory a xs × Holds memory (a + length xs) ys
  Holds-append [] ys a h = let here : a + 0 ≡ a = omega arith in (tt, rw here h)
  Holds-append (x ∷ xs) ys a h =
      let (front, back) = Holds-append xs ys (a + 1) h.1 in
      let there : a + suc (length xs) ≡ a + 1 + length xs = omega arith in
      ((h.0, front), rw there back)

  bytes_at-Holds : (xs : List ℕ) (a : ℕ) → Holds memory a xs → bytes_at memory a (length xs) ≡ xs
  unfolding bytes_at
  bytes_at-Holds [] a h = refl
  bytes_at-Holds (x ∷ xs) a h = rw (h.0, bytes_at-Holds xs (a + 1) h.1) refl

length-to_le_bytes : (size n : ℕ) → length (to_le_bytes size n) ≡ size
unfolding to_le_bytes
length-to_le_bytes zero n = refl
length-to_le_bytes (suc size) n = rw (length-to_le_bytes size (n / 256)) refl

-- What is left of a number after some bytes.
left_over : ℕ → ℕ → ℕ
left_over zero n = n
left_over (suc size) n = left_over size (n / 256)

fits_2 : (n : ℕ) → n < 2 ^ 16 → left_over 2 n ≡ 0
unfolding left_over
fits_2 n h = omega arith

fits_8 : (n : ℕ) → n < 2 ^ 64 → left_over 8 n ≡ 0
unfolding left_over
fits_8 n h = omega arith

from-to_le_bytes : (size n : ℕ) → left_over size n ≡ 0 → from_le_bytes (to_le_bytes size n) ≡ n
unfolding from_le_bytes to_le_bytes left_over
from-to_le_bytes zero n h = sym h
from-to_le_bytes (suc size) n h = omega (arith, from-to_le_bytes size (n / 256) h)

module _ (memory : ℕ → ℕ) where
  read_lem :
      (size n a : ℕ)
      → left_over size n ≡ 0
      → Holds memory a (to_le_bytes size n)
      → read memory size a ≡ (n, a + size)
  unfolding read
  read_lem size n a fits h =
      let whole = bytes_at-Holds memory (to_le_bytes size n) a h in
      let these : bytes_at memory a size ≡ to_le_bytes size n =
        rw (length-to_le_bytes size n) at whole in
      rw (these, from-to_le_bytes size n fits) refl

  read_bytes :
      (bytes : List ℕ) (a : ℕ)
      → Holds memory a bytes
      → read_slice memory 1 (length bytes) a ≡ (bytes, a + length bytes)
  unfolding read_slice read bytes_at from_le_bytes
  read_bytes [] a h = ground arith
  read_bytes (x ∷ xs) a h = let rest = read_bytes xs (a + 1) h.1 in ground (arith, rest)

  read_lengths :
      (arguments : List (List ℕ)) (a : ℕ)
      → All (λ (argument : List ℕ). length argument < 2 ^ 16) arguments
      → Holds memory a (lengths arguments)
      → read_slice memory 2 (length arguments) a
        ≡ (map length arguments, a + length (lengths arguments))
  unfolding read_slice lengths
  read_lengths [] a short h = ground arith
  read_lengths (x ∷ xs) a short h =
      let code = to_le_bytes 2 (length x) in
      let two = length-to_le_bytes 2 (length x) in
      let (front, back) = Holds-append memory code (lengths xs) a h in
      let rest = read_lengths xs (a + 2) short.1 (rw two at back) in
      rw (read_lem 2 (length x) a (fits_2 _ short.0) front)
        (rw rest (ground (arith, length-append code (lengths xs), two)))

  read_arguments_lem :
      (arguments : List (List ℕ)) (a : ℕ)
      → Holds memory a (contents arguments)
      → read_arguments memory (map length arguments) a ≡ arguments
  unfolding read_arguments contents
  read_arguments_lem [] a h = refl
  read_arguments_lem (x ∷ xs) a h =
      let (front, back) = Holds-append memory x (contents xs) a h in
      rw (read_bytes x a front, read_arguments_lem xs (a + length x) back) refl

read_all-layout :
    (memory : ℕ → ℕ) (sp ttbr0 : ℕ) (arguments : List (List ℕ))
    → ttbr0 < 2 ^ 64
    → length arguments < 2 ^ 16
    → All (λ (argument : List ℕ). length argument < 2 ^ 16) arguments
    → Holds memory sp (layout ttbr0 arguments)
    → read_all memory sp ≡ (ttbr0, arguments)
unfolding read_all layout
read_all-layout memory sp ttbr0 arguments wide few short h =
    let table = to_le_bytes 8 ttbr0 in
    let count = to_le_bytes 2 (length arguments) in
    let (at_table, rest) =
      Holds-append memory table (count ++ (lengths arguments ++ contents arguments)) sp h in
    let (at_count, rest') =
      Holds-append memory count (lengths arguments ++ contents arguments) (sp + 8)
        (rw (length-to_le_bytes 8 ttbr0) at rest) in
    let (at_lens, at_contents) =
      Holds-append memory (lengths arguments) (contents arguments) (sp + 8 + 2)
        (rw (length-to_le_bytes 2 (length arguments)) at rest') in
    rw (read_lem memory 8 ttbr0 sp (fits_8 ttbr0 wide) at_table) (
      rw (read_lem memory 2 (length arguments) (sp + 8) (fits_2 _ few) at_count) (
        rw (read_lengths memory arguments (sp + 8 + 2) short at_lens)
          (rw (read_arguments_lem memory arguments _ at_contents) refl)))

-- More than 4 bytes do not fit into the heap.
no_room :
    (heap n : ℕ)
    → heap + 16 * n + 8 < 2 ^ 64
    → 0 < n
    → (allocate (set_memory heap (heap + 4)) (16 * n) 8).0 ≡ none
unfolding allocate align_to
no_room heap n room more = ground arith

boxed_lem :
    (heap : ℕ) (capacity : ℕ → ℕ) (arguments : List (List ℕ))
    → heap + 16 * capacity (length arguments) + 8 < 2 ^ 64
    → (0 < length arguments → 0 < capacity (length arguments))
    → boxed heap capacity arguments
      ≡ (if length arguments == 0 then returns [] else panics unexpected)
unfolding boxed
boxed_lem heap capacity [] room some_room = refl
boxed_lem heap capacity (x ∷ xs) room some_room =
    let some_more : (suc (length xs) == 0) ≡ false = ground arith in
    rw (boxed, some_more, no_room heap (capacity (suc (length xs))) room (some_room (omega arith)))
      refl

-- A program whose stack pointer is aligned and points to the layout of an address and of arguments, each
-- of which, and their number, fits into 16 bits, reads back that address and those arguments. It gets to
-- `main` only if there are none: as long as the collection of some arguments asks for room for one slice
-- at least, and no address wraps, the heap of 4 bytes has no room for them, and the program panics.
pub start-layout :
    (heap : ℕ) (capacity : ℕ → ℕ) (memory : ℕ → ℕ) (sp ttbr0 : ℕ) (arguments : List (List ℕ))
    → sp % 16 ≡ 0
    → ttbr0 < 2 ^ 64
    → length arguments < 2 ^ 16
    → All (λ (argument : List ℕ). length argument < 2 ^ 16) arguments
    → Holds memory sp (layout ttbr0 arguments)
    → heap + 16 * capacity (length arguments) + 8 < 2 ^ 64
    → (0 < length arguments → 0 < capacity (length arguments))
    → (read_all memory sp ≡ (ttbr0, arguments))
      × (start heap capacity memory (some sp)
          ≡ (if length arguments == 0 then returns (ttbr0, []) else panics unexpected))
unfolding start
start-layout heap capacity memory sp ttbr0 arguments aligned wide few short h room some_room =
    let straight : (sp % 16 == 0) ≡ true = ground (arith, aligned) in
    let values = read_all-layout memory sp ttbr0 arguments wide few short h in
    let box = boxed_lem heap capacity arguments room some_room in
    (
      values,
      elim (Bool-cases (length arguments == 0)) [
        | inl e ↦ rw (straight, values, box, e) refl
        | inr e ↦ rw (straight, values, box, e) refl
      ],
    )
