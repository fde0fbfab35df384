-- ===== src/UserLibrary/Stdio.antt =====
-- user/src/stdio/mod.rs: the files and the C interface of their reads and writes. A pointer is its address
-- and what stands there. `EOF` is `none`.
pub mod Writes
use rasperry_pi_os.Prelude.{
  ℕ, zero, suc, ◌+◌, ◌*◌, ◌%◌, ◌^◌, ◌⊎◌, inl, inr, Bool, not, Option, none, some, List, [], ◌∷◌,
  ltb, ◌==◌, if◌then◌else◌, todo, expectation, Outcome, returns, panics, ◌>>=◌, ◌>>◌, assert,
}
use rasperry_pi_os.UserLibrary.Start.{bytes_at}
use rasperry_pi_os.UserLibrary.Errno.{Error, set_errno}

pub data FileType : Type 0 where
  pipe : ℕ → FileType

pub record File : Type 0 where
  pub is_error : Bool
  pub blocking : Bool
  pub inner : FileType

unfoldable pub put_byte : ℕ → File → Outcome (File × Option Error)
put_byte c file = elim file.inner [ pipe id ↦ panics todo ]

unfoldable pub get_byte : File → Outcome (File × (ℕ ⊎ Error))
get_byte file = elim file.inner [ pipe id ↦ panics todo ]

-- `FILE::fread` from a place in the buffer on: the bytes that are put in it, the file, how many bytes
-- there are, and the error.
unfoldable pub read_from : ℕ → ℕ → File → Outcome (List ℕ × File × ℕ × Option Error)
read_from n zero file = returns ([], file, n, none)
read_from n (suc left) file = do
  answer ← get_byte file
  elim answer.1 [
    | inl c ↦ do
      rest ← read_from (n + 1) left answer.0
      returns (c ∷ rest.0, rest.1, rest.2, rest.3)
    | inr err ↦ returns ([], answer.0, n, some err)
  ]

-- `FILE::fwrite`
unfoldable pub write_from : ℕ → List ℕ → File → Outcome (File × ℕ × Option Error)
write_from n [] file = returns (file, n, none)
write_from n (byte ∷ bytes) file = do
  answer ← put_byte byte file
  elim answer.1 [
    | none ↦ write_from (n + 1) bytes answer.0
    | some err ↦ returns (answer.0, n, some err)
  ]

-- `NonNull::new` and `as_mut` with their `expect`.
abbrev pub not_null : ℕ → Outcome (Unit {0})
not_null address = if address == 0 then panics expectation else returns tt

abbrev pub stream_of : ℕ → File → Outcome File
stream_of address file = do assert (address % 2 == 0); not_null address; returns file

abbrev pub errno_after : ℕ → Option Error → ℕ
errno_after errno none = errno
errno_after errno (some err) = set_errno err

-- The functions of `ffi`: the answer, the file and `errno`.
unfoldable pub fputc : ℕ → ℕ → File → ℕ → Outcome (Option ℕ × File × ℕ)
fputc c stream file errno = do
  file' ← stream_of stream file
  value ← put_byte (c % 2 ^ 8) file'
  returns (elim value.1 [
    | none ↦ (some c, value.0, errno)
    | some err ↦ (none, value.0, errno_after errno (some err))
  ])

unfoldable pub fgetc : ℕ → File → ℕ → Outcome (Option ℕ × File × ℕ)
fgetc stream file errno = do
  file' ← stream_of stream file
  value ← get_byte file'
  returns (elim value.1 [
    | inl c ↦ (some c, value.0, errno)
    | inr err ↦ (none, value.0, errno_after errno (some err))
  ])

abbrev pub buffer_size : ℕ → ℕ → Outcome ℕ
buffer_size size nitems =
    if ltb (size * nitems) (2 ^ 64) then returns (size * nitems) else panics expectation

unfoldable pub fwrite : (ℕ → ℕ) → ℕ → ℕ → ℕ → ℕ → File → ℕ → Outcome (ℕ × File × ℕ)
fwrite memory ptr size nitems stream file errno = do
  not_null ptr
  bytes ← buffer_size size nitems
  file' ← stream_of stream file
  answer ← write_from 0 (bytes_at memory ptr bytes) file'
  returns (answer.1, answer.0, errno_after errno answer.2)

-- `fread`, with the bytes that come into the buffer.
unfoldable pub fread : ℕ → ℕ → ℕ → ℕ → File → ℕ → Outcome (List ℕ × ℕ × File × ℕ)
fread ptr size nitems stream file errno = do
  not_null ptr
  bytes ← buffer_size size nitems
  file' ← stream_of stream file
  answer ← read_from 0 bytes file'
  returns (answer.0, answer.2, answer.1, errno_after errno answer.3)
