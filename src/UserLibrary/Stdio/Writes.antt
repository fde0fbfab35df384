-- ===== src/UserLibrary/Stdio/Writes.antt =====
-- What a read and a write of a file come to.
use rasperry_pi_os.Prelude.{
  ℕ, zero, suc, ◌*◌, ◌%◌, ◌^◌, ◌<◌, ◌≡◌, ◌≢◌, refl, none, [], ltb, lt→ltb, Bool-cases, inl, inr,
  ◌==◌, if◌then◌else◌, todo, returns, panics, arith, true, false,
}
use rasperry_pi_os.UserLibrary.Start.{bytes_at}
use rasperry_pi_os.UserLibrary.Stdio.{
  pipe, File, put_byte, get_byte, read_from, write_from, fwrite, fread,
}

write_from-bytes_at :
    (memory : ℕ → ℕ) (ptr n : ℕ) (file : File)
    → write_from 0 (bytes_at memory ptr n) file
      ≡ (if n == 0 then returns (file, 0, none) else panics todo)
unfolding write_from put_byte bytes_at
write_from-bytes_at memory ptr zero file = refl
write_from-bytes_at memory ptr (suc n) file = elim file.inner [ pipe id ↦ ground arith ]

read_from_lem :
    (n : ℕ) (file : File)
    → read_from 0 n file ≡ (if n == 0 then returns ([], file, 0, none) else panics todo)
unfolding read_from get_byte
read_from_lem zero file = refl
read_from_lem (suc n) file = elim file.inner [ pipe id ↦ ground arith ]

-- A write and a read through good pointers, whose size in bytes does not overflow, panic but for no bytes:
-- then they answer 0, and leave the file and `errno` as they are.
pub fwrite-fread :
    (memory : ℕ → ℕ) (ptr size nitems stream : ℕ) (file : File) (errno : ℕ)
    → ptr ≢ 0
    → size * nitems < 2 ^ 64
    → stream % 2 ≡ 0
    → stream ≢ 0
    → (fwrite memory ptr size nitems stream file errno
        ≡ (if size * nitems == 0 then returns (0, file, errno) else panics todo))
      × (fread ptr size nitems stream file errno
          ≡ (if size * nitems == 0 then returns ([], 0, file, errno) else panics todo))
unfolding fwrite fread
fwrite-fread memory ptr size nitems stream file errno there small even good =
    let not_zero : (ptr == 0) ≡ false = ground arith in
    let fits : ltb (size * nitems) (2 ^ 64) ≡ true = lt→ltb _ _ small in
    let aligned : (stream % 2 == 0) ≡ true = ground arith in
    let not_none : (stream == 0) ≡ false = ground arith in
    elim (Bool-cases (size * nitems == 0)) [
      | inl e ↦ (
        rw
            (
              not_zero,
              fits,
              aligned,
              not_none,
              write_from-bytes_at memory ptr (size * nitems) file,
              e,
            )
            refl,
        rw (not_zero, fits, aligned, not_none, read_from_lem (size * nitems) file, e) refl,
      )
      | inr e ↦ (
        rw
            (
              not_zero,
              fits,
              aligned,
              not_none,
              write_from-bytes_at memory ptr (size * nitems) file,
              e,
            )
            refl,
        rw (not_zero, fits, aligned, not_none, read_from_lem (size * nitems) file, e) refl,
      )
    ]
