-- ===== src/Pipe/Responses/Laws.antt =====
-- What `write_message` leaves in the outgoing buffer.
use rasperry_pi_os.Prelude.{
  ℕ, suc, ◌+◌, ◌%◌, ◌^◌, ◌≤◌, ◌<◌, ◌≡◌, refl, ap, ◌∙◌, ◌≢◌, some, List, [], ◌∷◌, ◌++◌, arith,
  lt→ltb, length, length-append, returns,
}
use rasperry_pi_os.Pipe.Channel.{buffer_size, byte_at, back, u16_bytes, Holds}
use rasperry_pi_os.Pipe.Responses.{
  Response, read_failure, write_failure, fork_failure, create_failure, drop_read_failure,
  drop_write_failure, read_response, write_response, fork_response, create_response,
  drop_read_response, drop_write_response, WriteStream, write_byte, write_bytes, write_body,
  write_message, answer_bytes, write_bytes_other, write_bytes-position, write_bytes-Holds,
}

-- The bytes of a response are what its body writes.
write_body-answer_bytes :
    (r : Response) (s : WriteStream) (bytes : List ℕ)
    → answer_bytes r ≡ some bytes
    → length bytes < buffer_size
    → write_body r s ≡ returns (write_bytes bytes s)
unfolding write_body
write_body-answer_bytes (read_response data_bytes) s bytes e fits =
    let same : bytes ≡ 1 ∷ (u16_bytes (length data_bytes) ++ data_bytes) = cc in
    let short : suc (suc (suc (length data_bytes))) < buffer_size =
      omega (arith, fits, ap length same) in
    rw (same, lt→ltb (length data_bytes) (2 ^ 16) (omega (arith, short))) refl
write_body-answer_bytes write_response s bytes e fits = ground (arith, e)
write_body-answer_bytes fork_response s bytes e fits = ground (arith, e)
write_body-answer_bytes (create_response pipe_id) s bytes e fits = ground (arith, e)
write_body-answer_bytes drop_read_response s bytes e fits = ground (arith, e)
write_body-answer_bytes drop_write_response s bytes e fits = ground (arith, e)
write_body-answer_bytes (read_failure x) s bytes e fits = cc
write_body-answer_bytes (write_failure x) s bytes e fits = cc
write_body-answer_bytes fork_failure s bytes e fits = cc
write_body-answer_bytes create_failure s bytes e fits = cc
write_body-answer_bytes (drop_read_failure x) s bytes e fits = cc
write_body-answer_bytes (drop_write_failure x) s bytes e fits = cc

write_bytes-append :
    (xs ys : List ℕ) (s : WriteStream)
    → write_bytes ys (write_bytes xs s) ≡ write_bytes (xs ++ ys) s
write_bytes-append [] ys s = refl
write_bytes-append (x ∷ xs) ys s = write_bytes-append xs ys (write_byte x s)

-- A response that is no failure is in the outgoing buffer from the position on, wrapped around the
-- end of the buffer or not, and the byte 0 ends it: where the next response will start. No other
-- byte changes. The response and that byte must fit the buffer, and the position must stay below
-- 2^64.
pub write_message_lem :
    (r : Response) (s : WriteStream) (bytes : List ℕ)
    → answer_bytes r ≡ some bytes
    → length bytes < buffer_size
    → s.position + length bytes + 1 < 2 ^ 64
    → (s' : WriteStream) × (write_message r s ≡ returns s')
      × (s'.position ≡ s.position + length bytes)
      × Holds s'.buffer s.position (bytes ++ (0 ∷ []))
      × ((q : ℕ)
          → ((i : ℕ) → i ≤ length bytes → q % buffer_size ≢ (s.position + i) % buffer_size)
          → byte_at s'.buffer q ≡ byte_at s.buffer q)
unfolding write_message
write_message_lem r s bytes e fits small =
    let body = write_body-answer_bytes r s bytes e fits in
    let at = write_bytes-position bytes s (omega (arith, small)) in
    let ended = write_byte 0 (write_bytes bytes s) in
    let whole = write_bytes-append bytes (0 ∷ []) s in
    let all = length-append bytes (0 ∷ []) in
    (
      record ended { position = back ended.position },
      rw body refl,
      rw at (omega (arith, small)),
      rw whole (
          write_bytes-Holds (bytes ++ (0 ∷ [])) s (omega (arith, all, small))
            (omega (arith, all, fits))),
      λ q h.
          ap (λ t. byte_at t.buffer q) whole
          ∙ write_bytes_other (bytes ++ (0 ∷ [])) s q (omega (arith, all, small))
              (λ i lt. h i (omega (arith, all, lt))),
    )
