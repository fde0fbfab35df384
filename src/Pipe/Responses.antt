-- ===== src/Pipe/Responses.antt =====
-- The outgoing buffer of user/src/bin/pipe/service_channel.rs, and the responses that are written to
-- it.
pub mod Laws
use rasperry_pi_os.Prelude.{
  ℕ, suc, ◌+◌, ◌%◌, ◌^◌, ◌≤◌, ◌<◌, ◌≡◌, refl, ◌∙◌, ◌≢◌, Option, none, some, List, [], ◌∷◌, ◌++◌,
  arith, ltb, ◌==◌, if◌then◌else◌, length, expectation, todo, Outcome, returns, panics, ◌>>=◌,
}
use rasperry_pi_os.Pipe.Channel.{Buffer, buffer_size, byte_at, advance, back, u16_bytes, Holds}
use rasperry_pi_os.Pipe.Processes.{DropError}

pub data ReadError : Type 0 where
  no_such_pipe insufficient_permissions locked : ReadError

pub data WriteError : Type 0 where
  no_such_pipe insufficient_permissions locked : WriteError

pub data Response : Type 0 where
  read_response : List ℕ → Response
  read_failure : ReadError → Response
  write_response : Response
  write_failure : WriteError → Response
  fork_response fork_failure : Response
  create_response : ℕ → Response
  create_failure : Response
  drop_read_response : Response
  drop_read_failure : DropError → Response
  drop_write_response : Response
  drop_write_failure : DropError → Response

-- `WriteBufferStream`
pub record WriteStream : Type 0 where
  pub buffer : Buffer
  pub position : ℕ

abbrev pub write_byte : ℕ → WriteStream → WriteStream
write_byte value s = record {
  buffer = λ j. if j == s.position % buffer_size then value else s.buffer j;
  position = advance s.position;
}

abbrev pub write_bytes : List ℕ → WriteStream → WriteStream
write_bytes [] s = s
write_bytes (value ∷ values) s = write_bytes values (write_byte value s)

-- The message of a response, without the kind `None` that ends it.
unfoldable pub write_body : Response → WriteStream → Outcome WriteStream
write_body (read_response bytes) s =
    if ltb (length bytes) (2 ^ 16)
    then returns (write_bytes bytes (write_bytes (u16_bytes (length bytes)) (write_byte 1 s)))
    else panics expectation
write_body write_response s = returns (write_byte 2 s)
write_body fork_response s = returns (write_byte 3 s)
write_body (create_response pipe_id) s = returns (write_bytes (u16_bytes pipe_id) (write_byte 4 s))
write_body drop_read_response s = returns (write_byte 5 s)
write_body drop_write_response s = returns (write_byte 6 s)
write_body (read_failure _) s = panics todo
write_body (write_failure _) s = panics todo
write_body fork_failure s = panics todo
write_body create_failure s = panics todo
write_body (drop_read_failure _) s = panics todo
write_body (drop_write_failure _) s = panics todo

-- `WriteBufferStream::write_message`
unfoldable pub write_message : Response → WriteStream → Outcome WriteStream
write_message response s = do
  s' ← write_body response s
  let ended = write_byte 0 s'
  returns (record ended { position = back ended.position })

-- The bytes that stand for a response; none stand for a failure.
abbrev pub answer_bytes : Response → Option (List ℕ)
answer_bytes (read_response bytes) = some (1 ∷ (u16_bytes (length bytes) ++ bytes))
answer_bytes write_response = some (2 ∷ [])
answer_bytes fork_response = some (3 ∷ [])
answer_bytes (create_response pipe_id) = some (4 ∷ u16_bytes pipe_id)
answer_bytes drop_read_response = some (5 ∷ [])
answer_bytes drop_write_response = some (6 ∷ [])
answer_bytes _ = none

-- A write of bytes that all fit the buffer.
pub write_bytes_other :
    (xs : List ℕ) (s : WriteStream) (q : ℕ)
    → s.position + length xs < 2 ^ 64
    → ((i : ℕ) → i < length xs → q % buffer_size ≢ (s.position + i) % buffer_size)
    → byte_at (write_bytes xs s).buffer q ≡ byte_at s.buffer q
write_bytes_other [] s q small h = refl
write_bytes_other (x ∷ xs) s q small h =
    let next : (s.position + 1) % 2 ^ 64 ≡ s.position + 1 = omega (arith, small) in
    write_bytes_other xs (write_byte x s) q (rw next (omega (arith, small)))
      (λ i lt. rw next (ground (arith, h (suc i) (omega (arith, lt)))))
    ∙ ground (arith, h 0 (omega arith))

pub write_bytes-position :
    (xs : List ℕ) (s : WriteStream)
    → s.position + length xs < 2 ^ 64
    → (write_bytes xs s).position ≡ s.position + length xs
write_bytes-position [] s small = omega arith
write_bytes-position (x ∷ xs) s small =
    let next : (s.position + 1) % 2 ^ 64 ≡ s.position + 1 = omega (arith, small) in
    write_bytes-position xs (write_byte x s) (rw next (omega (arith, small)))
    ∙ rw next (omega arith)

pub write_bytes-Holds :
    (xs : List ℕ) (s : WriteStream)
    → s.position + length xs < 2 ^ 64
    → length xs ≤ buffer_size
    → Holds (write_bytes xs s).buffer s.position xs
write_bytes-Holds [] s small fits = tt
write_bytes-Holds (x ∷ xs) s small fits =
    let next : (s.position + 1) % 2 ^ 64 ≡ s.position + 1 = omega (arith, small) in
    let more =
      write_bytes-Holds xs (write_byte x s) (rw next (omega (arith, small)))
        (omega (arith, fits)) in
    (
      write_bytes_other xs (write_byte x s) s.position (rw next (omega (arith, small)))
            (λ i lt. rw next (omega (arith, lt, fits)))
          ∙ ground arith,
      rw (← next) more,
    )
