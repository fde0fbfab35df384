-- ===== src/Pipe/Channel.antt =====
-- The incoming buffer of user/src/bin/pipe/service_channel.rs, and the requests that are read from
-- it. The machine is little-endian.
use rasperry_pi_os.Prelude.{
  ℕ, zero, suc, ◌+◌, ◌-◌, ◌*◌, ◌/◌, ◌%◌, ◌^◌, ◌<◌, ◌≡◌, refl, ap, Option, none, some, List, [], ◌∷◌,
  ◌++◌, arith, ◌==◌, if◌then◌else◌, length,
}

-- `Buffer`: its bytes by their index, of which there are 32768.
abbrev pub Buffer : Type 0
Buffer = ℕ → ℕ

abbrev pub buffer_size : ℕ
buffer_size = 32768

pub data Request : Type 0 where
  read_request : ℕ → ℕ → Request
  write_request : ℕ → List ℕ → Request
  fork_request : ℕ → Request
  create_request : Request
  drop_read_request drop_write_request : ℕ → Request

-- `Buffer::read_byte`
abbrev pub byte_at : Buffer → ℕ → ℕ
byte_at buffer index = buffer (index % buffer_size)

-- The position of a stream after its next byte.
abbrev pub advance : ℕ → ℕ
advance position = (position + 1) % 2 ^ 64

abbrev pub back : ℕ → ℕ
back position = (position + (2 ^ 64 - 1)) % 2 ^ 64

-- `read_u16`, which is also `read_pipe_id`: the number and the position after it.
unfoldable pub read_u16 : Buffer → ℕ → ℕ × ℕ
read_u16 buffer position =
    (byte_at buffer position + 256 * byte_at buffer (advance position), advance (advance position))

-- The bytes of a `Write` request.
unfoldable pub read_bytes : ℕ → Buffer → ℕ → List ℕ × ℕ
read_bytes zero buffer position = ([], position)
read_bytes (suc n) buffer position =
    let rest = read_bytes n buffer (advance position) in (byte_at buffer position ∷ rest.0, rest.1)

-- The rest of a message of a kind; a kind that is none is not a message.
unfoldable pub read_body : Buffer → ℕ → ℕ → Option Request × ℕ
read_body buffer position kind =
    if kind == 1
    then (let (pipe_id, p) = read_u16 buffer position in
        let (length_of, p') = read_u16 buffer p in (some (read_request pipe_id length_of), p'))
    else if kind == 2
    then (let (pipe_id, p) = read_u16 buffer position in
        let (length_of, p') = read_u16 buffer p in
        let (bytes, p'') = read_bytes length_of buffer p' in
        (some (write_request pipe_id bytes), p''))
    else if kind == 3
    then (let (pid, p) = read_u16 buffer position in (some (fork_request pid), p))
    else if kind == 4
    then (some create_request, position)
    else if kind == 5
    then (let (pipe_id, p) = read_u16 buffer position in (some (drop_read_request pipe_id), p))
    else if kind == 6
    then (let (pipe_id, p) = read_u16 buffer position in (some (drop_write_request pipe_id), p))
    else (none, back position)

-- `ReadBufferStream::read_message`: the request, if there is one, and the position after it.
unfoldable pub read_message : Buffer → ℕ → Option Request × ℕ
read_message buffer position = read_body buffer (advance position) (byte_at buffer position)

-- The bytes that stand for a request.
abbrev pub u16_bytes : ℕ → List ℕ
u16_bytes n = n % 256 ∷ n / 256 ∷ []

abbrev pub encode : Request → List ℕ
encode (read_request pipe_id len) = 1 ∷ (u16_bytes pipe_id ++ u16_bytes len)
encode (write_request pipe_id bytes) =
    2 ∷ (u16_bytes pipe_id ++ (u16_bytes (length bytes) ++ bytes))
encode (fork_request pid) = 3 ∷ u16_bytes pid
encode create_request = 4 ∷ []
encode (drop_read_request pipe_id) = 5 ∷ u16_bytes pipe_id
encode (drop_write_request pipe_id) = 6 ∷ u16_bytes pipe_id

-- The buffer holds these bytes from a position on.
abbrev pub Holds : Buffer → ℕ → List ℕ → Type 0
Holds buffer position [] = Unit {0}
Holds buffer position (x ∷ xs) = (byte_at buffer position ≡ x) × Holds buffer (position + 1) xs

read_bytes_lem :
    (xs : List ℕ) (buffer : Buffer) (p : ℕ)
    → p + length xs < 2 ^ 64
    → Holds buffer p xs
    → read_bytes (length xs) buffer p ≡ (xs, p + length xs)
unfolding read_bytes
read_bytes_lem [] buffer p h holds = ap (λ q. ([], q)) (omega arith)
read_bytes_lem (x ∷ xs) buffer p h (at, rest) =
    let next : (p + 1) % 2 ^ 64 ≡ p + 1 = omega arith in
    let more = read_bytes_lem xs buffer (p + 1) (omega arith) rest in
    rw (next, more, at) (ap (λ q. (x ∷ xs, q)) (omega arith))

read_u16_lem :
    (n : ℕ) (buffer : Buffer) (p : ℕ)
    → p + 2 < 2 ^ 64
    → byte_at buffer p ≡ n % 256
    → byte_at buffer (p + 1) ≡ n / 256
    → read_u16 buffer p ≡ (n, p + 1 + 1)
unfolding read_u16
read_u16_lem n buffer p h at at' =
    let next : (p + 1) % 2 ^ 64 ≡ p + 1 = omega arith in
    let after : (p + 1 + 1) % 2 ^ 64 ≡ p + 1 + 1 = omega arith in
    let whole : n % 256 + 256 * (n / 256) ≡ n = omega arith in rw (next, after, at, at', whole) refl

-- A request that stands in the buffer, wrapped around its end or not, is read back as it was written,
-- and the stream is past its last byte, as long as the position stays below 2^64.
pub read_message-encode :
    (r : Request) (buffer : Buffer) (p : ℕ)
    → p + length (encode r) < 2 ^ 64
    → Holds buffer p (encode r)
    → read_message buffer p ≡ (some r, p + length (encode r))
unfolding read_message read_body
read_message-encode (read_request pipe_id len) buffer p h (k, (a, (b, (c, (d, _))))) =
    let next : (p + 1) % 2 ^ 64 ≡ p + 1 = omega arith in
    let first = read_u16_lem pipe_id buffer (p + 1) (omega arith) a b in
    let second = read_u16_lem len buffer (p + 1 + 1 + 1) (omega arith) c d in
    rw (k, next) (rw (first, second) (ap (λ q. (some (read_request pipe_id len), q)) (omega arith)))
read_message-encode (write_request pipe_id bytes) buffer p h (k, (a, (b, (c, (d, rest))))) =
    let next : (p + 1) % 2 ^ 64 ≡ p + 1 = omega arith in
    let first = read_u16_lem pipe_id buffer (p + 1) (omega arith) a b in
    let second = read_u16_lem (length bytes) buffer (p + 1 + 1 + 1) (omega arith) c d in
    let third = read_bytes_lem bytes buffer (p + 1 + 1 + 1 + 1 + 1) (omega arith) rest in
    rw (k, next)
      (rw (first, second, third) (ap (λ q. (some (write_request pipe_id bytes), q)) (omega arith)))
read_message-encode (fork_request pid) buffer p h (k, (a, (b, _))) =
    let next : (p + 1) % 2 ^ 64 ≡ p + 1 = omega arith in
    let first = read_u16_lem pid buffer (p + 1) (omega arith) a b in
    rw (k, next) (rw first (ap (λ q. (some (fork_request pid), q)) (omega arith)))
read_message-encode create_request buffer p h (k, _) =
    let next : (p + 1) % 2 ^ 64 ≡ p + 1 = omega arith in rw (k, next) refl
read_message-encode (drop_read_request pipe_id) buffer p h (k, (a, (b, _))) =
    let next : (p + 1) % 2 ^ 64 ≡ p + 1 = omega arith in
    let first = read_u16_lem pipe_id buffer (p + 1) (omega arith) a b in
    rw (k, next) (rw first (ap (λ q. (some (drop_read_request pipe_id), q)) (omega arith)))
read_message-encode (drop_write_request pipe_id) buffer p h (k, (a, (b, _))) =
    let next : (p + 1) % 2 ^ 64 ≡ p + 1 = omega arith in
    let first = read_u16_lem pipe_id buffer (p + 1) (omega arith) a b in
    rw (k, next) (rw first (ap (λ q. (some (drop_write_request pipe_id), q)) (omega arith)))
