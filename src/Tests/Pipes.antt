-- ===== src/Tests/Pipes.antt =====
-- The pipe service at a message that wraps around the end of its buffer, and at small maps.
use rasperry_pi_os.Prelude.{
  ℕ, ◌+◌, ◌%◌, ◌≤◌, ◌<◌, ◌≡◌, refl, ◌⊎◌, none, some, [], ◌∷◌, arith, ◌==◌, if◌then◌else◌, length,
  get_or, expectation, returns, panics,
}
use rasperry_pi_os.Pipe.Channel.{
  Buffer, Request, write_request, read_message, encode, read_message-encode,
}
use rasperry_pi_os.Pipe.PidMap.{U16Map, get, put, put_lem}

-- A write of 3 bytes to pipe 258, from the second to last byte of the buffer on.
abbrev message : Request
message = write_request 258 (7 ∷ 8 ∷ 9 ∷ [])

abbrev buffer : Buffer
buffer i = if i == 32766 then 2 else get_or (2 ∷ 1 ∷ 3 ∷ 0 ∷ 7 ∷ 8 ∷ 9 ∷ []) ((i + 1) % 32768) 0

read_message-encode_example :
    read_message buffer 32766 ≡ (some message, 32766 + length (encode message))
read_message-encode_example =
    read_message-encode message buffer 32766 (omega arith)
      (refl, (refl, (refl, (refl, (refl, (refl, (refl, (refl, tt))))))))

abbrev two_places : U16Map ℕ
two_places = some 5 ∷ none ∷ []

put_example :
    ((1 < length two_places)
      × ((m' : U16Map ℕ) × (put two_places 1 (some 6) ≡ returns (get two_places 1, m'))
          × ((j : ℕ) → get m' j ≡ (if 1 == j then some 6 else get two_places j))))
    ⊎ ((length two_places ≤ 1) × (put two_places 1 (some 6) ≡ panics expectation))
put_example = put_lem two_places 1 (some 6)
