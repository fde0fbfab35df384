-- ===== src/Tests/Services.antt =====
-- The pipe service with a process that has one pipe, with one byte in it.
use rasperry_pi_os.Prelude.{
  ◌≡◌, refl, Bool, true, some, List, [], ◌∷◌, arith, get_or, returns, ◌>>=◌,
}
use rasperry_pi_os.Pipe.Channel.{Buffer, read_request, write_request, Request}
use rasperry_pi_os.Pipe.Processes.{Pipe, Pipes}
use rasperry_pi_os.Pipe.Responses.{WriteStream}
use rasperry_pi_os.Pipe.Service.{Session, serve}
use rasperry_pi_os.Pipe.Service.Laws.{run, serve-run}

abbrev pipes : Pipes
pipes = some (record { pipe = 0; readable = true; writable = true }) ∷ []

-- The outgoing buffer is two bytes away from its end.
abbrev outgoing : WriteStream
outgoing = record { buffer = λ i. 0; position = 32766 }

abbrev session : Session
session = record { store = (5 ∷ []) ∷ []; pipes = pipes; outgoing = outgoing }

abbrev memory : List Pipe → Bool
memory _ = true

abbrev requests : List Request
requests = write_request 0 (7 ∷ 8 ∷ []) ∷ read_request 0 2 ∷ []

abbrev incoming : Buffer
incoming i = get_or (2 ∷ 0 ∷ 0 ∷ 2 ∷ 0 ∷ 7 ∷ 8 ∷ 1 ∷ 0 ∷ 0 ∷ 2 ∷ 0 ∷ []) i 0

serve_example :
    serve memory 3 incoming 0 session
    ≡ some (run memory requests session >>= λ s'. returns (s', 12))
serve_example = serve-run memory requests 3 incoming 0 session (omega arith) (omega arith) (
  refl,
  (
    refl,
    (refl, (refl, (refl, (refl, (refl, (refl, (refl, (refl, (refl, (refl, (refl, tt))))))))))),
  ),
)
