-- ===== src/Pipe/Service.antt =====
-- user/src/bin/pipe/main.rs: the handler of a message, which serves all requests that a process has
-- written to its channel.
pub mod Laws
use rasperry_pi_os.Prelude.{
  ℕ, zero, suc, Bool, Option, none, some, List, [], get_or, set, todo, Outcome, returns, panics,
  ◌>>=◌, ◌>>◌,
}
use rasperry_pi_os.Pipe.Channel.{
  Buffer, Request, read_request, write_request, fork_request, create_request, drop_read_request,
  drop_write_request, read_message,
}
use rasperry_pi_os.Pipe.PidMap.{U16Map, get}
use rasperry_pi_os.Pipe.Processes.{
  Pipe, read, write, Pipes, get_read, get_write, Created, created, not_created, max_pipe_count,
  no_memory, create_pipe, drop_read, drop_write,
}
use rasperry_pi_os.Pipe.Responses.{
  ReadError, WriteError, Response, read_response, read_failure, write_response, write_failure,
  create_response, create_failure, drop_read_response, drop_read_failure, drop_write_response,
  drop_write_failure, WriteStream, write_message,
}

-- What the requests of a process change: the store of pipes, the process's own, and the buffer of its
-- responses.
pub record Session : Type 0 where
  pub store : List Pipe
  pub pipes : Pipes
  pub outgoing : WriteStream

-- `ProcessState`, with its `Channel`.
pub record ProcessState : Type 0 where
  pipes : Pipes
  incoming : Buffer
  position : ℕ
  outgoing : WriteStream

-- The response to a `DropRead` or `DropWrite`.
abbrev pub respond : Response → Session → Outcome Session
respond response s = do
  outgoing ← write_message response s.outgoing
  returns (record s { outgoing = outgoing })

-- The response to a `Create`.
unfoldable pub respond_created : Created → Session → Outcome Session
respond_created (created pipe_id) s = respond (create_response pipe_id) s
respond_created (not_created max_pipe_count) s = respond create_failure s
respond_created (not_created no_memory) s = panics todo

-- The body of the loop of `handle_message`. Whether there is memory for one more pipe is a function of
-- the pipes there are.
unfoldable pub handle_request : (List Pipe → Bool) → Request → Session → Outcome Session
handle_request memory (read_request pipe_id count) s = elim (get_read pipe_id s.pipes) [
  | some pipe ↦
      let answer = read count (get_or s.store pipe []) in
      respond (read_response answer.0) (record s { store = set s.store pipe answer.1 })
  | none ↦ respond (read_failure ReadError.no_such_pipe) s
]
handle_request memory (write_request pipe_id bytes) s = elim (get_write pipe_id s.pipes) [
  | some pipe ↦
      respond write_response
        (record s { store = set s.store pipe (write bytes (get_or s.store pipe [])) })
  | none ↦ respond (write_failure WriteError.no_such_pipe) s
]
handle_request memory (fork_request target_pid) s = panics todo
handle_request memory create_request s = do
  answer ← create_pipe (memory s.store) s.store s.pipes
  respond_created answer.0 (record s { store = answer.1; pipes = answer.2 })
handle_request memory (drop_read_request pipe_id) s = do
  answer ← drop_read pipe_id s.pipes
  respond (elim answer.0 [ none ↦ drop_read_response | some e ↦ drop_read_failure e ])
      (record s { pipes = answer.1 })
handle_request memory (drop_write_request pipe_id) s = do
  answer ← drop_write pipe_id s.pipes
  respond (elim answer.0 [ none ↦ drop_write_response | some e ↦ drop_write_failure e ])
      (record s { pipes = answer.1 })

-- The loop, on fuel: the session and the position after the last request.
unfoldable pub serve :
    (List Pipe → Bool) → ℕ → Buffer → ℕ → Session → Option (Outcome (Session × ℕ))
serve memory zero incoming position s = none
serve memory (suc fuel) incoming position s =
    let answer = read_message incoming position in
    elim answer.0 [
      | none ↦ some (returns (s, answer.1))
      | some message ↦ elim (handle_request memory message s) [
        | returns s' ↦ serve memory fuel incoming answer.1 s'
        | panics p ↦ some (panics p)
      ]
    ]

-- `handle_message`: a process that is not known is left alone.
unfoldable pub handle_message :
    (List Pipe → Bool)
    → ℕ
    → ℕ
    → List Pipe
    → U16Map ProcessState
    → Option (Outcome (List Pipe × U16Map ProcessState))
handle_message memory fuel request_pid store processes = elim (get processes request_pid) [
  | none ↦ some (returns (store, processes))
  | some process ↦
      elim (serve memory fuel process.incoming process.position
        (record { store = store; pipes = process.pipes; outgoing = process.outgoing })) [
          | none ↦ none
          | some outcome ↦ some (
              outcome >>= λ answer. returns (
                answer.0.store,
                set processes request_pid (
                    some (record process {
                      pipes = answer.0.pipes;
                      position = answer.1;
                      outgoing = answer.0.outgoing;
                    })),
              ))
        ]
]
