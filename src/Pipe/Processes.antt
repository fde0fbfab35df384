-- ===== src/Pipe/Processes.antt =====
-- user/src/bin/pipe/pipe.rs and user/src/bin/pipe/process.rs: the pipes, and what a process may do
-- with them. Pipes are shared between processes, so that they stand in a store, and the map of a
-- process has their places in it. A pipe that no process has any more stays in the store.
pub mod Laws
use rasperry_pi_os.Prelude.{
  ℕ, zero, suc, Bool, true, false, Option, none, some, List, [], ◌∷◌, ◌++◌, leb, if◌then◌else◌,
  length, set, Outcome, returns, ◌>>=◌, expect,
}
use rasperry_pi_os.Pipe.PidMap.{U16Map, get, put, insert_lowest}

-- The buffer of a `Pipe`, its oldest byte first.
abbrev pub Pipe : Type 0
Pipe = List ℕ

-- `VecDeque::drain` of the first bytes: they, and those that stay.
abbrev pub drain : ℕ → Pipe → List ℕ × Pipe
drain zero pipe = ([], pipe)
drain (suc count) [] = ([], [])
drain (suc count) (byte ∷ pipe) = let rest = drain count pipe in (byte ∷ rest.0, rest.1)

unfoldable pub read : ℕ → Pipe → List ℕ × Pipe
read max_count pipe = drain (if leb max_count (length pipe) then max_count else length pipe) pipe

unfoldable pub write : List ℕ → Pipe → Pipe
write bytes pipe = pipe ++ bytes

pub record PipeInfo : Type 0 where
  pub pipe : ℕ
  pub readable : Bool
  pub writable : Bool

-- The pipes of a `ProcessState`.
abbrev pub Pipes : Type 0
Pipes = U16Map PipeInfo

pub data CreateError : Type 0 where
  max_pipe_count no_memory : CreateError

pub data DropError : Type 0 where
  no_permissions no_such_pipe : DropError

unfoldable pub get_read : ℕ → Pipes → Option ℕ
get_read pipe_id pipes = elim (get pipes pipe_id) [
  | none ↦ none
  | some info ↦ if info.readable then some info.pipe else none
]

unfoldable pub get_write : ℕ → Pipes → Option ℕ
get_write pipe_id pipes = elim (get pipes pipe_id) [
  | none ↦ none
  | some info ↦ if info.writable then some info.pipe else none
]

pub data Created : Type 0 where
  created : ℕ → Created
  not_created : CreateError → Created

-- `create_pipe`: whether there is memory for the pipe is what `Arc::try_new` answers. The place of a
-- new pipe is the end of the store.
unfoldable pub create_pipe : Bool → List Pipe → Pipes → Outcome (Created × List Pipe × Pipes)
create_pipe memory store pipes =
    if memory
    then (do
      answer ←
          insert_lowest pipes (record { pipe = length store; readable = true; writable = true })
      returns (
        elim answer.0 [ none ↦ not_created max_pipe_count | some pipe_id ↦ created pipe_id ],
        store ++ ([] ∷ []),
        answer.1,
      ))
    else returns (not_created no_memory, store, pipes)

-- What a process keeps of a pipe without one of its permissions: nothing, if it has not the other.
unfoldable pub keep : ℕ → PipeInfo → Bool → Pipes → Outcome Pipes
keep pipe_id info other pipes =
    if other
    then returns (set pipes pipe_id (some info))
    else (do answer ← put pipes pipe_id none; old ← expect answer.0; returns answer.1)

-- `drop_read` and `drop_write`: the error, if there is one, and the pipes after it.
unfoldable pub drop_read : ℕ → Pipes → Outcome (Option DropError × Pipes)
drop_read pipe_id pipes = elim (get pipes pipe_id) [
  | none ↦ returns (some no_such_pipe, pipes)
  | some info ↦
      if info.readable
      then (do
        pipes' ← keep pipe_id (record info { readable = false }) info.writable pipes
        returns (none, pipes'))
      else returns (some no_permissions, pipes)
]

unfoldable pub drop_write : ℕ → Pipes → Outcome (Option DropError × Pipes)
drop_write pipe_id pipes = elim (get pipes pipe_id) [
  | none ↦ returns (some no_such_pipe, pipes)
  | some info ↦
      if info.writable
      then (do
        pipes' ← keep pipe_id (record info { writable = false }) info.readable pipes
        returns (none, pipes'))
      else returns (some no_permissions, pipes)
]
