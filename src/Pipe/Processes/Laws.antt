-- ===== src/Pipe/Processes/Laws.antt =====
-- What a process may do with its pipes before and after the operations of
-- user/src/bin/pipe/process.rs.
use rasperry_pi_os.Prelude.{
  ℕ, zero, suc, ◌≤◌, ◌≡◌, refl, sym, ap, ◌∙◌, ◌≢◌, inl, inr, Bool, true, false, Option, none, some,
  [], ◌∷◌, ◌++◌, arith, leb, ◌==◌, if◌then◌else◌, leb→le, ==_refl, Bool-cases, Option-cases, length,
  set, returns,
}
use rasperry_pi_os.Pipe.PidMap.{get, get-set, get_short, put_lem}
use rasperry_pi_os.Pipe.Processes.{
  Pipe, drain, read, PipeInfo, Pipes, no_permissions, no_such_pipe, get_read, get_write, keep,
  drop_read,
}

drain-append : (n : ℕ) (pipe : Pipe) → (drain n pipe).0 ++ (drain n pipe).1 ≡ pipe
drain-append zero pipe = refl
drain-append (suc n) [] = refl
drain-append (suc n) (x ∷ pipe) = ap (λ l. x ∷ l) (drain-append n pipe)

length-drain : (n : ℕ) (pipe : Pipe) → n ≤ length pipe → length (drain n pipe).0 ≡ n
length-drain zero pipe h = refl
length-drain (suc n) [] h = absurd (omega arith)
length-drain (suc n) (x ∷ pipe) h = ap suc (length-drain n pipe (omega (arith, h)))

drain_all : (pipe : Pipe) → (drain (length pipe) pipe).1 ≡ []
drain_all [] = refl
drain_all (x ∷ pipe) = drain_all pipe

pub read_lem :
    (n : ℕ) (pipe : Pipe)
    → ((read n pipe).0 ++ (read n pipe).1 ≡ pipe)
      × (length (read n pipe).0 ≤ n)
      × (length pipe ≤ n → (read n pipe).1 ≡ [])
unfolding read
read_lem n pipe = elim (Bool-cases (leb n (length pipe))) [
  | inl e ↦
      let short = leb→le n (length pipe) e in
      let count = length-drain n pipe short in
      rw e (
        drain-append n pipe,
        omega (arith, count),
        λ h. let same : n ≡ length pipe = omega (arith, h, short) in rw same (drain_all pipe),
      )
  | inr e ↦
      let long : length pipe ≤ n = ground arith in
      let count = length-drain (length pipe) pipe (omega arith) in
      rw e (drain-append (length pipe) pipe, omega (arith, count, long), λ h. drain_all pipe)
]

-- A process's pipes, seen as the permissions it has.
pub keep_lem :
    (pipe_id : ℕ) (info : PipeInfo) (other : Bool) (pipes : Pipes)
    → (old : PipeInfo) → get pipes pipe_id ≡ some old
    → (pipes' : Pipes) × (keep pipe_id info other pipes ≡ returns pipes')
      × ((j : ℕ)
          → get pipes' j
            ≡ (if pipe_id == j then (if other then some info else none) else get pipes j))
unfolding keep
keep_lem pipe_id info true pipes old e = (
  set pipes pipe_id (some info),
  refl,
  λ j. get-set pipes pipe_id j (some info) (get_short pipes pipe_id old e),
)
keep_lem pipe_id info false pipes old e = elim (put_lem pipes pipe_id none) [
  | inl (short, (pipes', e', at)) ↦ (pipes', rw (e', e) refl, at)
  | inr (long, _) ↦ let short = get_short pipes pipe_id old e in absurd (omega (arith, long, short))
]

get_read_lem :
    (pipe_id : ℕ) (pipes : Pipes) (found : Option PipeInfo)
    → get pipes pipe_id ≡ found
    → get_read pipe_id pipes
      ≡ elim found [ none ↦ none | some info ↦ if info.readable then some info.pipe else none ]
unfolding get_read
get_read_lem pipe_id pipes found e = rw (← e) refl

get_write_lem :
    (pipe_id : ℕ) (pipes : Pipes) (found : Option PipeInfo)
    → get pipes pipe_id ≡ found
    → get_write pipe_id pipes
      ≡ elim found [ none ↦ none | some info ↦ if info.writable then some info.pipe else none ]
unfolding get_write
get_write_lem pipe_id pipes found e = rw (← e) refl

-- A process that may read from a pipe and drops that may not read from it any more, and may write to it
-- as before, and all its other pipes stay as they were. Without the permission, or without the pipe,
-- nothing changes, and the error says which.
pub drop_read_lem :
    (pipe_id : ℕ) (pipes : Pipes)
    → (pipes' : Pipes) × (drop_read pipe_id pipes
        ≡ returns (
          elim (get pipes pipe_id) [
            | none ↦ some no_such_pipe
            | some info ↦ if info.readable then none else some no_permissions
          ],
          pipes',
        ))
      × (get_read pipe_id pipes' ≡ none)
      × (get_write pipe_id pipes' ≡ get_write pipe_id pipes)
      × ((j : ℕ) → pipe_id ≢ j → get pipes' j ≡ get pipes j)
unfolding drop_read
drop_read_lem pipe_id pipes = elim (Option-cases (get pipes pipe_id)) [
  | inl e ↦ (pipes, rw (drop_read, e) refl, get_read_lem pipe_id pipes none e, refl, λ j ne. refl)
  | inr (info, e) ↦ elim (Bool-cases info.readable) [
    | inl r ↦
        let (pipes', returned, at) =
          keep_lem pipe_id (record info { readable = false }) info.writable pipes info e in
        let here : get pipes' pipe_id
            ≡ (if info.writable then some (record info { readable = false }) else none) =
          at pipe_id ∙ rw (==_refl pipe_id) refl in
        (
          pipes',
          rw (drop_read, e) (rw (r, returned) refl),
          get_read_lem pipe_id pipes' _ here ∙ ground arith,
          get_write_lem pipe_id pipes' _ here
              ∙ ground arith
              ∙ sym (get_write_lem pipe_id pipes _ e),
          λ j ne. at j ∙ ground (arith, ne),
        )
    | inr r ↦ (
      pipes,
      rw (drop_read, e) (rw r refl),
      get_read_lem pipe_id pipes (some info) e ∙ rw r refl,
      refl,
      λ j ne. refl,
    )
  ]
]
