-- ===== src/Sync/RwLock/Laws.antt =====
-- What the `RwLock` of os/src/sync/mod.rs keeps while its threads interleave.
use rasperry_pi_os.Prelude.{
  ℕ, ◌+◌, ◌-◌, ◌≤◌, ◌<◌, ◌≡◌, refl, ap, ◌≢◌, ◌⊎◌, inl, inr, List, [], ◌∷◌, arith, ltb, ltb→lt,
  ltb→le, Bool-cases, length, set, get_or_above,
}
use rasperry_pi_os.Sync.Threads.{total, total-set, total_two, total-le, total-replicate}
use rasperry_pi_os.Sync.RwLock.{
  Phase, outside, reading, writing, reader, writer, Action, read, write, proceed, downgrade, RwLock,
  max_readers, writer_state, phase, new, access, step, run, reads, writes,
}

-- The state counts the guards: one writer and nobody else at 255, or that many readers.
abbrev pub Counts : ℕ → ℕ → ℕ → Type 0
Counts state readers writers =
    ((writers ≡ 1) × (readers ≡ 0) × (state ≡ writer_state))
    ⊎ ((writers ≡ 0) × (readers ≡ state) × (state ≤ max_readers))

access-Counts :
    (state : ℕ) (p : Phase) (a : Action) (r w : ℕ)
    → Counts state (r + reads p) (w + writes p)
    → Counts (access state p a).0 (r + reads (access state p a).1) (w + writes (access state p a).1)
unfolding access
access-Counts state outside read r w h = h
access-Counts state outside write r w h = h
access-Counts state outside proceed r w h = h
access-Counts state outside downgrade r w h = h
access-Counts state reading proceed r w h = ground arith
access-Counts state reading read r w h = h
access-Counts state reading write r w h = h
access-Counts state reading downgrade r w h = h
access-Counts state writing proceed r w h = ground arith
access-Counts state writing read r w h = h
access-Counts state writing write r w h = h
access-Counts state writing downgrade r w h = h
access-Counts state reader proceed r w h = ground arith
access-Counts state reader read r w h = h
access-Counts state reader write r w h = h
access-Counts state reader downgrade r w h = h
access-Counts state writer proceed r w h = ground arith
access-Counts state writer downgrade r w h = ground arith
access-Counts state writer read r w h = h
access-Counts state writer write r w h = h

abbrev pub IsCounted : RwLock → Type 0
IsCounted s = Counts s.state (total reads s.threads) (total writes s.threads)

step-IsCounted : (s : RwLock) (i : ℕ) (a : Action) → IsCounted s → IsCounted (step s i a)
unfolding step
step-IsCounted s i a h = elim (Bool-cases (ltb i (length s.threads))) [
  | inr out ↦ rw out h
  | inl lt ↦
      let q = (access s.state (phase s i) a).1 in
      let r = total reads s.threads - reads (phase s i) in
      let w = total writes s.threads - writes (phase s i) in
      let inside : i < length s.threads = ltb→lt _ _ lt in
      let er : r + reads (phase s i) ≡ total reads s.threads =
        omega (arith, total-le reads s.threads i outside inside) in
      let ew : w + writes (phase s i) ≡ total writes s.threads =
        omega (arith, total-le writes s.threads i outside inside) in
      let fr : r + reads q ≡ total reads (set s.threads i q) =
        omega (arith, er, total-set reads s.threads i q outside inside) in
      let fw : w + writes q ≡ total writes (set s.threads i q) =
        omega (arith, ew, total-set writes s.threads i q outside inside) in
      rw lt (rw (fr, fw) at (access-Counts s.state (phase s i) a r w (rw (er, ew) h)))
]

run_from-IsCounted : (s : RwLock) (is : List (ℕ × Action)) → IsCounted s → IsCounted (run s is)
unfolding run
run_from-IsCounted s [] h = h
run_from-IsCounted s ((i, a) ∷ is) h = run_from-IsCounted (step s i a) is (step-IsCounted s i a h)

new-IsCounted : (n : ℕ) → IsCounted (new n)
unfolding new
new-IsCounted n =
    inr (total-replicate writes n outside refl, total-replicate reads n outside refl, omega arith)

-- However the calls and accesses of `n` threads interleave, the lock's state counts the guards: it is
-- 255 with one writer and no reader, and else at most 254 and the number of readers, without a writer.
-- It never wraps.
pub run-IsCounted : (n : ℕ) (is : List (ℕ × Action)) → IsCounted (run (new n) is)
run-IsCounted n is = run_from-IsCounted (new n) is (new-IsCounted n)

inside_writer : (s : RwLock) (i : ℕ) → phase s i ≢ outside → i < length s.threads
inside_writer s i h = elim (Bool-cases (ltb i (length s.threads))) [
  | inl lt ↦ ltb→lt _ _ lt
  | inr ge ↦ absurd (h (get_or_above s.threads i outside (ltb→le _ _ ge)))
]

writes_alone :
    (s : RwLock) (i j : ℕ)
    → IsCounted s
    → phase s i ≡ writer
    → i ≢ j
    → (phase s j ≢ writer) × (phase s j ≢ reader)
writes_alone s i j e h ne =
    let lt = inside_writer s i (λ q. ground (arith, q, h)) in
    let one : writes (phase s i) ≡ 1 = rw h refl in
    (
      λ q. ground (
        arith,
        e,
        one,
        ap writes q,
        total_two writes s.threads i j outside lt (inside_writer s j (λ p. ground (arith, p, q)))
            ne,
      ),
      λ q. ground (
        arith,
        e,
        one,
        ap reads q,
        total-le writes s.threads i outside lt,
        total-le reads s.threads j outside (inside_writer s j (λ p. ground (arith, p, q))),
      ),
    )

-- However the calls and accesses of `n` threads interleave, while a thread has a writer's guard no
-- other thread has a guard of either kind.
pub run-writer :
    (n : ℕ) (is : List (ℕ × Action)) (i j : ℕ)
    → phase (run (new n) is) i ≡ writer
    → i ≢ j
    → (phase (run (new n) is) j ≢ writer) × (phase (run (new n) is) j ≢ reader)
run-writer n is i j = writes_alone (run (new n) is) i j (run-IsCounted n is)
