-- ===== src/Sync/OnceLock/Laws.antt =====
-- At most one thread sets a `OnceLock` (os/src/cell/mod.rs).
use rasperry_pi_os.Prelude.{
  ℕ, ◌+◌, ◌≤◌, ◌<◌, ◌≡◌, refl, sym, ap, ◌∙◌, ◌≢◌, ◌⊎◌, inl, inr, true, false, none, some, List, [],
  ◌∷◌, arith, ltb, ◌==◌, if◌then◌else◌, ltb→lt, ltb→le, ==_iff, Bool-cases, length, get_or-set_self,
  get_or-set_ne, get_or_above, get_or-replicate, returns,
}
use rasperry_pi_os.Sync.Threads.{total, total-set, total-le, total-gap, total-replicate}
use rasperry_pi_os.Sync.OnceLock.{
  Phase, outside, claimed, writing, swapping, stored, refused, OnceLock, phase, new, move, access,
  step, run, get, wins, stores, writes, IsOnce,
}

phase-move :
    (s : OnceLock) (i j : ℕ) (p : Phase)
    → i < length s.threads
    → phase (move s i p) j ≡ (if i == j then p else phase s j)
phase-move s i j p lt =
    ground (arith, get_or-set_self s.threads i p outside lt, get_or-set_ne s.threads i j p outside)

move-IsOnce :
    (s : OnceLock) (i : ℕ) (p : Phase)
    → i < length s.threads
    → total wins s.threads + wins p ≡ (if s.is_setting then 1 else 0) + wins (phase s i)
    → total stores s.threads + stores p ≡ (if s.is_set then 1 else 0) + stores (phase s i)
    → total writes s.threads + writes p
      ≡ (elim s.contents [ none ↦ 0 | some value ↦ 1 ]) + writes (phase s i)
    → ((j : ℕ) → writes (if i == j then p else phase s j) ≡ 1 → s.contents ≡ some j)
    → IsOnce (move s i p)
move-IsOnce s i p lt one set_once written value = record {
  one = omega (arith, one, total-set wins s.threads i p outside lt);
  set_once = omega (arith, set_once, total-set stores s.threads i p outside lt);
  written = omega (arith, written, total-set writes s.threads i p outside lt);
  value = λ j h. value j (sym (ap writes (phase-move s i j p lt)) ∙ h);
}

stores-le : (p : Phase) → stores p ≤ wins p
stores-le outside = omega arith
stores-le claimed = omega arith
stores-le writing = omega arith
stores-le swapping = omega arith
stores-le stored = omega arith
stores-le refused = omega arith

writes-le : (p : Phase) → writes p ≤ wins p
writes-le outside = omega arith
writes-le claimed = omega arith
writes-le writing = omega arith
writes-le swapping = omega arith
writes-le stored = omega arith
writes-le refused = omega arith

-- While a winner has not swapped `is_set`, the flag is clear; while it has not written, the cell is
-- empty.
not_set :
    (s : OnceLock) (i : ℕ)
    → i < length s.threads
    → IsOnce s
    → wins (phase s i) ≡ 1
    → stores (phase s i) ≡ 0
    → s.is_set ≡ false
not_set s i lt o w n =
    ground (arith, o.one, o.set_once, total-gap stores wins s.threads i outside stores-le lt)

not_written :
    (s : OnceLock) (i : ℕ)
    → i < length s.threads
    → IsOnce s
    → wins (phase s i) ≡ 1
    → writes (phase s i) ≡ 0
    → (s.contents ≡ none) × (total writes s.threads ≡ 0)
not_written s i lt o w n =
    let zero_writes : total writes s.threads ≡ 0 =
      ground (arith, o.one, total-gap writes wins s.threads i outside writes-le lt) in
    (ground (arith, o.written, zero_writes), zero_writes)

access-IsOnce :
    (s : OnceLock) (i : ℕ) (q : Phase)
    → phase s i ≡ q
    → i < length s.threads
    → IsOnce s
    → (s' : OnceLock) × (access s i q ≡ returns s') × IsOnce s'
unfolding access
access-IsOnce s i outside at lt o = (
  _,
  refl,
  move-IsOnce (record s { is_setting = true }) i (if s.is_setting then refused else claimed) lt
      (ground (arith, o.one, ap wins at)) (ground (arith, o.set_once, ap stores at))
      (ground (arith, o.written, ap writes at))
      (λ j h. o.value j (ground (arith, h, ap writes at))),
)
access-IsOnce s i claimed at lt o = (
  move s i writing,
  rw (not_set s i lt o (ap wins at) (ap stores at)) refl,
  move-IsOnce s i writing lt (ground (arith, o.one, ap wins at))
      (ground (arith, o.set_once, ap stores at)) (ground (arith, o.written, ap writes at))
      (λ j h. o.value j (ground (arith, h, ap writes at))),
)
access-IsOnce s i writing at lt o =
    let (empty, none_writes) = not_written s i lt o (ap wins at) (ap writes at) in
    (
      move (record s { contents = some i }) i swapping,
      rw empty refl,
      move-IsOnce (record s { contents = some i }) i swapping lt (ground (arith, o.one, ap wins at))
          (ground (arith, o.set_once, ap stores at)) (omega (arith, none_writes, ap writes at))
          (λ j h. elim (Bool-cases (i == j)) [
            | inl same ↦ ap some ((==_iff i j).0 same)
            | inr other ↦ absurd (ground (arith, h, other, o.value j, empty))
          ]),
    )
access-IsOnce s i swapping at lt o =
    let clear = not_set s i lt o (ap wins at) (ap stores at) in
    (
      move (record s { is_set = true }) i stored,
      rw clear refl,
      move-IsOnce (record s { is_set = true }) i stored lt (ground (arith, o.one, ap wins at))
          (ground (arith, o.set_once, clear, ap stores at))
          (ground (arith, o.written, ap writes at))
          (λ j h. o.value j (ground (arith, h, ap writes at))),
    )
access-IsOnce s i stored at lt o = (s, refl, o)
access-IsOnce s i refused at lt o = (s, refl, o)

run_from-IsOnce :
    (s : OnceLock) (is : List ℕ) → IsOnce s → (s' : OnceLock) × (run s is ≡ returns s') × IsOnce s'
unfolding run step
run_from-IsOnce s [] o = (s, refl, o)
run_from-IsOnce s (i ∷ is) o = elim (Bool-cases (ltb i (length s.threads))) [
  | inr out ↦ let (s', e, o') = run_from-IsOnce s is o in (s', rw out e, o')
  | inl inside ↦
      let (s1, moved, o1) = access-IsOnce s i (phase s i) refl (ltb→lt _ _ inside) o in
      let (s', e, o') = run_from-IsOnce s1 is o1 in (s', rw (inside, moved) e, o')
]

new-IsOnce : (n : ℕ) → IsOnce (new n)
unfolding new
new-IsOnce n = record {
  one = total-replicate wins n outside refl;
  set_once = total-replicate stores n outside refl;
  written = total-replicate writes n outside refl;
  value = λ i h. absurd (ground (arith, h, get_or-replicate n i outside));
}

stores-writes : (p : Phase) → stores p ≡ 1 → writes p ≡ 1
stores-writes stored h = refl
stores-writes outside h = absurd (omega (arith, h))
stores-writes claimed h = absurd (omega (arith, h))
stores-writes writing h = absurd (omega (arith, h))
stores-writes swapping h = absurd (omega (arith, h))
stores-writes refused h = absurd (omega (arith, h))

stored-get : (s : OnceLock) (i : ℕ) → IsOnce s → (phase s i ≢ stored) ⊎ (get s ≡ some i)
unfolding get
stored-get s i o = elim (Bool-cases (stores (phase s i) == 1)) [
  | inr other ↦ inl (λ h. absurd (ground (arith, other, ap stores h)))
  | inl it ↦
      let one_store : stores (phase s i) ≡ 1 = (==_iff _ _).0 it in
      let given = o.value i (stores-writes (phase s i) one_store) in
      elim (Bool-cases (ltb i (length s.threads))) [
        | inr out ↦ absurd (
            omega (arith, one_store, ap stores (get_or_above s.threads i outside (ltb→le _ _ out))))
        | inl inside ↦ inr (
            ground (
              arith,
              o.set_once,
              one_store,
              given,
              total-le stores s.threads i outside (ltb→lt _ _ inside),
            ))
      ]
]

-- However the accesses of `n` threads in `set` interleave, no assertion of it fails, at most one
-- thread gets `Ok`, and once it did, `get` gives its value.
pub run-IsOnce :
    (n : ℕ) (is : List ℕ)
    → (s : OnceLock) × (run (new n) is ≡ returns s)
      × (total stores s.threads ≤ 1)
      × ((i : ℕ) → (phase s i ≢ stored) ⊎ (get s ≡ some i))
run-IsOnce n is =
    let (s, e, o) = run_from-IsOnce (new n) is (new-IsOnce n) in
    (s, e, ground (arith, o.set_once), λ i. stored-get s i o)
