-- ===== src/Exception/Laws.antt =====
-- What a page fault does to the program that raised it.
use rasperry_pi_os.Prelude.{
  ℕ, ◌+◌, ◌-◌, ◌*◌, ◌/◌, ◌%◌, ◌^◌, ◌≤◌, ◌<◌, ◌≡◌, refl, sym, ap, ◌∙◌, ◌≢◌, ◌⊎◌, inl, inr, Bool,
  true, false, ◌&&◌, none, some, arith, ltb, ◌==◌, if◌then◌else◌, Bool-cases, Outcome, returns,
}
use rasperry_pi_os.Memory.Region.{page_size}
use rasperry_pi_os.Execution.{Execution}
use rasperry_pi_os.Execution.Pages.{count}
use rasperry_pi_os.Execution.Laws.{IsValid, holds, contains_pa-holds}
use rasperry_pi_os.Execution.Map.{ExecutionMap, get}
use rasperry_pi_os.Kernel.{user_context}
use rasperry_pi_os.Exception.Codes.{status_code_bits}
use rasperry_pi_os.Exception.Syndrome.{Bitfield, PageFaultInfo, to_physical_addr}
use rasperry_pi_os.Exception.PageFault.{
  Cpu, push, pop, prepare_synchronous_jump, validate_user_pointer, is_store, call_signal,
  resolve_page_fault, handle_eret,
}

push_lem :
    (m : ℕ → ℕ) (c v : ℕ)
    → m (c + 8) + 8 < 2 ^ 64
    → m (c + 8) ≢ c + 8
    → (push m c v (c + 8) ≡ m (c + 8) + 8)
      × (push m c v (m (c + 8)) ≡ v)
      × ((a : ℕ) → a ≢ m (c + 8) → a ≢ c + 8 → push m c v a ≡ m a)
unfolding push
push_lem m c v h ne = (ground arith, ground arith, λ a p q. ground arith)

pop_lem :
    (m : ℕ → ℕ) (c p : ℕ)
    → m (c + 8) ≡ p + 8
    → p + 8 < 2 ^ 64
    → p ≢ c + 8
    → ((pop m c).0 ≡ m p) × ((pop m c).1 (c + 8) ≡ p) × ((a : ℕ) → a ≢ c + 8 → (pop m c).1 a ≡ m a)
unfolding pop
pop_lem m c p at h ne =
    let back : (m (c + 8) + (2 ^ 64 - 8)) % 2 ^ 64 ≡ p = omega (arith, at) in
    (rw back (ground arith), rw back (ground arith), λ a q. ground arith)

-- Three words on the stack come off in the opposite order.
three_words :
    (m : ℕ → ℕ) (c u v w : ℕ)
    → m (c + 8) + 24 < 2 ^ 64
    → (c + 8 < m (c + 8)) ⊎ (m (c + 8) + 24 ≤ c + 8)
    → let first = pop (push (push (push m c u) c v) c w) c in
      let second = pop first.1 c in
      (first.0 ≡ w)
      × (second.0 ≡ v)
      × ((pop second.1 c).0 ≡ u)
      × ((pop second.1 c).1 (c + 8) ≡ m (c + 8))
three_words m c u v w h apart =
    let sp = m (c + 8) in
    let ne : sp ≢ c + 8 = omega arith in
    let ne8 : sp + 8 ≢ c + 8 = omega arith in
    let ne16 : sp + 16 ≢ c + 8 = omega arith in
    let m1 = push m c u in
    let m2 = push m1 c v in
    let m3 = push m2 c w in
    let p1 = push_lem m c u (omega arith) ne in
    let p2 = push_lem m1 c v (omega (arith, p1.0)) (λ q. ne8 (omega (arith, p1.0, q))) in
    let s2 : m2 (c + 8) ≡ sp + 16 = omega (arith, p1.0, p2.0) in
    let p3 = push_lem m2 c w (omega (arith, s2)) (λ q. ne16 (omega (arith, s2, q))) in
    let s3 : m3 (c + 8) ≡ sp + 16 + 8 = omega (arith, p3.0, s2) in
    let q1 = pop_lem m3 c (sp + 16) s3 (omega arith) ne16 in
    let q2 = pop_lem (pop m3 c).1 c (sp + 8) (omega (arith, q1.1)) (omega arith) ne8 in
    let q3 = pop_lem (pop (pop m3 c).1 c).1 c sp (omega (arith, q2.1)) (omega arith) ne in
    let below8 : m3 (sp + 8) ≡ m2 (sp + 8) =
      p3.2 (sp + 8) (λ q. absurd (omega (arith, s2, q))) ne8 in
    let below : m3 sp ≡ m1 sp =
      p3.2 sp (λ q. absurd (omega (arith, s2, q))) ne
      ∙ p2.2 sp (λ q. absurd (omega (arith, p1.0, q))) ne in
    (
      q1.0 ∙ ap m3 (sym s2) ∙ p3.1,
      q2.0 ∙ q1.2 (sp + 8) ne8 ∙ below8 ∙ ap m2 (sym p1.0) ∙ p2.1,
      q3.0 ∙ q2.2 sp ne ∙ q1.2 sp ne ∙ below ∙ p1.1,
      q3.1,
    )

-- The core after the jump.
abbrev jumped_to : Execution → Cpu → ℕ → ℕ → Cpu
jumped_to e cpu x0 x1 = record cpu {
  elr = cpu.memory e.user_context;
  memory = push (push (push cpu.memory e.user_context cpu.elr) e.user_context x1) e.user_context x0;
}

-- The core after `eret`.
abbrev returned_to : Execution → Cpu → Cpu
returned_to e cpu = record cpu {
  elr = (pop cpu.memory e.user_context).0;
  memory = (pop cpu.memory e.user_context).1;
}

-- A program whose exception stack has room for three words, apart from the word that holds its
-- pointer, and whose context is valid: after the jump that a fault makes, the core is at the
-- exception vector; two pops of the handler give x0 and x1 in this order, and the `eret` after them
-- returns to the faulting instruction, with the stack pointer where it was.
pub handle_eret-prepare_synchronous_jump :
    (executions : ExecutionMap) (current : ℕ) (e : Execution) (cpu : Cpu) (x0 x1 : ℕ)
    → get executions current ≡ some e
    → user_context e ≡ returns e.user_context
    → cpu.memory (e.user_context + 8) + 24 < 2 ^ 64
    → (e.user_context + 8 < cpu.memory (e.user_context + 8))
      ⊎ (cpu.memory (e.user_context + 8) + 24 ≤ e.user_context + 8)
    → (cpu' : Cpu) × (prepare_synchronous_jump e cpu x0 x1 ≡ returns cpu')
      × (cpu'.elr ≡ cpu.memory e.user_context)
      × ((pop cpu'.memory e.user_context).0 ≡ x0)
      × ((pop (pop cpu'.memory e.user_context).1 e.user_context).0 ≡ x1)
      × ((back : Cpu) × (handle_eret executions current
              (record cpu' { memory = (pop (pop cpu'.memory e.user_context).1 e.user_context).1 })
            ≡ returns back)
          × (back.elr ≡ cpu.elr)
          × (back.memory (e.user_context + 8) ≡ cpu.memory (e.user_context + 8)))
unfolding prepare_synchronous_jump handle_eret
handle_eret-prepare_synchronous_jump executions current e cpu x0 x1 live valid room apart =
    let (first, second, third, back) =
      three_words cpu.memory e.user_context cpu.elr x1 x0 room apart in
    (
      jumped_to e cpu x0 x1,
      rw valid refl,
      refl,
      first,
      second,
      (
        returned_to e (record (jumped_to e cpu x0 x1) {
          memory = (pop (pop (jumped_to e cpu x0 x1).memory e.user_context).1 e.user_context).1;
        }),
        rw (live, valid) refl,
        third,
        back,
      ),
    )

module _ (b : Bitfield) (par : ℕ → ℕ) (executions : ExecutionMap) (current : ℕ) (e : Execution)
    (live : get executions current ≡ some e) (v : IsValid e) where
  -- Whether the program may access the page that the address is translated to.
  abbrev pub may_access : Bool → ℕ → Bool
  may_access writeable addr = elim (to_physical_addr b (par addr)) [
    | none ↦ false
    | some pa ↦
        ltb 0
          (if writeable then count e.writeable_pages (pa / page_size) else holds e (pa / page_size))
  ]

  validate_user_pointer_lem :
      (writeable : Bool) (addr : ℕ)
      → addr ≢ 0
      → validate_user_pointer b par e writeable addr ≡ returns (may_access writeable addr)
  unfolding validate_user_pointer
  validate_user_pointer_lem writeable addr ne =
      ground (arith, contains_pa-holds e (b.field 12 40 (par addr) * 2 ^ 12) v)

  -- The address that a fault gives, and whether it is needed, and is known and not null.
  abbrev pub address_of : PageFaultInfo → ℕ
  address_of info = elim info.faulting_address [ none ↦ 0 | some addr ↦ addr ]

  abbrev pub Addressed : PageFaultInfo → Type 0
  Addressed info =
      ((status_code_bits info.code == 1) ≡ false)
      ⊎ ((addr : ℕ) × (info.faulting_address ≡ some addr) × (addr ≢ 0))

  -- A fault of a live program with a valid context does not panic if the prints do not, and if it is no
  -- translation fault or its address is known and not null. It changes nothing, so that the program runs
  -- on, exactly if it is a translation fault and the address is translated to a page that the program
  -- holds, for writing if it stores. Any other fault jumps to the program's handler with code 2 and the
  -- address in `FAR_EL1`.
  pub resolve_page_fault_lem :
      (prints : ℕ → Outcome (Unit {0})) (cpu : Cpu) (info : PageFaultInfo) (x0 x1 : ℕ)
      → prints 0 ≡ returns tt
      → prints 1 ≡ returns tt
      → user_context e ≡ returns e.user_context
      → Addressed info
      → let runs_on =
          (status_code_bits info.code == 1)
          && may_access (is_store info.access_type) (address_of info) in
        let result = resolve_page_fault b par prints executions current cpu info x0 x1 in
        ((runs_on ≡ true) × (result ≡ returns (cpu, x0, x1)))
        ⊎ ((runs_on ≡ false)
            × ((cpu' : Cpu) × (prepare_synchronous_jump e cpu x0 x1 ≡ returns cpu')
                × (result ≡ returns (cpu', 2, cpu.far))))
  unfolding resolve_page_fault call_signal prepare_synchronous_jump
  resolve_page_fault_lem prints cpu info x0 x1 first second valid (inl other) = inr (
    rw other refl,
    (jumped_to e cpu x0 x1, rw valid refl, rw (first, live, other) (rw (second, valid) refl)),
  )
  resolve_page_fault_lem prints cpu info x0 x1 first second valid (inr (addr, at, ne)) =
      let checked = validate_user_pointer_lem (is_store info.access_type) addr ne in
      elim (Bool-cases (status_code_bits info.code == 1)) [
        | inr other ↦ inr (
          rw other refl,
          (jumped_to e cpu x0 x1, rw valid refl, rw (first, live, other) (rw (second, valid) refl)),
        )
        | inl translation ↦ elim (Bool-cases (may_access (is_store info.access_type) addr)) [
          | inl held ↦ inl (
            rw (translation, at, held) refl,
            rw (first, live, translation, at, checked, held) refl,
          )
          | inr not_held ↦ inr (
            rw (translation, at, not_held) refl,
            (
              jumped_to e cpu x0 x1,
              rw valid refl,
              rw (first, live, translation, at, checked, not_held) (rw (second, valid) refl),
            ),
          )
        ]
      ]
