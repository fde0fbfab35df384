-- ===== src/Kernel/Calls.antt =====
-- Every system call and every round of the idle loop keeps the invariant of the kernel's memory.
use rasperry_pi_os.Prelude.{
  ℕ, ◌^◌, ◌≤◌, ◌≡◌, refl, ◌⊎◌, inl, inr, none, some, List, arith, ltb, ◌==◌, Bool-cases,
  Option-cases, Outcome, returns, ◌>>=◌, Outcome-cases, OnReturn, OnReturn-map,
}
use rasperry_pi_os.Execution.{
  Execution, ContextError, set_context, unblock, block, give_token, take_token, add_signal,
}
use rasperry_pi_os.Memory.Allocator.{alloc}
use rasperry_pi_os.Execution.Map.{get, fork}
use rasperry_pi_os.Kernel.{
  Kernel, Board, CallCode, print, exit, alloc_page, set_info, unblock_code, block_code, send_signal,
  fork_code, eret, ExceptionCode, Resume, store, print_bytes, handle_print, handle_set_info,
  handle_exit, handle_alloc_page, handle_unblock, handle_block, handle_send_signal, handle,
  handle_fork, jump_into_async, resumption,
}
use rasperry_pi_os.Kernel.Invariant.{Inv, store-Inv}
use rasperry_pi_os.Kernel.Pages.{exit-Exits, alloc_page-Grants}
use rasperry_pi_os.Kernel.Fork.{fork-OnReturn}

-- The kernel that is returned keeps the invariant.
abbrev pub KeepsInv : (ℕ → ℕ) → Outcome (Kernel × Resume) → Type 0
KeepsInv reserved = OnReturn (λ out. Inv reserved out.0)

module _ (reserved : ℕ → ℕ) (k : Kernel) (inv : Inv reserved k) where
  queue-Inv :
      (queue console : List ℕ) → Inv reserved (record k { run_queue = queue; console = console })
  queue-Inv queue console = record {
    pages = inv.pages;
    owned = inv.owned;
    registered = inv.registered;
  }

  print-KeepsInv : (board : Board) (p len : ℕ) → KeepsInv reserved (handle_print board k p len)
  unfolding handle_print
  print-KeepsInv board p len = elim (Outcome-cases (print_bytes board len p k.console)) [
    | inl (console, q) ↦ rw (q, handle_print) (queue-Inv k.run_queue console)
    | inr (_, q) ↦ rw (q, handle_print) tt
  ]

  -- An execution that changes in its place, and holds the pages that it held.
  changed :
      (pid : ℕ) (e e' : Execution)
      → get k.executions pid ≡ some e
      → e'.token ≤ 2
      → e'.writeable_pages ≡ e.writeable_pages
      → e'.readable_pages ≡ e.readable_pages
      → e'.pid ≡ e.pid
      → Inv reserved (store k pid e')
  changed pid e e' live small w r same =
      let valid = (inv.registered pid e live).0 in
      store-Inv reserved k pid e e' inv live
        (record { writeable = rw w valid.writeable; readable = rw r valid.readable; small = small })
        same (λ n. rw (w, r) refl)

  set_context-fields :
      (e e' : Execution) (user_context ttbr0 tcr_el1 : ℕ)
      → set_context e user_context ttbr0 tcr_el1 ≡ inl e'
      → e' ≡ record e { ttbr0 = ttbr0; user_context = user_context }
  unfolding set_context
  set_context-fields e e' user_context ttbr0 tcr_el1 h = ground arith

  pub jump_keeps :
      (k' : Kernel) (pid : ℕ) (code : ExceptionCode) (argument : ℕ)
      → Inv reserved k'
      → KeepsInv reserved
          (jump_into_async k'.executions pid code argument >>= λ resume. returns (k', resume))
  jump_keeps k' pid code argument inv' =
      elim (Outcome-cases (jump_into_async k'.executions pid code argument)) [
        | inl (_, q) ↦ rw q inv'
        | inr (_, q) ↦ rw q tt
      ]

  set_info-cases :
      (current : ℕ) (e : Execution) (arg0 arg1 arg2 arg3 : ℕ) (s : Execution ⊎ ContextError)
      → get k.executions current ≡ some e
      → set_context e arg0 arg1 arg2 ≡ s
      → KeepsInv reserved (handle_set_info k current arg0 arg1 arg2 arg3)
  unfolding handle_set_info
  set_info-cases current e arg0 arg1 arg2 arg3 (inr err) live q =
      rw (live, handle_set_info) (rw (q, ◌>>=◌) inv)
  set_info-cases current e arg0 arg1 arg2 arg3 (inl e') live q =
      let new = set_context-fields e e' arg0 arg1 arg2 q in
      let valid = (inv.registered current e live).0 in
      rw (live, handle_set_info)
        (rw (q, ◌>>=◌)
          (jump_keeps (store k current e') current resumption arg3 (
            changed current e e' live (rw new valid.small) (rw new refl) (rw new refl)
              (rw new refl))))

  unblock-KeepsInv : (arg0 : ℕ) → KeepsInv reserved (handle_unblock k arg0)
  unfolding handle_unblock unblock
  unblock-KeepsInv arg0 = elim (Bool-cases (ltb arg0 (2 ^ 16))) [
    | inr big ↦ rw (big, handle_unblock) inv
    | inl small ↦ elim (Option-cases (get k.executions arg0)) [
      | inl gone ↦ rw (small, handle_unblock) (rw gone inv)
      | inr (e, live) ↦
          rw (small, handle_unblock)
            (rw live (elim (Outcome-cases (give_token e.token)) [
              | inr (_, q) ↦ rw q tt
              | inl (t, q) ↦
                  let kept =
                    changed arg0 e (record e { token = t }) live (ground arith) refl refl refl in
                  rw q (elim (Bool-cases (e.token == 0)) [
                    | inl h ↦ rw h (elim (Bool-cases k.queue_locked) [
                      | inl locked ↦ rw locked (record {
                        pages = kept.pages;
                        owned = kept.owned;
                        registered = kept.registered;
                      })
                      | inr free ↦ rw free (record {
                        pages = kept.pages;
                        owned = kept.owned;
                        registered = kept.registered;
                      })
                    ])
                    | inr h ↦ rw h kept
                  ])
            ]))
    ]
  ]

  block-KeepsInv :
      (current : ℕ) (e : Execution)
      → get k.executions current ≡ some e
      → KeepsInv reserved (handle_block k current)
  unfolding handle_block block
  block-KeepsInv current e live =
      rw (live, handle_block)
        (elim (Outcome-cases (take_token e.token)) [
          | inr (_, q) ↦ rw q tt
          | inl (t, q) ↦
              rw q (changed current e (record e { token = t }) live (ground arith) refl refl refl)
        ])

  send_signal-KeepsInv : (current arg0 : ℕ) → KeepsInv reserved (handle_send_signal k current arg0)
  unfolding handle_send_signal add_signal
  send_signal-KeepsInv current arg0 = elim (Bool-cases (ltb arg0 (2 ^ 16))) [
    | inr big ↦ rw (big, handle_send_signal) tt
    | inl small ↦ elim (Option-cases (get k.executions arg0)) [
      | inl gone ↦ rw (small, handle_send_signal) (rw gone inv)
      | inr (e, live) ↦
          let valid = (inv.registered arg0 e live).0 in
          rw (small, handle_send_signal)
            (rw live (changed arg0 e (add_signal e current) live valid.small refl refl refl))
    ]
  ]

  handle-KeepsInv :
      (board : Board) (current : ℕ) (e : Execution) (code : CallCode) (arg0 arg1 arg2 arg3 : ℕ)
      → get k.executions current ≡ some e
      → KeepsInv reserved (handle board k current code arg0 arg1 arg2 arg3)
  unfolding handle
  handle-KeepsInv board current e print arg0 arg1 arg2 arg3 live = print-KeepsInv board arg0 arg1
  handle-KeepsInv board current e exit arg0 arg1 arg2 arg3 live =
      elim (exit-Exits reserved k current e inv live board) [
        | inl (_, _, (_, runs, _, x)) ↦ rw runs x.kept
        | inr (_, _, runs) ↦ rw runs tt
      ]
  handle-KeepsInv board current e alloc_page arg0 arg1 arg2 arg3 live =
      elim (alloc_page-Grants reserved k current e inv live) [
        | inl (runs, _) ↦ rw runs inv
        | inr (n, k', runs, g) ↦ rw runs g.kept
      ]
  handle-KeepsInv board current e set_info arg0 arg1 arg2 arg3 live =
      set_info-cases current e arg0 arg1 arg2 arg3 _ live refl
  handle-KeepsInv board current e unblock_code arg0 arg1 arg2 arg3 live = unblock-KeepsInv arg0
  handle-KeepsInv board current e block_code arg0 arg1 arg2 arg3 live =
      block-KeepsInv current e live
  handle-KeepsInv board current e send_signal arg0 arg1 arg2 arg3 live =
      send_signal-KeepsInv current arg0
  handle-KeepsInv board current e fork_code arg0 arg1 arg2 arg3 live =
      OnReturn-map (handle_fork k current) (fork-OnReturn reserved k current e inv live)
        (λ _ (_, _, f). f.kept)
  handle-KeepsInv board current e eret arg0 arg1 arg2 arg3 live = tt

  -- A call by a PID that no execution has.
  absent-KeepsInv :
      (board : Board) (current : ℕ) (code : CallCode) (arg0 arg1 arg2 arg3 : ℕ)
      → get k.executions current ≡ none
      → KeepsInv reserved (handle board k current code arg0 arg1 arg2 arg3)
  unfolding handle handle_exit handle_alloc_page handle_set_info handle_block handle_fork fork
  absent-KeepsInv board current print arg0 arg1 arg2 arg3 gone = print-KeepsInv board arg0 arg1
  absent-KeepsInv board current exit arg0 arg1 arg2 arg3 gone = rw gone tt
  absent-KeepsInv board current alloc_page arg0 arg1 arg2 arg3 gone =
      elim (Outcome-cases (alloc k.page_allocator)) [
        | inr (_, q) ↦ rw q tt
        | inl (answer, q) ↦ elim (Option-cases answer) [
          | inl full ↦ rw (q, full) inv
          | inr (page, some_page) ↦ rw (q, some_page, gone) tt
        ]
      ]
  absent-KeepsInv board current set_info arg0 arg1 arg2 arg3 gone = rw gone tt
  absent-KeepsInv board current unblock_code arg0 arg1 arg2 arg3 gone = unblock-KeepsInv arg0
  absent-KeepsInv board current block_code arg0 arg1 arg2 arg3 gone = rw gone tt
  absent-KeepsInv board current send_signal arg0 arg1 arg2 arg3 gone =
      send_signal-KeepsInv current arg0
  absent-KeepsInv board current fork_code arg0 arg1 arg2 arg3 gone = rw (gone, handle_fork, fork) tt
  absent-KeepsInv board current eret arg0 arg1 arg2 arg3 gone = tt

  pub call-KeepsInv :
      (board : Board) (current : ℕ) (code : CallCode) (arg0 arg1 arg2 arg3 : ℕ)
      → KeepsInv reserved (handle board k current code arg0 arg1 arg2 arg3)
  call-KeepsInv board current code arg0 arg1 arg2 arg3 =
      elim (Option-cases (get k.executions current)) [
        | inl gone ↦ absent-KeepsInv board current code arg0 arg1 arg2 arg3 gone
        | inr (e, live) ↦ handle-KeepsInv board current e code arg0 arg1 arg2 arg3 live
      ]
