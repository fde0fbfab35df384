-- ===== src/Tests/Faults.antt =====
-- A page fault of the init program, and its return.
use rasperry_pi_os.Prelude.{
  ℕ, Outcome, inr, ◌+◌, ◌/◌, ◌%◌, ◌^◌, ◌≡◌, refl, ◌⊎◌, inl, true, false, ◌&&◌, some, [], ◌∷◌, arith,
  ◌==◌, if◌then◌else◌, returns,
}
use rasperry_pi_os.Execution.Map.{ExecutionMap}
use rasperry_pi_os.Exception.Codes.{translation_fault, status_code_bits}
use rasperry_pi_os.Exception.Syndrome.{Bitfield, PageFaultInfo, load_access}
use rasperry_pi_os.Exception.PageFault.{
  Cpu, pop, prepare_synchronous_jump, is_store, resolve_page_fault, handle_eret,
}
use rasperry_pi_os.Exception.Laws.{
  handle_eret-prepare_synchronous_jump, may_access, resolve_page_fault_lem,
}
use rasperry_pi_os.Tests.Executions.{shell, shell-IsValid}

abbrev pub bitfield : Bitfield
bitfield = record {
  field = λ offset width word. word / 2 ^ offset % 2 ^ width;
  field_lem = λ o w x. refl;
}

abbrev executions : ExecutionMap
executions = some shell ∷ []

-- The context at 16: the handler is at 12288, the exception stack at 4096.
abbrev cpu : Cpu
cpu = record {
  elr = 8192;
  far = 70000;
  memory = λ a. if a == 16 then 12288 else if a == 24 then 4096 else 0;
}

-- Every address is translated to page 1.
abbrev par : ℕ → ℕ
par addr = 65536

abbrev info : PageFaultInfo
info = record {
  access_type = load_access;
  code = translation_fault;
  level = 3;
  faulting_address = some 70000;
  access_bytes = 8;
}

prepare_synchronous_jump_example :
    (cpu' : Cpu) × (prepare_synchronous_jump shell cpu 7 9 ≡ returns cpu')
    × (cpu'.elr ≡ cpu.memory 16)
    × ((pop cpu'.memory 16).0 ≡ 7)
    × ((pop (pop cpu'.memory 16).1 16).0 ≡ 9)
    × ((back : Cpu) × (handle_eret executions 0
            (record cpu' { memory = (pop (pop cpu'.memory 16).1 16).1 })
          ≡ returns back)
        × (back.elr ≡ cpu.elr)
        × (back.memory (16 + 8) ≡ cpu.memory (16 + 8)))
prepare_synchronous_jump_example =
    handle_eret-prepare_synchronous_jump executions 0 shell cpu 7 9 refl refl (omega arith)
      (inl (omega arith))

abbrev prints : ℕ → Outcome (Unit {0})
prints i = returns tt

resolve_page_fault_example :
    let runs_on =
      (status_code_bits info.code == 1)
      && may_access bitfield par executions 0 shell refl shell-IsValid
          (is_store info.access_type)
          70000 in
    let result = resolve_page_fault bitfield par prints executions 0 cpu info 7 9 in
    ((runs_on ≡ true) × (result ≡ returns (cpu, 7, 9)))
    ⊎ ((runs_on ≡ false)
        × ((cpu' : Cpu) × (prepare_synchronous_jump shell cpu 7 9 ≡ returns cpu')
            × (result ≡ returns (cpu', 2, cpu.far))))
resolve_page_fault_example =
    resolve_page_fault_lem bitfield par executions 0 shell refl shell-IsValid prints cpu info 7 9
      refl refl refl (inr (70000, refl, (λ h. absurd (omega (arith, h)))))
