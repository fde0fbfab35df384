-- ===== src/Exception/Classes.antt =====
-- The enumerations that derive `AsBits` (macros/src/lib.rs), and the conversions that it makes.
use rasperry_pi_os.Prelude.{
  ℕ, ◌≡◌, refl, sym, ap, ◌∙◌, ◌≢◌, ◌⊎◌, inl, inr, List, [], ◌∷◌, arith, ◌==◌, if◌then◌else◌, ==_iff,
  Bool-cases, unexpected, Outcome, returns, panics,
}

-- The `match` of the derived `from_bits`, over the variants in their order.
unfoldable pub find_variant {ℓ} : {A : Type ℓ} → (A → ℕ) → List A → ℕ → Outcome A
find_variant into_bits [] value = panics unexpected
find_variant into_bits (v ∷ vs) value =
    let rest = find_variant into_bits vs value in if into_bits v == value then returns v else rest

pub find_variant_lem {ℓ} :
    {A : Type ℓ} (into_bits : A → ℕ) (vs : List A) (value : ℕ) (v : A)
    → find_variant into_bits vs value ≡ returns v
    → into_bits v ≡ value
unfolding find_variant
find_variant_lem into_bits [] value v h = absurd (ground (arith, h))
find_variant_lem into_bits (w ∷ vs) value v h = elim (Bool-cases (into_bits w == value)) [
  | inl same_bits ↦
      let same : w ≡ v = ground (arith, h, same_bits) in
      ap into_bits (sym same) ∙ (==_iff (into_bits w) value).0 same_bits
  | inr other ↦ find_variant_lem into_bits vs value v (ground (arith, h, other))
]

-- `ExceptionClass`
pub data ExceptionClass : Type 0 where
  unknown trapped_wfi_wfe trapped_mcr_mrc trapped_mcrr_mrrc trapped_mcr_mrc2 : ExceptionClass
  trapped_ldc_stc trapped_sme_sve_simd_fp trapped_ld_st64b trapped_mrrc2 : ExceptionClass
  branch_target_exception illegal_execution_state svc_aarch32 svc_aarch64 : ExceptionClass
  trapped_msr_mrs_system trapped_sve trapped_tstart pointer_auth_ins_fail trapped_sme :
      ExceptionClass
  granule_protetction_check instruction_abort_el0 instruction_abort_el1 : ExceptionClass
  pc_alignment_fault data_abort_el0 data_abort_el1 sp_alignment_fault : ExceptionClass
  memory_operation_exception trapped_fp_aarch32 trapped_fp_aarch64 serror breakpoint_el0 :
      ExceptionClass
  breakpoint_el1 software_step_el0 software_step_el1 watchpoint_el0 watchpoint_el1 : ExceptionClass
  bkpt_aarch32 brk_aarch64 : ExceptionClass

abbrev pub exception_class_bits : ExceptionClass → ℕ
exception_class_bits unknown = 0
exception_class_bits trapped_wfi_wfe = 1
exception_class_bits trapped_mcr_mrc = 3
exception_class_bits trapped_mcrr_mrrc = 4
exception_class_bits trapped_mcr_mrc2 = 5
exception_class_bits trapped_ldc_stc = 6
exception_class_bits trapped_sme_sve_simd_fp = 7
exception_class_bits trapped_ld_st64b = 10
exception_class_bits trapped_mrrc2 = 12
exception_class_bits branch_target_exception = 13
exception_class_bits illegal_execution_state = 14
exception_class_bits svc_aarch32 = 17
exception_class_bits svc_aarch64 = 21
exception_class_bits trapped_msr_mrs_system = 24
exception_class_bits trapped_sve = 25
exception_class_bits trapped_tstart = 27
exception_class_bits pointer_auth_ins_fail = 28
exception_class_bits trapped_sme = 29
exception_class_bits granule_protetction_check = 30
exception_class_bits instruction_abort_el0 = 32
exception_class_bits instruction_abort_el1 = 33
exception_class_bits pc_alignment_fault = 34
exception_class_bits data_abort_el0 = 36
exception_class_bits data_abort_el1 = 37
exception_class_bits sp_alignment_fault = 38
exception_class_bits memory_operation_exception = 39
exception_class_bits trapped_fp_aarch32 = 40
exception_class_bits trapped_fp_aarch64 = 44
exception_class_bits serror = 47
exception_class_bits breakpoint_el0 = 48
exception_class_bits breakpoint_el1 = 49
exception_class_bits software_step_el0 = 50
exception_class_bits software_step_el1 = 51
exception_class_bits watchpoint_el0 = 52
exception_class_bits watchpoint_el1 = 53
exception_class_bits bkpt_aarch32 = 56
exception_class_bits brk_aarch64 = 60

abbrev pub exception_class_variants : List ExceptionClass
exception_class_variants =
    unknown ∷ trapped_wfi_wfe ∷ trapped_mcr_mrc ∷ trapped_mcrr_mrrc ∷ trapped_mcr_mrc2
    ∷ trapped_ldc_stc ∷ trapped_sme_sve_simd_fp ∷ trapped_ld_st64b ∷ trapped_mrrc2
    ∷ branch_target_exception ∷ illegal_execution_state ∷ svc_aarch32 ∷ svc_aarch64
    ∷ trapped_msr_mrs_system ∷ trapped_sve ∷ trapped_tstart ∷ pointer_auth_ins_fail ∷ trapped_sme
    ∷ granule_protetction_check ∷ instruction_abort_el0 ∷ instruction_abort_el1 ∷ pc_alignment_fault
    ∷ data_abort_el0 ∷ data_abort_el1 ∷ sp_alignment_fault ∷ memory_operation_exception
    ∷ trapped_fp_aarch32 ∷ trapped_fp_aarch64 ∷ serror ∷ breakpoint_el0 ∷ breakpoint_el1
    ∷ software_step_el0 ∷ software_step_el1 ∷ watchpoint_el0 ∷ watchpoint_el1 ∷ bkpt_aarch32
    ∷ brk_aarch64 ∷ []

unfoldable pub exception_class_from_bits : ℕ → Outcome ExceptionClass
unfolding find_variant
exception_class_from_bits value = find_variant exception_class_bits exception_class_variants value

exception_class_roundtrip :
    (c : ExceptionClass) → exception_class_from_bits (exception_class_bits c) ≡ returns c
unfolding exception_class_from_bits find_variant
exception_class_roundtrip unknown = refl
exception_class_roundtrip trapped_wfi_wfe = refl
exception_class_roundtrip trapped_mcr_mrc = refl
exception_class_roundtrip trapped_mcrr_mrrc = refl
exception_class_roundtrip trapped_mcr_mrc2 = refl
exception_class_roundtrip trapped_ldc_stc = refl
exception_class_roundtrip trapped_sme_sve_simd_fp = refl
exception_class_roundtrip trapped_ld_st64b = refl
exception_class_roundtrip trapped_mrrc2 = refl
exception_class_roundtrip branch_target_exception = refl
exception_class_roundtrip illegal_execution_state = refl
exception_class_roundtrip svc_aarch32 = refl
exception_class_roundtrip svc_aarch64 = refl
exception_class_roundtrip trapped_msr_mrs_system = refl
exception_class_roundtrip trapped_sve = refl
exception_class_roundtrip trapped_tstart = refl
exception_class_roundtrip pointer_auth_ins_fail = refl
exception_class_roundtrip trapped_sme = refl
exception_class_roundtrip granule_protetction_check = refl
exception_class_roundtrip instruction_abort_el0 = refl
exception_class_roundtrip instruction_abort_el1 = refl
exception_class_roundtrip pc_alignment_fault = refl
exception_class_roundtrip data_abort_el0 = refl
exception_class_roundtrip data_abort_el1 = refl
exception_class_roundtrip sp_alignment_fault = refl
exception_class_roundtrip memory_operation_exception = refl
exception_class_roundtrip trapped_fp_aarch32 = refl
exception_class_roundtrip trapped_fp_aarch64 = refl
exception_class_roundtrip serror = refl
exception_class_roundtrip breakpoint_el0 = refl
exception_class_roundtrip breakpoint_el1 = refl
exception_class_roundtrip software_step_el0 = refl
exception_class_roundtrip software_step_el1 = refl
exception_class_roundtrip watchpoint_el0 = refl
exception_class_roundtrip watchpoint_el1 = refl
exception_class_roundtrip bkpt_aarch32 = refl
exception_class_roundtrip brk_aarch64 = refl

-- `from_bits` and `into_bits` of `ExceptionClass` are inverse: each variant comes back from its bits, and a
-- variant that `from_bits` returns has the bits that it was given.
pub exception_class_from_bits_lem :
    (c : ExceptionClass) (value : ℕ)
    → (exception_class_from_bits (exception_class_bits c) ≡ returns c)
      × ((exception_class_from_bits value ≢ returns c) ⊎ (exception_class_bits c ≡ value))
unfolding exception_class_from_bits
exception_class_from_bits_lem c value = (
  exception_class_roundtrip c,
  elim (Bool-cases (exception_class_bits c == value)) [
    | inl same_bits ↦ inr ((==_iff (exception_class_bits c) value).0 same_bits)
    | inr other ↦ inl (λ h.
        ground
          (arith, other, find_variant_lem exception_class_bits exception_class_variants value c h))
  ],
)
