-- ===== src/Exception/Syndrome.antt =====
-- The bit fields of the syndrome register, and what the abort handlers of
-- os/src/bin/kernel/exception/data_abort.rs and instruction_abort.rs read from them.
use rasperry_pi_os.Prelude.{
  ℕ, ◌*◌, ◌/◌, ◌%◌, ◌^◌, ◌≡◌, Option, none, some, ◌==◌, if◌then◌else◌, Outcome, returns, ◌>>=◌,
}
use rasperry_pi_os.Kernel.{CallCode}
use rasperry_pi_os.Exception.Codes.{StatusCode, status_code_from_bits, call_code_from_bits}
use rasperry_pi_os.Exception.Classes.{ExceptionClass, exception_class_from_bits}

-- The getters of the crate `bitfield_struct`: the field of a width from a bit on.
pub record Bitfield : Type 0 where
  pub field : ℕ → ℕ → ℕ → ℕ
  pub field_lem : (offset width word : ℕ) → field offset width word ≡ word / 2 ^ offset % 2 ^ width

pub data AccessType : Type 0 where
  load_access store_access instruction_access : AccessType

pub record PageFaultInfo : Type 0 where
  pub access_type : AccessType
  pub code : StatusCode
  pub level : ℕ
  pub faulting_address : Option ℕ
  pub access_bytes : ℕ

module _ (b : Bitfield) where
  -- `ExceptionSyndrome`
  abbrev pub instruction_syndrome : ℕ → ℕ
  instruction_syndrome esr = b.field 0 25 esr

  abbrev pub exception_class : ℕ → Outcome ExceptionClass
  exception_class esr = exception_class_from_bits (b.field 26 6 esr)

  -- `SvcIS::code`
  abbrev pub svc_code : ℕ → Outcome CallCode
  svc_code iss = call_code_from_bits (b.field 0 16 iss)

  -- `faulting_address` of both syndromes; `far` is `FAR_EL1`.
  abbrev pub faulting_address : ℕ → ℕ → Option ℕ
  faulting_address iss far = if b.field 10 1 iss == 0 then some far else none

  -- What `data_abort::handle` passes on. The size is a `u8`.
  unfoldable pub data_abort_info : ℕ → ℕ → Outcome PageFaultInfo
  data_abort_info iss far = do
    code ← status_code_from_bits (b.field 2 4 iss)
    returns (record {
      access_type = if b.field 6 1 iss == 1 then store_access else load_access;
      code = code;
      level = b.field 0 2 iss;
      faulting_address = faulting_address iss far;
      access_bytes = 2 ^ b.field 22 2 iss % 2 ^ 8;
    })

  -- What `instruction_abort::handle` passes on.
  unfoldable pub instruction_abort_info : ℕ → ℕ → Outcome PageFaultInfo
  instruction_abort_info iss far = do
    code ← status_code_from_bits (b.field 2 4 iss)
    returns (record {
      access_type = instruction_access;
      code = code;
      level = b.field 0 2 iss;
      faulting_address = faulting_address iss far;
      access_bytes = 4;
    })

  -- `to_physical_addr(addr)`, from the value `par` that the hardware leaves in `PAR_EL1`, and
  -- `ValidAddr::pa`.
  abbrev pub to_physical_addr : ℕ → Option ℕ
  to_physical_addr par = if par % 2 == 1 then none else some (b.field 12 40 par * 2 ^ 12)
