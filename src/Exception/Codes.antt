-- ===== src/Exception/Codes.antt =====
-- The status codes of aborts and the codes of system calls.
use rasperry_pi_os.Prelude.{
  ℕ, ◌≡◌, refl, ◌≢◌, ◌⊎◌, inl, inr, List, [], ◌∷◌, arith, ◌==◌, ==_iff, Bool-cases, Outcome,
  returns,
}
use rasperry_pi_os.Kernel.{
  CallCode, print, exit, alloc_page, set_info, unblock_code, block_code, send_signal, fork_code,
  eret,
}
use rasperry_pi_os.Exception.Classes.{find_variant, find_variant_lem}

-- `StatusCode`
pub data StatusCode : Type 0 where
  address_size_fault translation_fault access_flag_fault permission_fault : StatusCode
  synchronous_external_abort alignment_fault : StatusCode

abbrev pub status_code_bits : StatusCode → ℕ
status_code_bits address_size_fault = 0
status_code_bits translation_fault = 1
status_code_bits access_flag_fault = 2
status_code_bits permission_fault = 3
status_code_bits synchronous_external_abort = 5
status_code_bits alignment_fault = 8

abbrev pub status_code_variants : List StatusCode
status_code_variants =
    address_size_fault ∷ translation_fault ∷ access_flag_fault ∷ permission_fault
    ∷ synchronous_external_abort ∷ alignment_fault ∷ []

unfoldable pub status_code_from_bits : ℕ → Outcome StatusCode
unfolding find_variant
status_code_from_bits value = find_variant status_code_bits status_code_variants value

status_code_roundtrip : (c : StatusCode) → status_code_from_bits (status_code_bits c) ≡ returns c
unfolding status_code_from_bits find_variant
status_code_roundtrip address_size_fault = refl
status_code_roundtrip translation_fault = refl
status_code_roundtrip access_flag_fault = refl
status_code_roundtrip permission_fault = refl
status_code_roundtrip synchronous_external_abort = refl
status_code_roundtrip alignment_fault = refl

-- `from_bits` and `into_bits` of `StatusCode` are inverse: each variant comes back from its bits, and a
-- variant that `from_bits` returns has the bits that it was given.
pub status_code_from_bits_lem :
    (c : StatusCode) (value : ℕ)
    → (status_code_from_bits (status_code_bits c) ≡ returns c)
      × ((status_code_from_bits value ≢ returns c) ⊎ (status_code_bits c ≡ value))
unfolding status_code_from_bits
status_code_from_bits_lem c value = (
  status_code_roundtrip c,
  elim (Bool-cases (status_code_bits c == value)) [
    | inl same_bits ↦ inr ((==_iff (status_code_bits c) value).0 same_bits)
    | inr other ↦ inl (λ h.
        ground (arith, other, find_variant_lem status_code_bits status_code_variants value c h))
  ],
)

-- `CallCode`
abbrev pub call_code_bits : CallCode → ℕ
call_code_bits print = 4096
call_code_bits exit = 8192
call_code_bits alloc_page = 12288
call_code_bits set_info = 16384
call_code_bits unblock_code = 20480
call_code_bits block_code = 24576
call_code_bits send_signal = 28672
call_code_bits fork_code = 32768
call_code_bits eret = 0

abbrev pub call_code_variants : List CallCode
call_code_variants =
    print ∷ exit ∷ alloc_page ∷ set_info ∷ unblock_code ∷ block_code ∷ send_signal ∷ fork_code
    ∷ eret ∷ []

unfoldable pub call_code_from_bits : ℕ → Outcome CallCode
unfolding find_variant
call_code_from_bits value = find_variant call_code_bits call_code_variants value

call_code_roundtrip : (c : CallCode) → call_code_from_bits (call_code_bits c) ≡ returns c
unfolding call_code_from_bits find_variant
call_code_roundtrip print = refl
call_code_roundtrip exit = refl
call_code_roundtrip alloc_page = refl
call_code_roundtrip set_info = refl
call_code_roundtrip unblock_code = refl
call_code_roundtrip block_code = refl
call_code_roundtrip send_signal = refl
call_code_roundtrip fork_code = refl
call_code_roundtrip eret = refl

-- `from_bits` and `into_bits` of `CallCode` are inverse: each variant comes back from its bits, and a
-- variant that `from_bits` returns has the bits that it was given.
pub call_code_from_bits_lem :
    (c : CallCode) (value : ℕ)
    → (call_code_from_bits (call_code_bits c) ≡ returns c)
      × ((call_code_from_bits value ≢ returns c) ⊎ (call_code_bits c ≡ value))
unfolding call_code_from_bits
call_code_from_bits_lem c value = (
  call_code_roundtrip c,
  elim (Bool-cases (call_code_bits c == value)) [
    | inl same_bits ↦ inr ((==_iff (call_code_bits c) value).0 same_bits)
    | inr other ↦
        inl
          (λ h. ground (arith, other, find_variant_lem call_code_bits call_code_variants value c h))
  ],
)
