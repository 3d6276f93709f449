-- ===== src/Messages/Layout.antt =====
-- The sizes of payloads.hpp, and of the payload classes of the registry.
use my_server.Common.{ℕ, zero, suc, ◌+◌, ◌-◌, ◌*◌, ◌/◌, List, [], ◌∷◌, if◌then◌else◌, ltb}
use my_server.Messages.{
  MsgTag, generic, request, FieldType, severity_type, u64_type, u32_type, u16_type, text_type,
  Field, Header, header_fields, request_fields,
}

-- `sizeof` and `alignof` of the fields' types on a 64-bit machine. In a struct each field is placed at
-- the next multiple of its alignment, and the whole is rounded up to the largest.
abbrev pub size_of : FieldType → ℕ
size_of severity_type = 1
size_of u64_type = 8
size_of u32_type = 4
size_of u16_type = 2
size_of text_type = 16

abbrev pub align_of : FieldType → ℕ
align_of text_type = 8
align_of type = size_of type

abbrev pub round_up : ℕ → ℕ → ℕ
round_up n zero = n
round_up n (suc k) = (n + k) / suc k * suc k

-- `sizeof(_FieldsSizeProbe)` and `_pad_bytes`.
unfoldable pub fields_end : {P : Type 0} → ℕ → List (Field P) → ℕ
fields_end n [] = n
fields_end n (f ∷ fs) = fields_end (round_up n (align_of f.type) + size_of f.type) fs

unfoldable pub fields_size : ℕ
unfolding fields_end header_fields
fields_size = round_up (fields_end 0 (header_fields {P = Header} (λ p. p) (λ p q. p))) 8

unfoldable pub pad_bytes : MsgTag → ℕ
unfolding fields_size
pad_bytes generic = if ltb fields_size 64 then 64 - fields_size else 0
pad_bytes request = 0

-- `sizeof` of the payloads of the registry, which are aligned to 64 bytes: the base, and the fields of
-- the class behind it.
unfoldable pub payload_size : MsgTag → ℕ
unfolding fields_end header_fields request_fields pad_bytes
payload_size generic =
    round_up
      (round_up (fields_end 0 (header_fields {P = Header} (λ p. p) (λ p q. p)) + pad_bytes generic)
        8)
      64
payload_size request =
    round_up
      (fields_end
        (round_up
          (fields_end 0 (header_fields {P = Header} (λ p. p) (λ p q. p)) + pad_bytes request) 8)
        request_fields)
      64
